-- ===== src/Tools/Inspection/Variables.antt =====
-- crates/mcp-tools/src/handlers/inspection.rs: `variables` and `evaluate`. Both resolve a frame
-- first, with a stack trace where the frame is not known. What the backend answers is given by
-- functions; the session is that of the moment when the stack trace has come.
use debug_mcp.Prelude.{
  ℤ, pos, String, Bool, true, false, not, ◌||◌, Option, none, some, List, [], ◌∷◌, map, length,
  find, is_positive, if◌then◌else◌, Result, ok, err, ◌>>=◌, ◌>>◌, map_err, ◌==◌, string_eq, int_eq,
}
use debug_mcp.Prelude.Text.{◌<>◌, show_ℤ}
use debug_mcp.Core.Types.{Frame, Scope, Variable, EvalMode, EvalResult}
use debug_mcp.Core.Error.{BackendError}
use debug_mcp.Session.State.{stopped}
use debug_mcp.Session.Manager.{check_state}
use debug_mcp.Tools.Json.{Serde, F64, Value, as_i64, ge_zero, from_i64, from_usize, items}
use debug_mcp.Tools.Args.{Args, get_f64, get_string, require_string}
use debug_mcp.Tools.Errors.{render, scopes_error, variables_error, evaluate_error}
use debug_mcp.Tools.Response.{ToolOutcome, error, set, set_if, build, into_outcome}
use debug_mcp.Tools.Server.{Handle, ToolServer, Begun, done, waits, with_session, backend_or}
use debug_mcp.Tools.Flatten.{FlatVariable, flatten_variables}
use debug_mcp.Tools.Frames.{Lookup, lookup_frame, finish_lookup}

-- `scope_matches`, on the name in lower case.
unfoldable pub scope_matches : String → String → Bool
scope_matches requested lower =
    if requested == "local"
    then (lower == "locals") || (lower == "local")
    else (if requested == "global"
        then (lower == "globals") || (lower == "global")
        else (if requested == "register"
            then (lower == "registers") || (lower == "register")
            else false))

abbrev no_frame : String → String
no_frame e = "failed to resolve frame: " <> e

pub record PendingVariables : Type 0 where
  pub handle : Handle
  pub frame_index : ℤ
  pub lookup : Lookup
  pub scope : String
  pub depth : ℤ
  pub filter : String

pub record PendingEval : Type 0 where
  pub handle : Handle
  pub frame_index : ℤ
  pub lookup : Lookup
  pub expression : String

abbrev index_or_top : Option F64 → ℤ
index_or_top none = pos 0
index_or_top (some f) = as_i64 f

unfoldable pub scope_of : Args → String
unfolding get_string
scope_of args = let s = get_string "scope" "" args in if s == "" then "local" else s

abbrev default_depth : String → ℤ
default_depth scope = if scope == "global" then pos 1 else pos 2

-- An explicit depth counts from 0.
abbrev depth_or : ℤ → Option F64 → ℤ
depth_or default none = default
depth_or default (some d) = if ge_zero d then as_i64 d else default

module _ (serde : Serde) where
  unfoldable pub variables_checks : Args → ToolServer → Result String PendingVariables
  unfolding check_state get_f64 as_i64 ge_zero scope_of get_string lookup_frame
  variables_checks args sv = do
    check_state (stopped ∷ []) sv.session
    handle ← backend_or (no_frame "connection closed") sv
    let frame_index = index_or_top (get_f64 serde "frame_index" args)
    ok (record {
      handle = handle;
      frame_index = frame_index;
      lookup = lookup_frame frame_index sv.session;
      scope = scope_of args;
      depth = depth_or (default_depth (scope_of args)) (get_f64 serde "depth" args);
      filter = get_string "filter" "" args;
    })

  unfoldable pub handle_variables : Args → ToolServer → Begun PendingVariables × ToolServer
  unfolding variables_checks
  handle_variables args sv = elim (variables_checks args sv) [
    | err e ↦ (done (error e), sv)
    | ok p ↦ (waits p, sv)
  ]

  unfoldable pub evaluate_checks : Args → ToolServer → Result String PendingEval
  unfolding check_state require_string get_f64 as_i64 lookup_frame
  evaluate_checks args sv = do
    check_state (stopped ∷ []) sv.session
    expression ← require_string "expression" args
    handle ← backend_or (no_frame "connection closed") sv
    let frame_index = index_or_top (get_f64 serde "frame_index" args)
    ok (record {
      handle = handle;
      frame_index = frame_index;
      lookup = lookup_frame frame_index sv.session;
      expression = expression;
    })

  unfoldable pub handle_evaluate : Args → ToolServer → Begun PendingEval × ToolServer
  unfolding evaluate_checks
  handle_evaluate args sv = elim (evaluate_checks args sv) [
    | err e ↦ (done (error e), sv)
    | ok p ↦ (waits p, sv)
  ]

-- `serde_json::to_value` of a flat variable.
unfoldable pub flat_entry : FlatVariable → Value
unfolding set set_if
flat_entry v = build (
    set_if (is_more v.children_count) "children_count" (from_i64 v.children_count) (
      set_if v.has_children "has_children" (Value.bool true) (
        set_if (not (v.ty == "")) "type" (Value.string v.ty)
          (set "value" (Value.string v.value) (set "name" (Value.string v.name) [])))))
  where
    is_more : ℤ → Bool
    is_more n = not (n == pos 0)

module _ (to_lowercase : String → String) where
  unfoldable pub scope_found : String → List Scope → Option Scope
  unfolding find scope_matches
  scope_found requested = find (λ s. scope_matches requested (to_lowercase s.name))

  module _ (scopes : ℤ → Result BackendError (List Scope))
      (fetch : ℤ → Result BackendError (List Variable)) where
    -- Behind the frame: its scopes, the one that is asked for, and its variables, capped at 100.
    unfoldable pub variables_in : PendingVariables → ℤ → Result String (List FlatVariable × Bool)
    unfolding scope_found flatten_variables render show_ℤ
    variables_in p frame_id = do
      found ← map_err (render scopes_error) (scopes frame_id)
      elim (scope_found p.scope found) [
        | none ↦ err ("scope '" <> p.scope <> "' not found in frame " <> show_ℤ p.frame_index)
        | some target ↦
            map_err (λ e. "failed to fetch variables: " <> render variables_error e)
              (flatten_variables fetch 100 to_lowercase target.variables_reference p.depth p.filter)
      ]

    unfoldable pub variables_response : PendingVariables → Result String ℤ → ToolOutcome
    unfolding variables_in flat_entry set
    variables_response p resolved = elim (map_err no_frame resolved >>= variables_in p) [
      | err e ↦ error e
      | ok (vars, truncated) ↦ into_outcome (
          set "truncated" (Value.bool truncated) (
            set "scope" (Value.string p.scope) (
              set "count" (from_usize (length vars))
                (set "variables" (Value.array (items (map flat_entry vars))) []))))
    ]

    unfoldable pub variables_end :
        (ℤ → Result BackendError (List Frame × ℤ))
        → PendingVariables
        → ToolServer
        → ToolOutcome × ToolServer
    unfolding finish_lookup variables_response
    variables_end stack_trace p sv =
        let (resolved, s) = finish_lookup stack_trace p.frame_index p.lookup sv.session in
        (variables_response p resolved, with_session s sv)

module _ (evaluate : String → Option ℤ → EvalMode → Result BackendError EvalResult) where
  unfoldable pub evaluate_response : PendingEval → Result String ℤ → ToolOutcome
  unfolding render set set_if
  evaluate_response p resolved =
      elim (map_err no_frame resolved >>= λ frame_id.
      map_err (render evaluate_error) (evaluate p.expression (some frame_id) EvalMode.expression)) [
        | err e ↦ error e
        | ok r ↦
            let children = is_positive r.variables_reference in
            into_outcome (
              set_if children "variables_reference" (from_i64 r.variables_reference) (
                set_if children "has_children" (Value.bool true)
                  (set "type" (Value.string r.ty) (set "result" (Value.string r.result) []))))
      ]

  unfoldable pub evaluate_end :
      (ℤ → Result BackendError (List Frame × ℤ))
      → PendingEval
      → ToolServer
      → ToolOutcome × ToolServer
  unfolding finish_lookup evaluate_response
  evaluate_end stack_trace p sv =
      let (resolved, s) = finish_lookup stack_trace p.frame_index p.lookup sv.session in
      (evaluate_response p resolved, with_session s sv)
