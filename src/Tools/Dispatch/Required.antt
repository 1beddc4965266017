-- ===== src/Tools/Dispatch/Required.antt =====
-- What a handler does without an argument that its schema requires.
use mathlib.Core.Path.{subst}
use debug_mcp.Prelude.{
  ℤ, String, Bool, true, false, Option, none, some, List, [], ◌∷◌, ◌++◌, find, any, ◌==◌, ==_iff,
  string_eq, ◌≡◌, refl, arith, if◌then◌else◌, Result, ok, err, ◌>>=◌, Bool-cases, inl, inr,
}
use debug_mcp.Prelude.Maps
use debug_mcp.Core.Types.{BackendCapabilities}
use debug_mcp.Session.State.{idle, stopped}
use debug_mcp.Session.Manager.{check_state}
use debug_mcp.Tools.Json.{Serde, Value, Items, Fields}
use debug_mcp.Tools.Args.{
  Args, get_raw, require_string, require_int, require_positive_int, require_string-missing,
  require_int-missing, missing_required, not_found,
}
use debug_mcp.Tools.Response.{error}
use debug_mcp.Tools.Server.{ToolServer, Begun, done}
use debug_mcp.Tools.Registry.{BackendRegistry}
use debug_mcp.Tools.Lifecycle.{launch_checks, handle_launch}
use debug_mcp.Tools.Breakpoints.{
  source_request, function_request, removal, handle_set_breakpoint, handle_set_function_breakpoint,
  handle_remove_breakpoint,
}
use debug_mcp.Tools.Inspection.Variables.{evaluate_checks, handle_evaluate}
use debug_mcp.Tools.Memory.{read_checks, handle_read_memory}
use debug_mcp.Tools.Commands.{command_checks, handle_run_command}
use debug_mcp.Tools.Windbg.{Verb, verb_checks, begin_verb}
use debug_mcp.Tools.Schema.{
  Tool, tool, object_schema, all_tools, base_tools, only_if, open_crash_dump_tool,
  attach_kernel_tool, analyze_crash_tool, get_modules_tool,
}
use debug_mcp.Tools.Dispatch.{
  Pending, launching, setting_source, setting_function, removing, evaluating, reading, commanding,
  opening, begun, dispatch, tools, is_named, get_tool,
}

-- The texts of an array, and what an input schema requires.
abbrev strings_in : Items → List String
strings_in Items.nil = []
strings_in (Items.cons (Value.string s) vs) = s ∷ strings_in vs
strings_in (Items.cons v vs) = strings_in vs

abbrev listed : Value → List String
listed (Value.array vs) = strings_in vs
listed v = []

abbrev required_in : Fields → List String
required_in Fields.end = []
required_in (Fields.field k v fs) = if k == "required" then listed v else required_in fs

abbrev pub required_of : Value → List String
required_of (Value.object fs) = required_in fs
required_of v = []

abbrev All : {A : Type 0} → (A → Type 0) → List A → Type 0
All P [] = Unit {0}
All P (x ∷ xs) = P x × All P xs

infixr 4 ◌&◌
abbrev ◌&◌ : {A B : Type 0} → A → B → A × B
a & b = (a, b)

All-append : {A : Type 0} (P : A → Type 0) (xs ys : List A) → All P xs → All P ys → All P (xs ++ ys)
All-append P [] ys h g = g
All-append P (x ∷ xs) ys h g = (h.0, All-append P xs ys h.1 g)

found-All :
    {A : Type 0} (P : A → Type 0) (p : A → Bool) (xs : List A) (x : A)
    → All P xs
    → find p xs ≡ some x
    → P x
unfolding find
found-All P p [] x h e = cc
found-All P p (y ∷ xs) x h e = elim (Bool-cases (p y)) [
  | inl holds ↦ subst P (ground (arith, holds, e)) h.0
  | inr fails ↦ found-All P p xs x h.1 (ground (arith, fails, e))
]

found-holds : {A : Type 0} (p : A → Bool) (xs : List A) (x : A) → find p xs ≡ some x → p x ≡ true
unfolding find
found-holds p [] x e = cc
found-holds p (y ∷ xs) x e = elim (Bool-cases (p y)) [
  | inl holds ↦ subst (λ z. p z ≡ true) (ground (arith, holds, e)) holds
  | inr fails ↦ found-holds p xs x (ground (arith, fails, e))
]

any-All :
    (P : String → Type 0) (key : String) (keys : List String)
    → All P keys
    → any (λ k. k == key) keys ≡ true
    → P key
unfolding any
any-All P key [] h e = cc
any-All P key (k ∷ keys) h e = elim (Bool-cases (k == key)) [
  | inl same ↦ subst P ((==_iff k key).0 same) h.0
  | inr other ↦ any-All P key keys h.1 (ground (arith, other, e))
]

Fails : {A : Type 0} → Result String A → Type 0
Fails r = (e : String) × (r ≡ err e)

-- A chain fails where what comes behind its first part does.
failing :
    {A B : Type 0} (m : Result String A) (k : A → Result String B)
    → ((a : A) → Fails (k a))
    → Fails (m >>= k)
unfolding Fails
failing (err e) k h = (e, refl)
failing (ok a) k h = h a

abbrev no_key : String → String
no_key key = missing_required (not_found key)

needs_string :
    {B : Type 0} (key : String) (args : Args) (k : String → Result String B)
    → get_raw key args ≡ none
    → Fails (require_string key args >>= k)
unfolding Fails
needs_string key args k h = (no_key key, rw (require_string-missing key args h) refl)

needs_int :
    {B : Type 0} (serde : Serde) (key : String) (args : Args) (k : ℤ → Result String B)
    → get_raw key args ≡ none
    → Fails (require_int serde key args >>= k)
unfolding Fails
needs_int serde key args k h = (no_key key, rw (require_int-missing serde key args h) refl)

needs_positive :
    {B : Type 0} (serde : Serde) (key : String) (args : Args) (k : ℤ → Result String B)
    → get_raw key args ≡ none
    → Fails (require_positive_int serde key args >>= k)
unfolding Fails require_positive_int
needs_positive serde key args k h = (no_key key, rw (require_int-missing serde key args h) refl)

module _ (serde : Serde) (args : Args) (sv : ToolServer) where
  launch-Fails : get_raw "program" args ≡ none → Fails (launch_checks serde args sv)
  unfolding launch_checks
  launch-Fails h =
      failing (check_state (idle ∷ []) sv.session) _ λ _. needs_string "program" args _ h

  file-Fails : get_raw "file" args ≡ none → Fails (source_request serde args sv)
  unfolding source_request
  file-Fails h =
      failing (check_state (idle ∷ stopped ∷ []) sv.session) _ λ _. needs_string "file" args _ h

  line-Fails : get_raw "line" args ≡ none → Fails (source_request serde args sv)
  unfolding source_request
  line-Fails h =
      failing (check_state (idle ∷ stopped ∷ []) sv.session) _
        λ _. failing (require_string "file" args) _ λ _. needs_positive serde "line" args _ h

  name-Fails : get_raw "name" args ≡ none → Fails (function_request args sv)
  unfolding function_request
  name-Fails h =
      failing (check_state (idle ∷ stopped ∷ []) sv.session) _ λ _. needs_string "name" args _ h

  id-Fails : get_raw "breakpoint_id" args ≡ none → Fails (removal serde args sv)
  unfolding removal
  id-Fails h =
      failing (check_state (stopped ∷ []) sv.session) _
        λ _. needs_int serde "breakpoint_id" args _ h

  expression-Fails : get_raw "expression" args ≡ none → Fails (evaluate_checks serde args sv)
  unfolding evaluate_checks
  expression-Fails h =
      failing (check_state (stopped ∷ []) sv.session) _ λ _. needs_string "expression" args _ h

  address-Fails : get_raw "address" args ≡ none → Fails (read_checks serde args sv)
  unfolding read_checks
  address-Fails h =
      failing (check_state (stopped ∷ []) sv.session) _ λ _. needs_string "address" args _ h

  count-Fails : get_raw "count" args ≡ none → Fails (read_checks serde args sv)
  unfolding read_checks
  count-Fails h =
      failing (check_state (stopped ∷ []) sv.session) _
        λ _. failing (require_string "address" args) _ λ _. needs_positive serde "count" args _ h

  command-Fails : get_raw "command" args ≡ none → Fails (command_checks args sv)
  unfolding command_checks
  command-Fails h =
      failing (check_state (stopped ∷ []) sv.session) _ λ _. needs_string "command" args _ h

  dump_path-Fails :
      get_raw "dump_path" args ≡ none → Fails (verb_checks Verb.open_crash_dump args sv)
  unfolding verb_checks Fails
  dump_path-Fails h =
      failing (check_state (idle ∷ []) sv.session) _
        λ _. (no_key "dump_path", require_string-missing "dump_path" args h)

  connection-Fails :
      get_raw "connection" args ≡ none → Fails (verb_checks Verb.attach_kernel args sv)
  unfolding verb_checks
  connection-Fails h =
      failing (check_state (idle ∷ []) sv.session) _ λ _. needs_string "connection" args _ h

module _ (serde : Serde) (registry : BackendRegistry) (env_value : Option String) (args : Args)
    (sv : ToolServer) where
  abbrev pub Refused : String → Type 0
  Refused name =
      (e : String) × (dispatch serde registry env_value name args sv ≡ (done (error e), sv))

  abbrev Requires : String → String → Type 0
  Requires name key = get_raw key args ≡ none → Refused name

  abbrev Strict : Tool → Type 0
  Strict t = All (Requires t.name) (required_of t.input_schema)

  refused :
      {A P : Type 0} (r : Result String A) (k : A → Begun P × ToolServer) (wait : P → Pending)
      → Fails r
      → (e : String) × (begun wait (elim r [ err e ↦ (done (error e), sv) | ok a ↦ k a ])
          ≡ (done (error e), sv))
  unfolding Fails
  refused (err e) k wait f = (e, refl)
  refused (ok a) k wait f = absurd (ground (arith, f.1))

  launch-Refused : Requires "launch" "program"
  unfolding dispatch Maps.get handle_launch
  launch-Refused h = refused _ _ launching (launch-Fails serde args sv h)

  set_breakpoint-Refused : Fails (source_request serde args sv) → Refused "set_breakpoint"
  unfolding dispatch Maps.get handle_set_breakpoint
  set_breakpoint-Refused = refused _ _ setting_source

  set_function_breakpoint-Refused : Requires "set_function_breakpoint" "name"
  unfolding dispatch Maps.get handle_set_function_breakpoint
  set_function_breakpoint-Refused h = refused _ _ setting_function (name-Fails serde args sv h)

  remove_breakpoint-Refused : Requires "remove_breakpoint" "breakpoint_id"
  unfolding dispatch Maps.get handle_remove_breakpoint
  remove_breakpoint-Refused h = refused _ _ removing (id-Fails serde args sv h)

  evaluate-Refused : Requires "evaluate" "expression"
  unfolding dispatch Maps.get handle_evaluate
  evaluate-Refused h = refused _ _ evaluating (expression-Fails serde args sv h)

  read_memory-Refused : Fails (read_checks serde args sv) → Refused "read_memory"
  unfolding dispatch Maps.get handle_read_memory
  read_memory-Refused = refused _ _ reading

  run_command-Refused : Requires "run_command" "command"
  unfolding dispatch Maps.get handle_run_command
  run_command-Refused h = refused _ _ commanding (command-Fails serde args sv h)

  open_crash_dump-Refused : Requires "open_crash_dump" "dump_path"
  unfolding dispatch Maps.get begin_verb
  open_crash_dump-Refused h =
      refused _ _ (opening Verb.open_crash_dump) (dump_path-Fails serde args sv h)

  attach_kernel-Refused : Requires "attach_kernel" "connection"
  unfolding dispatch Maps.get begin_verb
  attach_kernel-Refused h =
      refused _ _ (opening Verb.attach_kernel) (connection-Fails serde args sv h)

  set_breakpoint-Strict : All (Requires "set_breakpoint") ("file" ∷ "line" ∷ [])
  set_breakpoint-Strict = (
    (λ h. set_breakpoint-Refused (file-Fails serde args sv h)),
    ((λ h. set_breakpoint-Refused (line-Fails serde args sv h)), tt),
  )

  read_memory-Strict : All (Requires "read_memory") ("address" ∷ "count" ∷ [])
  read_memory-Strict = (
    (λ h. read_memory-Refused (address-Fails serde args sv h)),
    ((λ h. read_memory-Refused (count-Fails serde args sv h)), tt),
  )

  base_tools-Strict : All Strict base_tools
  unfolding tool object_schema
  base_tools-Strict =
      (launch-Refused, tt)
      & tt
      & tt
      & set_breakpoint-Strict
      & (set_function_breakpoint-Refused, tt)
      & (remove_breakpoint-Refused, tt)
      & tt
      & tt
      & tt
      & tt
      & tt
      & tt
      & tt
      & tt
      & tt
      & tt
      & (evaluate-Refused, tt)
      & tt
      & read_memory-Strict
      & tt
      & (run_command-Refused, tt)
      & tt

  only_if-Strict : (offered : Bool) (t : Tool) → Strict t → All Strict (only_if offered t)
  only_if-Strict true t h = (h, tt)
  only_if-Strict false t h = tt

  -- The four tools of the capabilities, each behind those before it.
  all_tools-Strict : (caps : BackendCapabilities) → All Strict (all_tools caps)
  unfolding all_tools tool object_schema
  all_tools-Strict caps =
      All-append Strict with_analyze (only_if caps.modules get_modules_tool)
        (All-append Strict with_kernel (only_if caps.analyze analyze_crash_tool)
          (All-append Strict with_dump (only_if caps.kernel attach_kernel_tool)
            (All-append Strict base_tools (only_if caps.crash_dump open_crash_dump_tool)
              base_tools-Strict
              (only_if-Strict caps.crash_dump open_crash_dump_tool (open_crash_dump-Refused, tt)))
            (only_if-Strict caps.kernel attach_kernel_tool (attach_kernel-Refused, tt)))
          (only_if-Strict caps.analyze analyze_crash_tool tt))
        (only_if-Strict caps.modules get_modules_tool tt)
    where
      with_dump : List Tool
      with_dump = base_tools ++ only_if caps.crash_dump open_crash_dump_tool

      with_kernel : List Tool
      with_kernel = with_dump ++ only_if caps.kernel attach_kernel_tool

      with_analyze : List Tool
      with_analyze = with_kernel ++ only_if caps.analyze analyze_crash_tool

  -- Whatever the backends can do: a call of an advertised tool without an argument that its schema
  -- requires is answered by an error and changes nothing.
  pub dispatch-required :
      (t : Tool) (name key : String)
      → get_tool registry name ≡ some t
      → any (λ k. k == key) (required_of t.input_schema) ≡ true
      → get_raw key args ≡ none
      → Refused name
  unfolding get_tool tools
  dispatch-required t name key found is_required missing =
      subst Refused
        ((==_iff t.name name).0
          (found-holds (is_named name) (all_tools registry.capabilities) t found))
        (any-All (Requires t.name) key (required_of t.input_schema)
          (found-All Strict (is_named name) (all_tools registry.capabilities) t
            (all_tools-Strict registry.capabilities) found)
          is_required missing)
