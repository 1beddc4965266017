-- ===== src/Windbg/Breakpoints/Adding.antt =====
-- The pass that sets what is not set yet: a run that goes through, step by step.
use debug_mcp.Prelude.{
  ℤ, String, Option, none, some, List, [], ◌∷◌, Dict, Result, ok, ◌≡◌, inl, inr, arith, PartialEq,
  Option-cases, Result-cases, int_eq,
}
use debug_mcp.Prelude.Maps
use debug_mcp.Core.Types.{BreakpointResult}
use debug_mcp.Windbg.Engine.{BpLoc, EngineOps, call, map_engine_err}
use debug_mcp.Windbg.Breakpoints.{
  Wanted, refused, at_key, Batch, refuse, reuse, note_set, add_pass, bp_result_or_continue,
}

module _ {S : Type 0} (ops : EngineOps S) {K : Type 0} ⦃q : PartialEq K⦄ (loc_of : K → BpLoc)
    (prior : Dict K BreakpointResult) where
  -- From a batch and an engine, by a request, to a batch and an engine.
  pub data Adds : List (Wanted K) → Batch K → Option S → Batch K → Option S → Type 0 where
    finished : {p p' : Batch K} {e e' : Option S} → p ≡ p' → e ≡ e' → Adds [] p e p' e'
    refuses :
        {r : BreakpointResult} {ws : List (Wanted K)} {p p' : Batch K} {e e' : Option S}
        → Adds ws (refuse r p) e p' e'
        → Adds (refused r ∷ ws) p e p' e'
    reuses :
        {k : K} {c : String} {l : ℤ} {r : BreakpointResult} {ws : List (Wanted K)} {p p' : Batch K}
        {e e' : Option S}
        → Maps.get k prior ≡ some r
        → Adds ws (reuse k r p) e p' e'
        → Adds (at_key k c l ∷ ws) p e p' e'
    sets :
        {k : K} {c : String} {l : ℤ} {x : Result String BreakpointResult} {r : BreakpointResult}
        {ws : List (Wanted K)} {p p' : Batch K} {s s' : S} {e' : Option S}
        → Maps.get k prior ≡ none
        → ops.set_breakpoint (loc_of k) c s ≡ some (x, s')
        → bp_result_or_continue (map_engine_err x) l ≡ ok r
        → Adds ws (note_set k r p) (some s') p' e'
        → Adds (at_key k c l ∷ ws) p (some s) p' e'

  -- A pass that succeeds is such a run.
  pub add_pass-Adds :
      (ws : List (Wanted K)) (p p' : Batch K) (e e' : Option S)
      → add_pass ops loc_of prior ws p e ≡ (ok p', e')
      → Adds ws p e p' e'
  unfolding add_pass call
  add_pass-Adds [] p p' e e' h = finished (ground arith) (ground arith)
  add_pass-Adds (refused r ∷ ws) p p' e e' h = refuses (add_pass-Adds ws (refuse r p) p' e e' h)
  add_pass-Adds (at_key k c l ∷ ws) p p' none e' h = elim (Option-cases (Maps.get k prior)) [
    | inr (r, known) ↦ reuses known (add_pass-Adds ws (reuse k r p) p' none e' (ground arith))
    | inl unknown ↦ absurd (ground arith)
  ]
  add_pass-Adds (at_key k c l ∷ ws) p p' (some s) e' h = elim (Option-cases (Maps.get k prior)) [
    | inr (r, known) ↦ reuses known (add_pass-Adds ws (reuse k r p) p' (some s) e' (ground arith))
    | inl unknown ↦ elim (Option-cases (ops.set_breakpoint (loc_of k) c s)) [
      | inl died ↦ absurd (ground arith)
      | inr ((x, s'), set) ↦ elim (Result-cases (bp_result_or_continue (map_engine_err x) l)) [
        | inr (failure, failed) ↦ absurd (ground arith)
        | inl (r, went) ↦
            sets unknown set went (add_pass-Adds ws (note_set k r p) p' (some s') e' (ground arith))
      ]
    ]
  ]
