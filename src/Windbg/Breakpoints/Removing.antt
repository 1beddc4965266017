-- ===== src/Windbg/Breakpoints/Removing.antt =====
-- The pass that removes what is not asked for any more: what it leaves in the engine.
use debug_mcp.Prelude.{
  ℤ, Bool, true, false, ◌&&◌, Option, none, some, List, [], ◌∷◌, Dict, if◌then◌else◌, is_positive,
  ok, ◌≡◌, refl, inl, inr, arith, ◌==◌, ==_iff, PartialEq, Option-cases, Result-cases, Bool-cases,
  int_eq,
}
use debug_mcp.Prelude.Maps
use debug_mcp.Core.Types.{BreakpointResult}
use debug_mcp.Windbg.Engine.{BpLoc, EngineOps, call, IsExact}
use debug_mcp.Windbg.Breakpoints.{is_desired, remove_engine_breakpoint, remove_pass}

-- What is at an id, where the engine's thread runs.
abbrev pub seen : {S : Type 0} → (S → ℤ → Option BpLoc) → Option S → ℤ → Option BpLoc
seen at none j = none
seen at (some s) j = at s j

module _ {S : Type 0} (ops : EngineOps S) (at : S → ℤ → Option BpLoc)
    (lawful : IsExact ops at) where
  one-removed :
      (id j : ℤ) (e : Option S)
      → (remove_engine_breakpoint ops id e).0 ≡ ok tt
      → seen at (remove_engine_breakpoint ops id e).1 j
        ≡ (if is_positive id && (id == j) then none else seen at e j)
  unfolding remove_engine_breakpoint call
  one-removed id j none h = ground arith
  one-removed id j (some s) h = elim (Option-cases (ops.remove_breakpoint id s)) [
    | inl died ↦ ground arith
    | inr ((r, s'), removed) ↦ ground (arith, lawful.remove_at id s s' r j removed)
  ]

module _ {K : Type 0} ⦃q : PartialEq K⦄ where
  -- Whether an id is one that the pass takes away: an id that is not positive is left alone.
  abbrev pub is_dropped : List K → Dict K BreakpointResult → ℤ → Bool
  is_dropped desired [] j = false
  is_dropped desired ((k, old) ∷ prior) j =
      if is_desired k desired
      then is_dropped desired prior j
      else (if is_positive old.id && (old.id == j) then true else is_dropped desired prior j)

module _ {S : Type 0} (ops : EngineOps S) (at : S → ℤ → Option BpLoc) (lawful : IsExact ops at)
    {K : Type 0} ⦃q : PartialEq K⦄ where
  pub remove_pass-seen :
      (desired : List K) (prior : Dict K BreakpointResult) (e : Option S) (j : ℤ)
      → (remove_pass ops desired prior e).0 ≡ ok tt
      → seen at (remove_pass ops desired prior e).1 j
        ≡ (if is_dropped desired prior j then none else seen at e j)
  unfolding remove_pass
  remove_pass-seen desired [] e j h = refl
  remove_pass-seen desired ((k, old) ∷ prior) e j h = elim (Bool-cases (is_desired k desired)) [
    | inl wanted ↦ ground (arith, remove_pass-seen desired prior e j (ground arith))
    | inr stale ↦
        let step = remove_engine_breakpoint ops old.id e in
        elim (Result-cases step.0) [
          | inr (failure, failed) ↦ absurd (ground arith)
          | inl (done, went) ↦ ground (
            arith,
            one-removed ops at lawful old.id j e went,
            remove_pass-seen desired prior step.1 j (ground arith),
          )
        ]
  ]

module _ {K : Type 0} ⦃q : PartialEq K⦄ where
  -- An entry of the map at an id that is no longer asked for.
  pub record Stale (desired : List K) (prior : Dict K BreakpointResult) (j : ℤ) : Type 0 where
    pub key : K
    pub old : BreakpointResult
    pub tracked : Maps.get key prior ≡ some old
    pub unwanted : is_desired key desired ≡ false
    pub id : old.id ≡ j

  later :
      (k : K) (r : BreakpointResult) (desired : List K) (prior : Dict K BreakpointResult) (j : ℤ)
      → Maps.contains_key k prior ≡ false
      → Stale desired prior j
      → Stale desired ((k, r) ∷ prior) j
  unfolding Maps.get
  later k r desired prior j absent s = record {
    key = s.key;
    old = s.old;
    tracked = ground (arith, s.tracked, ==_iff k s.key, Maps.get_absent k prior absent);
    unwanted = s.unwanted;
    id = s.id;
  }

  pub dropped-Stale :
      (desired : List K) (prior : Dict K BreakpointResult) (j : ℤ)
      → Maps.Distinct prior
      → is_dropped desired prior j ≡ true
      → Stale desired prior j
  unfolding Maps.get
  dropped-Stale desired [] j d h = absurd (ground arith)
  dropped-Stale desired ((k, old) ∷ prior) j d h = elim (Bool-cases (is_desired k desired)) [
    | inl wanted ↦
        later k old desired prior j d.0 (dropped-Stale desired prior j d.1 (ground arith))
    | inr stale ↦ elim (Bool-cases (is_positive old.id && (old.id == j))) [
      | inl here ↦ record {
        key = k;
        old = old;
        tracked = ground (arith, ==_iff k k);
        unwanted = stale;
        id = ground (arith, ==_iff old.id j);
      }
      | inr there ↦
          later k old desired prior j d.0 (dropped-Stale desired prior j d.1 (ground arith))
    ]
  ]

  pub stale_dropped :
      (desired : List K) (prior : Dict K BreakpointResult) (k : K) (r : BreakpointResult)
      → Maps.get k prior ≡ some r
      → is_desired k desired ≡ false
      → is_positive r.id ≡ true
      → is_dropped desired prior r.id ≡ true
  unfolding Maps.get
  stale_dropped desired [] k r g u h = absurd (ground arith)
  stale_dropped desired ((i, old) ∷ prior) k r g u h =
      ground (arith, ==_iff i k, ==_iff r.id r.id, stale_dropped desired prior k r, u, h)
