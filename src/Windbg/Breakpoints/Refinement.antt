-- ===== src/Windbg/Breakpoints/Refinement.antt =====
-- One request against the table and the engine: what holds before holds behind it, with the request
-- carried out.
use debug_mcp.Prelude.{
  ℤ, true, false, Option, none, some, List, [], Dict, any, is_positive, Result, ok, err, ◌≡◌, refl,
  ap, inl, inr, arith, PartialEq, Bool-cases, Result-cases, if◌then◌else◌,
}
use debug_mcp.Prelude.Maps
use debug_mcp.Core.Types.{BreakpointResult}
use debug_mcp.Core.Error.{BackendError}
use debug_mcp.Windbg.Engine.{BpLoc, EngineOps, IsExact}
use debug_mcp.Windbg.Breakpoints.{
  Wanted, Batch, is_desired, add_pass, remove_pass, reconcile, remove_stale,
}
use debug_mcp.Windbg.Breakpoints.Adding.{Adds, add_pass-Adds}
use debug_mcp.Windbg.Breakpoints.Removing.{
  seen, is_dropped, remove_pass-seen, dropped-Stale, stale_dropped,
}
use debug_mcp.Windbg.Breakpoints.Agreement.{DistinctKeys, keys_of, Agree, SameElsewhere, Between}
use debug_mcp.Windbg.Breakpoints.Agreement.Steps.{
  Adds-Between, Adds-elsewhere, Adds-desired, Adds-Distinct,
}

-- Every tracked breakpoint that the request drops has a positive id: others are never removed.
module _ {K : Type 0} ⦃q : PartialEq K⦄ where
  abbrev pub Removable : Dict K BreakpointResult → List K → Type 0
  Removable prior desired =
      (k : K) (r : BreakpointResult)
      → Maps.get k prior ≡ some r
      → is_desired k desired ≡ false
      → is_positive r.id ≡ true

module _ {S : Type 0} (ops : EngineOps S) (at : S → ℤ → Option BpLoc) (lawful : IsExact ops at)
    {K : Type 0} ⦃q : PartialEq K⦄ (loc_of : K → BpLoc)
    (injective : (j k : K) → loc_of j ≡ loc_of k → j ≡ k) (prior : Dict K BreakpointResult)
    (distinct : Maps.Distinct prior) where
  -- Nothing is set at first.
  start : (e : Option S) → Agree at loc_of prior e → Between at loc_of prior [] [] e
  unfolding Maps.get any
  start e h = record {
    sound_new = λ k r g. absurd (ground arith);
    sound_prior = h.sound;
    unasked = λ k u. refl;
    kept = λ k r g d. absurd (ground arith);
    complete = λ id k s. inr (h.complete id k s);
  }

  -- What is dropped is at a location of a key that the new map lacks.
  not_dropped :
      (desired : List K) (m : Dict K BreakpointResult) (e : Option S) (k : K) (r : BreakpointResult)
      → Between at loc_of prior desired m e
      → Maps.get k m ≡ some r
      → is_dropped desired prior r.id ≡ false
  not_dropped desired m e k r b g = elim (Bool-cases (is_dropped desired prior r.id)) [
    | inr kept ↦ kept
    | inl dropped ↦
        let s = dropped-Stale desired prior r.id distinct dropped in
        let same =
          injective s.key k
            (ground (arith, b.sound_prior s.key s.old s.tracked, s.id, b.sound_new k r g)) in
        absurd (ground (arith, b.unasked s.key s.unwanted, same, g))
  ]

  module _ (desired : List K) (m : Dict K BreakpointResult) (e e' : Option S)
      (removed : (j : ℤ)
        → seen at e' j ≡ (if is_dropped desired prior j then none else seen at e j)) where
    ended : Removable prior desired → Between at loc_of prior desired m e → Agree at loc_of m e'
    ended positive b = record {
      sound =
          λ k r g. ground (arith, removed r.id, not_dropped desired m e k r b g, b.sound_new k r g);
      complete = λ id k s. elim (b.complete id k (ground (arith, removed id))) [
        | inl held ↦ held
        | inr held ↦ elim (Bool-cases (is_desired k desired)) [
          | inl wanted ↦ record {
            result = held.result;
            tracked = b.kept k held.result held.tracked wanted;
            same = held.same;
          }
          | inr stale ↦ absurd (
              ground (
                arith,
                removed id,
                held.same,
                stale_dropped desired prior k held.result held.tracked stale
                    (positive k held.result held.tracked stale),
              ))
        ]
      ];
    }

    elsewhere_ended : Between at loc_of prior desired m e → SameElsewhere at loc_of e e'
    elsewhere_ended b id l other = elim (Bool-cases (is_dropped desired prior id)) [
      | inr kept ↦ ground (arith, removed id, kept)
      | inl dropped ↦
          let s = dropped-Stale desired prior id distinct dropped in
          ground
            (arith, removed id, dropped, other s.key, s.id, b.sound_prior s.key s.old s.tracked)
    ]

  -- A request that was carried out.
  pub record Carried (ws : List (Wanted K)) (e : Option S) (m : Dict K BreakpointResult)
      (e' : Option S) : Type 0 where
    pub agree : Agree at loc_of m e'
    pub elsewhere : SameElsewhere at loc_of e e'
    pub single : Maps.Distinct m
    pub kept :
        (k : K) (r : BreakpointResult)
        → Maps.get k prior ≡ some r
        → is_desired k (keys_of ws []) ≡ true
        → Maps.get k m ≡ some r
    pub only : (k : K) → is_desired k (keys_of ws []) ≡ false → Maps.get k m ≡ none

  abbrev nothing : Batch K
  nothing = record { desired = []; results = []; new_map = [] }

  carried :
      (ws : List (Wanted K)) (p : Batch K) (e e1 e' : Option S)
      → Agree at loc_of prior e
      → DistinctKeys ws []
      → Removable prior (keys_of ws [])
      → Adds ops loc_of prior ws nothing e p e1
      → ((j : ℤ) → seen at e' j ≡ (if is_dropped p.desired prior j then none else seen at e1 j))
      → Carried ws e p.new_map e'
  carried ws p e e1 e' h d positive run removed =
      let b = Adds-Between ops at lawful loc_of injective prior run d (start e h) in
      let asked = Adds-desired ops at lawful loc_of injective prior run in
      record {
        agree =
            ended p.desired p.new_map e1 e' removed
              (λ k r g u. positive k r g (ground (arith, u, ap (is_desired k) asked))) b;
        elsewhere = λ id l other. ground (
          arith,
          Adds-elsewhere ops at lawful loc_of injective prior run id l other,
          elsewhere_ended p.desired p.new_map e1 e' removed b id l other,
        );
        single = Adds-Distinct ops at lawful loc_of injective prior run tt;
        kept = λ k r g u. b.kept k r g (ground (arith, u, ap (is_desired k) asked));
        only = λ k u. b.unasked k (ground (arith, u, ap (is_desired k) asked));
      }

  finish :
      (ws : List (Wanted K)) (e : Option S) (y : Result BackendError (Batch K) × Option S)
      (results : List BreakpointResult)
      → Agree at loc_of prior e
      → DistinctKeys ws []
      → Removable prior (keys_of ws [])
      → ((p : Batch K) (e1 : Option S) → y ≡ (ok p, e1) → Adds ops loc_of prior ws nothing e p e1)
      → (remove_stale ops loc_of prior y).0 ≡ ok results
      → (m : Dict K BreakpointResult) × ((remove_stale ops loc_of prior y).1 ≡ some m)
        × Carried ws e m (remove_stale ops loc_of prior y).2
  finish ws e (err failure, e1) results h d positive run went = absurd (ground arith)
  finish ws e (ok p, e1) results h d positive run went =
      let desired = p.desired in
      elim (Result-cases (remove_pass ops desired prior e1).0) [
        | inr (failure, failed) ↦ absurd (ground arith)
        | inl (done, removed) ↦ (
          p.new_map,
          refl,
          carried ws p e e1 (remove_pass ops desired prior e1).1 h d positive (run p e1 refl)
              (λ j. remove_pass-seen ops at lawful desired prior e1 j removed),
        )
      ]

  pub reconcile-Carried :
      (ws : List (Wanted K)) (e : Option S) (results : List BreakpointResult)
      → Agree at loc_of prior e
      → DistinctKeys ws []
      → Removable prior (keys_of ws [])
      → (reconcile ops loc_of prior ws e).0 ≡ ok results
      → (m : Dict K BreakpointResult) × ((reconcile ops loc_of prior ws e).1 ≡ some m)
        × Carried ws e m (reconcile ops loc_of prior ws e).2
  unfolding reconcile
  reconcile-Carried ws e results h d positive went =
      finish ws e (add_pass ops loc_of prior ws nothing e) results h d positive
        (λ p e1 same. add_pass-Adds ops loc_of prior ws nothing p e e1 same) went
