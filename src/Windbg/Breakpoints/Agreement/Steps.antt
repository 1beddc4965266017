-- ===== src/Windbg/Breakpoints/Agreement/Steps.antt =====
-- Each step of the first pass keeps what holds between the passes.
use mathlib.Core.Path.{subst}
use debug_mcp.Prelude.{
  ℤ, String, Bool, true, false, Option, none, some, List, ◌∷◌, Dict, any, if◌then◌else◌, Result, ok,
  err, ◌≡◌, ◌≢◌, sym, ap, inl, inr, ◌↔◌, arith, ◌==◌, ==_iff, ==_refl, PartialEq, Bool-cases,
  int_eq,
}
use debug_mcp.Prelude.Maps
use debug_mcp.Core.Types.{BreakpointResult}
use debug_mcp.Windbg.Engine.{BpLoc, EngineOps, map_engine_err, placed, IsExact}
use debug_mcp.Windbg.Breakpoints.{Wanted, Batch, reuse, note_set, is_desired, bp_result_or_continue}
use debug_mcp.Windbg.Breakpoints.Adding.{Adds, finished, refuses, reuses, sets}
use debug_mcp.Windbg.Breakpoints.Agreement.{Held, DistinctKeys, keys_of, SameElsewhere, Between}

-- The batch has a verified result exactly of a set that put a breakpoint into the engine.
result_placed :
    (x : Result String BreakpointResult) (l : ℤ) (r : BreakpointResult)
    → bp_result_or_continue (map_engine_err x) l ≡ ok r
    → placed x ≡ (if r.verified then some r.id else none)
unfolding bp_result_or_continue
result_placed (err m) l r h = ground arith
result_placed (ok b) l r h = ground arith

module _ {K : Type 0} ⦃q : PartialEq K⦄ where
  Held-insert :
      (m : Dict K BreakpointResult) (k i : K) (r : BreakpointResult) (id : ℤ)
      → Maps.get k m ≡ none
      → Held m i id
      → Held (Maps.insert k r m) i id
  Held-insert m k i r id absent h = record {
    result = h.result;
    tracked = ground (arith, h.tracked, ==_iff k i, Maps.get-insert k i r m);
    same = h.same;
  }

  placed_here :
      (m : Dict K BreakpointResult) (k i : K) (r : BreakpointResult) (id : ℤ)
      → k ≡ i
      → (r.id == id) ≡ true
      → Held (Maps.insert k r m) i id
  placed_here m k i r id e same = record {
    result = r;
    tracked = ground (arith, e, ==_iff k i, Maps.get-insert k i r m);
    same = ground (arith, ==_iff r.id id);
  }

module _ {S : Type 0} (ops : EngineOps S) (at : S → ℤ → Option BpLoc) (lawful : IsExact ops at)
    {K : Type 0} ⦃q : PartialEq K⦄ (loc_of : K → BpLoc)
    (injective : (j k : K) → loc_of j ≡ loc_of k → j ≡ k) (prior : Dict K BreakpointResult) where
  reused :
      (desired : List K) (m : Dict K BreakpointResult) (e : Option S) (k : K) (r : BreakpointResult)
      → Maps.get k prior ≡ some r
      → is_desired k desired ≡ false
      → Between at loc_of prior desired m e
      → Between at loc_of prior (k ∷ desired) (Maps.insert k r m) e
  unfolding any
  reused desired m e k r known new b = record {
    sound_new = λ i x g.
        ground
          (arith, ==_iff k i, Maps.get-insert k i r m, b.sound_new i x, b.sound_prior k r known);
    sound_prior = b.sound_prior;
    unasked = λ i u. ground (arith, ==_iff k i, Maps.get-insert k i r m, b.unasked i);
    kept = λ i x g d. ground (arith, ==_iff k i, Maps.get-insert k i r m, b.kept i x g);
    complete = λ id i s. elim (b.complete id i s) [
      | inl held ↦ inl (Held-insert m k i r id (b.unasked k new) held)
      | inr held ↦ inr held
    ];
  }

  -- A breakpoint of an id other than the new one is where it was.
  stays :
      (k : K) (c : String) (s s' : S) (x : Result String BreakpointResult) (new id : ℤ) (l : BpLoc)
      → ops.set_breakpoint (loc_of k) c s ≡ some (x, s')
      → placed x ≡ some new
      → at s id ≡ some l
      → at s' id ≡ some l
  stays k c s s' x new id l set put h = ground (
    arith,
    lawful.fresh (loc_of k) c s s' x new set put,
    lawful.set_at (loc_of k) c s s' x new id set put,
    ==_iff new id,
  )

  the_key :
      (k i : K) (r : BreakpointResult) (id : ℤ) (c : String) (s s' : S)
      (x : Result String BreakpointResult)
      → ops.set_breakpoint (loc_of k) c s ≡ some (x, s')
      → placed x ≡ some r.id
      → (r.id == id) ≡ true
      → at s' id ≡ some (loc_of i)
      → k ≡ i
  the_key k i r id c s s' x set put here h =
      injective k i (ground (arith, lawful.set_at (loc_of k) c s s' x r.id id set put))

  elsewhere :
      (k i : K) (r : BreakpointResult) (id : ℤ) (c : String) (s s' : S)
      (x : Result String BreakpointResult)
      → ops.set_breakpoint (loc_of k) c s ≡ some (x, s')
      → placed x ≡ some r.id
      → (r.id == id) ≡ false
      → at s' id ≡ some (loc_of i)
      → at s id ≡ some (loc_of i)
  elsewhere k i r id c s s' x set put there h =
      ground (arith, lawful.set_at (loc_of k) c s s' x r.id id set put)

  was_set :
      (desired : List K) (m : Dict K BreakpointResult) (k : K) (c : String) (s s' : S)
      (x : Result String BreakpointResult) (r : BreakpointResult)
      → ops.set_breakpoint (loc_of k) c s ≡ some (x, s')
      → placed x ≡ some r.id
      → Maps.get k prior ≡ none
      → is_desired k desired ≡ false
      → Between at loc_of prior desired m (some s)
      → Between at loc_of prior (k ∷ desired) (Maps.insert k r m) (some s')
  unfolding any
  was_set desired m k c s s' x r set put unknown new b = record {
    sound_new = λ i y g. elim (Bool-cases (k == i)) [
      | inl here ↦ ground (
        arith,
        ==_iff k i,
        ==_refl r.id,
        Maps.get-insert k i r m,
        lawful.set_at (loc_of k) c s s' x r.id r.id set put,
      )
      | inr there ↦
          stays k c s s' x r.id y.id (loc_of i) set put
            (b.sound_new i y (ground (arith, Maps.get-insert k i r m)))
    ];
    sound_prior = λ i y g. stays k c s s' x r.id y.id (loc_of i) set put (b.sound_prior i y g);
    unasked = λ i u. ground (arith, ==_iff k i, Maps.get-insert k i r m, b.unasked i);
    kept = λ i y g d. ground (arith, ==_iff k i, Maps.get-insert k i r m, b.kept i y g);
    complete = λ id i h. elim (Bool-cases (r.id == id)) [
      | inl here ↦ inl (placed_here m k i r id (the_key k i r id c s s' x set put here h) here)
      | inr there ↦ elim (b.complete id i (elsewhere k i r id c s s' x set put there h)) [
        | inl held ↦ inl (Held-insert m k i r id (b.unasked k new) held)
        | inr held ↦ inr held
      ]
    ];
  }

  -- A set that put nothing into the engine.
  not_set :
      (desired : List K) (m : Dict K BreakpointResult) (k : K) (c : String) (s s' : S)
      (x : Result String BreakpointResult)
      → ops.set_breakpoint (loc_of k) c s ≡ some (x, s')
      → placed x ≡ none
      → Maps.get k prior ≡ none
      → is_desired k desired ≡ false
      → Between at loc_of prior desired m (some s)
      → Between at loc_of prior (k ∷ desired) m (some s')
  unfolding any
  not_set desired m k c s s' x set put unknown new b = record {
    sound_new = λ i y g.
        ground (arith, lawful.unset_at (loc_of k) c s s' x y.id set put, b.sound_new i y g);
    sound_prior = λ i y g.
        ground (arith, lawful.unset_at (loc_of k) c s s' x y.id set put, b.sound_prior i y g);
    unasked = λ i u. ground (arith, ==_iff k i, b.unasked i);
    kept = λ i y g d. ground (arith, ==_iff k i, b.kept i y g);
    complete =
        λ id i h. b.complete id i (ground (arith, lawful.unset_at (loc_of k) c s s' x id set put));
  }

  noted :
      (v : Bool) (desired : List K) (m : Dict K BreakpointResult) (k : K) (c : String) (s s' : S)
      (x : Result String BreakpointResult) (r : BreakpointResult)
      → ops.set_breakpoint (loc_of k) c s ≡ some (x, s')
      → placed x ≡ (if v then some r.id else none)
      → Maps.get k prior ≡ none
      → is_desired k desired ≡ false
      → Between at loc_of prior desired m (some s)
      → Between at loc_of prior (k ∷ desired) (if v then Maps.insert k r m else m) (some s')
  noted true desired m k c s s' x r = was_set desired m k c s s' x r
  noted false desired m k c s s' x r = not_set desired m k c s s' x

  pub Adds-Between :
      {ws : List (Wanted K)} {p p' : Batch K} {e e' : Option S}
      → Adds ops loc_of prior ws p e p' e'
      → DistinctKeys ws p.desired
      → Between at loc_of prior p.desired p.new_map e
      → Between at loc_of prior p'.desired p'.new_map e'
  unfolding reuse note_set
  Adds-Between (finished {p} {p'} {e} {e'} u v) d b =
      subst (λ y. Between at loc_of prior y.desired y.new_map e') u
        (subst (λ y. Between at loc_of prior p.desired p.new_map y) v b)
  Adds-Between (refuses run) d b = Adds-Between run d b
  Adds-Between (reuses known run) d b = Adds-Between run d.1 (reused _ _ _ _ _ known d.0 b)
  Adds-Between (sets {k} {c} {l} {x} {r} {ws} {p} {p'} {s} {s'} unknown set went run) d b =
      Adds-Between run d.1 (
        noted r.verified p.desired p.new_map k c s s' x r set (result_placed x l r went) unknown d.0
          b)

  -- The locations of no key are not touched.
  kept_elsewhere :
      (k : K) (c : String) (s s' : S) (x : Result String BreakpointResult) (r : BreakpointResult)
      (id : ℤ) (there : BpLoc)
      → ops.set_breakpoint (loc_of k) c s ≡ some (x, s')
      → placed x ≡ (if r.verified then some r.id else none)
      → loc_of k ≢ there
      → (at s id ≡ some there) ↔ (at s' id ≡ some there)
  kept_elsewhere k c s s' x r id there set put other = elim (Bool-cases r.verified) [
    | inl put_there ↦ ground (
      arith,
      other,
      put_there,
      ==_iff r.id id,
      lawful.fresh (loc_of k) c s s' x r.id set (ground arith),
      lawful.set_at (loc_of k) c s s' x r.id id set (ground arith),
    )
    | inr nothing ↦ ground (arith, lawful.unset_at (loc_of k) c s s' x id set (ground arith))
  ]

  pub Adds-elsewhere :
      {ws : List (Wanted K)} {p p' : Batch K} {e e' : Option S}
      → Adds ops loc_of prior ws p e p' e'
      → SameElsewhere at loc_of e e'
  Adds-elsewhere (finished u v) id l other = ground (arith, v)
  Adds-elsewhere (refuses run) id l other = Adds-elsewhere run id l other
  Adds-elsewhere (reuses known run) id l other = Adds-elsewhere run id l other
  Adds-elsewhere (sets {k} {c} {l} {x} {r} {ws} {p} {p'} {s} {s'} unknown set went run) id there
        other =
      ground (
        arith,
        kept_elsewhere k c s s' x r id there set (result_placed x l r went) (other k),
        Adds-elsewhere run id there other,
      )

  pub Adds-desired :
      {ws : List (Wanted K)} {p p' : Batch K} {e e' : Option S}
      → Adds ops loc_of prior ws p e p' e'
      → p'.desired ≡ keys_of ws p.desired
  unfolding reuse note_set
  Adds-desired (finished u v) = ap (λ y. y.desired) (sym u)
  Adds-desired (refuses run) = Adds-desired run
  Adds-desired (reuses known run) = Adds-desired run
  Adds-desired (sets unknown set went run) = Adds-desired run

  pub Adds-Distinct :
      {ws : List (Wanted K)} {p p' : Batch K} {e e' : Option S}
      → Adds ops loc_of prior ws p e p' e'
      → Maps.Distinct p.new_map
      → Maps.Distinct p'.new_map
  unfolding reuse note_set
  Adds-Distinct (finished u v) d = subst (λ y. Maps.Distinct y.new_map) u d
  Adds-Distinct (refuses run) d = Adds-Distinct run d
  Adds-Distinct (reuses {k} {r} {p} known run) d =
      Adds-Distinct run (Maps.insert-Distinct k r p.new_map d)
  Adds-Distinct (sets {k} {r} {p} unknown set went run) d =
      Adds-Distinct run (ground (arith, Maps.insert-Distinct k r p.new_map d))
