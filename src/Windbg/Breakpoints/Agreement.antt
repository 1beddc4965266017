-- ===== src/Windbg/Breakpoints/Agreement.antt =====
-- The table and the engine agree behind every request that goes through.
pub mod Steps
use debug_mcp.Prelude.{
  ℤ, String, Bool, true, false, Option, none, some, List, [], ◌∷◌, Dict, Result, ok, err, ◌≡◌, ◌≢◌,
  ◌⊎◌, ◌↔◌, PartialEq,
}
use debug_mcp.Prelude.Maps
use debug_mcp.Core.Types.{BreakpointResult}
use debug_mcp.Windbg.Engine.{BpLoc}
use debug_mcp.Windbg.Breakpoints.{Wanted, refused, at_key, is_desired}
use debug_mcp.Windbg.Breakpoints.Removing.{seen}

module _ {K : Type 0} ⦃q : PartialEq K⦄ where
  -- The map tracks a key, with the id.
  pub record Held (m : Dict K BreakpointResult) (k : K) (id : ℤ) : Type 0 where
    pub result : BreakpointResult
    pub tracked : Maps.get k m ≡ some result
    pub same : result.id ≡ id

  -- No key is asked for twice, or is one of the list.
  abbrev pub DistinctKeys : List (Wanted K) → List K → Type 0
  DistinctKeys [] desired = Unit {0}
  DistinctKeys (refused r ∷ ws) desired = DistinctKeys ws desired
  DistinctKeys (at_key k c l ∷ ws) desired =
      (is_desired k desired ≡ false) × DistinctKeys ws (k ∷ desired)

  abbrev pub keys_of : List (Wanted K) → List K → List K
  keys_of [] desired = desired
  keys_of (refused r ∷ ws) desired = keys_of ws desired
  keys_of (at_key k c l ∷ ws) desired = keys_of ws (k ∷ desired)

module _ {S : Type 0} (at : S → ℤ → Option BpLoc) {K : Type 0} ⦃q : PartialEq K⦄
    (loc_of : K → BpLoc) where
  -- What the map tracks is in the engine where the key says, and the engine has nothing else at the
  -- locations of the keys.
  pub record Agree (m : Dict K BreakpointResult) (e : Option S) : Type 0 where
    pub sound :
        (k : K) (r : BreakpointResult) → Maps.get k m ≡ some r → seen at e r.id ≡ some (loc_of k)
    pub complete : (id : ℤ) (k : K) → seen at e id ≡ some (loc_of k) → Held m k id

  -- At the locations of no key, the two engines have the same.
  abbrev pub SameElsewhere : Option S → Option S → Type 0
  SameElsewhere e e' =
      (id : ℤ) (l : BpLoc)
      → ((k : K) → loc_of k ≢ l)
      → (seen at e id ≡ some l) ↔ (seen at e' id ≡ some l)

  -- Between the two passes: `m` is the new map so far.
  pub record Between (prior : Dict K BreakpointResult) (desired : List K)
      (m : Dict K BreakpointResult) (e : Option S) : Type 0 where
    pub sound_new :
        (k : K) (r : BreakpointResult) → Maps.get k m ≡ some r → seen at e r.id ≡ some (loc_of k)
    pub sound_prior :
        (k : K) (r : BreakpointResult)
        → Maps.get k prior ≡ some r
        → seen at e r.id ≡ some (loc_of k)
    pub unasked : (k : K) → is_desired k desired ≡ false → Maps.get k m ≡ none
    pub kept :
        (k : K) (r : BreakpointResult)
        → Maps.get k prior ≡ some r
        → is_desired k desired ≡ true
        → Maps.get k m ≡ some r
    pub complete : (id : ℤ) (k : K) → seen at e id ≡ some (loc_of k) → Held m k id ⊎ Held prior k id
