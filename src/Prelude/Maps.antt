-- ===== src/Prelude/Maps.antt =====
-- `HashMap`: an association list with one entry for a key. The order of the entries stands for
-- the order of an iteration, which the program never relies on.
use mathlib.Core.Path.{◌≡◌, refl}
use mathlib.Core.Bool.{Bool, true, false}
use mathlib.Core.List.{List, [], ◌∷◌, ◌++◌, map}
use mathlib.Core.Option.{Option, none, some}
use native.Mathlib.Omega.{arith}
use debug_mcp.Prelude.Tests.{if◌then◌else◌}
use debug_mcp.Prelude.Equality.{PartialEq, ◌==◌, ==_iff}

abbrev pub Dict {ℓ κ} : Type ℓ → Type κ → Type (ℓ ⊔ κ)
Dict K V = List (K × V)

module _ {ℓ κ} {K : Type ℓ} {V : Type κ} where
  -- `values()`
  abbrev pub values : Dict K V → List V
  values = map (λ p. p.1)

module _ {ℓ κ} {K : Type ℓ} {V : Type κ} ⦃e : PartialEq K⦄ where
  unfoldable pub get : K → Dict K V → Option V
  get k [] = none
  get k ((j, v) ∷ m) = if j == k then some v else get k m

  unfoldable pub insert : K → V → Dict K V → Dict K V
  insert k v [] = (k, v) ∷ []
  insert k v ((j, w) ∷ m) = if j == k then (k, v) ∷ m else (j, w) ∷ insert k v m

  unfoldable pub remove : K → Dict K V → Dict K V
  remove k [] = []
  remove k ((j, w) ∷ m) = let rest = remove k m in if j == k then rest else (j, w) ∷ rest

  pub get-insert :
      (k j : K) (v : V) (m : Dict K V) → get j (insert k v m) ≡ (if k == j then some v else get j m)
  unfolding get insert
  get-insert k j v [] = refl
  get-insert k j v ((i, w) ∷ m) =
      ground (arith, ==_iff k j, ==_iff i k, ==_iff i j, get-insert k j v m)

  pub get-remove :
      (k j : K) (m : Dict K V) → get j (remove k m) ≡ (if k == j then none else get j m)
  unfolding get remove
  get-remove k j [] = ground arith
  get-remove k j ((i, w) ∷ m) = ground (arith, ==_iff k j, ==_iff i k, ==_iff i j, get-remove k j m)

-- `entry(k).or_default().extend(vs)`, over a map of vectors.
module _ {ℓ κ} {K : Type ℓ} {V : Type κ} ⦃e : PartialEq K⦄ where
  -- `get(k).cloned().unwrap_or_default()`
  unfoldable pub get_list : K → Dict K (List V) → List V
  get_list k [] = []
  get_list k ((j, vs) ∷ m) = if j == k then vs else get_list k m

  unfoldable pub extend : K → List V → Dict K (List V) → Dict K (List V)
  extend k vs [] = (k, vs) ∷ []
  extend k vs ((j, ws) ∷ m) = if j == k then (j, ws ++ vs) ∷ m else (j, ws) ∷ extend k vs m

  -- `if let Some(l) = get_mut(k) { l = f(l) }`
  unfoldable pub modify : K → (List V → List V) → Dict K (List V) → Dict K (List V)
  modify k f [] = []
  modify k f ((j, ws) ∷ m) = if j == k then (j, f ws) ∷ m else (j, ws) ∷ modify k f m

  pub get_list-extend :
      (k j : K) (vs : List V) (m : Dict K (List V))
      → get_list j (extend k vs m) ≡ (if k == j then get_list j m ++ vs else get_list j m)
  unfolding get_list extend
  get_list-extend k j vs [] = ground arith
  get_list-extend k j vs ((i, ws) ∷ m) =
      ground (arith, ==_iff k j, ==_iff i k, ==_iff i j, get_list-extend k j vs m)

  pub get_list-modify :
      (k j : K) (f : List V → List V) (m : Dict K (List V))
      → f [] ≡ []
      → get_list j (modify k f m) ≡ (if k == j then f (get_list j m) else get_list j m)
  unfolding get_list modify
  get_list-modify k j f [] h = ground arith
  get_list-modify k j f ((i, ws) ∷ m) h =
      ground (arith, ==_iff k j, ==_iff i k, ==_iff i j, get_list-modify k j f m h)

-- Keys: whether a map has one, and that it has none twice.
module _ {ℓ κ} {K : Type ℓ} {V : Type κ} ⦃e : PartialEq K⦄ where
  unfoldable pub contains_key : K → Dict K V → Bool
  contains_key k [] = false
  contains_key k ((j, v) ∷ m) = if j == k then true else contains_key k m

  abbrev pub Distinct : Dict K V → Type 0
  Distinct [] = Unit {0}
  Distinct ((k, v) ∷ m) = (contains_key k m ≡ false) × Distinct m

  contains_key-insert :
      (k j : K) (v : V) (m : Dict K V)
      → contains_key j (insert k v m) ≡ (if k == j then true else contains_key j m)
  unfolding contains_key insert
  contains_key-insert k j v [] = refl
  contains_key-insert k j v ((i, w) ∷ m) =
      ground (arith, ==_iff k j, ==_iff i k, ==_iff i j, contains_key-insert k j v m)

  contains_key-remove :
      (k j : K) (m : Dict K V) → contains_key j m ≡ false → contains_key j (remove k m) ≡ false
  unfolding contains_key remove
  contains_key-remove k j [] h = refl
  contains_key-remove k j ((i, w) ∷ m) h =
      ground (arith, ==_iff i k, ==_iff i j, contains_key-remove k j m)

  pub insert-Distinct : (k : K) (v : V) (m : Dict K V) → Distinct m → Distinct (insert k v m)
  unfolding contains_key insert
  insert-Distinct k v [] d = (refl, tt)
  insert-Distinct k v ((i, w) ∷ m) d =
      ground (arith, ==_iff i k, ==_iff k i, contains_key-insert k i v m, insert-Distinct k v m d.1)

  pub remove-Distinct : (k : K) (m : Dict K V) → Distinct m → Distinct (remove k m)
  unfolding remove
  remove-Distinct k [] d = tt
  remove-Distinct k ((i, w) ∷ m) d =
      ground (arith, contains_key-remove k i m d.0, remove-Distinct k m d.1)

  -- A key that a map lacks has no value.
  pub get_absent : (k : K) (m : Dict K V) → contains_key k m ≡ false → get k m ≡ none
  unfolding contains_key get
  get_absent k [] h = refl
  get_absent k ((i, w) ∷ m) h = ground (arith, get_absent k m)

module _ {ℓ κ} {K : Type ℓ} {V : Type κ} ⦃e : PartialEq K⦄ where
  contains_key-extend :
      (k j : K) (vs : List V) (m : Dict K (List V))
      → contains_key j (extend k vs m) ≡ (if k == j then true else contains_key j m)
  unfolding contains_key extend
  contains_key-extend k j vs [] = refl
  contains_key-extend k j vs ((i, w) ∷ m) =
      ground (arith, ==_iff k j, ==_iff i k, ==_iff i j, contains_key-extend k j vs m)

  contains_key-modify :
      (k j : K) (f : List V → List V) (m : Dict K (List V))
      → contains_key j (modify k f m) ≡ contains_key j m
  unfolding contains_key modify
  contains_key-modify k j f [] = refl
  contains_key-modify k j f ((i, w) ∷ m) = ground (arith, contains_key-modify k j f m)

  pub extend-Distinct :
      (k : K) (vs : List V) (m : Dict K (List V)) → Distinct m → Distinct (extend k vs m)
  unfolding contains_key extend
  extend-Distinct k vs [] d = (refl, tt)
  extend-Distinct k vs ((i, w) ∷ m) d =
      ground
        (arith, ==_iff i k, ==_iff k i, contains_key-extend k i vs m, extend-Distinct k vs m d.1)

  pub modify-Distinct :
      (k : K) (f : List V → List V) (m : Dict K (List V)) → Distinct m → Distinct (modify k f m)
  unfolding modify
  modify-Distinct k f [] d = tt
  modify-Distinct k f ((i, w) ∷ m) d =
      ground (arith, contains_key-modify k i f m, modify-Distinct k f m d.1)

  pub get_list_absent : (k : K) (m : Dict K (List V)) → contains_key k m ≡ false → get_list k m ≡ []
  unfolding contains_key get_list
  get_list_absent k [] h = refl
  get_list_absent k ((i, w) ∷ m) h = ground (arith, get_list_absent k m)

pub ruleset dict_laws = (get-insert, get-remove, get_list-extend, get_list-modify)
