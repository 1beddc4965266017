-- ===== src/Tools/Flatten/Capped.antt =====
-- The flattening against one without a cap, which lists the whole tree.
use debug_mcp.Prelude.{
  ℕ, zero, suc, ◌+◌, ◌≤◌, ◌<◌, ℤ, pos, negsuc, String, ◌≡◌, refl, ap, Option, none, some, List, [],
  ◌∷◌, ◌++◌, arith, is_positive, leb, length, length-append, if◌then◌else◌, Result, ok, ◌>>=◌,
  >>=-eq-ok, ok-injective, Bool-cases, inl, inr,
}
use mathlib.Core.List.{append_assoc, append-nil}
use debug_mcp.Prelude.Text.{◌<>◌}
use debug_mcp.Core.Types.{Variable}
use debug_mcp.Core.Error.{BackendError}
use debug_mcp.Tools.Flatten.{
  FlatVariable, Flattened, Level, plain, folded, push, unless_capped, visit, children_loop,
  flatten_recursive, expansion, selected, top_loop, flatten_variables,
}

-- The first `n` of a list.
unfoldable pub take {ℓ} : {A : Type ℓ} → ℕ → List A → List A
take zero xs = []
take (suc n) [] = []
take (suc n) (x ∷ xs) = x ∷ take n xs

take_short {ℓ} : {A : Type ℓ} (n : ℕ) (xs : List A) → length xs ≤ n → take n xs ≡ xs
unfolding take
take_short zero [] h = refl
take_short zero (x ∷ xs) h = absurd (omega arith)
take_short (suc n) [] h = refl
take_short (suc n) (x ∷ xs) h = ap (◌∷◌ x) (take_short n xs (omega arith))

take-append {ℓ} :
    {A : Type ℓ} (n : ℕ) (xs ys : List A) → n ≤ length xs → take n (xs ++ ys) ≡ take n xs
unfolding take
take-append zero xs ys h = refl
take-append (suc n) [] ys h = absurd (omega arith)
take-append (suc n) (x ∷ xs) ys h = ap (◌∷◌ x) (take-append n xs ys (omega arith))

-- The whole list of a level, with no cap.
abbrev pub Whole : Type 0
Whole = ℤ → String → Result BackendError (List FlatVariable)

module _ (fetch : ℤ → Result BackendError (List Variable)) where
  unfoldable pub whole_of :
      Option Whole → String → Variable → Result BackendError (List FlatVariable)
  whole_of expand name v =
      if is_positive v.variables_reference
      then elim expand [
        | some level ↦ level v.variables_reference name >>= λ below. ok (plain name v ∷ below)
        | none ↦ ok (folded name v ∷ [])
      ]
      else ok (plain name v ∷ [])

  unfoldable pub whole_children :
      Option Whole → String → List Variable → Result BackendError (List FlatVariable)
  unfolding whole_of
  whole_children expand prefix [] = ok []
  whole_children expand prefix (v ∷ vs) = whole_of expand (prefix <> "." <> v.name) v >>= λ a.
      whole_children expand prefix vs >>= λ b. ok (a ++ b)

  unfoldable pub whole_level : ℕ → Whole
  unfolding whole_children
  whole_level zero var_ref prefix = fetch var_ref >>= λ vars. whole_children none prefix vars
  whole_level (suc depth) var_ref prefix =
      fetch var_ref >>= λ vars. whole_children (some (whole_level depth)) prefix vars

-- The run from `result` gives the first `max_count` of `result ++ whole`, and tells if that is a cut.
abbrev Capped : ℕ → List FlatVariable → List FlatVariable → Flattened → Type 0
Capped max_count result whole run =
    run ≡ ok (take max_count (result ++ whole), leb max_count (length result + length whole))

module _ (fetch : ℤ → Result BackendError (List Variable)) (max_count : ℕ) where
  push-Capped :
      (flat : FlatVariable) (result : List FlatVariable)
      → length result < max_count
      → Capped max_count result (flat ∷ []) (push fetch max_count flat result)
  unfolding push
  push-Capped flat result h = rw (
    take_short max_count (result ++ flat ∷ []) (omega (arith, length-append result (flat ∷ []))),
    length-append,
  )

  -- A loop that goes on behind a run.
  then-Capped :
      (result a b : List FlatVariable) (run : Flattened) (rest : List FlatVariable → Flattened)
      → Capped max_count result a run
      → (length (result ++ a) < max_count → Capped max_count (result ++ a) b (rest (result ++ a)))
      → Capped max_count result (a ++ b) (run >>= unless_capped fetch max_count rest)
  unfolding unless_capped
  then-Capped result a b run rest first second = ground (
    arith,
    take-append max_count (result ++ a) b,
    take_short max_count (result ++ a),
    append_assoc result a b,
    length-append a b,
    length-append result a,
  )

  -- What the levels below do, if there are any.
  abbrev Expands : Option Whole → Option Level → Type 0
  Expands none none = Unit {0}
  Expands (some whole) (some level) =
      (var_ref : ℤ) (prefix : String) (result below : List FlatVariable)
      → whole var_ref prefix ≡ ok below
      → length result < max_count
      → Capped max_count result below (level var_ref prefix result)
  Expands none (some level) = ⊥
  Expands (some whole) none = ⊥

  visit-Capped :
      (whole : Option Whole) (expand : Option Level) (name : String) (v : Variable)
      (result nodes : List FlatVariable)
      → Expands whole expand
      → whole_of fetch whole name v ≡ ok nodes
      → length result < max_count
      → Capped max_count result nodes (visit fetch max_count expand name v result)
  unfolding whole_of visit
  visit-Capped none none name v result nodes x w h =
      ground (arith, push-Capped (folded name v) result, push-Capped (plain name v) result)
  visit-Capped (some whole) (some level) name v result nodes x w h =
      elim (Bool-cases (is_positive v.variables_reference)) [
        | inr leaf ↦ ground (arith, push-Capped (plain name v) result)
        | inl container ↦
            let (below, found, e) =
              >>=-eq-ok (whole v.variables_reference name) _ (rw (container, whole_of) at w) in
            rw (← ok-injective (plain name v ∷ below) nodes e, container, visit)
              (then-Capped result (plain name v ∷ []) below
                (push fetch max_count (plain name v) result) (level v.variables_reference name)
                (push-Capped (plain name v) result h)
                (λ room.
                  x v.variables_reference name (result ++ plain name v ∷ []) below found room))
      ]
  visit-Capped none (some level) name v result nodes x w h = absurd x
  visit-Capped (some whole) none name v result nodes x w h = absurd x

  children_loop-Capped :
      (whole : Option Whole) (expand : Option Level) (prefix : String) (vs : List Variable)
      (result nodes : List FlatVariable)
      → Expands whole expand
      → whole_children fetch whole prefix vs ≡ ok nodes
      → length result < max_count
      → Capped max_count result nodes (children_loop fetch max_count expand prefix vs result)
  unfolding whole_children children_loop
  children_loop-Capped whole expand prefix [] result nodes x w h =
      ground (arith, append-nil result, take_short max_count result)
  children_loop-Capped whole expand prefix (v ∷ vs) result nodes x w h =
      let name = prefix <> "." <> v.name in
      let (a, first, rest) = >>=-eq-ok (whole_of fetch whole name v) _ w in
      let (b, second, e) = >>=-eq-ok (whole_children fetch whole prefix vs) _ rest in
      rw (← ok-injective (a ++ b) nodes e) (
        then-Capped result a b (visit fetch max_count expand name v result)
          (children_loop fetch max_count expand prefix vs)
          (visit-Capped whole expand name v result a x first h)
          (λ room. children_loop-Capped whole expand prefix vs (result ++ a) b x second room))

  flatten_recursive-Capped :
      (depth : ℕ) (var_ref : ℤ) (prefix : String) (result below : List FlatVariable)
      → whole_level fetch depth var_ref prefix ≡ ok below
      → length result < max_count
      → Capped max_count result below
          (flatten_recursive fetch max_count depth var_ref prefix result)
  unfolding whole_level flatten_recursive
  flatten_recursive-Capped zero var_ref prefix result below w h =
      let (vars, fetched, e) = >>=-eq-ok (fetch var_ref) _ w in
      rw fetched (children_loop-Capped none none prefix vars result below tt e h)
  flatten_recursive-Capped (suc depth) var_ref prefix result below w h =
      let (vars, fetched, e) = >>=-eq-ok (fetch var_ref) _ w in
      rw fetched (
        children_loop-Capped (some (whole_level fetch depth))
          (some (flatten_recursive fetch max_count depth)) prefix vars result below
          (flatten_recursive-Capped depth) e h)

  whole_expansion : ℤ → Option Whole
  whole_expansion (pos zero) = none
  whole_expansion (pos (suc depth)) = some (whole_level fetch depth)
  whole_expansion (negsuc n) = none

  expansion-Expands :
      (depth : ℤ) → Expands (whole_expansion depth) (expansion fetch max_count depth)
  unfolding whole_expansion expansion
  expansion-Expands (pos zero) = tt
  expansion-Expands (pos (suc depth)) = flatten_recursive-Capped depth
  expansion-Expands (negsuc n) = tt

  module _ (to_lowercase : String → String) where
    -- The selected variables of the top level, each with all that is below it.
    unfoldable pub whole_top :
        Option Whole → String → List Variable → Result BackendError (List FlatVariable)
    whole_top expand filter [] = ok []
    whole_top expand filter (v ∷ vs) =
        if selected fetch max_count to_lowercase filter v
        then (whole_of fetch expand v.name v >>= λ a.
            whole_top expand filter vs >>= λ b. ok (a ++ b))
        else whole_top expand filter vs

    unfoldable pub whole_variables : ℤ → ℤ → String → Result BackendError (List FlatVariable)
    unfolding whole_top whole_expansion
    whole_variables variables_reference depth filter =
        fetch variables_reference >>= λ vars. whole_top (whole_expansion depth) filter vars

    top_loop-Capped :
        (whole : Option Whole) (expand : Option Level) (filter : String) (vs : List Variable)
        (result nodes : List FlatVariable)
        → Expands whole expand
        → whole_top whole filter vs ≡ ok nodes
        → length result < max_count
        → Capped max_count result nodes
            (top_loop fetch max_count to_lowercase expand filter vs result)
    unfolding whole_top top_loop
    top_loop-Capped whole expand filter [] result nodes x w h =
        ground (arith, append-nil result, take_short max_count result)
    top_loop-Capped whole expand filter (v ∷ vs) result nodes x w h =
        elim (Bool-cases (selected fetch max_count to_lowercase filter v)) [
          | inr skipped ↦
              rw skipped (top_loop-Capped whole expand filter vs result nodes x (rw skipped at w) h)
          | inl taken ↦
              let (a, first, rest) = >>=-eq-ok (whole_of fetch whole v.name v) _ (rw taken at w) in
              let (b, second, e) = >>=-eq-ok (whole_top whole filter vs) _ rest in
              rw (← ok-injective (a ++ b) nodes e, taken)
                (then-Capped result a b (visit fetch max_count expand v.name v result)
                  (top_loop fetch max_count to_lowercase expand filter vs)
                  (visit-Capped whole expand v.name v result a x first h)
                  (λ room. top_loop-Capped whole expand filter vs (result ++ a) b x second room))
        ]

    -- With a cap above 0, where the whole tree can be fetched, the flattening is the first
    -- `max_count` of its variables, and is marked truncated exactly when there are that many.
    pub flatten_variables-Capped :
        (variables_reference depth : ℤ) (filter : String) (nodes : List FlatVariable)
        → 0 < max_count
        → whole_variables variables_reference depth filter ≡ ok nodes
        → flatten_variables fetch max_count to_lowercase variables_reference depth filter
          ≡ ok (take max_count nodes, leb max_count (length nodes))
    unfolding whole_variables flatten_variables
    flatten_variables-Capped variables_reference depth filter nodes h w =
        let (vars, fetched, e) = >>=-eq-ok (fetch variables_reference) _ w in
        rw fetched (
          ground (
            arith,
            top_loop-Capped (whole_expansion depth) (expansion fetch max_count depth) filter vars []
                nodes (expansion-Expands depth) e h,
          ))
