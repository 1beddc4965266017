-- ===== src/Tools/Flatten/Bounds.antt =====
-- The cap holds whatever is fetched.
use debug_mcp.Prelude.{
  ℕ, zero, suc, ◌≤◌, ◌<◌, ℤ, pos, negsuc, String, ◌≡◌, refl, true, false, Option, none, some, List,
  [], ◌∷◌, arith, is_positive, leb, length, length-append, Result, ok, err, ◌>>=◌, Bool-cases, inl,
  inr,
}
use debug_mcp.Prelude.Text.{◌<>◌}
use debug_mcp.Core.Types.{Variable}
use debug_mcp.Core.Error.{BackendError}
use debug_mcp.Tools.Flatten.{
  FlatVariable, Flattened, Level, plain, folded, push, unless_capped, visit, children_loop,
  flatten_recursive, expansion, selected, top_loop, flatten_variables,
}

-- A result has at most `max_count` variables, and is marked truncated exactly when it has that many.
abbrev pub WithinCap : ℕ → Flattened → Type 0
WithinCap max_count (err e) = Unit {0}
WithinCap max_count (ok (result, truncated)) =
    (length result ≤ max_count) × (truncated ≡ leb max_count (length result))

module _ (fetch : ℤ → Result BackendError (List Variable)) (max_count : ℕ) where
  push-WithinCap :
      (flat : FlatVariable) (result : List FlatVariable)
      → length result < max_count
      → WithinCap max_count (push fetch max_count flat result)
  unfolding push
  push-WithinCap flat result h = (omega (arith, length-append result (flat ∷ [])), refl)

  then-WithinCap :
      (run : Flattened) (rest : List FlatVariable → Flattened)
      → WithinCap max_count run
      → ((result : List FlatVariable)
          → length result < max_count
          → WithinCap max_count (rest result))
      → WithinCap max_count (run >>= unless_capped fetch max_count rest)
  unfolding unless_capped
  then-WithinCap (err e) rest w k = tt
  then-WithinCap (ok (result, true)) rest w k = w
  then-WithinCap (ok (result, false)) rest w k = k result (ground arith)

  abbrev Keeps : Option Level → Type 0
  Keeps none = Unit {0}
  Keeps (some level) =
      (var_ref : ℤ) (prefix : String) (result : List FlatVariable)
      → length result < max_count
      → WithinCap max_count (level var_ref prefix result)

  visit-WithinCap :
      (expand : Option Level) (name : String) (v : Variable) (result : List FlatVariable)
      → Keeps expand
      → length result < max_count
      → WithinCap max_count (visit fetch max_count expand name v result)
  unfolding visit
  visit-WithinCap expand name v result k h = elim (Bool-cases (is_positive v.variables_reference)) [
    | inl container ↦ rw container (containers expand k)
    | inr leaf ↦ rw leaf (push-WithinCap (plain name v) result h)
  ]
    where
      containers :
          (x : Option Level)
          → Keeps x
          → WithinCap max_count (elim x [
            | some level ↦
                push fetch max_count (plain name v) result
                >>= unless_capped fetch max_count (level v.variables_reference name)
            | none ↦ push fetch max_count (folded name v) result
          ])
      containers none k' = push-WithinCap (folded name v) result h
      containers (some level) k' =
          then-WithinCap (push fetch max_count (plain name v) result)
            (level v.variables_reference name) (push-WithinCap (plain name v) result h)
            (k' v.variables_reference name)

  children_loop-WithinCap :
      (expand : Option Level) (prefix : String) (vs : List Variable) (result : List FlatVariable)
      → Keeps expand
      → length result < max_count
      → WithinCap max_count (children_loop fetch max_count expand prefix vs result)
  unfolding children_loop
  children_loop-WithinCap expand prefix [] result k h = ground arith
  children_loop-WithinCap expand prefix (v ∷ vs) result k h =
      then-WithinCap (visit fetch max_count expand (prefix <> "." <> v.name) v result)
        (children_loop fetch max_count expand prefix vs)
        (visit-WithinCap expand (prefix <> "." <> v.name) v result k h)
        (λ r room. children_loop-WithinCap expand prefix vs r k room)

  fetched-WithinCap :
      (r : Result BackendError (List Variable)) (f : List Variable → Flattened)
      → ((vars : List Variable) → WithinCap max_count (f vars))
      → WithinCap max_count (r >>= f)
  fetched-WithinCap (err e) f k = tt
  fetched-WithinCap (ok vars) f k = k vars

  flatten_recursive-WithinCap : (depth : ℕ) → Keeps (some (flatten_recursive fetch max_count depth))
  unfolding flatten_recursive
  flatten_recursive-WithinCap zero var_ref prefix result h =
      fetched-WithinCap (fetch var_ref) _
        (λ vars. children_loop-WithinCap none prefix vars result tt h)
  flatten_recursive-WithinCap (suc depth) var_ref prefix result h =
      fetched-WithinCap (fetch var_ref) _ (λ vars.
        children_loop-WithinCap (some (flatten_recursive fetch max_count depth)) prefix vars result
          (flatten_recursive-WithinCap depth) h)

  expansion-Keeps : (depth : ℤ) → Keeps (expansion fetch max_count depth)
  unfolding expansion
  expansion-Keeps (pos zero) = tt
  expansion-Keeps (pos (suc depth)) = flatten_recursive-WithinCap depth
  expansion-Keeps (negsuc n) = tt

  module _ (to_lowercase : String → String) where
    top_loop-WithinCap :
        (expand : Option Level) (filter : String) (vs : List Variable) (result : List FlatVariable)
        → Keeps expand
        → length result < max_count
        → WithinCap max_count (top_loop fetch max_count to_lowercase expand filter vs result)
    unfolding top_loop
    top_loop-WithinCap expand filter [] result k h = ground arith
    top_loop-WithinCap expand filter (v ∷ vs) result k h =
        elim (Bool-cases (selected fetch max_count to_lowercase filter v)) [
          | inr skipped ↦ rw skipped (top_loop-WithinCap expand filter vs result k h)
          | inl taken ↦ rw taken (
              then-WithinCap (visit fetch max_count expand v.name v result)
                (top_loop fetch max_count to_lowercase expand filter vs)
                (visit-WithinCap expand v.name v result k h)
                (λ r room. top_loop-WithinCap expand filter vs r k room))
        ]

    -- With a cap above 0, whatever the fetches answer, a result has at most `max_count` variables,
    -- and is marked truncated exactly when it has that many.
    pub flatten_variables-WithinCap :
        (variables_reference depth : ℤ) (filter : String)
        → 0 < max_count
        → WithinCap max_count
            (flatten_variables fetch max_count to_lowercase variables_reference depth filter)
    unfolding flatten_variables
    flatten_variables-WithinCap variables_reference depth filter h =
        fetched-WithinCap (fetch variables_reference) _ (λ vars.
          top_loop-WithinCap (expansion fetch max_count depth) filter vars []
            (expansion-Keeps depth) h)
