-- ===== src/Tools/Flatten.antt =====
-- crates/mcp-tools/src/flatten.rs. The fetch of one level of variables is the backend's, an argument
-- here; so is the Unicode lower-casing of the standard library. The recursion is on the levels left.
pub mod Capped
pub mod Bounds
use text.Mathlib.Text.{find?}
use debug_mcp.Prelude.{
  ℕ, zero, suc, ℤ, pos, negsuc, ◌+ℤ◌, String, Bool, true, false, not, ◌&&◌, Option, none, some,
  List, [], ◌∷◌, ◌++◌, is_positive, leb, length, if◌then◌else◌, Result, ok, err, ◌>>=◌, ◌==◌,
  string_eq,
}
use debug_mcp.Prelude.Text.{◌<>◌}
use debug_mcp.Core.Types.{Variable}
use debug_mcp.Core.Error.{BackendError}

pub record FlatVariable : Type 0 where
  pub name : String
  pub value : String
  pub ty : String
  pub has_children : Bool
  pub children_count : ℤ

-- The list so far with the variables added, and whether the cap was hit.
abbrev pub Flattened : Type 0
Flattened = Result BackendError (List FlatVariable × Bool)

-- The levels below a container, appended to the list so far.
abbrev pub Level : Type 0
Level = ℤ → String → List FlatVariable → Flattened

-- A variable under its dotted name, as a leaf or an expanded container.
abbrev pub plain : String → Variable → FlatVariable
plain name v = record {
  name = name;
  value = v.value;
  ty = v.ty;
  has_children = false;
  children_count = pos 0;
}

-- A container that is not expanded.
abbrev pub folded : String → Variable → FlatVariable
folded name v = record (plain name v) { has_children = true; children_count = v.named +ℤ v.indexed }

module _ (fetch : ℤ → Result BackendError (List Variable)) (max_count : ℕ) where
  -- `result.push(flat); if result.len() >= max_count { return Ok(true) }`
  unfoldable pub push : FlatVariable → List FlatVariable → Flattened
  push flat result =
      let result' = result ++ flat ∷ [] in ok (result', leb max_count (length result'))

  -- The rest of a loop, unless the cap was hit.
  unfoldable pub unless_capped :
      (List FlatVariable → Flattened) → List FlatVariable × Bool → Flattened
  unless_capped rest (result, true) = ok (result, true)
  unless_capped rest (result, false) = rest result

  -- The body of the loops; `none` is depth 0.
  unfoldable pub visit : Option Level → String → Variable → List FlatVariable → Flattened
  unfolding push unless_capped
  visit expand name v result =
      if is_positive v.variables_reference
      then elim expand [
        | some level ↦
            push (plain name v) result >>= unless_capped (level v.variables_reference name)
        | none ↦ push (folded name v) result
      ]
      else push (plain name v) result

  unfoldable pub children_loop :
      Option Level → String → List Variable → List FlatVariable → Flattened
  unfolding visit
  children_loop expand prefix [] result = ok (result, false)
  children_loop expand prefix (v ∷ vs) result =
      visit expand (prefix <> "." <> v.name) v result
      >>= unless_capped (children_loop expand prefix vs)

  unfoldable pub flatten_recursive : ℕ → Level
  unfolding children_loop
  flatten_recursive zero var_ref prefix result =
      fetch var_ref >>= λ vars. children_loop none prefix vars result
  flatten_recursive (suc depth) var_ref prefix result =
      fetch var_ref >>= λ vars. children_loop (some (flatten_recursive depth)) prefix vars result

  -- `depth > 0`, and the call with `depth - 1`.
  unfoldable pub expansion : ℤ → Option Level
  unfolding flatten_recursive
  expansion (pos zero) = none
  expansion (pos (suc depth)) = some (flatten_recursive depth)
  expansion (negsuc n) = none

  module _ (to_lowercase : String → String) where
    -- The filter of the top level.
    unfoldable pub selected : String → Variable → Bool
    selected filter v =
        if filter == "" then true else elim (find? (to_lowercase v.name) (to_lowercase filter)) [
          | some i ↦ true
          | none ↦ false
        ]

    unfoldable pub top_loop : Option Level → String → List Variable → List FlatVariable → Flattened
    unfolding selected visit
    top_loop expand filter [] result = ok (result, false)
    top_loop expand filter (v ∷ vs) result =
        if selected filter v
        then visit expand v.name v result >>= unless_capped (top_loop expand filter vs)
        else top_loop expand filter vs result

    unfoldable pub flatten_variables : ℤ → ℤ → String → Flattened
    unfolding top_loop expansion
    flatten_variables variables_reference depth filter =
        fetch variables_reference >>= λ vars. top_loop (expansion depth) filter vars []
