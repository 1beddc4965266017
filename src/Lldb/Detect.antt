-- ===== src/Lldb/Detect.antt =====
-- crates/lldb-backend/src/detect.rs: the search for lldb-dap, over the environment. What
-- `str::contains`, the base name of a path and `trim` compute is an argument.
use debug_mcp.Prelude.{
  ℕ, String, Bool, true, false, not, ◌||◌, Option, none, some, List, [], ◌∷◌, ◌++◌, if◌then◌else◌,
  Result, ok, err, ◌==◌, string_eq,
}
use debug_mcp.Prelude.Text.{◌<>◌, join, show_ℕ}
use debug_mcp.Core.Error.{BackendError}

pub record Detected : Type 0 where
  pub path : String
  pub is_lldb_dap : Bool

pub record Env : Type 0 where
  pub var : String → Option String
  pub look_path : String → Option String
  pub path_exists : String → Bool
  pub xcrun_find_lldb_dap : Option String
  pub is_macos : Bool

abbrev is_some : Option String → Bool
is_some none = false
is_some (some text) = true

-- The binary that was found, or the candidates that were searched.
pub data Search : Type 0 where
  found : Detected → Search
  searched : List String → Search

abbrev or_else : Search → (List String → Search) → Search
or_else (found d) next = found d
or_else (searched names) next = next names

module _ (trim basename : String → String) (contains : String → String → Bool) (env : Env) where
  unfoldable pub is_capable_basename : String → Bool
  is_capable_basename name = contains name "lldb-dap"

  -- The binary that the variable names, as the variable spells it: on the PATH, or a file.
  unfoldable pub by_variable : Option String → Search
  unfolding is_capable_basename
  by_variable none = searched []
  by_variable (some path) =
      if path == ""
      then searched []
      else (if is_some (env.look_path path) || env.path_exists path
          then found (record { path = path; is_lldb_dap = is_capable_basename (basename path) })
          else searched (("LLDB_DAP_PATH=" <> path) ∷ []))

  -- A name on the PATH.
  unfoldable pub on_path : Bool → String → List String → Search
  on_path capable name names = elim (env.look_path name) [
    | some p ↦ found (record { path = p; is_lldb_dap = capable })
    | none ↦ searched (names ++ (name ∷ []))
  ]

  -- The loop over the versions.
  unfoldable pub versioned : List ℕ → List String → Search
  unfolding on_path show_ℕ
  versioned [] names = searched names
  versioned (v ∷ vs) names = or_else (on_path true ("lldb-dap-" <> show_ℕ v) names) (versioned vs)

  unfoldable pub by_xcrun : List String → Search
  by_xcrun names = if not env.is_macos then searched names else elim env.xcrun_find_lldb_dap [
    | none ↦ searched (names ++ ("xcrun --find lldb-dap" ∷ []))
    | some p ↦
        if trim p == ""
        then searched (names ++ ("xcrun --find lldb-dap" ∷ []))
        else found (record { path = trim p; is_lldb_dap = true })
  ]

  unfoldable pub find_lldb_dap_with : Result BackendError Detected
  unfolding by_variable on_path versioned by_xcrun join
  find_lldb_dap_with =
      let search = or_else (by_variable (env.var "LLDB_DAP_PATH")) λ s1.
        or_else (on_path true "lldb-dap" s1) λ s2.
          or_else (versioned (20 ∷ 19 ∷ 18 ∷ 17 ∷ 16 ∷ 15 ∷ []) s2)
            λ s3. or_else (on_path false "lldb-vscode" s3) by_xcrun in
      elim search [
        | found d ↦ ok d
        | searched names ↦
            err (BackendError.detect ("lldb-dap binary not found; searched: " <> join ", " names))
      ]
