-- ===== src/Tools/Registry.antt =====
-- crates/mcp-tools/src/registry.rs: the registered backend factories. Connecting one is the backend's;
-- here a factory is its name and its capabilities. The value of `DEBUG_BACKEND` is an argument.
pub mod Laws
use Prim.Native.String.{compare}
use Prim.Native.Nat.{Ordering}
use debug_mcp.Prelude.{
  String, Bool, true, false, ◌||◌, Option, none, some, List, [], ◌∷◌, map, Dict, if◌then◌else◌,
  Result, ok, err, ◌==◌, string_eq,
}
use debug_mcp.Prelude.Text.{◌<>◌, join}
use debug_mcp.Prelude.Maps
use debug_mcp.Core.Types.{BackendCapabilities}

pub record Factory : Type 0 where
  pub name : String
  pub capabilities : BackendCapabilities

pub record BackendRegistry : Type 0 where
  pub factories : Dict String Factory
  pub default_name : String
  pub capabilities : BackendCapabilities

-- `default_backend_for_os`, of the builds for Windows and for the others.
abbrev pub default_backend_for_os : Bool → String
default_backend_for_os windows = if windows then "windbg" else "lldb"

abbrev pub no_capabilities : BackendCapabilities
no_capabilities = record { crash_dump = false; kernel = false; analyze = false; modules = false }

unfoldable pub new : String → BackendRegistry
new default_name = record {
  factories = [];
  default_name = default_name;
  capabilities = no_capabilities;
}

-- `|=` on each flag
unfoldable pub union : BackendCapabilities → BackendCapabilities → BackendCapabilities
union a b = record {
  crash_dump = a.crash_dump || b.crash_dump;
  kernel = a.kernel || b.kernel;
  analyze = a.analyze || b.analyze;
  modules = a.modules || b.modules;
}

unfoldable pub register : Factory → BackendRegistry → BackendRegistry
unfolding union Maps.insert
register f r = record r {
  factories = Maps.insert f.name f r.factories;
  capabilities = union r.capabilities f.capabilities;
}

-- `sort_unstable` on names, which differ.
unfoldable pub place : String → List String → List String
place x [] = x ∷ []
place x (y ∷ ys) = elim (compare x y) [ Ordering.gt ↦ y ∷ place x ys | _ ↦ x ∷ y ∷ ys ]

unfoldable pub sort : List String → List String
unfolding place
sort [] = []
sort (x ∷ xs) = place x (sort xs)

unfoldable pub available_names : BackendRegistry → List String
unfolding sort
available_names r = sort (map (λ p. p.0) r.factories)

-- `filter(|s| !s.is_empty())`
abbrev pub non_empty : Option String → Option String
non_empty none = none
non_empty (some s) = if s == "" then none else some s

-- `a.or(b).unwrap_or(c)`
abbrev pub first_of : Option String → Option String → String → String
first_of (some a) b c = a
first_of none (some b) c = b
first_of none none c = c

unfoldable pub select_with_env :
    BackendRegistry → Option String → Option String → Result String Factory
unfolding available_names join Maps.get
select_with_env r requested env_value =
    let name = first_of (non_empty requested) (non_empty env_value) r.default_name in
    elim (Maps.get name r.factories) [
      | some f ↦ ok f
      | none ↦
          err ("unknown backend '" <> name <> "'; available: " <> join ", " (available_names r))
    ]
