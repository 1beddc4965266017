-- ===== src/Tools/Registry/Laws.antt =====
-- Which backend is selected, and what the registry advertises.
use debug_mcp.Prelude.{
  String, ◌≡◌, ◌↔◌, ◌∙◌, any, refl, Option, none, some, List, [], ◌∷◌, arith, if◌then◌else◌, ok,
  ◌==◌, string_eq,
}
use debug_mcp.Prelude.Maps
use debug_mcp.Core.Types.{BackendCapabilities}
use debug_mcp.Tools.Registry.{
  Factory, BackendRegistry, new, union, register, non_empty, first_of, select_with_env,
}

-- Registering the factories one after another.
unfoldable pub register_all : List Factory → BackendRegistry → BackendRegistry
register_all [] r = r
register_all (f ∷ fs) r = register_all fs (register f r)

-- The last factory of the name.
unfoldable pub last_named : String → List Factory → Option Factory → Option Factory
last_named name [] found = found
last_named name (f ∷ fs) found = last_named name fs (if f.name == name then some f else found)

get-register_all :
    (name : String) (fs : List Factory) (r : BackendRegistry)
    → Maps.get name (register_all fs r).factories ≡ last_named name fs (Maps.get name r.factories)
unfolding register_all last_named register
get-register_all name [] r = refl
get-register_all name (f ∷ fs) r =
    rw (get-register_all name fs (register f r), register, Maps.get-insert)

get-empty : (name : String) → Maps.get {V = Factory} name [] ≡ none
unfolding Maps.get
get-empty name = refl

default-register_all :
    (fs : List Factory) (r : BackendRegistry) → (register_all fs r).default_name ≡ r.default_name
unfolding register_all register
default-register_all [] r = refl
default-register_all (f ∷ fs) r = default-register_all fs (register f r)

abbrev flags_of : List Factory → BackendCapabilities
flags_of fs = record {
  crash_dump = any (λ (f : Factory). f.capabilities.crash_dump) fs;
  kernel = any (λ (f : Factory). f.capabilities.kernel) fs;
  analyze = any (λ (f : Factory). f.capabilities.analyze) fs;
  modules = any (λ (f : Factory). f.capabilities.modules) fs;
}

flags :
    (fs : List Factory) (r : BackendRegistry)
    → (register_all fs r).capabilities ≡ union r.capabilities (flags_of fs)
unfolding register_all register union any
flags [] r = ground arith
flags (f ∷ fs) r = flags fs (register f r) ∙ ground arith

-- A factory is selected exactly if it is the last that was registered under the first name set among
-- the request, `DEBUG_BACKEND` and the default.
pub select-register_all :
    (fs : List Factory) (default_name : String) (requested env_value : Option String) (f : Factory)
    → (select_with_env (register_all fs (new default_name)) requested env_value ≡ ok f) ↔ (
        last_named (first_of (non_empty requested) (non_empty env_value) default_name) fs none
        ≡ some f)
unfolding select_with_env new
select-register_all fs default_name requested env_value f = ground (
  arith,
  default-register_all fs (new default_name),
  get-register_all (first_of (non_empty requested) (non_empty env_value) default_name) fs
      (new default_name),
  get-empty (first_of (non_empty requested) (non_empty env_value) default_name),
)

-- The flags are those that some registered factory has.
capabilities-register_all :
    (fs : List Factory) (default_name : String)
    → (register_all fs (new default_name)).capabilities ≡ record {
      crash_dump = any (λ (f : Factory). f.capabilities.crash_dump) fs;
      kernel = any (λ (f : Factory). f.capabilities.kernel) fs;
      analyze = any (λ (f : Factory). f.capabilities.analyze) fs;
      modules = any (λ (f : Factory). f.capabilities.modules) fs;
    }
unfolding new
capabilities-register_all fs default_name = flags fs (new default_name) ∙ unfold union in refl
