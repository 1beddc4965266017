-- ===== src/Session/Manager/Flush.antt =====
-- The flush of the pending breakpoints at a launch.
use debug_mcp.Prelude.{String, ◌≡◌, refl, sym, List, [], ◌∷◌, ◌++◌, arith, Dict, string_eq, ==_iff}
use mathlib.Core.List.{append-nil}
use debug_mcp.Prelude.Maps
use debug_mcp.Prelude.Maps.{Distinct}
use debug_mcp.Core.Types.{SourceBp}
use debug_mcp.Session.Manager.{SessionManager}
use debug_mcp.Session.Manager.Tracking.{
  flush_pending_breakpoints, extend_all, source_breakpoints_for_file, all_function_breakpoints,
}
use debug_mcp.Session.Manager.Valid.{IsValid}

get_list-extend_all :
    (file : String) (p m : Dict String (List SourceBp))
    → Distinct p
    → Maps.get_list file (extend_all p m) ≡ Maps.get_list file m ++ Maps.get_list file p
unfolding extend_all Maps.get_list
get_list-extend_all file [] m d = sym (append-nil (Maps.get_list file m))
get_list-extend_all file ((k, bps) ∷ p) m d = ground (
  arith,
  get_list-extend_all file p (Maps.extend k bps m) d.1,
  Maps.get_list-extend k file bps m,
  Maps.get_list_absent k p d.0,
  ==_iff k file,
  append-nil (Maps.get_list file m ++ bps),
)

-- In a valid session a flush adds, for each file, the pending breakpoints behind the active ones, so
-- too the function breakpoints; it returns what was pending, and a second flush returns nothing and
-- changes nothing.
pub flush_pending_breakpoints_lem :
    (file : String) (s : SessionManager)
    → IsValid s
    → (source_breakpoints_for_file file (flush_pending_breakpoints s).1
        ≡ source_breakpoints_for_file file s
          ++ Maps.get_list file (flush_pending_breakpoints s).0.0)
      × (all_function_breakpoints (flush_pending_breakpoints s).1
          ≡ all_function_breakpoints s ++ (flush_pending_breakpoints s).0.1)
      × ((flush_pending_breakpoints s).0 ≡ (s.pending_source_bps, s.pending_function_bps))
      × (flush_pending_breakpoints (flush_pending_breakpoints s).1
          ≡ (([], []), (flush_pending_breakpoints s).1))
unfolding flush_pending_breakpoints source_breakpoints_for_file
flush_pending_breakpoints_lem file s v = (
  get_list-extend_all file s.pending_source_bps s.source_bps v.pending,
  refl,
  refl,
  rw append-nil,
)
