-- ===== src/Session/Manager/Valid.antt =====
-- The invariant of the session: every sequence of calls keeps it.
use debug_mcp.Prelude.{
  ◌+◌, ◌%◌, ◌^◌, ◌<◌, ℤ, String, ◌≡◌, refl, ap, ◌∙◌, List, [], ◌∷◌, ◌++◌, arith, Dict, int_eq,
  string_eq, Option-cases, inl, inr, remove_first,
}
use debug_mcp.Prelude.Maps
use debug_mcp.Prelude.Maps.{Distinct}
use debug_mcp.Core.Types.{SourceBp, output}
use debug_mcp.Session.State.{BreakpointInfo}
use debug_mcp.Session.Output.{OutputEntry, Buffered, empty, append, drain}
use debug_mcp.Session.Output.Laws.{buffer_of, append-buffer_of, drain-buffer_of, empty-buffer_of}
use debug_mcp.Session.Pump.{pump_event}
use debug_mcp.Session.Manager.{
  SessionManager, fresh_inner, new, set_state, set_state_if_generation, reset, set_program, set_pid,
  set_dump, set_exit_code, note_exit, terminate_if_generation, set_last_stopped, set_frame_mapping,
  set_output,
}
use debug_mcp.Session.Manager.Tracking.{
  add_source_breakpoint, add_function_breakpoint, add_breakpoint_response, remove_breakpoint_by_id,
  add_pending_source_breakpoint, add_pending_function_breakpoint, flush_pending_breakpoints,
  untrack, extend_all, same_line, source_bp, remove_found, forget_response,
}
use debug_mcp.Session.Manager.Calls.{Call, apply, run}

-- The metadata stand under their own ids.
abbrev pub KeyedById : Dict ℤ BreakpointInfo → Type 0
KeyedById [] = Unit {0}
KeyedById ((k, info) ∷ m) = (info.id ≡ k) × KeyedById m

abbrev pub IsBuffer : Buffered → Type 0
IsBuffer b = (h : List OutputEntry) × (b ≡ buffer_of h)

pub record IsValid (s : SessionManager) : Type 0 where
  pub epoch : s.generation < 2 ^ 64
  pub responses : Distinct s.bp_responses
  pub keyed : KeyedById s.bp_responses
  pub sources : Distinct s.source_bps
  pub pending : Distinct s.pending_source_bps
  pub buffered : IsBuffer s.output

insert-KeyedById :
    (info : BreakpointInfo) (m : Dict ℤ BreakpointInfo)
    → KeyedById m
    → KeyedById (Maps.insert info.id info m)
unfolding Maps.insert
insert-KeyedById info [] h = (refl, tt)
insert-KeyedById info ((k, x) ∷ m) h = ground (arith, insert-KeyedById info m h.1)

remove-KeyedById : (id : ℤ) (m : Dict ℤ BreakpointInfo) → KeyedById m → KeyedById (Maps.remove id m)
unfolding Maps.remove
remove-KeyedById id [] h = tt
remove-KeyedById id ((k, x) ∷ m) h = ground (arith, remove-KeyedById id m h.1)

pub extend_all-Distinct :
    (p m : Dict String (List SourceBp)) → Distinct m → Distinct (extend_all p m)
unfolding extend_all
extend_all-Distinct [] m d = d
extend_all-Distinct ((file, bps) ∷ rest) m d =
    extend_all-Distinct rest _ (Maps.extend-Distinct file bps m d)

append-IsBuffer :
    (category text : String) (b : Buffered) → IsBuffer b → IsBuffer (append category text b)
append-IsBuffer category text b (h, e) = (
  h ++ record { category = category; text = text } ∷ [],
  ap (append category text) e ∙ append-buffer_of h category text,
)

drain-IsBuffer : (b : Buffered) → IsBuffer b → (drain b).1 ≡ empty
drain-IsBuffer b (h, e) = ap (λ x. (drain x).1) e ∙ ap (λ p. p.1) (drain-buffer_of h)

pub new-IsBuffer : IsBuffer empty
new-IsBuffer = ([], empty-buffer_of)

forget-IsValid : (id : ℤ) (s : SessionManager) → IsValid s → IsValid (forget_response id s)
unfolding forget_response
forget-IsValid id s v = ground (
  arith,
  remove-KeyedById id s.bp_responses v.keyed,
  Maps.remove-Distinct id s.bp_responses v.responses,
)

untrack-IsValid :
    (info : BreakpointInfo) (s : SessionManager) → IsValid s → IsValid (untrack info s).1
unfolding untrack
untrack-IsValid info s v =
    ground
      (arith, Maps.modify-Distinct info.file (remove_first (same_line info)) s.source_bps v.sources)

removes-IsValid :
    (id : ℤ) (s : SessionManager) → IsValid s → IsValid (remove_breakpoint_by_id id s).1
unfolding remove_breakpoint_by_id
removes-IsValid id s v = elim (Option-cases (Maps.get id s.bp_responses)) [
  | inl e ↦ rw (e, remove_found) v
  | inr (info, e) ↦ rw (e, remove_found) (forget-IsValid id _ (untrack-IsValid info s v))
]

apply-IsValid : (c : Call) (s : SessionManager) → IsValid s → IsValid (apply c s)
unfolding apply set_state set_state_if_generation reset set_program set_pid set_dump set_exit_code
    note_exit terminate_if_generation set_last_stopped set_frame_mapping set_output pump_event
    add_source_breakpoint add_function_breakpoint add_breakpoint_response
    add_pending_source_breakpoint add_pending_function_breakpoint flush_pending_breakpoints
apply-IsValid (Call.to_state st) s v = ground arith
apply-IsValid Call.resets s v = ground (arith, drain-IsBuffer s.output v.buffered, new-IsBuffer)
apply-IsValid (Call.to_state_if g st) s v = ground arith
apply-IsValid Call.drains s v = ground (arith, drain-IsBuffer s.output v.buffered, new-IsBuffer)
apply-IsValid (Call.event g (output category text)) s v =
    ground (arith, append-IsBuffer category text s.output v.buffered)
apply-IsValid (Call.adds_source file line condition) s v =
    ground (arith, Maps.extend-Distinct file (source_bp line condition ∷ []) s.source_bps v.sources)
apply-IsValid (Call.adds_response info) s v = ground (
  arith,
  Maps.insert-Distinct info.id info s.bp_responses v.responses,
  insert-KeyedById info s.bp_responses v.keyed,
)
apply-IsValid (Call.removes id) s v = removes-IsValid id s v
apply-IsValid (Call.pends_source file line condition) s v = ground (
  arith,
  Maps.extend-Distinct file (source_bp line condition ∷ []) s.pending_source_bps v.pending,
)
apply-IsValid Call.flushes s v =
    ground (arith, extend_all-Distinct s.pending_source_bps s.source_bps v.sources)
apply-IsValid _ s v = ground arith

-- Every sequence of calls on a valid session, the handlers' and the pumps' in any order, leaves it
-- valid: the epoch is below 2 ^ 64, the maps have distinct keys, the metadata stand under their own
-- ids, and the buffer is one that appends can leave.
pub run-IsValid : (cs : List Call) (s : SessionManager) → IsValid s → IsValid (run cs s)
unfolding run
run-IsValid [] s v = v
run-IsValid (c ∷ cs) s v = run-IsValid cs (apply c s) (apply-IsValid c s v)

pub new-IsValid : IsValid new
new-IsValid = record {
  epoch = omega arith;
  responses = tt;
  keyed = tt;
  sources = tt;
  pending = tt;
  buffered = new-IsBuffer;
}

-- In a valid session a reset leaves nothing of the old one but its epoch, one further modulo 2 ^ 64:
-- it is idle, tracks no breakpoint and has an empty output buffer.
pub reset-fresh :
    (s : SessionManager)
    → IsValid s
    → reset s ≡ record { inner = fresh_inner ((s.generation + 1) % 2 ^ 64); output = empty }
unfolding reset
reset-fresh s v = ground (arith, drain-IsBuffer s.output v.buffered)
