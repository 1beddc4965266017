-- ===== src/Tools/Frames.antt =====
-- crates/mcp-tools/src/frame.rs: from the index of a frame, as the user counts, to the id that the
-- backend gave it. Without the index in the map, the handler waits for an implicit stack trace.
pub mod Cached
use debug_mcp.Prelude.{
  ℕ, ℤ, String, Option, none, some, List, [], ◌∷◌, Dict, length, Result, ok, err, int_eq,
}
use debug_mcp.Prelude.Text.{◌<>◌, show_ℕ, show_ℤ}
use debug_mcp.Prelude.Maps
use debug_mcp.Core.Types.{Frame}
use debug_mcp.Core.Error.{
  BackendError, detect, spawn, send, protocol, dap, closed, timeout, unsupported, display,
}
use debug_mcp.Session.Manager.{SessionManager, set_frame_mapping}
use debug_mcp.Tools.Errors.{strip_after, type_label}
use debug_mcp.Tools.Execution.{last_thread}

implicit_request_failed : String → String
implicit_request_failed m = "implicit stackTrace request failed: " <> m

unfoldable pub map_implicit_dap : String → String
unfolding strip_after implicit_request_failed
map_implicit_dap message = elim (strip_after message " request failed: ") [
  | some inner ↦ implicit_request_failed inner
  | none ↦ elim (strip_after message " failed: ") [
    | some inner ↦ "implicit stackTrace failed: " <> inner
    | none ↦ message
  ]
]

unfoldable pub map_implicit_error : BackendError → String
unfolding map_implicit_dap implicit_request_failed type_label display
map_implicit_error (send inner) = implicit_request_failed inner
map_implicit_error closed = implicit_request_failed "connection closed"
map_implicit_error timeout = implicit_request_failed "operation timed out"
map_implicit_error (detect m) = implicit_request_failed m
map_implicit_error (spawn m) = implicit_request_failed m
map_implicit_error (protocol ty) = "unexpected stackTrace response type: " <> type_label ty
map_implicit_error (dap message) = map_implicit_dap message
map_implicit_error (unsupported tool) = implicit_request_failed (display (unsupported tool))

-- The loop that fills the map: a later frame replaces an earlier one of its index.
unfoldable pub index_frames : List Frame → Dict ℤ ℤ → Dict ℤ ℤ
unfolding Maps.insert
index_frames [] m = m
index_frames (f ∷ fs) m = index_frames fs (Maps.insert f.index f.id m)

-- What `resolve_frame_id` does first: a hit, or the thread whose stack it asks for.
pub data Lookup : Type 0 where
  known : ℤ → Lookup
  asks : ℤ → Lookup

unfoldable pub lookup_frame : ℤ → SessionManager → Lookup
unfolding Maps.get
lookup_frame frame_index s = elim (Maps.get frame_index s.frame_mapping) [
  | some id ↦ known id
  | none ↦ asks (last_thread s)
]

unfoldable pub out_of_range : ℤ → ℕ → String
unfolding show_ℕ show_ℤ
out_of_range frame_index count =
    "frame index "
    <> show_ℤ frame_index
    <> " out of range (stack has "
    <> show_ℕ count
    <> " frames)"

-- Behind the stack trace.
unfoldable pub frame_resolved :
    ℤ → Result BackendError (List Frame × ℤ) → SessionManager → Result String ℤ × SessionManager
unfolding map_implicit_error index_frames set_frame_mapping Maps.get out_of_range
frame_resolved frame_index (err e) s = (err (map_implicit_error e), s)
frame_resolved frame_index (ok (frames, total)) s =
    let mapping = index_frames frames [] in
    (
      elim (Maps.get frame_index mapping) [
        | some id ↦ ok id
        | none ↦ err (out_of_range frame_index (length frames))
      ],
      set_frame_mapping mapping s,
    )

-- The part of `resolve_frame_id` behind the look-up, the stack trace being a function of the thread.
unfoldable pub finish_lookup :
    (ℤ → Result BackendError (List Frame × ℤ))
    → ℤ
    → Lookup
    → SessionManager
    → Result String ℤ × SessionManager
unfolding frame_resolved
finish_lookup stack_trace frame_index (known id) s = (ok id, s)
finish_lookup stack_trace frame_index (asks thread_id) s =
    frame_resolved frame_index (stack_trace thread_id) s
