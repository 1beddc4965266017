-- ===== src/Tools/Frames/Cached.antt =====
-- Once a frame is resolved, it is resolved from the map.
use debug_mcp.Prelude.{
  ℤ, ◌∙◌, Option, some, List, [], ◌∷◌, Dict, if◌then◌else◌, ◌≡◌, refl, ap, arith, Result, ok, err,
  ◌==◌, int_eq,
}
use debug_mcp.Prelude.Maps
use debug_mcp.Core.Types.{Frame}
use debug_mcp.Core.Error.{BackendError}
use debug_mcp.Session.Manager.{SessionManager, set_frame_mapping}
use debug_mcp.Tools.Frames.{
  Lookup, known, asks, index_frames, lookup_frame, frame_resolved, finish_lookup,
}

-- The id of the last of the frames that has the index.
abbrev pub last_id : ℤ → List Frame → Option ℤ → Option ℤ
last_id i [] found = found
last_id i (f ∷ fs) found = last_id i fs (if f.index == i then some f.id else found)

pub get-index_frames :
    (i : ℤ) (fs : List Frame) (m : Dict ℤ ℤ)
    → Maps.get i (index_frames fs m) ≡ last_id i fs (Maps.get i m)
unfolding index_frames
get-index_frames i [] m = refl
get-index_frames i (f ∷ fs) m =
    get-index_frames i fs (Maps.insert f.index f.id m)
    ∙ ap (last_id i fs) (Maps.get-insert f.index i f.id m)

resolved_hit :
    (i id : ℤ) (reply : Result BackendError (List Frame × ℤ)) (s : SessionManager)
    → (frame_resolved i reply s).0 ≡ ok id
    → lookup_frame i (frame_resolved i reply s).1 ≡ known id
unfolding frame_resolved lookup_frame set_frame_mapping
resolved_hit i id (err e) s h = ground arith
resolved_hit i id (ok (frames, total)) s h = ground arith

finish_hit :
    (stack_trace : ℤ → Result BackendError (List Frame × ℤ)) (i id : ℤ) (l : Lookup)
    (s : SessionManager)
    → lookup_frame i s ≡ l
    → (finish_lookup stack_trace i l s).0 ≡ ok id
    → lookup_frame i (finish_lookup stack_trace i l s).1 ≡ known id
unfolding finish_lookup
finish_hit stack_trace i id (known j) s e h = ground arith
finish_hit stack_trace i id (asks tid) s e h = resolved_hit i id (stack_trace tid) s h

-- A frame index that was resolved to an id, from the map or by a stack trace, is known with that id
-- in the session that the resolution leaves.
finish_lookup-cached :
    (stack_trace : ℤ → Result BackendError (List Frame × ℤ)) (i id : ℤ) (s : SessionManager)
    → (finish_lookup stack_trace i (lookup_frame i s) s).0 ≡ ok id
    → lookup_frame i (finish_lookup stack_trace i (lookup_frame i s) s).1 ≡ known id
finish_lookup-cached stack_trace i id s h = finish_hit stack_trace i id (lookup_frame i s) s refl h
