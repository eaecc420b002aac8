-- ===== src/WebServer/Snapshot.antt =====
-- Which frame a snapshot shows (`_handle_snapshot` of cam_reverse/http_server.py).
use cam_reverse_py.Base.{
  ℕ, ◌≡◌, refl, ap, ◌∙◌, true, Bool-cases, inl, inr, List, [], ◌∷◌, Text, Option, none, some,
  Result, ok, err,
}
use cam_reverse_py.Base.Tables.{find}
use cam_reverse_py.DataView.{Bytes}
use cam_reverse_py.State.{State}
use cam_reverse_py.WebServer.{Camera, Server}
use cam_reverse_py.WebServer.Frame.{assemble_frame}
use cam_reverse_py.WebServer.Streams.{on_frame}
use cam_reverse_py.WebServer.Pages.{
  Future, Page, jpeg, failed, is_reached, on_frame_once, emit_frame, wait_for, answer_snapshot,
  handle_snapshot,
}

-- The picture of a frame, where it can be assembled and the camera has its list of clients.
abbrev pub shown : Result Bytes → Option (List ℕ) → Page → Page
shown (ok picture) (some qs) later = jpeg picture
shown (ok picture) none later = later
shown (err e) o later = later

-- The first frame that can be shown, or none in time.
abbrev pub first_shown : Text → List (State Server) → Page
first_shown dev_id [] = failed 504
first_shown dev_id (s ∷ frames) =
    shown (assemble_frame s.config dev_id s.session) (find dev_id s.app.video_queues)
      (first_shown dev_id frames)

abbrev kept : Result Bytes → Option (List ℕ) → Future
kept (ok picture) (some qs) = some (ok picture)
kept (ok picture) none = none
kept (err e) o = none

wait_for-done :
    (dev_id : Text) (frames : List (State Server)) (r : Result Bytes)
    → wait_for dev_id true frames (some r) ≡ some r
unfolding wait_for emit_frame on_frame_once
wait_for-done dev_id [] r = refl
wait_for-done dev_id (s ∷ frames) r = elim (Bool-cases (is_reached true (on_frame dev_id s).0)) [
  | inl e ↦ rw e (wait_for-done dev_id frames r)
  | inr e ↦ rw e (wait_for-done dev_id frames r)
]

emit_frame_lem :
    (dev_id : Text) (s : State Server) (r : Result Bytes) (o : Option (List ℕ))
    → assemble_frame s.config dev_id s.session ≡ r
    → find dev_id s.app.video_queues ≡ o
    → emit_frame dev_id true s none ≡ kept r o
unfolding emit_frame on_frame on_frame_once
emit_frame_lem dev_id s (ok picture) (some qs) a f = rw (a, f) refl
emit_frame_lem dev_id s (ok picture) none a f = rw (a, f) refl
emit_frame_lem dev_id s (err e) o a f = rw a refl

wait_for_lem :
    (dev_id : Text) (frames : List (State Server))
    → answer_snapshot (wait_for dev_id true frames none) ≡ first_shown dev_id frames
unfolding wait_for
wait_for_lem dev_id [] = refl
wait_for_lem dev_id (s ∷ frames) =
    let r = assemble_frame s.config dev_id s.session in
    let o = find dev_id s.app.video_queues in
    ap (λ fut. answer_snapshot (wait_for dev_id true frames fut))
      (emit_frame_lem dev_id s r o refl refl)
    ∙ answered (first_shown dev_id frames) (wait_for_lem dev_id frames) r o
  where
    answered :
        (later : Page)
        → answer_snapshot (wait_for dev_id true frames none) ≡ later
        → (r : Result Bytes) (o : Option (List ℕ))
        → answer_snapshot (wait_for dev_id true frames (kept r o)) ≡ shown r o later
    answered later h (ok picture) (some qs) =
        ap answer_snapshot (wait_for-done dev_id frames (ok picture))
    answered later h (ok picture) none = h
    answered later h (err e) o = h

-- For a camera that is online and whose frames are listened to, a snapshot is the picture of the first frame
-- within the ten seconds that can be assembled and for which the camera has its list of clients. If there is
-- none, the answer is 504, also where frames came that cannot be assembled.
pub handle_snapshot_lem :
    (dev_id : Text) (frames : List (State Server)) (w : Server) (c : Camera)
    → find dev_id w.sessions ≡ some c
    → c.session.connected ≡ true
    → c.hears_frames ≡ true
    → handle_snapshot dev_id frames w ≡ first_shown dev_id frames
unfolding handle_snapshot
handle_snapshot_lem dev_id frames w c e up hears = rw (e, up, hears) (wait_for_lem dev_id frames)
