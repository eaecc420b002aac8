-- ===== src/WebServer/Keeps.antt =====
-- What each operation of the server does to its tables.
use cam_reverse_py.Base.{
  ℕ, ◌≡◌, Bool, List, [], ◌∷◌, ◌++◌, Text, Option, none, some, Result, ok, err, or_raise, bind,
  key_error,
}
use cam_reverse_py.Base.Tables.{find, insert}
use cam_reverse_py.Settings.{Fields}
use cam_reverse_py.State.{Session, DevSerial}
use cam_reverse_py.WebServer.{Camera, Server}
use cam_reverse_py.WebServer.Streams.{Refusal, open_unless, leave, set_video, set_audio, take_out}
use cam_reverse_py.WebServer.Cameras.{keep_session, discover_unless, finish_discover, registered}
use cam_reverse_py.WebServer.Tables.{
  Has-insert_same, Covers, Covers-insert, Covers-keep, Covers-both,
}

-- Every camera with a session has a list of video and one of audio queues.
abbrev pub IsServed : Server → Type 0
IsServed w = Covers w.sessions w.video_queues × Covers w.sessions w.audio_queues

pub finish-IsServed :
    (dev : DevSerial) (ip : Text) (port : ℕ) (w : Server) (r : Result (Fields × Bool))
    → IsServed w
    → IsServed (finish_discover dev ip port (registered dev ip port w) r).1
finish-IsServed dev ip port w (err e) s = (
  Covers-both dev.dev_id _ [] w.sessions w.video_queues s.0,
  Covers-both dev.dev_id _ [] w.sessions w.audio_queues s.1,
)
finish-IsServed dev ip port w (ok (config, sound)) s = (
  Covers-keep dev.dev_id _ _ _ (Has-insert_same dev.dev_id [] w.video_queues)
      (Covers-both dev.dev_id _ [] w.sessions w.video_queues s.0),
  Covers-keep dev.dev_id _ _ _ (Has-insert_same dev.dev_id [] w.audio_queues)
      (Covers-both dev.dev_id _ [] w.sessions w.audio_queues s.1),
)

pub discover-IsServed :
    (o : Option Camera) (dev : DevSerial) (ip : Text) (port : ℕ) (w : Server)
    → IsServed w
    → IsServed (discover_unless o dev ip port w).1
discover-IsServed (some c) dev ip port w s = s
discover-IsServed none dev ip port w s = finish-IsServed dev ip port w _ s

pub open_video-IsServed :
    (r : Option Refusal) (dev_id : Text) (o : Option (List ℕ)) (w : Server)
    → IsServed w
    → IsServed
        (open_unless r w set_video (
          bind
            (λ qs. ok (insert dev_id (qs ++ w.next_queue ∷ []) w.video_queues))
            (or_raise o key_error))).1
open_video-IsServed (some r) dev_id o w s = s
open_video-IsServed none dev_id none w s = s
open_video-IsServed none dev_id (some qs) w s =
    (Covers-insert dev_id _ w.sessions w.video_queues s.0, s.1)

pub open_audio-IsServed :
    (r : Option Refusal) (dev_id : Text) (o : Option (List ℕ)) (w : Server)
    → IsServed w
    → IsServed
        (open_unless r w set_audio (
          bind
            (λ qs. ok (insert dev_id (qs ++ w.next_queue ∷ []) w.audio_queues))
            (or_raise o key_error))).1
open_audio-IsServed (some r) dev_id o w s = s
open_audio-IsServed none dev_id none w s = s
open_audio-IsServed none dev_id (some qs) w s =
    (s.0, Covers-insert dev_id _ w.sessions w.audio_queues s.1)

pub close_video-IsServed :
    (dev_id : Text) (q : ℕ) (o : Option (List ℕ)) (w : Server)
    → IsServed w
    → IsServed
        (leave w set_video (
          bind
            (λ qs. bind (λ rest. ok (insert dev_id rest w.video_queues)) (take_out q qs))
            (or_raise o key_error))).1
close_video-IsServed dev_id q none w s = s
close_video-IsServed dev_id q (some qs) w s = taken (take_out q qs)
  where
    taken :
        (r : Result (List ℕ))
        → IsServed (leave w set_video (bind (λ rest. ok (insert dev_id rest w.video_queues)) r)).1
    taken (err e) = s
    taken (ok rest) = (Covers-insert dev_id rest w.sessions w.video_queues s.0, s.1)

pub close_audio-IsServed :
    (dev_id : Text) (q : ℕ) (o : Option (List ℕ)) (w : Server)
    → IsServed w
    → IsServed
        (leave w set_audio (
          bind
            (λ qs. bind (λ rest. ok (insert dev_id rest w.audio_queues)) (take_out q qs))
            (or_raise o key_error))).1
close_audio-IsServed dev_id q none w s = s
close_audio-IsServed dev_id q (some qs) w s = taken (take_out q qs)
  where
    taken :
        (r : Result (List ℕ))
        → IsServed (leave w set_audio (bind (λ rest. ok (insert dev_id rest w.audio_queues)) r)).1
    taken (err e) = s
    taken (ok rest) = (s.0, Covers-insert dev_id rest w.sessions w.audio_queues s.1)

pub changes-IsServed :
    (dev_id : Text) (t : Session) (o : Option Camera) (w : Server)
    → find dev_id w.sessions ≡ o
    → IsServed w
    → IsServed (keep_session dev_id t o w)
changes-IsServed dev_id t none w e s = s
changes-IsServed dev_id t (some c) w e s = (
  Covers-keep dev_id _ w.sessions _ (s.0 dev_id (c, e)) s.0,
  Covers-keep dev_id _ w.sessions _ (s.1 dev_id (c, e)) s.1,
)
