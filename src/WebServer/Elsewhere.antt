-- ===== src/WebServer/Elsewhere.antt =====
-- What each operation on another camera leaves of a camera (cam_reverse/http_server.py).
use cam_reverse_py.Base.{
  ℕ, ◌≡◌, refl, ap, ◌∙◌, subst, inl, inr, arith, Bool, false, Bool-cases, List, [], ◌∷◌, ◌++◌, Text,
  Option, none, some, Result, ok, err, bind, or_raise, key_error, text_eq, ◌==◌, ==_iff,
}
use cam_reverse_py.Base.Tables.{find, insert, find-insert_other}
use cam_reverse_py.DataView.{Bytes}
use cam_reverse_py.Settings.{Fields}
use cam_reverse_py.State.{DevSerial}
use cam_reverse_py.WebServer.{Camera, Server, set_queue}
use cam_reverse_py.WebServer.Streams.{
  pop_chunk, Refusal, open_unless, with_new, leave, set_video, set_audio, take_out,
}
use cam_reverse_py.WebServer.Cameras.{
  on_discover, discover_unless, finish_discover, registered, attach, with_config, configured,
}
use cam_reverse_py.WebServer.Queues.{is_listed}
use cam_reverse_py.WebServer.Calls.{Call, Loose, on_camera, on_loose}
use cam_reverse_py.WebServer.Shares.{
  share, share_same, IsOf, IsOf-owner, listed, run_on-elsewhere, called-elsewhere,
}
use cam_reverse_py.WebServer.InOrder.{AllInOrder-amid}
use cam_reverse_py.WebServer.Steps.{told_of}
use cam_reverse_py.WebServer.Invariant.{HasOwners, IsSystem}

pub call-share :
    (dev_id other : Text) (clock : ℕ → ℕ) (call : Call) (w : Server)
    → text_eq other dev_id ≡ false
    → HasOwners w
    → share dev_id (on_camera other clock call w).1 ≡ share dev_id w
unfolding on_camera
call-share dev_id other clock call w d (owner, s) =
    called-elsewhere owner other dev_id clock call w (find other w.sessions) refl s d

pub call_loose-share :
    (dev_id other : Text) (c : Camera) (clock : ℕ → ℕ) (call : Call) (w : Server)
    (before after : Loose)
    → text_eq other dev_id ≡ false
    → IsSystem (w, before ++ (other, c) ∷ after)
    → share dev_id (on_loose other c clock call w).app ≡ share dev_id w
call_loose-share dev_id other c clock call w before after d ((owner, s), a) =
    run_on-elsewhere owner other dev_id clock call c w (AllInOrder-amid before other c after a) s d

finish-share :
    (dev_id ip : Text) (port : ℕ) (dev : DevSerial) (w : Server) (r : Result (Fields × Bool))
    → text_eq dev.dev_id dev_id ≡ false
    → share dev_id (finish_discover dev ip port (registered dev ip port w) r).1 ≡ share dev_id w
finish-share dev_id ip port dev w (err e) d =
    share_same dev_id w (registered dev ip port w)
      (find-insert_other dev_id dev.dev_id _ w.sessions d)
      (find-insert_other dev_id dev.dev_id [] w.video_queues d)
      (find-insert_other dev_id dev.dev_id [] w.audio_queues d) (λ k l. refl)
finish-share dev_id ip port dev w (ok (config, sound)) d =
    let known = registered dev ip port w in
    share_same dev_id w (attach dev ip port sound (with_config config known))
      (find-insert_other dev_id dev.dev_id _ known.sessions d
        ∙ find-insert_other dev_id dev.dev_id _ w.sessions d)
      (find-insert_other dev_id dev.dev_id [] w.video_queues d)
      (find-insert_other dev_id dev.dev_id [] w.audio_queues d) (λ k l. refl)

pub discover-share :
    (dev_id ip : Text) (port : ℕ) (dev : DevSerial) (w : Server) (o : Option Camera)
    → text_eq dev.dev_id dev_id ≡ false
    → share dev_id (discover_unless o dev ip port w).1 ≡ share dev_id w
discover-share dev_id ip port dev w (some c) d = refl
discover-share dev_id ip port dev w none d =
    finish-share dev_id ip port dev w (configured w.store.config dev.dev_id) d

pub hear-share :
    (dev_id ip : Text) (port : ℕ) (w : Server) (r : Result (Option DevSerial))
    → ((dev : DevSerial) → r ≡ ok (some dev) → text_eq dev.dev_id dev_id ≡ false)
    → share dev_id (told_of ip port r w) ≡ share dev_id w
unfolding on_discover
hear-share dev_id ip port w (err e) d = refl
hear-share dev_id ip port w (ok none) d = refl
hear-share dev_id ip port w (ok (some dev)) d =
    discover-share dev_id ip port dev w (find dev.dev_id w.sessions) (d dev refl)

-- The queues of a camera are not the next new one.
old_queue :
    (dev_id : Text) (w : Server)
    → HasOwners w
    → (k : ℕ) → IsOf dev_id w k
    → (with_new w).queue k ≡ w.queue k
old_queue dev_id w (owner, s) k mine =
    let below = (IsOf-owner owner dev_id w k s mine).1 in
    let other : (k == w.next_queue) ≡ false = ground (arith, below) in rw other refl

pub open_video-share :
    (dev_id other : Text) (w : Server) (r : Option Refusal) (o : Option (List ℕ))
    → text_eq other dev_id ≡ false
    → HasOwners w
    → share dev_id
        (open_unless r w set_video (
          bind
            (λ qs. ok (insert other (qs ++ w.next_queue ∷ []) w.video_queues))
            (or_raise o key_error))).1
      ≡ share dev_id w
open_video-share dev_id other w (some r) o d h = refl
open_video-share dev_id other w none none d h =
    share_same dev_id w (with_new w) refl refl refl (old_queue dev_id w h)
open_video-share dev_id other w none (some qs) d h =
    share_same dev_id w
      (set_video (insert other (qs ++ w.next_queue ∷ []) w.video_queues) (with_new w)) refl
      (find-insert_other dev_id other (qs ++ w.next_queue ∷ []) w.video_queues d) refl
      (old_queue dev_id w h)

pub open_audio-share :
    (dev_id other : Text) (w : Server) (r : Option Refusal) (o : Option (List ℕ))
    → text_eq other dev_id ≡ false
    → HasOwners w
    → share dev_id
        (open_unless r w set_audio (
          bind
            (λ qs. ok (insert other (qs ++ w.next_queue ∷ []) w.audio_queues))
            (or_raise o key_error))).1
      ≡ share dev_id w
open_audio-share dev_id other w (some r) o d h = refl
open_audio-share dev_id other w none none d h =
    share_same dev_id w (with_new w) refl refl refl (old_queue dev_id w h)
open_audio-share dev_id other w none (some qs) d h =
    share_same dev_id w
      (set_audio (insert other (qs ++ w.next_queue ∷ []) w.audio_queues) (with_new w)) refl refl
      (find-insert_other dev_id other (qs ++ w.next_queue ∷ []) w.audio_queues d)
      (old_queue dev_id w h)

pub gets-share :
    (dev_id : Text) (q : ℕ) (waiting : List Bytes) (w v : Server) (chunk : Bytes)
    → pop_chunk q waiting w ≡ some (chunk, v)
    → is_listed q (listed (find dev_id w.video_queues)) ≡ false
    → is_listed q (listed (find dev_id w.audio_queues)) ≡ false
    → share dev_id v ≡ share dev_id w
gets-share dev_id q [] w v chunk e a b = absurd (ground arith)
gets-share dev_id q (c ∷ cs) w v chunk e a b =
    subst (λ u. share dev_id u ≡ share dev_id w) (ap (popped w) e)
      (share_same dev_id w (record w { queue = set_queue q cs w.queue }) refl refl refl kept)
  where
    popped : Server → Option (Bytes × Server) → Server
    popped u none = u
    popped u (some (d, u')) = u'

    kept : (k : ℕ) → IsOf dev_id w k → set_queue q cs w.queue k ≡ w.queue k
    kept k mine = elim (Bool-cases (k == q)) [
      | inl f ↦ absurd (
          let same : k ≡ q = (==_iff k q).0 f in
          ground (arith, subst (IsOf dev_id w) same mine, a, b))
      | inr f ↦ rw f refl
    ]

pub close_video-share :
    (dev_id other : Text) (q : ℕ) (w : Server) (o : Option (List ℕ))
    → text_eq other dev_id ≡ false
    → share dev_id
        (leave w set_video (
          bind
            (λ qs. bind (λ rest. ok (insert other rest w.video_queues)) (take_out q qs))
            (or_raise o key_error))).1
      ≡ share dev_id w
close_video-share dev_id other q w none d = refl
close_video-share dev_id other q w (some qs) d = taken (take_out q qs)
  where
    taken :
        (r : Result (List ℕ))
        → share dev_id
            (leave w set_video (bind (λ rest. ok (insert other rest w.video_queues)) r)).1
          ≡ share dev_id w
    taken (err e) = refl
    taken (ok rest) =
        share_same dev_id w (set_video (insert other rest w.video_queues) w) refl
          (find-insert_other dev_id other rest w.video_queues d) refl (λ k l. refl)

pub close_audio-share :
    (dev_id other : Text) (q : ℕ) (w : Server) (o : Option (List ℕ))
    → text_eq other dev_id ≡ false
    → share dev_id
        (leave w set_audio (
          bind
            (λ qs. bind (λ rest. ok (insert other rest w.audio_queues)) (take_out q qs))
            (or_raise o key_error))).1
      ≡ share dev_id w
close_audio-share dev_id other q w none d = refl
close_audio-share dev_id other q w (some qs) d = taken (take_out q qs)
  where
    taken :
        (r : Result (List ℕ))
        → share dev_id
            (leave w set_audio (bind (λ rest. ok (insert other rest w.audio_queues)) r)).1
          ≡ share dev_id w
    taken (err e) = refl
    taken (ok rest) =
        share_same dev_id w (set_audio (insert other rest w.audio_queues) w) refl refl
          (find-insert_other dev_id other rest w.audio_queues d) (λ k l. refl)
