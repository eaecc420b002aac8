-- ===== src/WebServer/Clients.antt =====
-- How the clients of the streams keep what holds of the server's tables (cam_reverse/http_server.py).
use cam_reverse_py.Base.{
  ℕ, suc, ◌≡◌, refl, ap, subst, arith, true, false, Bool-cases, inl, inr, List, [], ◌∷◌, ◌++◌, Text,
  Option, none, some, length, ◌≤◌, ◌==◌, ==_iff, Result, ok, err, or_raise, bind, key_error,
}
use cam_reverse_py.Base.Tables.{find, insert}
use cam_reverse_py.DataView.{Bytes}
use cam_reverse_py.WebServer.{Server, set_queue}
use cam_reverse_py.WebServer.Streams.{
  Refusal, open_unless, set_video, set_audio, leave, take_out, pop_chunk,
}
use cam_reverse_py.WebServer.Keeps.{open_video-IsServed, open_audio-IsServed}
use cam_reverse_py.WebServer.Tables.{Covers-insert}
use cam_reverse_py.WebServer.Ownership.{
  Owner, AllOwn-insert, Owns-take_out, AllOwn-shrink, with_owner, Owns-new, AllOwn-new,
}
use cam_reverse_py.WebServer.Sound.{IsSound}

-- A client comes: its queue is a new one.
pub open_video-IsSound :
    (owner : Owner) (r : Option Refusal) (dev_id : Text) (o : Option (List ℕ)) (w : Server)
    → find dev_id w.video_queues ≡ o
    → IsSound owner w
    → (owner' : Owner) × IsSound owner'
        (open_unless r w set_video (
          bind
            (λ qs. ok (insert dev_id (qs ++ w.next_queue ∷ []) w.video_queues))
            (or_raise o key_error))).1
open_video-IsSound owner (some r) dev_id o w h s = (owner, s)
open_video-IsSound owner none dev_id none w h s = (
  with_owner owner w.next_queue true dev_id,
  (
    s.0,
    s.1,
    AllOwn-new owner true true w.next_queue w.queue dev_id w.video_queues s.2,
    AllOwn-new owner true false w.next_queue w.queue dev_id w.audio_queues s.3,
  ),
)
open_video-IsSound owner none dev_id (some qs) w h s =
    let owner' = with_owner owner w.next_queue true dev_id in
    (
      owner',
      (
        open_video-IsServed none dev_id (some qs) w s.0,
        s.1,
        AllOwn-insert owner' true (suc w.next_queue) (set_queue w.next_queue [] w.queue) dev_id
            (qs ++ w.next_queue ∷ []) w.video_queues
            (Owns-new owner true w.next_queue w.queue dev_id qs (s.2 dev_id qs h))
            (AllOwn-new owner true true w.next_queue w.queue dev_id w.video_queues s.2),
        AllOwn-new owner true false w.next_queue w.queue dev_id w.audio_queues s.3,
      ),
    )

pub open_audio-IsSound :
    (owner : Owner) (r : Option Refusal) (dev_id : Text) (o : Option (List ℕ)) (w : Server)
    → find dev_id w.audio_queues ≡ o
    → IsSound owner w
    → (owner' : Owner) × IsSound owner'
        (open_unless r w set_audio (
          bind
            (λ qs. ok (insert dev_id (qs ++ w.next_queue ∷ []) w.audio_queues))
            (or_raise o key_error))).1
open_audio-IsSound owner (some r) dev_id o w h s = (owner, s)
open_audio-IsSound owner none dev_id none w h s = (
  with_owner owner w.next_queue false dev_id,
  (
    s.0,
    s.1,
    AllOwn-new owner false true w.next_queue w.queue dev_id w.video_queues s.2,
    AllOwn-new owner false false w.next_queue w.queue dev_id w.audio_queues s.3,
  ),
)
open_audio-IsSound owner none dev_id (some qs) w h s =
    let owner' = with_owner owner w.next_queue false dev_id in
    (
      owner',
      (
        open_audio-IsServed none dev_id (some qs) w s.0,
        s.1,
        AllOwn-new owner false true w.next_queue w.queue dev_id w.video_queues s.2,
        AllOwn-insert owner' false (suc w.next_queue) (set_queue w.next_queue [] w.queue) dev_id
            (qs ++ w.next_queue ∷ []) w.audio_queues
            (Owns-new owner false w.next_queue w.queue dev_id qs (s.3 dev_id qs h))
            (AllOwn-new owner false false w.next_queue w.queue dev_id w.audio_queues s.3),
      ),
    )

-- A chunk is taken.
pub gets-IsSound :
    (owner : Owner) (q : ℕ) (held : List Bytes) (w v : Server) (chunk : Bytes)
    → w.queue q ≡ held
    → pop_chunk q held w ≡ some (chunk, v)
    → IsSound owner w
    → IsSound owner v
gets-IsSound owner q [] w v chunk h e s = absurd (ground arith)
gets-IsSound owner q (c ∷ cs) w v chunk h e s = subst (IsSound owner) (ap (popped w) e) (
  s.0,
  s.1,
  AllOwn-shrink owner true w.next_queue w.queue (set_queue q cs w.queue) w.video_queues shorter s.2,
  AllOwn-shrink owner false w.next_queue w.queue (set_queue q cs w.queue) w.audio_queues shorter
      s.3,
)
  where
    popped : Server → Option (Bytes × Server) → Server
    popped u none = u
    popped u (some (d, u')) = u'

    shorter : (k : ℕ) → length (set_queue q cs w.queue k) ≤ length (w.queue k)
    shorter k = elim (Bool-cases (k == q)) [
      | inl f ↦
          (let same : k ≡ q = (==_iff k q).0 f in
            rw f (omega (arith, ap length h, ap (λ j. length (w.queue j)) same)))
      | inr f ↦ rw f (omega arith)
    ]

-- A client goes.
pub close_video-IsSound :
    (owner : Owner) (dev_id : Text) (q : ℕ) (o : Option (List ℕ)) (w : Server)
    → find dev_id w.video_queues ≡ o
    → IsSound owner w
    → IsSound owner
        (leave w set_video (
          bind
            (λ qs. bind (λ rest. ok (insert dev_id rest w.video_queues)) (take_out q qs))
            (or_raise o key_error))).1
close_video-IsSound owner dev_id q none w h s = s
close_video-IsSound owner dev_id q (some qs) w h s = taken (take_out q qs) refl
  where
    taken :
        (r : Result (List ℕ))
        → take_out q qs ≡ r
        → IsSound owner
            (leave w set_video (bind (λ rest. ok (insert dev_id rest w.video_queues)) r)).1
    taken (err e) f = s
    taken (ok rest) f = (
      (Covers-insert dev_id rest w.sessions w.video_queues s.0.0, s.0.1),
      s.1,
      AllOwn-insert owner true w.next_queue w.queue dev_id rest w.video_queues
          (Owns-take_out owner true w.next_queue w.queue q dev_id qs rest f (s.2 dev_id qs h)) s.2,
      s.3,
    )

pub close_audio-IsSound :
    (owner : Owner) (dev_id : Text) (q : ℕ) (o : Option (List ℕ)) (w : Server)
    → find dev_id w.audio_queues ≡ o
    → IsSound owner w
    → IsSound owner
        (leave w set_audio (
          bind
            (λ qs. bind (λ rest. ok (insert dev_id rest w.audio_queues)) (take_out q qs))
            (or_raise o key_error))).1
close_audio-IsSound owner dev_id q none w h s = s
close_audio-IsSound owner dev_id q (some qs) w h s = taken (take_out q qs) refl
  where
    taken :
        (r : Result (List ℕ))
        → take_out q qs ≡ r
        → IsSound owner
            (leave w set_audio (bind (λ rest. ok (insert dev_id rest w.audio_queues)) r)).1
    taken (err e) f = s
    taken (ok rest) f = (
      (s.0.0, Covers-insert dev_id rest w.sessions w.audio_queues s.0.1),
      s.1,
      s.2,
      AllOwn-insert owner false w.next_queue w.queue dev_id rest w.audio_queues
          (Owns-take_out owner false w.next_queue w.queue q dev_id qs rest f (s.3 dev_id qs h)) s.3,
    )
