-- ===== src/WebServer/Delivery.antt =====
-- How a frame reaches the clients, and what becomes of the clients of a camera that is found again.
use cam_reverse_py.Base.{
  ◌⊎◌, inl, inr, Bool-cases, ltb, ltb→lt, false, ℕ, zero, suc, ◌<◌, ◌≡◌, refl, ap, ◌∙◌, arith, Bool,
  true, List, [], ◌∷◌, ◌++◌, Text, Option, none, some, length, length-append, lt→ltb, ==_refl,
  Result, ok, err, value_error,
}
use cam_reverse_py.Base.Tables.{find, find-insert}
use cam_reverse_py.DataView.{Bytes}
use cam_reverse_py.Settings.{Fields}
use cam_reverse_py.State.{State, DevSerial}
use cam_reverse_py.Settings.Files.{Store}
use cam_reverse_py.WebServer.{Server, set_queue, put_all, video_size}
use cam_reverse_py.WebServer.Frame.{assemble_frame, frame_chunk}
use cam_reverse_py.WebServer.Queues.{is_listed, NoneTwice, put_all_lem}
use cam_reverse_py.WebServer.Streams.{on_frame, next_chunk, pop_chunk, close_video, remove_queue}
use cam_reverse_py.WebServer.Steps.{Reached}
use cam_reverse_py.WebServer.Invariant.{Reached-HasOwners}
use cam_reverse_py.WebServer.Cameras.{on_discover, finish_discover, registered}

-- A chunk, and what the rest of the loop writes.
abbrev pub written : (Server → List Bytes) → Option (Bytes × Server) → List Bytes
written rest none = []
written rest (some (chunk, v)) = chunk ∷ rest v

-- The chunks that so many rounds of the loop over a queue write; it waits when the queue is empty.
unfoldable pub delivered : ℕ → ℕ → Server → List Bytes
delivered zero q w = []
delivered (suc n) q w = written (delivered n q) (next_chunk q w)

delivered_lem :
    (cs : List Bytes) (q : ℕ) (w : Server) → w.queue q ≡ cs → delivered (length cs) q w ≡ cs
unfolding delivered next_chunk
delivered_lem [] q w e = refl
delivered_lem (c ∷ cs) q w e =
    ap (λ l. written (delivered (length cs) q) (pop_chunk q l w)) e
    ∙ (ap (λ l. c ∷ l)
        (delivered_lem cs q (record w { queue = set_queue q cs w.queue }) (rw (==_refl q) refl)))

pub put_all-delivered :
    (size : ℕ) (chunk : Bytes) (qs : List ℕ) (q : ℕ) (w : Server)
    → NoneTwice qs
    → is_listed q qs ≡ true
    → length (w.queue q) < size
    → delivered (suc (length (w.queue q))) q (record w { queue = put_all size chunk qs w.queue })
      ≡ w.queue q ++ chunk ∷ []
put_all-delivered size chunk qs q w d l room =
    let v = record w { queue = put_all size chunk qs w.queue } in
    let less = lt→ltb (length (w.queue q)) size room in
    let held : v.queue q ≡ w.queue q ++ chunk ∷ [] =
      put_all_lem size chunk qs w.queue q d ∙ rw (l, less) refl in
    ap (λ n. delivered n q v) (omega (arith, length-append (w.queue q) (chunk ∷ [])))
    ∙ delivered_lem (w.queue q ++ chunk ∷ []) q v held

-- Whatever has happened to a server since its start, a frame that can be assembled goes into a queue
-- of its camera where fewer than ten chunks wait, and its client gets the chunks that waited there first and the
-- frame next. Otherwise exactly ten chunks wait, and the queue is left as it is, so that its client misses the frame. A
-- queue that is not the camera's is left alone.
pub Reach-on_frame :
    (ips : List Text) (store : Store) (dev_id : Text) (s : State Server) (qs : List ℕ) (q k : ℕ)
    (assembled : Bytes)
    → Reached ips store s.app
    → assemble_frame s.config dev_id s.session ≡ ok assembled
    → find dev_id s.app.video_queues ≡ some qs
    → is_listed q qs ≡ true
    → is_listed k qs ≡ false
    → let (r, t) = on_frame dev_id s in
      (r ≡ ok tt)
      × (((length (s.app.queue q) < video_size)
            × (delivered (suc (length (s.app.queue q))) q t.app
                ≡ s.app.queue q ++ frame_chunk assembled ∷ []))
          ⊎ ((length (s.app.queue q) ≡ video_size) × (t.app.queue q ≡ s.app.queue q)))
      × (t.app.queue k ≡ s.app.queue k)
unfolding on_frame
Reach-on_frame ips store dev_id s qs q k assembled reach a f l l' =
    let (owner, sound) = Reached-HasOwners ips store s.app reach in
    let (once, mine) = sound.2 dev_id qs f in
    let chunk = frame_chunk assembled in
    rw (a, f)
      (
        refl,
        elim (Bool-cases (ltb (length (s.app.queue q)) video_size)) [
          | inl e ↦
              (let room = ltb→lt (length (s.app.queue q)) video_size e in
                inl (room, put_all-delivered video_size chunk qs q s.app once l room))
          | inr e ↦ inr (
            ground (arith, (mine q l).2, e),
            put_all_lem video_size chunk qs s.app.queue q once ∙ rw (l, e) refl,
          )
        ],
        put_all_lem video_size chunk qs s.app.queue k once ∙ rw l' refl,
      )

finish_discover-close_video :
    (dev : DevSerial) (ip : Text) (port q : ℕ) (w : Server) (r : Result (Fields × Bool))
    → let v = (finish_discover dev ip port (registered dev ip port w) r).1 in
      (find dev.dev_id v.video_queues ≡ some [])
      × ((close_video dev.dev_id q v).0 ≡ err value_error)
unfolding close_video remove_queue
finish_discover-close_video dev ip port q w (err e) =
    let found = find-insert dev.dev_id [] w.video_queues in (found, rw found refl)
finish_discover-close_video dev ip port q w (ok (config, sound)) =
    let found = find-insert dev.dev_id [] w.video_queues in (found, rw found refl)

-- When a camera that has no session is found, also one that had clients before it was lost: its list of queues is
-- empty, so that no frame reaches those clients any more, and the end of the stream of any of them raises
-- ValueError.
pub on_discover-close_video :
    (ip : Text) (port : ℕ) (dev : DevSerial) (w : Server) (q : ℕ)
    → find dev.dev_id w.sessions ≡ none
    → let v = (on_discover ip port dev w).1 in
      (find dev.dev_id v.video_queues ≡ some [])
      × ((close_video dev.dev_id q v).0 ≡ err value_error)
unfolding on_discover
on_discover-close_video ip port dev w q e = rw e (finish_discover-close_video dev ip port q w _)
