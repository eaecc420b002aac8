-- ===== src/WebServer/Streams.antt =====
-- The listeners that `_on_discover` puts on a session, and the streams of its clients.
use cam_reverse_py.Base.{
  ℕ, suc, Bool, List, [], ◌∷◌, ◌++◌, Text, Option, none, some, ◌==◌, if◌then◌else◌, Result, ok, err,
  key_error, value_error, or_raise, bind,
}
use cam_reverse_py.Base.Tables.{Table, find, insert, remove}
use cam_reverse_py.DataView.{Bytes}
use cam_reverse_py.State.{Action, Done, pure, lift, ◌>>=◌}
use cam_reverse_py.Link.{Event, disconnect, login, frame, audio, wifi_list, Callbacks}
use cam_reverse_py.Session.{start_video_stream}
use cam_reverse_py.WebServer.{Camera, Server, put_all, video_size, audio_size, set_queue}
use cam_reverse_py.WebServer.Frame.{assemble_frame, frame_chunk, audio_chunk}

-- What a session of the server runs on: its own object is the session of the state.
abbrev pub Served : Type 0 → Type 0
Served A = Action Server A

abbrev pub server : Served Server
server s = (ok s.app, s)

abbrev pub change : (Server → Server) → Served Done
change f s = (ok tt, record s { app = f s.app })

-- `on_frame`; the chunk is made before the queues are looked at.
unfoldable pub on_frame : Text → Served Done
unfolding assemble_frame frame_chunk put_all
on_frame dev_id s =
    (lift (assemble_frame s.config dev_id s.session) >>= λ assembled.
    lift (or_raise (find dev_id s.app.video_queues) key_error) >>= λ queues.
    change (λ w. record w { queue = put_all video_size (frame_chunk assembled) queues w.queue }))
      s

unfoldable pub on_audio : Text → Bytes → Served Done
unfolding audio_chunk put_all
on_audio dev_id payload s =
    (lift (or_raise (find dev_id s.app.audio_queues) key_error) >>= λ queues.
    change (λ w. record w { queue = put_all audio_size (audio_chunk payload) queues w.queue }))
      s

-- `on_disconnect`.
unfoldable pub on_disconnect : Text → Served Done
on_disconnect dev_id = change (λ w. record w { sessions = remove dev_id w.sessions })

-- The listeners of a session, as far as they were put on it.
unfoldable pub listeners : Text → Bool → Bool → Event → Served Done
unfolding on_frame on_audio on_disconnect
listeners dev_id hears_frames hears_audio disconnect =
    if hears_frames then on_disconnect dev_id else pure tt
listeners dev_id hears_frames hears_audio login = pure tt
listeners dev_id hears_frames hears_audio frame = if hears_frames then on_frame dev_id else pure tt
listeners dev_id hears_frames hears_audio (audio payload) =
    if hears_audio then on_audio dev_id payload else pure tt
listeners dev_id hears_frames hears_audio (wifi_list items) = pure tt

-- `start_session` is the callback of the login.
abbrev pub callbacks_of : Text → Camera → Callbacks Server
callbacks_of dev_id c = record {
  on_login = start_video_stream;
  listener = listeners dev_id c.hears_frames c.hears_audio;
}

-- Why a client gets no stream, and what it gets otherwise: a queue.
pub data Refusal : Type 0 where
  not_discovered offline : Refusal

pub data Answer : Type 0 where
  refused : Refusal → Answer
  streaming : ℕ → Answer

abbrev pub check_camera : Option Camera → Option Refusal
check_camera none = some not_discovered
check_camera (some c) = if c.session.connected then none else some offline

-- `queues[dev_id].append(q)`.
abbrev pub add_queue : Text → ℕ → Table (List ℕ) → Result (Table (List ℕ))
add_queue dev_id q queues =
    bind (λ qs. ok (insert dev_id (qs ++ q ∷ []) queues)) (or_raise (find dev_id queues) key_error)

-- `queues[dev_id].remove(q)`: a queue that is not there raises.
abbrev pub take_out : ℕ → List ℕ → Result (List ℕ)
take_out q [] = err value_error
take_out q (x ∷ xs) = if x == q then ok xs else bind (λ rest. ok (x ∷ rest)) (take_out q xs)

unfoldable pub remove_queue : Text → ℕ → Table (List ℕ) → Result (Table (List ℕ))
remove_queue dev_id q queues =
    bind (λ qs. bind (λ rest. ok (insert dev_id rest queues)) (take_out q qs))
      (or_raise (find dev_id queues) key_error)

-- A new queue, and the table that it was put into.
abbrev pub with_new : Server → Server
with_new w = record w { queue = set_queue w.next_queue [] w.queue; next_queue = suc w.next_queue }

abbrev pub enter :
    Server → (Table (List ℕ) → Server → Server) → Result (Table (List ℕ)) → Result Answer × Server
enter w into (err e) = (err e, with_new w)
enter w into (ok queues) = (ok (streaming w.next_queue), into queues (with_new w))

abbrev pub open_unless :
    Option Refusal
    → Server
    → (Table (List ℕ) → Server → Server)
    → Result (Table (List ℕ))
    → Result Answer × Server
open_unless (some r) w into added = (ok (refused r), w)
open_unless none w into added = enter w into added

abbrev pub set_video : Table (List ℕ) → Server → Server
set_video queues w = record w { video_queues = queues }

abbrev pub set_audio : Table (List ℕ) → Server → Server
set_audio queues w = record w { audio_queues = queues }

-- `_handle_camera` and `_handle_audio` once the answer is prepared: the new queue goes into the list that the camera
-- has then.
unfoldable pub enter_video : Text → Server → Result Answer × Server
enter_video dev_id w = enter w set_video (add_queue dev_id w.next_queue w.video_queues)

unfoldable pub enter_audio : Text → Server → Result Answer × Server
enter_audio dev_id w = enter w set_audio (add_queue dev_id w.next_queue w.audio_queues)

-- `_handle_camera` and `_handle_audio` up to the loop, where nothing else happens between the look at the camera and
-- the end of `await resp.prepare(request)`.
unfoldable pub open_video : Text → Server → Result Answer × Server
open_video dev_id w =
    open_unless (check_camera (find dev_id w.sessions)) w set_video
      (add_queue dev_id w.next_queue w.video_queues)

unfoldable pub open_audio : Text → Server → Result Answer × Server
open_audio dev_id w =
    open_unless (check_camera (find dev_id w.sessions)) w set_audio
      (add_queue dev_id w.next_queue w.audio_queues)

-- A round of the loop: `q.get()` waits where the queue is empty, and otherwise the chunk is written.
abbrev pub pop_chunk : ℕ → List Bytes → Server → Option (Bytes × Server)
pop_chunk q [] w = none
pop_chunk q (chunk ∷ rest) w = some (chunk, record w { queue = set_queue q rest w.queue })

unfoldable pub next_chunk : ℕ → Server → Option (Bytes × Server)
next_chunk q w = pop_chunk q (w.queue q) w

-- The `finally` of the loop.
abbrev pub leave :
    Server
    → (Table (List ℕ) → Server → Server)
    → Result (Table (List ℕ))
    → Result (Unit {0}) × Server
leave w into (err e) = (err e, w)
leave w into (ok queues) = (ok tt, into queues w)

unfoldable pub close_video : Text → ℕ → Server → Result (Unit {0}) × Server
unfolding remove_queue
close_video dev_id q w = leave w set_video (remove_queue dev_id q w.video_queues)

unfoldable pub close_audio : Text → ℕ → Server → Result (Unit {0}) × Server
unfolding remove_queue
close_audio dev_id q w = leave w set_audio (remove_queue dev_id q w.audio_queues)
