-- ===== src/WebServer/Calls.antt =====
-- The calls that a session gets from its socket and its timers (cam_reverse/session.py), on a session of
-- the server, and what the server's listeners keep.
use cam_reverse_py.Base.{
  ℕ, ◌≡◌, refl, Bool, true, false, List, [], ◌∷◌, Text, Option, none, some, Result, ok, err,
  or_raise, key_error,
}
use cam_reverse_py.Base.Tables.{Table, find, remove}
use cam_reverse_py.DataView.{Bytes}
use cam_reverse_py.State.{State, Action, Done, lift, pure, ◌>>=◌}
use cam_reverse_py.State.Keeps.{Post, Keeps, Anything, Keeps-bind, Keeps-pure, Post-state}
use cam_reverse_py.Handlers.Keeps.{disconnect-Keeps}
use cam_reverse_py.Link.{close, Callbacks, Event, disconnect, login, frame, audio, wifi_list}
use cam_reverse_py.Link.Queued.{IsQueued, AllQueued}
use cam_reverse_py.Session.{handle_incoming, sess_tick, resend_tick, connection_made}
use cam_reverse_py.Session.Steps.{receives-Keeps, watches-Keeps, resends-Keeps, opens-Keeps}
use cam_reverse_py.Session.Retransmission.{start_video-Keeps}
use cam_reverse_py.WebServer.{Camera, Server, put_all, video_size, audio_size}
use cam_reverse_py.WebServer.Frame.{assemble_frame, frame_chunk, audio_chunk}
use cam_reverse_py.WebServer.Streams.{
  on_frame, on_audio, on_disconnect, listeners, callbacks_of, change,
}
use cam_reverse_py.WebServer.Cameras.{on_session, run_on}

-- A datagram, a round of each timer, the opening of the socket, and `close`, which the server calls.
pub data Call : Type 0 where
  datagram : Bytes → Call
  watch resend open_socket close_session : Call

unfoldable pub run_call : Call → Callbacks Server → Action Server Done
unfolding handle_incoming sess_tick resend_tick connection_made close
run_call (datagram msg) callbacks s = (ok tt, handle_incoming callbacks msg s)
run_call watch callbacks s = (sess_tick callbacks >>= λ ended. pure tt) s
run_call resend callbacks s = resend_tick s
run_call open_socket callbacks s = connection_made s
run_call close_session callbacks s = close callbacks s

abbrev pub called : Text → (ℕ → ℕ) → Call → Server → Option Camera → List Bytes × Server
called dev_id clock call w none = ([], w)
called dev_id clock call w (some c) =
    let (r, wire, v) = on_session dev_id c clock (run_call call) w in (wire, v)

-- The datagrams that go out, and the server afterwards, of a call on the session in the table of this id.
unfoldable pub on_camera : Text → (ℕ → ℕ) → Call → Server → List Bytes × Server
on_camera dev_id clock call w = called dev_id clock call w (find dev_id w.sessions)

-- Sessions that are out of the table: asyncio still has their sockets and their tasks, and calls them.
abbrev pub Loose : Type 0
Loose = Table Camera

-- A session whose listener of `disconnect` took it out of the table while it was called is loose from then on.
abbrev pub dropped : Text → Camera → Option Camera → Loose → Loose
dropped dev_id c none loose = (dev_id, c) ∷ loose
dropped dev_id c (some d) loose = loose

abbrev pub after_call : Text → (ℕ → ℕ) → Call → Server → Option Camera → Loose → Loose
after_call dev_id clock call w none loose = loose
after_call dev_id clock call w (some c) loose =
    let t = (run_on dev_id c clock (run_call call) w).1 in
    dropped dev_id (record c { session = t.session }) (find dev_id t.app.sessions) loose

-- The loose sessions after a call on the session in the table of this id.
abbrev pub loose_after : Text → (ℕ → ℕ) → Call → Server → Loose → Loose
loose_after dev_id clock call w loose =
    after_call dev_id clock call w (find dev_id w.sessions) loose

-- A call on a loose session: its listeners work on the tables, and its `on_disconnect` takes the entry of this id
-- out, whatever session that is; that one is loose then too.
abbrev pub on_loose : Text → Camera → (ℕ → ℕ) → Call → Server → State Server
on_loose dev_id c clock call w = (run_on dev_id c clock (run_call call) w).1

abbrev pub taken : Text → Option Camera → Option Camera → Loose → Loose
taken dev_id (some d) none loose = (dev_id, d) ∷ loose
taken dev_id _ _ loose = loose

-- What the listeners of a camera keep: what a chunk in each of its queues, and the removal of its session, keep.
module _ (Q : Server → Type 0) (dev_id : Text)
    (frames : (w : Server) (chunk : Bytes) (qs : List ℕ)
      → find dev_id w.video_queues ≡ some qs
      → Q w
      → Q (record w { queue = put_all video_size chunk qs w.queue }))
    (sounds : (w : Server) (chunk : Bytes) (qs : List ℕ)
      → find dev_id w.audio_queues ≡ some qs
      → Q w
      → Q (record w { queue = put_all audio_size chunk qs w.queue }))
    (removes : (w : Server) → Q w → Q (record w { sessions = remove dev_id w.sessions })) where
  abbrev Holds : Bool → Server → Type 0
  Holds b w = Q w

  abbrev P : State Server → Type 0
  P = IsQueued Holds

  puts :
      (size : ℕ) (chunk : Bytes) (s : State Server) (o : Option (List ℕ))
      → P s
      → ((qs : List ℕ)
          → o ≡ some qs
          → Q (record s.app { queue = put_all size chunk qs s.app.queue }))
      → Post P (Anything P) (
          (lift (or_raise o key_error) >>= λ qs.
          change (λ w. record w { queue = put_all size chunk qs w.queue }))
            s)
  puts size chunk s none q h = q
  puts size chunk s (some qs) q h = ((q.0, h qs refl), tt)

  on_frame-Keeps : Keeps P (on_frame dev_id)
  unfolding on_frame
  on_frame-Keeps s q = framed (assemble_frame s.config dev_id s.session)
    where
      framed :
          (r : Result Bytes)
          → Post P (Anything P) (
              (lift r >>= λ assembled.
              lift (or_raise (find dev_id s.app.video_queues) key_error) >>= λ qs.
              change
                (λ w. record w { queue = put_all video_size (frame_chunk assembled) qs w.queue }))
                s)
      framed (err e) = q
      framed (ok assembled) =
          puts video_size (frame_chunk assembled) s (find dev_id s.app.video_queues) q
            (λ qs e. frames s.app (frame_chunk assembled) qs e q.1)

  on_audio-Keeps : (payload : Bytes) → Keeps P (on_audio dev_id payload)
  unfolding on_audio
  on_audio-Keeps payload s q =
      puts audio_size (audio_chunk payload) s (find dev_id s.app.audio_queues) q
        (λ qs e. sounds s.app (audio_chunk payload) qs e q.1)

  listeners-Keeps : (b b' : Bool) (e : Event) → Keeps P (listeners dev_id b b' e)
  unfolding listeners on_disconnect
  listeners-Keeps false b' disconnect s q = (q, tt)
  listeners-Keeps true b' disconnect s q = ((q.0, removes s.app q.1), tt)
  listeners-Keeps b b' login s q = (q, tt)
  listeners-Keeps false b' frame s q = (q, tt)
  listeners-Keeps true b' frame s q = on_frame-Keeps s q
  listeners-Keeps b false (audio payload) s q = (q, tt)
  listeners-Keeps b true (audio payload) s q = on_audio-Keeps payload s q
  listeners-Keeps b b' (wifi_list items) s q = (q, tt)

  call-Keeps : (call : Call) (c : Camera) → Keeps P (run_call call (callbacks_of dev_id c))
  unfolding run_call close
  call-Keeps (datagram msg) c s q = (
    receives-Keeps Holds (λ b a h. h) (callbacks_of dev_id c)
        (listeners-Keeps c.hears_frames c.hears_audio) (start_video-Keeps Holds) msg s q,
    tt,
  )
  call-Keeps watch c s q =
      Keeps-bind P (Anything P) (sess_tick (callbacks_of dev_id c)) (λ ended. pure tt)
        (watches-Keeps Holds (λ b a h. h) (callbacks_of dev_id c)
          (listeners-Keeps c.hears_frames c.hears_audio) (start_video-Keeps Holds))
        (λ ended. Keeps-pure P tt) s q
  call-Keeps resend c s q = resends-Keeps Holds s q
  call-Keeps open_socket c s q = opens-Keeps Holds s q
  call-Keeps close_session c s q =
      disconnect-Keeps Holds (λ b a h. h) (callbacks_of dev_id c)
        (listeners-Keeps c.hears_frames c.hears_audio) (start_video-Keeps Holds) s q

  -- A call on a session in order, in the table or not, ends with a session in order.
  pub run_on-Keeps :
      (clock : ℕ → ℕ) (call : Call) (c : Camera) (w : Server)
      → AllQueued c.session.outgoing_command_id c.session.unacked_drw
      → Q w
      → IsQueued Holds (run_on dev_id c clock (run_call call) w).1
  run_on-Keeps clock call c w a q =
      Post-state P (Anything P) (run_on dev_id c clock (run_call call) w)
        (call-Keeps call c _ (a, q))
