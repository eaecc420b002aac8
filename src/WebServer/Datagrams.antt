-- ===== src/WebServer/Datagrams.antt =====
-- What a datagram of the data stream leaves in the server (cam_reverse/session.py, cam_reverse/http_server.py).
use cam_reverse_py.Base.{
  length, ℕ, ◌+◌, ◌^◌, ◌<◌, ◌≡◌, refl, ap, ◌∙◌, true, false, List, [], Text, some, ok,
}
use cam_reverse_py.Base.Tables.{find, insert}
use cam_reverse_py.DataView.{Bytes}
use cam_reverse_py.State.{State, Session, open_transport}
use cam_reverse_py.Link.{frame, audio}
use cam_reverse_py.Link.Sending.{with_wire}
use cam_reverse_py.Frames.{is_empty, appended, new_frame}
use cam_reverse_py.Frames.Assembly.{data_packet, IsSlice, IsStart}
use cam_reverse_py.Frames.Sound.{Padding, sound_body}
use cam_reverse_py.Session.{handle_incoming}
use cam_reverse_py.Session.Streaming.{
  ack_of, handle_incoming-slice, handle_incoming-start, handle_incoming_sound,
}
use cam_reverse_py.WebServer.{Camera, Server, put_all, video_size, audio_size}
use cam_reverse_py.WebServer.Frame.{assemble_frame, frame_chunk, audio_chunk}
use cam_reverse_py.WebServer.Streams.{listeners, on_frame, on_audio, callbacks_of}
use cam_reverse_py.WebServer.Cameras.{keep_session}
use cam_reverse_py.WebServer.Calls.{on_camera, called, run_call, datagram}

-- The server with another session of a camera.
abbrev pub with_heard : Text → Camera → Session → ℕ → Server → Server
with_heard dev_id c s now w = record w {
  sessions =
      insert dev_id (record c { session = record s { last_received_packet = now } }) w.sessions;
}

module _ (dev_id : Text) (clock : ℕ → ℕ) (w : Server) (c : Camera)
    (found : find dev_id w.sessions ≡ some c) (up : c.session.transport ≡ open_transport) where
  abbrev start_of_call : State Server
  start_of_call = record {
    session = c.session;
    wire = [];
    clock = clock;
    config = w.store.config;
    app = w;
  }

  -- What is left of a datagram in the server.
  on_datagram :
      (p : Bytes) (t : State Server)
      → handle_incoming (callbacks_of dev_id c) p start_of_call ≡ t
      → (on_camera dev_id clock (datagram p) w).1
        ≡ keep_session dev_id t.session (find dev_id t.app.sessions) t.app
  unfolding on_camera run_call
  on_datagram p t e =
      ap (λ o. (called dev_id clock (datagram p) w o).1) found
      ∙ ap (λ u. keep_session dev_id u.session (find dev_id u.app.sessions) u.app) e

  pub on_slice :
      (id : ℕ) (body : Bytes)
      → id < 2 ^ 16
      → IsSlice body
      → c.session.rcv_seq_id + 1 ≡ id
      → (on_camera dev_id clock (datagram (data_packet id body)) w).1
        ≡ with_heard dev_id c (appended id body c.session) (clock 0) w
  on_slice id body fit slice next =
      on_datagram (data_packet id body) _
        (handle_incoming-slice (callbacks_of dev_id c) id body fit start_of_call up slice next)
      ∙ ap
          (λ o.
            keep_session dev_id
              (record (appended id body c.session) { last_received_packet = clock 0 }) o w)
          found

  pub on_start :
      (id : ℕ) (body picture : Bytes) (qs : List ℕ)
      → id < 2 ^ 16
      → IsStart body
      → is_empty c.session.cur_image ≡ false
      → c.session.frame_is_bad ≡ false
      → c.hears_frames ≡ true
      → assemble_frame w.store.config dev_id c.session ≡ ok picture
      → find dev_id w.video_queues ≡ some qs
      → (on_camera dev_id clock (datagram (data_packet id body)) w).1
        ≡ with_heard dev_id c
            (new_frame id body c.session)
            (clock 0)
            (record w { queue = put_all video_size (frame_chunk picture) qs w.queue })
  unfolding listeners on_frame
  on_start id body picture qs fit start full good hears made listed =
      let s' = with_wire (ack_of id) start_of_call in
      let v = record w { queue = put_all video_size (frame_chunk picture) qs w.queue } in
      let heard : (callbacks_of dev_id c).listener frame s' ≡ (ok tt, record s' { app = v }) =
        rw (hears, made, listed) refl in
      on_datagram (data_packet id body) _ (
        handle_incoming-start (callbacks_of dev_id c) id body fit start_of_call
          (record s' { app = v }) up start full good heard)
      ∙ ap
          (λ o.
            keep_session dev_id
              (record (new_frame id body c.session) { last_received_packet = clock 0 }) o v)
          found

  pub on_sound :
      (id : ℕ) (h : Padding) (payload : Bytes) (qs : List ℕ)
      → length payload + 36 < 2 ^ 16
      → c.hears_audio ≡ true
      → find dev_id w.audio_queues ≡ some qs
      → (on_camera dev_id clock (datagram (data_packet id (sound_body h payload))) w).1
        ≡ with_heard dev_id c c.session
            (clock 0)
            (record w { queue = put_all audio_size (audio_chunk payload) qs w.queue })
  unfolding listeners on_audio
  on_sound id h payload qs room hears listed =
      let s' = with_wire (ack_of id) start_of_call in
      let v = record w { queue = put_all audio_size (audio_chunk payload) qs w.queue } in
      let heard : (callbacks_of dev_id c).listener (audio payload) s'
          ≡ (ok tt, record s' { app = v }) =
        rw (hears, listed) refl in
      on_datagram (data_packet id (sound_body h payload)) _ (
        handle_incoming_sound (callbacks_of dev_id c) id h payload start_of_call
          (record s' { app = v }) room up heard)
      ∙ ap (λ o. keep_session dev_id (record c.session { last_received_packet = clock 0 }) o v)
          found
