-- ===== src/Examples/Watching.antt =====
-- A frame on its way from the datagrams to a client, at concrete inputs.
use cam_reverse_py.Base.{ap, ℕ, ◌+◌, ◌≡◌, refl, suc, true, [], ◌∷◌, ◌++◌, some, length, ok, arith}
use cam_reverse_py.Base.Tables.{find}
use cam_reverse_py.DataView.{Bytes}
use cam_reverse_py.Settings.{codes}
use cam_reverse_py.State.{new_session, open_transport}
use cam_reverse_py.Exif.{create_exif_orientation}
use cam_reverse_py.Link.{send}
use cam_reverse_py.Parsers.{make_p2p_rdy}
use cam_reverse_py.WebServer.Streams.{enter_video, enter_audio}
use cam_reverse_py.WebServer.Cameras.{configured}
use cam_reverse_py.Frames.{deal_with_data, long_data, plain_data, start_new_frame}
use cam_reverse_py.Frames.Assembly.{data_packet}
use cam_reverse_py.Frames.Delivery.{numbered}
use cam_reverse_py.Parsers.Serial.{device}
use cam_reverse_py.WebServer.{Camera, Server}
use cam_reverse_py.WebServer.Frame.{assemble_frame, frame_chunk}
use cam_reverse_py.WebServer.Calls.{run_call, on_camera, datagram, open_socket, Loose, loose_after}
use cam_reverse_py.WebServer.Steps.{hear, serve_http, Reached, next, calls, enters_audio}
use cam_reverse_py.WebServer.Delivery.{delivered}
use cam_reverse_py.WebServer.Listening.{Carries, on_camera-delivered}
use cam_reverse_py.Frames.Sound.{Padding, sound_body}
use cam_reverse_py.WebServer.Watching.{received, received-delivered}
use cam_reverse_py.Examples.Camera.{camera}
use cam_reverse_py.Examples.Web.{one_address, fresh_store, watched, watched-Reach}

abbrev now : ℕ → ℕ
now k = 50000 + k

abbrev first_slice : Bytes
first_slice = 0xFF ∷ 0xD8 ∷ 0xFF ∷ 0xDB ∷ 1 ∷ 2 ∷ 3 ∷ 4 ∷ []

abbrev second_slice : Bytes
second_slice = 10 ∷ 20 ∷ 30 ∷ 40 ∷ 50 ∷ 60 ∷ 70 ∷ 80 ∷ []

-- The camera's socket opens, and its first frame begins.
abbrev opened : Server
opened = (on_camera camera.dev_id now open_socket watched).1

abbrev opened_loose : Loose
opened_loose = loose_after camera.dev_id now open_socket watched []

abbrev begun : Server
begun = (on_camera camera.dev_id now (datagram (data_packet 7 first_slice)) opened).1

abbrev its_camera : Camera
its_camera = record {
  session =
      record (new_session
        (device (codes "BATD") (0 ∷ 0 ∷ 0 ∷ 0 ∷ 0 ∷ 9 ∷ 76 ∷ 251 ∷ []) (codes "EXLVS"))
        (codes "192.168.1.3") 32108 5000) {
          transport = open_transport;
          started = true;
          timers = true;
          cur_image = first_slice ∷ [];
          rcv_seq_id = 7;
          last_received_packet = 50000;
        };
  hears_frames = true;
  hears_audio = true;
}

begun-sessions : find camera.dev_id begun.sessions ≡ some its_camera
unfolding on_camera enter_video hear serve_http configured run_call make_p2p_rdy send deal_with_data
    long_data plain_data start_new_frame
begun-sessions = refl

begun-queues : find camera.dev_id begun.video_queues ≡ some (1 ∷ [])
unfolding on_camera enter_video hear serve_http configured run_call make_p2p_rdy send deal_with_data
    long_data plain_data start_new_frame
begun-queues = refl

begun-empty : begun.queue 1 ≡ []
unfolding on_camera enter_video hear serve_http configured run_call make_p2p_rdy send deal_with_data
    long_data plain_data start_new_frame
begun-empty = refl

abbrev upright : Bytes
unfolding create_exif_orientation
upright = 0xFF ∷ 0xD8 ∷ (create_exif_orientation 1 ++ (0xFF ∷ 0xDB ∷ 1 ∷ 2 ∷ 3 ∷ 4 ∷ second_slice))

begun-assembled :
    assemble_frame begun.store.config camera.dev_id
      (record its_camera.session { cur_image = first_slice ∷ second_slice ∷ [] })
    ≡ ok upright
unfolding on_camera enter_video hear serve_http configured run_call make_p2p_rdy send deal_with_data
    long_data plain_data start_new_frame assemble_frame create_exif_orientation
begun-assembled = refl

begun-Reached : Reached one_address fresh_store begun
begun-Reached = (
  loose_after camera.dev_id now (datagram (data_packet 7 first_slice)) opened opened_loose,
  next (next watched-Reach (calls camera.dev_id now open_socket watched []))
      (calls camera.dev_id now (datagram (data_packet 7 first_slice)) opened opened_loose),
)

-- A second slice, then the start of the next frame.
received-delivered_example :
    delivered (suc (length (begun.queue 1))) 1 (
      received camera.dev_id
        (λ k. now)
        (numbered 8 (second_slice ∷ []) ++ data_packet 9 first_slice ∷ [])
        begun)
    ≡ begun.queue 1 ++ frame_chunk upright ∷ []
received-delivered_example =
    received-delivered one_address fresh_store camera.dev_id (λ k. now) begun its_camera first_slice
      first_slice upright (second_slice ∷ []) 9 1 (1 ∷ []) begun-Reached begun-sessions refl refl
      refl refl (((omega arith, omega arith), refl, refl), tt)
      ((omega arith, omega arith), refl, refl) (omega arith) (omega arith) begun-assembled
      begun-queues refl (omega (arith, ap length begun-empty))

-- A client listens to the camera.
abbrev listened : Server
listened = (enter_audio camera.dev_id opened).1

abbrev silent_camera : Camera
silent_camera = record its_camera {
  session = record its_camera.session { cur_image = []; rcv_seq_id = 0; last_received_packet = 0 };
}

listened-sessions : find camera.dev_id listened.sessions ≡ some silent_camera
unfolding on_camera enter_video enter_audio hear serve_http configured run_call make_p2p_rdy send
listened-sessions = refl

listened-queues : find camera.dev_id listened.audio_queues ≡ some (2 ∷ [])
unfolding on_camera enter_video enter_audio hear serve_http configured run_call make_p2p_rdy send
listened-queues = refl

listened-empty : listened.queue 2 ≡ []
unfolding on_camera enter_video enter_audio hear serve_http configured run_call make_p2p_rdy send
listened-empty = refl

abbrev zeros : Padding
zeros = record {
  b5 = 0;
  b6 = 0;
  b7 = 0;
  b8 = 0;
  b9 = 0;
  b10 = 0;
  b11 = 0;
  b12 = 0;
  b13 = 0;
  b14 = 0;
  b15 = 0;
  b18 = 0;
  b19 = 0;
  b20 = 0;
  b21 = 0;
  b22 = 0;
  b23 = 0;
  b24 = 0;
  b25 = 0;
  b26 = 0;
  b27 = 0;
  b28 = 0;
  b29 = 0;
  b30 = 0;
  b31 = 0;
}

listened-Reached : Reached one_address fresh_store listened
listened-Reached = (
  opened_loose,
  next (next watched-Reach (calls camera.dev_id now open_socket watched []))
      (enters_audio camera.dev_id opened opened_loose),
)

on_camera-delivered_example :
    (chunk : Bytes) × (delivered
        (suc (length (listened.queue 2)))
        2
        (on_camera camera.dev_id now
          (datagram (data_packet 9 (sound_body zeros (77 ∷ 97 ∷ 110 ∷ 255 ∷ []))))
          listened).1
      ≡ listened.queue 2 ++ chunk ∷ [])
    × Carries (77 ∷ 97 ∷ 110 ∷ 255 ∷ []) chunk
on_camera-delivered_example =
    on_camera-delivered one_address fresh_store camera.dev_id now listened silent_camera 9 2 zeros
      (77 ∷ 97 ∷ 110 ∷ 255 ∷ []) (2 ∷ []) listened-Reached listened-sessions refl refl
      (omega arith, (omega arith, (omega arith, (omega arith, tt)))) (omega arith) listened-queues
      refl (omega (arith, ap length listened-empty))
