-- ===== src/Examples/Servers.antt =====
-- The theorems on everything that can happen to the server, applied at inputs where their hypotheses hold.
use cam_reverse_py.Base.{
  true, sym, ap, subst, ◌∙◌, Text, Option, text_eq, ◌⊎◌, some, ℕ, suc, ◌+◌, ◌<◌, ◌≡◌, refl, false,
  [], ◌∷◌, ◌++◌, length, Result, ok,
}
use cam_reverse_py.Base.Tables.{find}
use cam_reverse_py.DataView.{Bytes}
use cam_reverse_py.Settings.{camera_option, codes, default_config}
use cam_reverse_py.State.{DevSerial, State, new_session}
use cam_reverse_py.Exif.{create_exif_orientation, add_exif_to_jpeg}
use cam_reverse_py.Parsers.Serial.{padded, device}
use cam_reverse_py.WebServer.{Camera, Server, video_size}
use cam_reverse_py.WebServer.Frame.{assemble_frame, orientation_of, frame_chunk}
use cam_reverse_py.WebServer.Streams.{enter_video, on_frame, listeners}
use cam_reverse_py.WebServer.Cameras.{on_discover, configured, with_defaults, set_camera}
use cam_reverse_py.WebServer.Steps.{
  serve_http, next, calls, calls_loose, hear, Reach, System, after_loose,
}
use cam_reverse_py.WebServer.Invariant.{IsSystem, Reach-IsSystem}
use cam_reverse_py.WebServer.Delivery.{delivered, Reach-on_frame}
use cam_reverse_py.Examples.Camera.{camera, connected_session}
use cam_reverse_py.WebServer.Pages.{handle_snapshot}
use cam_reverse_py.WebServer.Snapshot.{first_shown, handle_snapshot_lem}
use cam_reverse_py.WebServer.Isolation
use cam_reverse_py.WebServer.Isolation.{AllElsewhere, nothing, more, AllElsewhere-share}
use cam_reverse_py.WebServer.Shares.{share}
use cam_reverse_py.WebServer.Calls.{
  on_camera, open_socket, close_session, run_call, loose_after, on_loose,
}
use cam_reverse_py.Link.{disconnected}
use cam_reverse_py.Discovery.{handle_incoming_punch, is_blacklisted}
use cam_reverse_py.Impl.{parse_punch_pkt, decimal}
use cam_reverse_py.DataView.{read_u16, read_u64}
use cam_reverse_py.Examples.Web.{
  one_address, fresh_store, empty_server, watched, watched-Reach, watched-Reached, online_server,
}

abbrev now : ℕ → ℕ
now k = 50000 + k

-- It is lost to a request before its socket opens: the socket opens after that, and the session is loose.
abbrev lost : System
lost = (
  (on_camera camera.dev_id now close_session watched).1,
  loose_after camera.dev_id now close_session watched [],
)

lost-Reach : Reach (empty_server, []) lost
lost-Reach = next watched-Reach (calls camera.dev_id now close_session watched [])

abbrev its_camera : Camera
its_camera = record {
  session = disconnected (new_session camera (codes "192.168.1.3") 32108 5000);
  hears_frames = true;
  hears_audio = true;
}

lost-loose : lost.1 ≡ (camera.dev_id, its_camera) ∷ []
unfolding enter_video hear serve_http configured on_camera run_call listeners
lost-loose = refl

Reach-IsSystem_example : IsSystem (
    after_loose camera.dev_id its_camera
      (on_loose camera.dev_id its_camera now open_socket lost.0)
      lost.0
      []
      [])
Reach-IsSystem_example = Reach-IsSystem one_address fresh_store (
    next (subst (λ l. Reach (empty_server, []) (lost.0, l)) lost-loose lost-Reach)
      (calls_loose camera.dev_id its_camera now open_socket lost.0 [] []))

-- A session in the middle of a stream, with one client.
abbrev streaming_state : State Server
streaming_state = record {
  session = record connected_session {
    cur_image = (0xFF ∷ 0xD8 ∷ 0xFF ∷ 0xDB ∷ 1 ∷ []) ∷ (2 ∷ 3 ∷ []) ∷ [];
  };
  wire = [];
  clock = λ k. 50000 + k;
  config = default_config;
  app = watched;
}

abbrev picture : Bytes
unfolding create_exif_orientation
picture = 0xFF ∷ 0xD8 ∷ (create_exif_orientation 1 ++ (0xFF ∷ 0xDB ∷ 1 ∷ 2 ∷ 3 ∷ []))

picture-assembled :
    assemble_frame streaming_state.config camera.dev_id streaming_state.session ≡ ok picture
unfolding assemble_frame orientation_of add_exif_to_jpeg create_exif_orientation
picture-assembled = refl

watched-queues : find camera.dev_id watched.video_queues ≡ some (1 ∷ [])
unfolding serve_http hear handle_incoming_punch on_discover configured with_defaults camera_option
    set_camera enter_video is_blacklisted parse_punch_pkt read_u16 read_u64
watched-queues = refl

Reach-on_frame_example :
    ((on_frame camera.dev_id streaming_state).0 ≡ ok tt)
    × (((length (watched.queue 1) < video_size)
          × (delivered
                (suc (length (watched.queue 1)))
                1
                (on_frame camera.dev_id streaming_state).1.app
              ≡ watched.queue 1 ++ frame_chunk picture ∷ []))
        ⊎ ((length (watched.queue 1) ≡ video_size)
            × ((on_frame camera.dev_id streaming_state).1.app.queue 1 ≡ watched.queue 1)))
    × ((on_frame camera.dev_id streaming_state).1.app.queue 2 ≡ watched.queue 2)
Reach-on_frame_example =
    Reach-on_frame one_address fresh_store camera.dev_id streaming_state (1 ∷ []) 1 2 picture
      watched-Reached picture-assembled watched-queues refl refl

-- A frame without a first slice comes before a good one.
abbrev broken_state : State Server
broken_state = record streaming_state {
  session = record streaming_state.session { cur_image = [] };
}

handle_snapshot_lem_example :
    handle_snapshot camera.dev_id (broken_state ∷ streaming_state ∷ []) online_server
    ≡ first_shown camera.dev_id (broken_state ∷ streaming_state ∷ [])
handle_snapshot_lem_example =
    handle_snapshot_lem camera.dev_id (broken_state ∷ streaming_state ∷ []) online_server
      (record { session = connected_session; hears_frames = true; hears_audio = true }) refl refl
      refl

-- Another camera is found while the first one has its client.
abbrev punch_of_neighbour : Bytes
punch_of_neighbour =
    0xF1
    ∷ 0x41
    ∷ 0
    ∷ 0x14
    ∷ (padded 4 (codes "BATD")
        ++ ((0 ∷ 0 ∷ 0 ∷ 0 ∷ 0 ∷ 0 ∷ 0 ∷ 1 ∷ []) ++ padded 8 (codes "EXLVS")))

abbrev both : Server
both = hear (codes "192.168.1.4") 32108 punch_of_neighbour watched

neighbour_lem :
    handle_incoming_punch watched.store.config punch_of_neighbour (codes "192.168.1.4")
    ≡ ok (some (device (codes "BATD") (0 ∷ 0 ∷ 0 ∷ 0 ∷ 0 ∷ 0 ∷ 0 ∷ 1 ∷ []) (codes "EXLVS")))
unfolding serve_http hear handle_incoming_punch on_discover configured with_defaults camera_option
    set_camera enter_video is_blacklisted parse_punch_pkt read_u16 read_u64
neighbour_lem = refl

abbrev id_of : Result (Option DevSerial) → Text
id_of (ok (some dev)) = dev.dev_id
id_of _ = []

neighbour-apart :
    (dev : DevSerial)
    → handle_incoming_punch watched.store.config punch_of_neighbour (codes "192.168.1.4")
      ≡ ok (some dev)
    → text_eq dev.dev_id camera.dev_id ≡ false
unfolding decimal
neighbour-apart dev e =
    subst (λ t. text_eq t camera.dev_id ≡ false) (ap id_of (sym neighbour_lem ∙ e)) refl

abbrev neighbour : DevSerial
neighbour = device (codes "BATD") (0 ∷ 0 ∷ 0 ∷ 0 ∷ 0 ∷ 0 ∷ 0 ∷ 1 ∷ []) (codes "EXLVS")

-- A request closes the other camera's session before its socket opens.
abbrev one_left : Server
one_left = (on_camera neighbour.dev_id now close_session both).1

abbrev its_neighbour : Camera
its_neighbour = record {
  session = disconnected (new_session neighbour (codes "192.168.1.4") 32108 5000);
  hears_frames = true;
  hears_audio = true;
}

one_left-loose :
    loose_after neighbour.dev_id now close_session both [] ≡ (neighbour.dev_id, its_neighbour) ∷ []
unfolding enter_video hear serve_http configured on_camera run_call listeners decimal
one_left-loose = refl

neighbour-closed :
    AllElsewhere camera.dev_id (watched, []) (one_left, (neighbour.dev_id, its_neighbour) ∷ [])
unfolding decimal
neighbour-closed =
    subst (λ l. AllElsewhere camera.dev_id (watched, []) (one_left, l)) one_left-loose
      (more
        (more nothing (
          Isolation.hears (codes "192.168.1.4") 32108 punch_of_neighbour watched []
            neighbour-apart))
        (Isolation.calls neighbour.dev_id now close_session both [] refl))

-- The other camera is found, its session is closed, and its socket opens after that.
AllElsewhere-share_example :
    share camera.dev_id (on_loose neighbour.dev_id its_neighbour now open_socket one_left).app
    ≡ share camera.dev_id watched
unfolding decimal
AllElsewhere-share_example =
    AllElsewhere-share one_address fresh_store camera.dev_id watched-Reach (
      more neighbour-closed
        (Isolation.calls_loose neighbour.dev_id its_neighbour now open_socket one_left [] [] refl))
