-- ===== src/Examples/Web.antt =====
-- The theorems on the web server, applied at inputs where their hypotheses hold.
use cam_reverse_py.Base.{
  Text, some, ℕ, ◌+◌, ◌≤◌, ◌≡◌, refl, Bool, true, false, List, [], ◌∷◌, ◌++◌, none, arith, Result,
  ok, err, type_error, value_error, bind,
}
use cam_reverse_py.Base.Tables.{find}
use cam_reverse_py.DataView.{Bytes}
use cam_reverse_py.Settings.{str, codes, default_config, Fields, obj, field, end, bool, put, Value}
use cam_reverse_py.Parsers.Serial.{padded}
use cam_reverse_py.Settings.Files.{Store}
use cam_reverse_py.WebServer.{Server}
use cam_reverse_py.WebServer.Frame.{orientation_of}
use cam_reverse_py.Discovery.{no_search, add_target}
use cam_reverse_py.WebServer.Reconnect.{handle_reconnect_lem}
use cam_reverse_py.WebServer.Api.{json, handle_reconnect, rotate, mirror}
use cam_reverse_py.WebServer.Turning.{turned_once, reflected, orientation_of-turned}
use cam_reverse_py.WebServer.Streams.{enter_video, close_video}
use cam_reverse_py.WebServer.Cameras.{on_discover}
use cam_reverse_py.WebServer.Steps.{
  serve_http, here, next, hears, enters_video, hear, Reach, Reached,
}
use cam_reverse_py.WebServer.Delivery.{on_discover-close_video}
use cam_reverse_py.Examples.Camera.{camera, connected_session}

-- A camera whose picture is mirrored, and that nobody has turned.
abbrev mirrored : Fields
mirrored = field (codes "mirror") (bool true) end

abbrev one_camera : Fields
one_camera = field camera.dev_id (obj mirrored) end

abbrev mirrored_config : Fields
mirrored_config = put (codes "cameras") (obj one_camera) default_config

abbrev no_turn : Bool → ℕ → Result Value
no_turn b n = err type_error

orientation_of-turned_example :
    (o : ℕ) × (orientation_of mirrored_config camera.dev_id ≡ ok o)
    × (1 ≤ o)
    × (o ≤ 8)
    × (bind (λ c. orientation_of c camera.dev_id) (rotate no_turn camera.dev_id mirrored_config)
        ≡ ok (turned_once o))
    × (bind (λ c. orientation_of c camera.dev_id) (mirror camera.dev_id mirrored_config)
        ≡ ok (reflected o))
orientation_of-turned_example =
    orientation_of-turned mirrored_config one_camera mirrored camera.dev_id no_turn 0 refl refl refl
      (omega arith)

abbrev pub one_address : List Text
one_address = codes "192.168.1.255" ∷ []

abbrev pub fresh_store : Store
fresh_store = record {
  config = default_config;
  config_path = none;
  disk = record { contents = λ p. none; readable = λ p. false; writable = λ p. false };
}

abbrev pub empty_server : Server
empty_server = serve_http one_address fresh_store

-- What a camera answers to the search.
abbrev pub punch : Bytes
punch =
    0xF1
    ∷ 0x41
    ∷ 0
    ∷ 0x14
    ∷ (padded 4 (codes "BATD")
        ++ ((0 ∷ 0 ∷ 0 ∷ 0 ∷ 0 ∷ 9 ∷ 76 ∷ 251 ∷ []) ++ padded 8 (codes "EXLVS")))

-- A camera is found, a client comes, and another one.
abbrev pub found : Server
found = hear (codes "192.168.1.3") 32108 punch empty_server

abbrev pub watched : Server
watched = (enter_video camera.dev_id found).1

pub watched-Reach : Reach (empty_server, []) (watched, [])
watched-Reach =
    next (next here (hears (codes "192.168.1.3") 32108 punch empty_server []))
      (enters_video camera.dev_id found [])

pub watched-Reached : Reached one_address fresh_store watched
watched-Reached = ([], watched-Reach)

-- A camera that had a client is found again.
on_discover-close_video_example :
    (find camera.dev_id
        (on_discover
          (codes "192.168.1.3")
          32108
          camera
          (record watched { sessions = [] })).1.video_queues
      ≡ some [])
    × ((close_video camera.dev_id 1
          (on_discover (codes "192.168.1.3") 32108 camera (record watched { sessions = [] })).1).0
        ≡ err value_error)
on_discover-close_video_example =
    on_discover-close_video (codes "192.168.1.3") 32108 camera (record watched { sessions = [] }) 1
      refl

-- A camera that is online, and discovery that runs.
abbrev pub online_server : Server
online_server = record empty_server {
  sessions =
      (
        camera.dev_id,
        record { session = connected_session; hears_frames = true; hears_audio = true },
      )
      ∷ [];
  camera_ips = (camera.dev_id, codes "192.168.1.3") ∷ [];
  search = some no_search;
}

handle_reconnect_lem_example : handle_reconnect camera.dev_id (λ k. 50000 + k) online_server ≡ (
  ok (
      json (
        obj (
          field
            (codes "reconnecting")
            (str camera.dev_id)
            (field (codes "ip") (str (codes "192.168.1.3")) end)))),
  record online_server {
    sessions = [];
    search = some (add_target (codes "192.168.1.3") no_search);
  },
)
handle_reconnect_lem_example =
    handle_reconnect_lem camera.dev_id (codes "92.168.1.3") 49 (λ k. 50000 + k) online_server
      (record { session = connected_session; hears_frames = true; hears_audio = true }) no_search
      refl refl refl refl refl
