-- ===== src/WebServer/Cameras.antt =====
-- Finding and losing cameras: `_on_discover` of cam_reverse/http_server.py, and what happens on the
-- sessions of the server.
use cam_reverse_py.Base.{
  ℕ, Bool, true, false, List, [], Text, Option, none, some, Result, ok, err, key_error, type_error,
  or_raise, ◌>>=◌,
}
use cam_reverse_py.Base.Int.{pos}
use cam_reverse_py.Base.Tables.{find, insert}
use cam_reverse_py.DataView.{Bytes}
use cam_reverse_py.Settings.{
  Value, bool, int, obj, Fields, field, end, codes, get, put, update, as_mapping, attr_get,
  or_default, camera_option,
}
use cam_reverse_py.State.{State, Session, Action, DevSerial, new_session}
use cam_reverse_py.Link.{Callbacks}
use cam_reverse_py.WebServer.{Camera, Server}
use cam_reverse_py.WebServer.Frame.{is_set}
use cam_reverse_py.WebServer.Streams.{callbacks_of}

-- The settings that a camera gets where it has none of its own.
abbrev pub camera_defaults : Fields
camera_defaults =
    field (codes "rotate") (int (pos 0))
      (field (codes "mirror") (bool false) (field (codes "audio") (bool true) end))

-- `config["cameras"][dev_id] = value`.
abbrev pub put_item : Text → Value → Value → Result Value
put_item key v (obj fs) = ok (obj (put key v fs))
put_item key v _ = err type_error

unfoldable pub set_camera : Fields → Text → Value → Result Fields
set_camera config dev_id v = do
  cameras ← or_raise (get (codes "cameras") config) key_error
  cameras' ← put_item dev_id v cameras
  ok (put (codes "cameras") cameras' config)

-- `settings.config["cameras"][dev_id] = {..., **config["cameras"].get(dev_id, {})}`.
unfoldable pub with_defaults : Fields → Text → Result Fields
unfolding set_camera
with_defaults config dev_id = do
  cameras ← or_raise (get (codes "cameras") config) key_error
  old ← attr_get cameras dev_id
  fs ← as_mapping (or_default old (obj end))
  set_camera config dev_id (obj (update camera_defaults fs))

-- The server once a camera has its session and its empty tables, before the settings.
abbrev pub registered : DevSerial → Text → ℕ → Server → Server
registered dev ip port w = record w {
  camera_ips = insert dev.dev_id ip w.camera_ips;
  video_queues = insert dev.dev_id [] w.video_queues;
  audio_queues = insert dev.dev_id [] w.audio_queues;
  sessions =
      insert dev.dev_id
        (record {
          session = new_session dev ip port 5000;
          hears_frames = false;
          hears_audio = false;
        })
        w.sessions;
}

abbrev pub with_config : Fields → Server → Server
with_config config w = record w { store = record w.store { config = config } }

-- The listeners go on last; the one of `audio` only where the settings ask for sound.
abbrev pub attach : DevSerial → Text → ℕ → Bool → Server → Server
attach dev ip port audio w = record w {
  sessions =
      insert dev.dev_id
        (record {
          session = new_session dev ip port 5000;
          hears_frames = true;
          hears_audio = audio;
        })
        w.sessions;
}

abbrev pub finish_discover :
    DevSerial → Text → ℕ → Server → Result (Fields × Bool) → Result (Unit {0}) × Server
finish_discover dev ip port w (err e) = (err e, w)
finish_discover dev ip port w (ok (config, audio)) =
    (ok tt, attach dev ip port audio (with_config config w))

unfoldable pub configured : Fields → Text → Result (Fields × Bool)
unfolding with_defaults camera_option
configured config dev_id = do
  config' ← with_defaults config dev_id
  audio ← camera_option config' dev_id (codes "audio")
  ok (config', is_set audio)

abbrev pub discover_unless :
    Option Camera → DevSerial → Text → ℕ → Server → Result (Unit {0}) × Server
discover_unless (some c) dev ip port w = (ok tt, w)
discover_unless none dev ip port w =
    finish_discover dev ip port (registered dev ip port w) (configured w.store.config dev.dev_id)

-- `_on_discover`.
unfoldable pub on_discover : Text → ℕ → DevSerial → Server → Result (Unit {0}) × Server
on_discover ip port dev w = discover_unless (find dev.dev_id w.sessions) dev ip port w

-- What a call on the session of a camera does: the session runs with the settings of the server, and
-- stays in the table unless it was taken out.
abbrev pub keep_session : Text → Session → Option Camera → Server → Server
keep_session dev_id s none w = w
keep_session dev_id s (some c) w = record w {
  sessions = insert dev_id (record c { session = s }) w.sessions;
}

abbrev pub run_on :
    {A : Type 0}
    → Text
    → Camera
    → (ℕ → ℕ)
    → (Callbacks Server → Action Server A)
    → Server
    → Result A × State Server
run_on dev_id c clock call w =
    call (callbacks_of dev_id c)
      (record { session = c.session; wire = []; clock = clock; config = w.store.config; app = w })

-- The result, the datagrams that went out, and the server.
abbrev pub put_back : {A : Type 0} → Text → Result A × State Server → Result A × List Bytes × Server
put_back dev_id (r, s) =
    (r, s.wire, keep_session dev_id s.session (find dev_id s.app.sessions) s.app)

abbrev pub on_session :
    {A : Type 0}
    → Text
    → Camera
    → (ℕ → ℕ)
    → (Callbacks Server → Action Server A)
    → Server
    → Result A × List Bytes × Server
on_session dev_id c clock call w = put_back dev_id (run_on dev_id c clock call w)
