-- ===== src/WebServer/Api.antt =====
-- The handlers of cam_reverse/http_server.py that read and change the cameras and the settings. An
-- answer is JSON or a status; the words of an error message are not modelled.
pub mod Storing
pub mod Listing
pub mod Untouched
use cam_reverse_py.Base.{
  ℕ, ◌+◌, ◌-◌, ◌%◌, Bool, true, false, not, List, [], ◌∷◌, Text, Option, none, some, if◌then◌else◌,
  Result, ok, err, os_error, value_error, key_error, type_error, attribute_error, or_raise, bind,
  ◌>>=◌,
}
use cam_reverse_py.Base.Int.{ℤ, pos, negsuc}
use cam_reverse_py.Base.Tables.{Table, find}
use cam_reverse_py.Settings.{
  Value, null, bool, int, str, other, arr, obj, Items, nil, cons, Fields, field, end, codes, get,
  put, attr_get, or_default, or_empty, camera_option, apply_config,
}
use cam_reverse_py.Settings.Files.{Yaml, Store, save_config, reload_config}
use cam_reverse_py.State.{Session}
use cam_reverse_py.Link
use cam_reverse_py.Discovery.{Search, add_target, member}
use cam_reverse_py.WebServer.{Camera, Server}
use cam_reverse_py.WebServer.Frame.{is_set}
use cam_reverse_py.WebServer.Cameras.{with_config, put_item, set_camera, on_session}

pub data Response : Type 0 where
  json : Value → Response
  status : ℕ → Response

-- A handler that raised has still changed what it had changed.
abbrev pub Handled : Type 0
Handled = Result Response × Server

abbrev pub and_then :
    {A B : Type 0} → Result A × Server → (A → Server → Result B × Server) → Result B × Server
and_then (err e, w) f = (err e, w)
and_then (ok a, w) f = f a w

-- `value[key]`.
abbrev pub item : Value → Text → Result Value
item (obj fs) key = or_raise (get key fs) key_error
item _ key = err type_error

-- `(cur + 1) % 4`; what a number that is no integer gives is a parameter.
abbrev pub next_quarter_int : ℤ → ℕ
next_quarter_int (pos n) = (n + 1) % 4
next_quarter_int (negsuc n) = (4 - n % 4) % 4

abbrev pub next_quarter : (Bool → ℕ → Result Value) → Value → Result Value
next_quarter turned (int z) = ok (int (pos (next_quarter_int z)))
next_quarter turned (bool true) = ok (int (pos 2))
next_quarter turned (bool false) = ok (int (pos 1))
next_quarter turned (other b n) = turned b n
next_quarter turned _ = err type_error

-- `config["cameras"][dev_id][key] = v`.
unfoldable pub set_camera_key : Fields → Text → Text → Value → Result Fields
unfolding set_camera
set_camera_key config dev_id key v = do
  cameras ← or_raise (get (codes "cameras") config) key_error
  cam ← item cameras dev_id
  cam' ← put_item key v cam
  set_camera config dev_id cam'

-- `_handle_rotate` and `_handle_mirror` on the configuration.
unfoldable pub rotate : (Bool → ℕ → Result Value) → Text → Fields → Result Fields
unfolding set_camera_key camera_option
rotate turned dev_id config = do
  cur ← camera_option config dev_id (codes "rotate")
  nxt ← next_quarter turned (or_default cur (int (pos 0)))
  set_camera_key config dev_id (codes "rotate") nxt

unfoldable pub mirror : Text → Fields → Result Fields
unfolding set_camera_key
mirror dev_id config = do
  cameras ← or_raise (get (codes "cameras") config) key_error
  cam ← item cameras dev_id
  old ← attr_get cam (codes "mirror")
  set_camera_key config dev_id (codes "mirror") (bool (not (is_set old)))

abbrev pub reconfigured : Server → Result Fields → Handled
reconfigured w (err e) = (err e, w)
reconfigured w (ok config) = (ok (status 204), with_config config w)

unfoldable pub handle_rotate : (Bool → ℕ → Result Value) → Text → Server → Handled
unfolding rotate
handle_rotate turned dev_id w = reconfigured w (rotate turned dev_id w.store.config)

unfoldable pub handle_mirror : Text → Server → Handled
unfolding mirror
handle_mirror dev_id w = reconfigured w (mirror dev_id w.store.config)

-- `_discovery_ev.emit("add_target", ip)`, where discovery runs.
abbrev pub target : Text → Option Search → Option Search
unfolding add_target
target ip none = none
target ip (some d) = some (add_target ip d)

abbrev pub reprobe : Option Text → Server → Server
reprobe none w = w
reprobe (some []) w = w
reprobe (some (c ∷ cs)) w = record w { search = target (c ∷ cs) w.search }

abbrev pub value_of : Option Text → Value
value_of none = null
value_of (some t) = str t

abbrev pub reconnecting : Text → Option Text → Server → Handled
reconnecting dev_id ip w = (
  ok (
      json
        (obj (field (codes "reconnecting") (str dev_id) (field (codes "ip") (value_of ip) end)))),
  reprobe ip w,
)

abbrev pub after_close :
    {A : Type 0} → Text → Option Text → Result A × List (List ℕ) × Server → Handled
after_close dev_id ip (err e, wire, w) = (err e, w)
after_close dev_id ip (ok a, wire, w) = reconnecting dev_id ip w

-- `_handle_camera_reconnect`.
abbrev pub reconnect_with : Text → Option Camera → Option Text → (ℕ → ℕ) → Server → Handled
unfolding Link.close
reconnect_with dev_id none none clock w = (ok (status 404), w)
reconnect_with dev_id none (some ip) clock w = reconnecting dev_id (some ip) w
reconnect_with dev_id (some c) ip clock w =
    after_close dev_id ip (on_session dev_id c clock Link.close w)

unfoldable pub handle_reconnect : Text → (ℕ → ℕ) → Server → Handled
unfolding Link.close
handle_reconnect dev_id clock w =
    reconnect_with dev_id (find dev_id w.sessions) (find dev_id w.camera_ips) clock w
