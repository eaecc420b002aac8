-- ===== src/WebServer/Pages.antt =====
-- The answers of cam_reverse/http_server.py that are neither JSON nor a stream: a single picture, and
-- the page of a camera.
use cam_reverse_py.Base.{
  ℕ, Bool, true, false, not, zero, suc, ◌-◌, List, [], ◌∷◌, ◌++◌, Text, text_eq, Option, none, some,
  if◌then◌else◌, take, length, Result, ok, err, key_error, type_error, or_raise, ◌>>=◌, bind,
}
use cam_reverse_py.Base.Tables.{find}
use cam_reverse_py.DataView.{Bytes}
use cam_reverse_py.Settings.{Value, str, Fields, codes, get, attr_get}
use cam_reverse_py.State.{State, Session, Done}
use cam_reverse_py.WebServer.{Camera, Server}
use cam_reverse_py.WebServer.Frame.{assemble_frame, is_set}
use cam_reverse_py.WebServer.Streams.{on_frame}
use cam_reverse_py.WebServer.Api.{item}
use cam_reverse_py.WebServer.Api.Listing.{camera_name}

-- The future `fut`: the result of the first frame, or what it raised.
abbrev pub Future : Type 0
Future = Option (Result Bytes)

-- `on_frame_once`.
unfoldable pub on_frame_once : Fields → Text → Session → Future → Future
unfolding assemble_frame
on_frame_once config dev_id s (some r) = some r
on_frame_once config dev_id s none = some (assemble_frame config dev_id s)

-- Whether `emit` gets to `on_frame_once`: the listener `on_frame`, where the camera has it, was there first, and
-- what it raises ends `emit`.
abbrev pub is_reached : Bool → Result Done → Bool
is_reached hears_frames (ok _) = true
is_reached hears_frames (err e) = not hears_frames

-- The event of a frame, in the state that the listeners find.
unfoldable pub emit_frame : Text → Bool → State Server → Future → Future
unfolding on_frame on_frame_once
emit_frame dev_id hears_frames s fut =
    if is_reached hears_frames (on_frame dev_id s).0
    then on_frame_once s.config dev_id s.session fut
    else fut

-- The frames of the session that come while `_handle_snapshot` waits.
unfoldable pub wait_for : Text → Bool → List (State Server) → Future → Future
unfolding emit_frame
wait_for dev_id hears_frames [] fut = fut
wait_for dev_id hears_frames (s ∷ frames) fut =
    wait_for dev_id hears_frames frames (emit_frame dev_id hears_frames s fut)

pub data Page : Type 0 where
  jpeg : Bytes → Page
  html : Text → Page
  failed : ℕ → Page

-- What the end of the wait is answered with.
abbrev pub answer_snapshot : Future → Page
answer_snapshot none = failed 504
answer_snapshot (some (ok data_)) = jpeg data_
answer_snapshot (some (err e)) = failed 500

abbrev pub if_online : {A : Type 0} → Option Camera → A → A → A
if_online none refused answer = refused
if_online (some c) refused answer = if c.session.connected then answer else refused

abbrev pub hears_frames_of : Option Camera → Bool
hears_frames_of none = false
hears_frames_of (some c) = c.hears_frames

-- `_handle_snapshot`, for the frames that come within its ten seconds.
unfoldable pub handle_snapshot : Text → List (State Server) → Server → Page
unfolding wait_for
handle_snapshot dev_id frames w =
    if_online (find dev_id w.sessions) (failed 400)
      (answer_snapshot (wait_for dev_id (hears_frames_of (find dev_id w.sessions)) frames none))

-- `text.replace(old, new)` for an old text that is not empty; the number is of characters to pass over.
abbrev pub replace_from : Text → Text → ℕ → Text → Text
replace_from old new k [] = []
replace_from old new (suc k) (c ∷ cs) = replace_from old new k cs
replace_from old new zero (c ∷ cs) =
    let replaced = replace_from old new (length old - 1) cs in
    let kept = replace_from old new zero cs in
    if text_eq (take (length old) (c ∷ cs)) old then new ++ replaced else c ∷ kept

abbrev pub replace : Text → Text → Text → Text
replace text old new = replace_from old new zero text

abbrev pub as_text : Value → Result Text
as_text (str s) = ok s
as_text _ = err type_error

-- The page of `_handle_ui`; its template is a file.
unfoldable pub ui_page : Text → Fields → Text → Result Text
unfolding camera_name
ui_page template config dev_id = do
  value ← camera_name config dev_id
  name ← as_text value
  cameras ← or_raise (get (codes "cameras") config) key_error
  cam ← item cameras dev_id
  audio ← attr_get cam (codes "audio")
  ok (
      replace (replace (replace template (codes "${id}") dev_id) (codes "${name}") name)
        (codes "${audio}") (if is_set audio then codes "true" else codes "false"))

unfoldable pub handle_ui : Text → Text → Server → Result Page
unfolding ui_page
handle_ui template dev_id w =
    if_online (find dev_id w.sessions) (ok (failed 400))
      (bind (λ text. ok (html text)) (ui_page template w.store.config dev_id))
