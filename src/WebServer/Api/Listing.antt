-- ===== src/WebServer/Api/Listing.antt =====
-- The list of cameras that the web page shows (cam_reverse/http_server.py).
use cam_reverse_py.Base.{[], ◌∷◌, Text, if◌then◌else◌, Result, ok, ◌>>=◌}
use cam_reverse_py.Base.Int.{pos}
use cam_reverse_py.Base.Tables.{Table}
use cam_reverse_py.Settings.{
  Value, null, bool, int, str, arr, obj, Items, nil, cons, Fields, field, end, codes, or_default,
  camera_option,
}
use cam_reverse_py.State.{Session}
use cam_reverse_py.WebServer.{Camera, Server}
use cam_reverse_py.WebServer.Frame.{is_set}
use cam_reverse_py.WebServer.Api.{Response, json}

-- `camera_name`: the alias where it is not empty.
unfoldable pub camera_name : Fields → Text → Result Value
unfolding camera_option
camera_name config dev_id = do
  alias ← camera_option config dev_id (codes "alias")
  ok (if is_set alias then or_default alias null else str dev_id)

-- An entry of `_handle_cameras_api`.
unfoldable pub camera_entry : Fields → Text → Session → Result Value
unfolding camera_name
camera_entry config dev_id s = do
  name ← camera_name config dev_id
  rotate ← camera_option config dev_id (codes "rotate")
  mirror ← camera_option config dev_id (codes "mirror")
  audio ← camera_option config dev_id (codes "audio")
  ok (
      obj (
        field (codes "id") (str dev_id) (
          field (codes "name") name (
            field (codes "ip") (str s.dst_ip) (
              field (codes "connected") (bool s.connected) (
                field (codes "rotate") (or_default rotate (int (pos 0))) (
                  field (codes "mirror") (bool (is_set mirror))
                    (field (codes "audio") (bool (is_set audio)) end))))))))

unfoldable pub camera_entries : Fields → Table Camera → Result Items
unfolding camera_entry
camera_entries config [] = ok nil
camera_entries config ((dev_id, c) ∷ cs) = do
  entry ← camera_entry config dev_id c.session
  rest ← camera_entries config cs
  ok (cons entry rest)

unfoldable pub handle_cameras_api : Server → Result Response
unfolding camera_entries
handle_cameras_api w = do
  entries ← camera_entries w.store.config w.sessions
  ok (json (arr entries))
