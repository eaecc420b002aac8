-- ===== src/WebServer/Requests.antt =====
-- The requests that are answered at once: the handlers of cam_reverse/http_server.py behind the routes of
-- `build_app`, but those of the two streams and of the snapshot, which wait.
use cam_reverse_py.Base.{
  sym, subst, Bool, false, true, text_eq, text_eq_refl, text_eq→eq, arith, ℕ, ◌≡◌, refl, List, [],
  ◌∷◌, Text, Option, none, some, Result, ok, err, bind,
}
use cam_reverse_py.DataView.{Bytes}
use cam_reverse_py.Base.Tables.{find}
use cam_reverse_py.Settings.{Value, obj}
use cam_reverse_py.Settings.Files.{Store, Yaml}
use cam_reverse_py.Discovery.{Search}
use cam_reverse_py.Logger.{Entry, LogBuffer, logs_since}
use cam_reverse_py.WebServer.{Server, Camera}
use cam_reverse_py.WebServer.Cameras.{on_session}
use cam_reverse_py.WebServer.Api.{
  target, Response, json, handle_rotate, handle_mirror, reprobe, after_close, reconnect_with,
  handle_reconnect,
}
use cam_reverse_py.WebServer.Api.Storing.{
  handle_camera_save, handle_config_post, handle_config_reload, handle_discover,
}
use cam_reverse_py.WebServer.Assets.{
  Assets, Body, handle_index, handle_style, handle_app_js, handle_settings_page, handle_logs_page,
  handle_favicon,
}
use cam_reverse_py.WebServer.Api.Listing.{handle_cameras_api}
use cam_reverse_py.WebServer.Pages.{Page, handle_ui}
use cam_reverse_py.WebServer.Calls.{on_camera, called, close_session, run_call}
use cam_reverse_py.Link
use cam_reverse_py.WebServer.Api.Untouched.{
  SameTables, SameTables-refl, discovers-SameTables, save-SameTables, post_config-SameTables,
  reload-SameTables, rotate-SameTables, mirror-SameTables,
}

-- What the handlers use of the world: YAML, `str(value).strip()`, `(cur + 1) % 4` on what is no integer, the
-- assets, and the records logged so far.
pub record World : Type 0 where
  pub yaml : Yaml
  pub text_of : Value → Text
  pub turned : Bool → ℕ → Result Value
  pub assets : Assets
  pub log_buffer : LogBuffer

-- A request with its `devId`, its query or its body, parsed or not. A number to read the log from that is no
-- number counts as 0.
pub data Request : Type 0 where
  index style app_js settings_page logs_page favicon cameras_api : Request
  discover : Result Value → Request
  camera_reconnect camera_save : Text → Request
  logs_api : Text → ℕ → Request
  config_get : Request
  config_post : Result Value → Request
  config_reload : Request
  ui rotated mirrored : Text → Request

pub data Reply : Type 0 where
  response : Response → Reply
  page : Page → Reply
  body : Body → Reply
  records : List Entry → Reply

abbrev pub replied : {A : Type 0} → (A → Reply) → Result A × Server → Result Reply × Server
replied f (r, w) = (bind (λ a. ok (f a)) r, w)

-- `_handle_config_get`: the whole configuration.
unfoldable pub handle_config_get : Server → Response
handle_config_get w = json (obj w.store.config)

-- The handler of every route.
unfoldable pub handle : World → (ℕ → ℕ) → Request → Server → Result Reply × Server
unfolding handle_rotate handle_mirror handle_reconnect handle_camera_save handle_config_post
    handle_config_reload handle_discover handle_cameras_api handle_ui logs_since handle_config_get
    handle_index handle_style handle_app_js handle_settings_page handle_logs_page handle_favicon
handle e clock index w = (ok (body (handle_index e.assets)), w)
handle e clock style w = (ok (body (handle_style e.assets)), w)
handle e clock app_js w = (ok (body (handle_app_js e.assets)), w)
handle e clock settings_page w = (ok (body (handle_settings_page e.assets)), w)
handle e clock logs_page w = (ok (body (handle_logs_page e.assets)), w)
handle e clock favicon w = (ok (body (handle_favicon e.assets)), w)
handle e clock cameras_api w = replied response (handle_cameras_api w, w)
handle e clock (discover b) w = replied response (handle_discover e.yaml e.text_of b w)
handle e clock (camera_reconnect dev_id) w = replied response (handle_reconnect dev_id clock w)
handle e clock (camera_save dev_id) w = replied response (handle_camera_save e.yaml dev_id w)
handle e clock (logs_api level after) w = (ok (records (logs_since level after e.log_buffer)), w)
handle e clock config_get w = (ok (response (handle_config_get w)), w)
handle e clock (config_post b) w = replied response (handle_config_post e.yaml b w)
handle e clock config_reload w = replied response (handle_config_reload e.yaml w)
handle e clock (ui dev_id) w = replied page (handle_ui e.assets.html_template dev_id w, w)
handle e clock (rotated dev_id) w = replied response (handle_rotate e.turned dev_id w)
handle e clock (mirrored dev_id) w = replied response (handle_mirror dev_id w)

reprobe-SameTables : (ip : Option Text) (w : Server) → SameTables w (reprobe ip w)
reprobe-SameTables none w = SameTables-refl w
reprobe-SameTables (some []) w = SameTables-refl w
reprobe-SameTables (some (c ∷ cs)) w = (w.store, target (c ∷ cs) w.search, refl)

closed-SameTables :
    {A : Type 0} (dev_id : Text) (ip : Option Text) (r : Result A × List Bytes × Server)
    → SameTables r.2 (after_close dev_id ip r).1
closed-SameTables dev_id ip (err e, wire, w) = SameTables-refl w
closed-SameTables dev_id ip (ok a, wire, w) = reprobe-SameTables ip w

reconnect-SameTables :
    (dev_id : Text) (o : Option Camera) (ip : Option Text) (clock : ℕ → ℕ) (w : Server)
    → SameTables (called dev_id clock close_session w o).1 (reconnect_with dev_id o ip clock w).1
unfolding run_call Link.close
reconnect-SameTables dev_id none none clock w = SameTables-refl w
reconnect-SameTables dev_id none (some ip) clock w = reprobe-SameTables (some ip) w
reconnect-SameTables dev_id (some c) ip clock w =
    closed-SameTables dev_id ip (on_session dev_id c clock Link.close w)

-- Whether a request asks to reconnect a camera.
abbrev pub reconnects : Text → Request → Bool
reconnects dev_id (camera_reconnect other) = text_eq other dev_id
reconnects dev_id _ = false

-- The server after the closing of a session, where the request asks for it.
abbrev pub closed_first : (ℕ → ℕ) → Request → Server → Server
closed_first clock (camera_reconnect dev_id) w = (on_camera dev_id clock close_session w).1
closed_first clock _ w = w

-- No handler changes the tables, besides the closing of a session.
pub handle-SameTables :
    (e : World) (clock : ℕ → ℕ) (r : Request) (w : Server)
    → SameTables (closed_first clock r w) (handle e clock r w).1
unfolding handle handle_reconnect on_camera run_call Link.close
handle-SameTables e clock index w = SameTables-refl w
handle-SameTables e clock style w = SameTables-refl w
handle-SameTables e clock app_js w = SameTables-refl w
handle-SameTables e clock settings_page w = SameTables-refl w
handle-SameTables e clock logs_page w = SameTables-refl w
handle-SameTables e clock favicon w = SameTables-refl w
handle-SameTables e clock cameras_api w = SameTables-refl w
handle-SameTables e clock (discover b) w = discovers-SameTables e.yaml e.text_of b w
handle-SameTables e clock (camera_reconnect dev_id) w =
    reconnect-SameTables dev_id (find dev_id w.sessions) (find dev_id w.camera_ips) clock w
handle-SameTables e clock (camera_save dev_id) w = save-SameTables e.yaml dev_id w
handle-SameTables e clock (logs_api level after) w = SameTables-refl w
handle-SameTables e clock config_get w = SameTables-refl w
handle-SameTables e clock (config_post b) w = post_config-SameTables e.yaml b w
handle-SameTables e clock config_reload w = reload-SameTables e.yaml w
handle-SameTables e clock (ui dev_id) w = SameTables-refl w
handle-SameTables e clock (rotated dev_id) w = rotate-SameTables e.turned dev_id w
handle-SameTables e clock (mirrored dev_id) w = mirror-SameTables dev_id w

-- What a call of `close` keeps, and the settings and the search do not matter to, every handler keeps.
pub handle-keeps :
    (Q : Server → Type 0) (e : World) (clock : ℕ → ℕ) (r : Request) (w : Server)
    → ((v : Server) (store : Store) (search : Option Search)
        → Q v
        → Q (record v { store = store; search = search }))
    → ((dev_id : Text) → reconnects dev_id r ≡ true → Q (on_camera dev_id clock close_session w).1)
    → Q w
    → Q (handle e clock r w).1
handle-keeps Q e clock r w free closes q =
    let (store, search, same) = handle-SameTables e clock r w in
    subst Q (sym same) (free (closed_first clock r w) store search (first r closes))
  where
    first :
        (r : Request)
        → ((dev_id : Text)
            → reconnects dev_id r ≡ true
            → Q (on_camera dev_id clock close_session w).1)
        → Q (closed_first clock r w)
    first (camera_reconnect dev_id) h = h dev_id (text_eq_refl dev_id)
    first _ h = q

pub reconnects-apart :
    (a b : Text) (r : Request)
    → reconnects a r ≡ true
    → reconnects b r ≡ false
    → text_eq a b ≡ false
reconnects-apart a b (camera_reconnect dev_id) h h' =
    subst (λ t. text_eq t b ≡ false) (text_eq→eq dev_id a h) h'
reconnects-apart a b _ h h' = absurd (ground (arith, h))
