-- ===== src/WebServer/Api/Storing.antt =====
-- The handlers of cam_reverse/http_server.py that write the settings file or add an address.
use cam_reverse_py.Base.{
  Bool, true, false, [], ◌∷◌, Text, Option, none, some, if◌then◌else◌, Result, ok, err, os_error,
  value_error, key_error, attribute_error, or_raise, bind, ◌>>=◌,
}
use cam_reverse_py.Settings.{
  Value, str, arr, obj, Items, nil, cons, Fields, field, end, codes, get, put, attr_get, or_default,
  or_empty, apply_config,
}
use cam_reverse_py.Settings.Files.{Yaml, Store, save_config, reload_config}
use cam_reverse_py.Discovery.{Search, add_target, member}
use cam_reverse_py.WebServer.{Server}
use cam_reverse_py.WebServer.Frame.{is_set}
use cam_reverse_py.WebServer.Cameras.{with_config}
use cam_reverse_py.WebServer.Api.{json, status, Handled, and_then, value_of}

-- What `save_config` did to the settings, and the answer to it.
abbrev pub saving : Server → Result Text × Store → Result (Option Text) × Server
saving w (ok path, store) = (ok (some path), record w { store = store })
saving w (err os_error, store) = (ok none, record w { store = store })
saving w (err e, store) = (err e, record w { store = store })

abbrev pub answer_saved : Option Text → Server → Handled
answer_saved none w = (ok (status 500), w)
answer_saved (some path) w = (ok (json (obj (field (codes "saved") (str path) end))), w)

-- `dev_id in settings.config["cameras"]`, then the saving: `_handle_camera_save`.
unfoldable pub save_if : Yaml → Server → Result Bool → Handled
unfolding save_config
save_if yaml w (err e) = (err e, w)
save_if yaml w (ok false) = (ok (status 404), w)
save_if yaml w (ok true) = and_then (saving w (save_config yaml w.store)) answer_saved

unfoldable pub handle_camera_save : Yaml → Text → Server → Handled
unfolding save_if
handle_camera_save yaml dev_id w =
    save_if yaml w
      (bind (member dev_id) (or_raise (get (codes "cameras") w.store.config) key_error))

-- `_handle_config_post`, for a body that could be parsed or not.
unfoldable pub post_applied : Yaml → Server → Result (Unit {0}) × Fields → Handled
unfolding save_config
post_applied yaml w (err e, config) = (err e, with_config config w)
post_applied yaml w (ok _, config) =
    let w' = with_config config w in and_then (saving w' (save_config yaml w'.store)) answer_saved

unfoldable pub handle_config_post : Yaml → Result Value → Server → Handled
unfolding apply_config post_applied
handle_config_post yaml (ok (obj fs)) w = post_applied yaml w (apply_config w.store.config (obj fs))
handle_config_post yaml _ w = (ok (status 400), w)

-- `_handle_config_reload`: only OSError and ValueError are caught.
abbrev pub answer_reloaded : Server → Result (Option Text) × Store → Handled
answer_reloaded w (ok none, store) = (ok (status 400), record w { store = store })
answer_reloaded w (ok (some path), store) =
    (ok (json (obj (field (codes "reloaded") (str path) end))), record w { store = store })
answer_reloaded w (err os_error, store) = (ok (status 500), record w { store = store })
answer_reloaded w (err value_error, store) = (ok (status 500), record w { store = store })
answer_reloaded w (err e, store) = (err e, record w { store = store })

unfoldable pub handle_config_reload : Yaml → Server → Handled
unfolding reload_config
handle_config_reload yaml w = answer_reloaded w (reload_config yaml w.store)

-- `_handle_discover`; `text_of` stands for `str(value).strip()`.
abbrev pub append_item : Value → Value → Result Value
append_item v (arr xs) = ok (arr (snoc xs))
  where
    snoc : Items → Items
    snoc nil = cons v nil
    snoc (cons x ys) = cons x (snoc ys)
append_item v _ = err attribute_error

abbrev pub answer_added : Text → Option Text → Server → Handled
answer_added ip saved w = (
  ok (json (obj (field (codes "added") (str ip) (field (codes "saved") (value_of saved) end)))),
  w,
)

abbrev pub remember_ip : Fields → Text → Result (Option Fields)
remember_ip config ip = do
  ips ← or_raise (get (codes "discovery_ips") config) key_error
  known ← member ip ips
  (if known
      then ok none
      else (append_item (str ip) ips >>= λ ips'.
          ok (some (put (codes "discovery_ips") ips' config))))

unfoldable pub store_remembered : Yaml → Text → Server → Result (Option Fields) → Handled
unfolding save_config
store_remembered yaml ip w (err e) = (err e, w)
store_remembered yaml ip w (ok none) = answer_added ip none w
store_remembered yaml ip w (ok (some config)) =
    let w' = with_config config w in
    and_then (saving w' (save_config yaml w'.store)) (answer_added ip)

unfoldable pub discover_ip : Yaml → Text → Bool → Option Search → Server → Handled
unfolding add_target store_remembered
discover_ip yaml [] remember search w = (ok (status 400), w)
discover_ip yaml (c ∷ cs) remember none w = (ok (status 503), w)
discover_ip yaml (c ∷ cs) remember (some d) w =
    let w' = record w { search = some (add_target (c ∷ cs) d) } in
    if remember
    then store_remembered yaml (c ∷ cs) w' (remember_ip w'.store.config (c ∷ cs))
    else answer_added (c ∷ cs) none w'

abbrev pub read_body : (Value → Text) → Value → Result (Text × Bool)
read_body text_of body = do
  ip ← attr_get (or_empty body) (codes "ip")
  remember ← attr_get (or_empty body) (codes "remember")
  ok (text_of (or_default ip (str [])), is_set remember)

unfoldable pub discover_body : Yaml → Server → Result (Text × Bool) → Handled
unfolding discover_ip
discover_body yaml w (err e) = (err e, w)
discover_body yaml w (ok (ip, remember)) = discover_ip yaml ip remember w.search w

abbrev pub body_or_empty : Result Value → Value
body_or_empty (ok v) = v
body_or_empty (err e) = obj end

unfoldable pub handle_discover : Yaml → (Value → Text) → Result Value → Server → Handled
unfolding discover_body
handle_discover yaml text_of body w = discover_body yaml w (read_body text_of (body_or_empty body))
