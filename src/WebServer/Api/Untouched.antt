-- ===== src/WebServer/Api/Untouched.antt =====
-- What the handlers of cam_reverse/http_server.py that are behind the settings page leave alone: the tables
-- of the cameras.
use cam_reverse_py.Base.{
  ℕ, ◌≡◌, refl, ap, ◌∙◌, Bool, true, false, [], ◌∷◌, Text, Option, none, some, Result, ok, err,
  index_error, struct_error, value_error, encode_error, key_error, attribute_error, type_error,
  os_error, yaml_error,
}
use cam_reverse_py.Settings.{Value, null, bool, int, str, other, arr, Fields, obj, apply_config}
use cam_reverse_py.Settings.Files.{Yaml, Store, save_config, reload_config}
use cam_reverse_py.Discovery.{Search, add_target}
use cam_reverse_py.WebServer.{Server}
use cam_reverse_py.WebServer.Api.{
  and_then, reconfigured, rotate, mirror, handle_rotate, handle_mirror,
}
use cam_reverse_py.WebServer.Api.Storing.{
  saving, answer_saved, save_if, handle_camera_save, post_applied, handle_config_post,
  answer_reloaded, handle_config_reload, answer_added, remember_ip, store_remembered, discover_ip,
  read_body, discover_body, body_or_empty, handle_discover,
}

-- A handler that changes the settings and the search at most.
abbrev pub SameTables : Server → Server → Type 0
SameTables w v =
    (store : Store) × (search : Option Search) × (v ≡ record w { store = store; search = search })

pub SameTables-refl : (w : Server) → SameTables w w
SameTables-refl w = (w.store, w.search, refl)

SameTables-trans : (u v w : Server) → SameTables u v → SameTables v w → SameTables u w
SameTables-trans u v w (a, b, e) (c, d, f) =
    (c, d, f ∙ ap {A = Server} (λ x. record x { store = c; search = d }) e)

and_then-SameTables :
    {A B : Type 0} (w : Server) (m : Result A × Server) (f : A → Server → Result B × Server)
    → SameTables w m.1
    → ((a : A) (v : Server) → SameTables v (f a v).1)
    → SameTables w (and_then m f).1
and_then-SameTables w (err e, v) f s h = s
and_then-SameTables w (ok a, v) f s h = SameTables-trans w v (f a v).1 s (h a v)

saving-SameTables : (w : Server) (r : Result Text × Store) → SameTables w (saving w r).1
saving-SameTables w (ok path, store) = (store, w.search, refl)
saving-SameTables w (err index_error, store) = (store, w.search, refl)
saving-SameTables w (err struct_error, store) = (store, w.search, refl)
saving-SameTables w (err value_error, store) = (store, w.search, refl)
saving-SameTables w (err encode_error, store) = (store, w.search, refl)
saving-SameTables w (err key_error, store) = (store, w.search, refl)
saving-SameTables w (err attribute_error, store) = (store, w.search, refl)
saving-SameTables w (err type_error, store) = (store, w.search, refl)
saving-SameTables w (err os_error, store) = (store, w.search, refl)
saving-SameTables w (err yaml_error, store) = (store, w.search, refl)

answer_saved-SameTables : (o : Option Text) (w : Server) → SameTables w (answer_saved o w).1
answer_saved-SameTables none w = SameTables-refl w
answer_saved-SameTables (some path) w = SameTables-refl w

save_if-SameTables :
    (yaml : Yaml) (w : Server) (r : Result Bool) → SameTables w (save_if yaml w r).1
unfolding save_if
save_if-SameTables yaml w (err e) = SameTables-refl w
save_if-SameTables yaml w (ok false) = SameTables-refl w
save_if-SameTables yaml w (ok true) =
    and_then-SameTables w (saving w (save_config yaml w.store)) answer_saved
      (saving-SameTables w (save_config yaml w.store)) answer_saved-SameTables

post-SameTables :
    (yaml : Yaml) (w : Server) (r : Result (Unit {0}) × Fields)
    → SameTables w (post_applied yaml w r).1
unfolding post_applied
post-SameTables yaml w (err e, config) = (record w.store { config = config }, w.search, refl)
post-SameTables yaml w (ok a, config) =
    let w' : Server = record w { store = record w.store { config = config } } in
    SameTables-trans w w' _ (record w.store { config = config }, w.search, refl)
      (and_then-SameTables w' (saving w' (save_config yaml w'.store)) answer_saved
        (saving-SameTables w' (save_config yaml w'.store)) answer_saved-SameTables)

pub post_config-SameTables :
    (yaml : Yaml) (b : Result Value) (w : Server) → SameTables w (handle_config_post yaml b w).1
unfolding handle_config_post
post_config-SameTables yaml (ok (obj fs)) w =
    post-SameTables yaml w (apply_config w.store.config (obj fs))
post_config-SameTables yaml (err e) w = SameTables-refl w
post_config-SameTables yaml (ok null) w = SameTables-refl w
post_config-SameTables yaml (ok (bool b)) w = SameTables-refl w
post_config-SameTables yaml (ok (int z)) w = SameTables-refl w
post_config-SameTables yaml (ok (str s)) w = SameTables-refl w
post_config-SameTables yaml (ok (other b n)) w = SameTables-refl w
post_config-SameTables yaml (ok (arr xs)) w = SameTables-refl w

reloaded-SameTables :
    (w : Server) (r : Result (Option Text) × Store) → SameTables w (answer_reloaded w r).1
reloaded-SameTables w (ok none, store) = (store, w.search, refl)
reloaded-SameTables w (ok (some path), store) = (store, w.search, refl)
reloaded-SameTables w (err index_error, store) = (store, w.search, refl)
reloaded-SameTables w (err struct_error, store) = (store, w.search, refl)
reloaded-SameTables w (err value_error, store) = (store, w.search, refl)
reloaded-SameTables w (err encode_error, store) = (store, w.search, refl)
reloaded-SameTables w (err key_error, store) = (store, w.search, refl)
reloaded-SameTables w (err attribute_error, store) = (store, w.search, refl)
reloaded-SameTables w (err type_error, store) = (store, w.search, refl)
reloaded-SameTables w (err os_error, store) = (store, w.search, refl)
reloaded-SameTables w (err yaml_error, store) = (store, w.search, refl)

remembered-SameTables :
    (yaml : Yaml) (ip : Text) (w : Server) (r : Result (Option Fields))
    → SameTables w (store_remembered yaml ip w r).1
unfolding store_remembered
remembered-SameTables yaml ip w (err e) = SameTables-refl w
remembered-SameTables yaml ip w (ok none) = SameTables-refl w
remembered-SameTables yaml ip w (ok (some config)) =
    let w' : Server = record w { store = record w.store { config = config } } in
    SameTables-trans w w' _ (record w.store { config = config }, w.search, refl)
      (and_then-SameTables w' (saving w' (save_config yaml w'.store)) (answer_added ip)
        (saving-SameTables w' (save_config yaml w'.store)) (λ o v. SameTables-refl v))

discover-SameTables :
    (yaml : Yaml) (ip : Text) (remember : Bool) (o : Option Search) (w : Server)
    → SameTables w (discover_ip yaml ip remember o w).1
unfolding discover_ip store_remembered
discover-SameTables yaml [] remember o w = SameTables-refl w
discover-SameTables yaml (c ∷ cs) remember none w = SameTables-refl w
discover-SameTables yaml (c ∷ cs) false (some d) w = (w.store, some (add_target (c ∷ cs) d), refl)
discover-SameTables yaml (c ∷ cs) true (some d) w =
    let w' : Server = record w { search = some (add_target (c ∷ cs) d) } in
    SameTables-trans w w' _ (w.store, some (add_target (c ∷ cs) d), refl)
      (remembered-SameTables yaml (c ∷ cs) w' (remember_ip w'.store.config (c ∷ cs)))

body-SameTables :
    (yaml : Yaml) (w : Server) (r : Result (Text × Bool)) → SameTables w (discover_body yaml w r).1
unfolding discover_body
body-SameTables yaml w (err e) = SameTables-refl w
body-SameTables yaml w (ok (ip, remember)) = discover-SameTables yaml ip remember w.search w

reconfigured-SameTables : (w : Server) (r : Result Fields) → SameTables w (reconfigured w r).1
reconfigured-SameTables w (err e) = SameTables-refl w
reconfigured-SameTables w (ok config) = (record w.store { config = config }, w.search, refl)

pub save-SameTables :
    (yaml : Yaml) (dev_id : Text) (w : Server) → SameTables w (handle_camera_save yaml dev_id w).1
unfolding handle_camera_save save_if
save-SameTables yaml dev_id w = save_if-SameTables yaml w _

pub reload-SameTables : (yaml : Yaml) (w : Server) → SameTables w (handle_config_reload yaml w).1
unfolding handle_config_reload
reload-SameTables yaml w = reloaded-SameTables w (reload_config yaml w.store)

pub discovers-SameTables :
    (yaml : Yaml) (text_of : Value → Text) (b : Result Value) (w : Server)
    → SameTables w (handle_discover yaml text_of b w).1
unfolding handle_discover discover_body
discovers-SameTables yaml text_of b w = body-SameTables yaml w (read_body text_of (body_or_empty b))

pub rotate-SameTables :
    (turned : Bool → ℕ → Result Value) (dev_id : Text) (w : Server)
    → SameTables w (handle_rotate turned dev_id w).1
unfolding handle_rotate
rotate-SameTables turned dev_id w = reconfigured-SameTables w (rotate turned dev_id w.store.config)

pub mirror-SameTables : (dev_id : Text) (w : Server) → SameTables w (handle_mirror dev_id w).1
unfolding handle_mirror
mirror-SameTables dev_id w = reconfigured-SameTables w (mirror dev_id w.store.config)
