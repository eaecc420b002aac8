-- ===== src/Settings.antt =====
-- cam_reverse/settings.py: the configuration, a dictionary of what YAML and JSON can hold. Files,
-- YAML and the module-level `config_path` are not modelled here.
pub mod Merge
pub mod Files
pub mod Reload
use Prim.Native.String.{String}
use Prim.Native.Char.{code}
use cam_reverse_py.Base.{
  ℕ, zero, suc, Bool, true, false, Option, none, some, [], ◌∷◌, Text, text_eq, if◌then◌else◌,
  Result, ok, err, key_error, attribute_error, type_error, or_raise, ◌>>=◌,
}
use cam_reverse_py.Base.Int.{ℤ, pos, negsuc}

-- The code points of a text literal.
abbrev pub codes : String → Text
codes String.[] = []
codes (String.◌∷◌ c s) = code c ∷ codes s

-- `other` is any scalar besides, such as a float or a date: its truth value and an identity.
mutual
  pub data Value : Type 0 where
    null : Value
    bool : Bool → Value
    int : ℤ → Value
    str : Text → Value
    other : Bool → ℕ → Value
    arr : Items → Value
    obj : Fields → Value

  pub data Items : Type 0 where
    nil : Items
    cons : Value → Items → Items

  pub data Fields : Type 0 where
    end : Fields
    field : Text → Value → Fields → Fields

-- `bool(value)`.
abbrev pub truthy : Value → Bool
truthy null = false
truthy (bool b) = b
truthy (int (pos zero)) = false
truthy (int (pos (suc n))) = true
truthy (int (negsuc n)) = true
truthy (str []) = false
truthy (str (c ∷ s)) = true
truthy (other b n) = b
truthy (arr nil) = false
truthy (arr (cons x xs)) = true
truthy (obj end) = false
truthy (obj (field k v fs)) = true

-- `d.get(key)` and `d[key] = value` on a dictionary, which keeps the order of insertion.
abbrev pub get : Text → Fields → Option Value
get key end = none
get key (field k v fs) = if text_eq k key then some v else get key fs

abbrev pub put : Text → Value → Fields → Fields
put key w end = field key w end
put key w (field k v fs) = if text_eq k key then field k w fs else field k v (put key w fs)

-- `{**a, **b}`.
abbrev pub update : Fields → Fields → Fields
update a end = a
update a (field k v fs) = update (put k v a) fs

-- `value.get(key)`, and the mapping that `**value` wants.
abbrev pub attr_get : Value → Text → Result (Option Value)
attr_get (obj fs) key = ok (get key fs)
attr_get _ key = err attribute_error

abbrev pub as_mapping : Value → Result Fields
as_mapping (obj fs) = ok fs
as_mapping _ = err type_error

-- `option or default`, and `value or {}`.
abbrev pub or_default : Option Value → Value → Value
or_default none d = d
or_default (some v) d = v

abbrev pub or_empty : Value → Value
or_empty v = if truthy v then v else obj end

-- `{**cams.get(cid, {}), **(cfg or {})}` for the value `cams` of the configuration.
abbrev pub merged_camera : Value → Text → Value → Result Value
merged_camera cams cid cfg = do
  old ← attr_get cams cid
  a ← as_mapping (or_default old (obj end))
  b ← as_mapping (or_empty cfg)
  ok (obj (update a b))

-- `cams[cid] = value`, after `cams.get` has succeeded.
abbrev pub put_value : Text → Value → Value → Value
put_value key w (obj fs) = obj (put key w fs)
put_value key w other_value = other_value

-- One round of the loop over the cameras of an update ends with the new entry, or raises.
abbrev pub next_camera :
    Result Value → Value → (Value → Result (Unit {0}) × Value) → Result (Unit {0}) × Value
next_camera (err e) cams rest = (err e, cams)
next_camera (ok v) cams rest = rest v

-- The loop. `cams` is changed in place, also before a raise.
unfoldable pub merge_cameras : Value → Fields → Result (Unit {0}) × Value
merge_cameras cams end = (ok tt, cams)
merge_cameras cams (field cid cfg fs) =
    next_camera (merged_camera cams cid cfg) cams (λ v. merge_cameras (put_value cid v cams) fs)

-- The value of `config.setdefault("cameras", {})`.
abbrev pub cameras_of : Fields → Value
cameras_of config = or_default (get (codes "cameras") config) (obj end)

-- One key of an update.
unfoldable pub apply_key : Fields → Text → Value → Result (Unit {0}) × Fields
unfolding merge_cameras
apply_key config key (obj cams) =
    if text_eq key (codes "cameras")
    then (let (r, merged) = merge_cameras (cameras_of config) cams in
        (r, put (codes "cameras") merged config))
    else (ok tt, put key (obj cams) config)
apply_key config key value = (ok tt, put key value config)

-- A raise ends the loop with what was written so far.
abbrev pub next_key :
    Result (Unit {0}) × Fields → (Fields → Result (Unit {0}) × Fields) → Result (Unit {0}) × Fields
next_key (err e, config) rest = (err e, config)
next_key (ok _, config) rest = rest config

unfoldable pub apply_keys : Fields → Fields → Result (Unit {0}) × Fields
unfolding apply_key
apply_keys config end = (ok tt, config)
apply_keys config (field key value fs) =
    next_key (apply_key config key value) (λ config'. apply_keys config' fs)

-- `value.items()`.
abbrev pub items_of : Value → Result Fields
items_of (obj fs) = ok fs
items_of _ = err attribute_error

-- `apply_config`: what was written before a raise stays written.
unfoldable pub apply_config : Fields → Value → Result (Unit {0}) × Fields
unfolding apply_keys
apply_config config new = elim (items_of (or_empty new)) [
  | err e ↦ (err e, config)
  | ok fs ↦ apply_keys config fs
]

-- `DefaultConfig`.
abbrev pub default_config : Fields
default_config = field (codes "http_server") (obj (field (codes "port") (int (pos 5000)) end)) (
    field (codes "logging") (obj (field (codes "level") (str (codes "info")) end)) (
      field (codes "cameras") (obj end) (
        field (codes "discovery_ips") (arr (cons (str (codes "192.168.1.255")) nil))
          (field (codes "blacklisted_ips") (arr nil) end))))

-- `config["cameras"].get(dev, {}).get(key)`, as the other modules read a camera's settings.
unfoldable pub camera_option : Fields → Text → Text → Result (Option Value)
camera_option config dev key = do
  cameras ← or_raise (get (codes "cameras") config) key_error
  entry ← attr_get cameras dev
  attr_get (or_default entry (obj end)) key

-- The settings of `load_config`: what the file holds, over the defaults, key by key.
unfoldable pub load_config : Value → Result Fields
load_config parsed = do fs ← as_mapping (or_empty parsed); ok (update default_config fs)
