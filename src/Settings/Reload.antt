-- ===== src/Settings/Reload.antt =====
-- Saving the configuration and reading it again.
use cam_reverse_py.Base.{
  ◌≡◌, refl, sym, ap, ◌∙◌, subst, arith, true, Option, none, some, Text, text_eq, text_eq→eq,
  text_eq_refl, Bool-cases, inl, inr, if◌then◌else◌, ok, [], ◌∷◌,
}
use cam_reverse_py.Settings.{
  Value, Fields, end, field, obj, null, bool, int, str, other, arr, codes, get, put, update,
  apply_key, apply_keys, apply_config, merge_cameras, next_key, next_camera, put_value, or_default,
  or_empty,
}
use cam_reverse_py.Settings.Merge.{merged_camera_lem}
use cam_reverse_py.Settings.Files.{
  Yaml, Store, Disk, read_value, path_or_default, save_config, reload_config, reload_from,
  apply_read, finish_apply,
}

-- A dictionary has every key once.
abbrev pub WellKeyed : Fields → Type 0
WellKeyed end = Unit {0}
WellKeyed (field k v fs) = (get k fs ≡ none) × WellKeyed fs

-- Every camera's entry is a dictionary.
abbrev pub AllKeyed : Fields → Type 0
AllKeyed end = Unit {0}
AllKeyed (field k v fs) = ((c : Fields) × (v ≡ obj c) × WellKeyed c) × AllKeyed fs

-- A configuration whose cameras, if it has any, stand in a dictionary of dictionaries.
abbrev pub IsConfig : Fields → Type 0
IsConfig config =
    WellKeyed config
    × ((cams : Fields)
        → get (codes "cameras") config ≡ some (obj cams)
        → WellKeyed cams × AllKeyed cams)

-- What the first dictionary holds is in the second one.
abbrev IsPart : Fields → Fields → Type 0
IsPart end a = Unit {0}
IsPart (field k v b) a = (get k a ≡ some v) × IsPart b a

put_same : (key : Text) (v : Value) (fs : Fields) → get key fs ≡ some v → put key v fs ≡ fs
put_same key v end h = ground arith
put_same key v (field k w fs) h = elim (Bool-cases (text_eq k key)) [
  | inl e ↦
      (let held = subst (λ b. (if b then some w else get key fs) ≡ some v) e h in
        rw e (ap (λ u. field k u fs) (sym (ap (λ o. or_default o null) held))))
  | inr e ↦
      (let held = subst (λ b. (if b then some w else get key fs) ≡ some v) e h in
        rw e (ap (field k w) (put_same key v fs held)))
]

update-part : (a b : Fields) → IsPart b a → update a b ≡ a
update-part a end h = refl
update-part a (field k v b) h = ap (λ c. update c b) (put_same k v a h.0) ∙ update-part a b h.1

get-field :
    (k j : Text) (v w : Value) (a : Fields)
    → get k a ≡ none
    → get j a ≡ some w
    → get j (field k v a) ≡ some w
get-field k j v w a n h = elim (Bool-cases (text_eq k j)) [
  | inl e ↦
      (let gone : none ≡ some w = sym n ∙ ap (λ i. get i a) (text_eq→eq k j e) ∙ h in ground arith)
  | inr e ↦ rw e h
]

IsPart-field :
    (k : Text) (v : Value) (b a : Fields) → get k a ≡ none → IsPart b a → IsPart b (field k v a)
IsPart-field k v end a n h = tt
IsPart-field k v (field j w b) a n h = (get-field k j v w a n h.0, IsPart-field k v b a n h.1)

IsPart-self : (fs : Fields) → WellKeyed fs → IsPart fs fs
IsPart-self end h = tt
IsPart-self (field k v fs) h = (rw text_eq_refl, IsPart-field k v fs fs h.0 (IsPart-self fs h.1))

merge_cameras_self :
    (cams part : Fields)
    → IsPart part cams
    → AllKeyed part
    → merge_cameras (obj cams) part ≡ (ok tt, obj cams)
unfolding merge_cameras
merge_cameras_self cams end h k = refl
merge_cameras_self cams (field cid v part) h ((c, e, keyed), rest) =
    let held : get cid cams ≡ some (obj c) = h.0 ∙ ap some e in
    ap (λ u. merge_cameras (obj cams) (field cid u part)) e
    ∙ ap (λ r. next_camera r (obj cams) (λ u. merge_cameras (put_value cid u (obj cams)) part))
        (merged_camera_lem cams c c cid held
          ∙ ap (λ d. ok (obj d)) (update-part c c (IsPart-self c keyed)))
    ∙ ap (λ d. merge_cameras (obj d) part) (put_same cid (obj c) cams held)
    ∙ merge_cameras_self cams part h.1 rest

apply_key_self :
    (config : Fields) (key : Text) (v : Value)
    → IsConfig config
    → get key config ≡ some v
    → apply_key config key v ≡ (ok tt, config)
unfolding apply_key
apply_key_self config key (obj cams) c h = elim (Bool-cases (text_eq key (codes "cameras"))) [
  | inl e ↦
      (let held =
          subst (λ k. get k config ≡ some (obj cams)) (text_eq→eq key (codes "cameras") e) h in
        let well = c.1 cams held in
        rw e (
          ap (λ p. (p.0, put (codes "cameras") p.1 config))
            (ap (λ o. merge_cameras (or_default o (obj end)) cams) held
              ∙ merge_cameras_self cams cams (IsPart-self cams well.0) well.1)
          ∙ ap (λ fs. (ok tt, fs)) (put_same (codes "cameras") (obj cams) config held)))
  | inr e ↦ rw e (ap (λ fs. (ok tt, fs)) (put_same key (obj cams) config h))
]
apply_key_self config key null c h = ap (λ fs. (ok tt, fs)) (put_same key null config h)
apply_key_self config key (bool b) c h = ap (λ fs. (ok tt, fs)) (put_same key (bool b) config h)
apply_key_self config key (int n) c h = ap (λ fs. (ok tt, fs)) (put_same key (int n) config h)
apply_key_self config key (str s) c h = ap (λ fs. (ok tt, fs)) (put_same key (str s) config h)
apply_key_self config key (other b n) c h =
    ap (λ fs. (ok tt, fs)) (put_same key (other b n) config h)
apply_key_self config key (arr xs) c h = ap (λ fs. (ok tt, fs)) (put_same key (arr xs) config h)

apply_keys_self :
    (config part : Fields)
    → IsConfig config
    → IsPart part config
    → apply_keys config part ≡ (ok tt, config)
unfolding apply_keys
apply_keys_self config end c h = refl
apply_keys_self config (field k v part) c h =
    ap (λ p. next_key p (λ config'. apply_keys config' part)) (apply_key_self config k v c h.0)
    ∙ apply_keys_self config part c h.1

apply_config_self :
    (config : Fields)
    → IsConfig config
    → apply_config config (or_empty (obj config)) ≡ (ok tt, config)
unfolding apply_config
apply_config_self end c = refl
apply_config_self (field k v fs) c =
    apply_keys_self (field k v fs) (field k v fs) c (IsPart-self (field k v fs) c.0)

reload_applied :
    (s : Store) (path : Text)
    → IsConfig s.config
    → apply_read s path (ok (obj s.config)) ≡ (ok (some path), s)
unfolding apply_config
reload_applied s path c = ap (finish_apply s path) (apply_config_self s.config c)

read_value_lem :
    (yaml : Yaml) (disk : Disk) (path text : Text) (v : Value)
    → disk.contents path ≡ some text
    → disk.readable path ≡ true
    → yaml.safe_load text ≡ ok v
    → read_value yaml disk path ≡ ok v
read_value_lem yaml disk path text v d o y = rw (d, o) y

reload_written :
    (yaml : Yaml) (s : Store) (path : Option Text) (text : Text)
    → IsConfig s.config
    → s.disk.contents (path_or_default path) ≡ some text
    → s.disk.readable (path_or_default path) ≡ true
    → yaml.safe_load text ≡ ok (obj s.config)
    → reload_from yaml s (some (path_or_default path)) ≡ (ok (some (path_or_default path)), s)
reload_written yaml s none text c d o y =
    rw d (ap (apply_read s _) (read_value_lem yaml s.disk _ text _ d o y) ∙ reload_applied s _ c)
reload_written yaml s (some []) text c d o y =
    rw d (ap (apply_read s _) (read_value_lem yaml s.disk _ text _ d o y) ∙ reload_applied s _ c)
reload_written yaml s (some (x ∷ xs)) text c d o y =
    rw d (ap (apply_read s _) (read_value_lem yaml s.disk _ text _ d o y) ∙ reload_applied s _ c)

-- Where the configuration is dictionaries with every key once and its cameras are dictionaries too, the path
-- can be written and read, and YAML reads what it wrote: `save_config` returns the path it wrote to, and
-- `reload_config` after it returns the same path and changes nothing, neither the configuration nor the
-- files.
pub reload_config-save_config :
    (yaml : Yaml) (s : Store)
    → IsConfig s.config
    → s.disk.writable (path_or_default s.config_path) ≡ true
    → s.disk.readable (path_or_default s.config_path) ≡ true
    → yaml.safe_load (yaml.safe_dump (obj s.config)) ≡ ok (obj s.config)
    → let (r, s') = save_config yaml s in
      (r ≡ ok (path_or_default s.config_path))
      × (reload_config yaml s' ≡ (ok (some (path_or_default s.config_path)), s'))
unfolding save_config reload_config
reload_config-save_config yaml s c w o y = rw w (
  refl,
  reload_written yaml _ s.config_path (yaml.safe_dump (obj s.config)) c
      (rw (text_eq_refl (path_or_default s.config_path)) refl) o y,
)
