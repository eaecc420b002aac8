-- ===== src/Settings/Merge.antt =====
-- What an update of the configuration keeps.
use cam_reverse_py.Base.{
  ◌≡◌, refl, sym, ap, ◌∙◌, subst, arith, Bool, true, false, Option, none, some, Text, text_eq,
  text_eq→eq, text_eq_refl, Bool-cases, inl, inr, if◌then◌else◌, Result, ok, err,
}
use cam_reverse_py.Settings.{
  Value, Fields, end, field, obj, null, bool, int, str, other, arr, codes, get, put, update,
  apply_key, apply_keys, apply_config, cameras_of, merge_cameras, merged_camera, next_key,
  next_camera, put_value, camera_option, as_mapping, or_empty,
}

-- Writing a key leaves the others alone.
pub get-put_other :
    (key j : Text) (w : Value) (fs : Fields)
    → text_eq j key ≡ false
    → get key (put j w fs) ≡ get key fs
get-put_other key j w end h = rw h
get-put_other key j w (field k v fs) h = elim (Bool-cases (text_eq k j)) [
  | inl e ↦
      (let same = subst (λ t. text_eq t key ≡ false) (sym (text_eq→eq k j e)) h in rw (e, same))
  | inr e ↦ rw e (ap (λ o. if text_eq k key then some v else o) (get-put_other key j w fs h))
]

pub get-put_same : (key : Text) (w : Value) (fs : Fields) → get key (put key w fs) ≡ some w
get-put_same key w end = rw text_eq_refl
get-put_same key w (field k v fs) = elim (Bool-cases (text_eq k key)) [
  | inl e ↦ rw (e, e)
  | inr e ↦ rw (e, e) (get-put_same key w fs)
]

get-put :
    (key j : Text) (w : Value) (fs : Fields)
    → get key (put j w fs) ≡ (if text_eq j key then some w else get key fs)
get-put key j w fs = elim (Bool-cases (text_eq j key)) [
  | inl e ↦
      rw e (subst (λ k. get k (put j w fs) ≡ some w) (text_eq→eq j key e) (get-put_same j w fs))
  | inr e ↦ rw e (get-put_other key j w fs e)
]

-- What a key is in `{**a, **b}`, for the value that it has in `a`.
abbrev pub overlay : Text → Fields → Option Value → Option Value
overlay key end old = old
overlay key (field k v fs) old = overlay key fs (if text_eq k key then some v else old)

get-update : (key : Text) (a b : Fields) → get key (update a b) ≡ overlay key b (get key a)
get-update key a end = refl
get-update key a (field k v fs) =
    get-update key (put k v a) fs ∙ ap (overlay key fs) (get-put key k v a)

-- One key of an update leaves the others alone, whether it raises or not.
get-apply_key :
    (key k : Text) (config : Fields) (v : Value)
    → text_eq k key ≡ false
    → get key (apply_key config k v).1 ≡ get key config
unfolding apply_key
get-apply_key key k config (obj cams) h = elim (Bool-cases (text_eq k (codes "cameras"))) [
  | inl e ↦
      ap (λ b. get key (if b then cameras_merged else key_put).1) e
      ∙ get-put_other key (codes "cameras") (merge_cameras (cameras_of config) cams).1 config
          (subst (λ t. text_eq t key ≡ false) (text_eq→eq k (codes "cameras") e) h)
  | inr e ↦
      ap (λ b. get key (if b then cameras_merged else key_put).1) e
      ∙ get-put_other key k (obj cams) config h
]
  where
    cameras_merged : Result (Unit {0}) × Fields
    cameras_merged = (
      (merge_cameras (cameras_of config) cams).0,
      put (codes "cameras") (merge_cameras (cameras_of config) cams).1 config,
    )

    key_put : Result (Unit {0}) × Fields
    key_put = (ok tt, put k (obj cams) config)
get-apply_key key k config null h = get-put_other key k null config h
get-apply_key key k config (bool b) h = get-put_other key k (bool b) config h
get-apply_key key k config (int n) h = get-put_other key k (int n) config h
get-apply_key key k config (str s) h = get-put_other key k (str s) config h
get-apply_key key k config (other b n) h = get-put_other key k (other b n) config h
get-apply_key key k config (arr xs) h = get-put_other key k (arr xs) config h

-- The loop stops at a raise or goes on: either way a key stays as the step and the rest leave it.
get-next_key :
    (key : Text) (o : Option Value) (p : Result (Unit {0}) × Fields)
    (rest : Fields → Result (Unit {0}) × Fields)
    → get key p.1 ≡ o
    → ((config : Fields) → get key (rest config).1 ≡ get key config)
    → get key (next_key p rest).1 ≡ o
get-next_key key o (err e, config) rest h k = h
get-next_key key o (ok u, config) rest h k = k config ∙ h

none-or :
    {A : Type 0} (b : Bool) (v : A) (o : Option A)
    → (if b then some v else o) ≡ none
    → (b ≡ false) × (o ≡ none)
none-or true v o h = ground arith
none-or false v o h = (refl, h)

get-apply_keys :
    (key : Text) (config fs : Fields)
    → get key fs ≡ none
    → get key (apply_keys config fs).1 ≡ get key config
unfolding apply_keys
get-apply_keys key config end h = refl
get-apply_keys key config (field k v fs) h =
    let (other_key, rest) = none-or (text_eq k key) v (get key fs) h in
    get-next_key key (get key config) (apply_key config k v) (λ c. apply_keys c fs)
      (get-apply_key key k config v other_key) (λ c. get-apply_keys key c fs rest)

-- A key that an update does not have is left alone by `apply_config`, also where the update raises
-- half-way.
pub apply_config_untouched :
    (key : Text) (config fs : Fields)
    → get key fs ≡ none
    → get key (apply_config config (obj fs)).1 ≡ get key config
unfolding apply_config
apply_config_untouched key config end h = refl
apply_config_untouched key config (field k v fs) h = get-apply_keys key config (field k v fs) h

mapping_of_obj : (fs : Fields) → as_mapping (or_empty (obj fs)) ≡ ok fs
mapping_of_obj end = refl
mapping_of_obj (field k v fs) = refl

pub merged_camera_lem :
    (cams old new : Fields) (cid : Text)
    → get cid cams ≡ some (obj old)
    → merged_camera (obj cams) cid (obj new) ≡ ok (obj (update old new))
merged_camera_lem cams old new cid h = rw (h, mapping_of_obj new)

merge_cameras_lem :
    (cams old new : Fields) (cid : Text)
    → get cid cams ≡ some (obj old)
    → merge_cameras (obj cams) (field cid (obj new) end)
      ≡ (ok tt, obj (put cid (obj (update old new)) cams))
unfolding merge_cameras
merge_cameras_lem cams old new cid h =
    ap (λ r. next_camera r (obj cams) (λ v. (ok tt, put_value cid v (obj cams))))
      (merged_camera_lem cams old new cid h)

-- The configuration after the update of one camera.
abbrev updated : Fields → Fields → Fields → Fields → Text → Fields
updated config cams old new cid =
    put (codes "cameras") (obj (put cid (obj (update old new)) cams)) config

apply_config_lem :
    (config cams old new : Fields) (cid : Text)
    → get (codes "cameras") config ≡ some (obj cams)
    → get cid cams ≡ some (obj old)
    → apply_config config (obj (field (codes "cameras") (obj (field cid (obj new) end)) end))
      ≡ (ok tt, updated config cams old new cid)
unfolding apply_config
apply_config_lem config cams old new cid h h' = rw (h, merge_cameras_lem cams old new cid h')

-- An update of one camera, where both have their settings as dictionaries: reading any setting of this
-- camera gives the update's value, or the old one where the update has none, and what is read of every other
-- camera stays as it was.
pub apply_config_camera :
    (config cams old new : Fields) (cid other_cid key : Text)
    → get (codes "cameras") config ≡ some (obj cams)
    → get cid cams ≡ some (obj old)
    → text_eq cid other_cid ≡ false
    → let (r, config') =
        apply_config config (obj (field (codes "cameras") (obj (field cid (obj new) end)) end)) in
      (r ≡ ok tt)
      × (camera_option config' cid key ≡ ok (overlay key new (get key old)))
      × (camera_option config' other_cid key ≡ camera_option config other_cid key)
unfolding apply_config camera_option
apply_config_camera config cams old new cid other_cid key h h' different =
    let cams' = put cid (obj (update old new)) cams in
    let stored = get-put_same (codes "cameras") (obj cams') config in
    subst
      (λ p.
        (p.0 ≡ ok tt)
        × (camera_option p.1 cid key ≡ ok (overlay key new (get key old)))
        × (camera_option p.1 other_cid key ≡ camera_option config other_cid key))
      (sym (apply_config_lem config cams old new cid h h'))
      (
        refl,
        rw (stored, get-put_same cid (obj (update old new)) cams) (ap ok (get-update key old new)),
        rw (stored, h, get-put_other other_cid cid (obj (update old new)) cams different),
      )
