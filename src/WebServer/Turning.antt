-- ===== src/WebServer/Turning.antt =====
-- What the buttons that turn and mirror a picture do to its orientation.
use cam_reverse_py.Base.{
  ℕ, zero, suc, ◌+◌, ◌%◌, ◌<◌, ◌≤◌, ◌≡◌, refl, ap, ap₂, ◌∙◌, arith, Bool, true, false, not, Text,
  Option, some, if◌then◌else◌, Result, ok, bind, bind_ok, ◌==◌,
}
use cam_reverse_py.Base.Int.{pos}
use cam_reverse_py.Settings.{
  Value, int, bool, obj, Fields, codes, get, put, or_default, camera_option,
}
use cam_reverse_py.Settings.Merge.{get-put_same, get-put_other}
use cam_reverse_py.WebServer.Frame.{orientation_of, at_value, is_set, o_map, o_map_mirror}
use cam_reverse_py.WebServer.Api.{set_camera_key, rotate, mirror}

-- A quarter turn, and a reflection, on the orientations that EXIF numbers from 1 to 8.
abbrev pub turned_once : ℕ → ℕ
turned_once o =
    if o == 1
    then 8
    else if o == 8
    then 3
    else if o == 3
    then 6
    else if o == 6
    then 1
    else if o == 2
    then 7
    else if o == 7
    then 4
    else if o == 4
    then 5
    else 2

abbrev pub reflected : ℕ → ℕ
reflected o =
    if o == 1
    then 2
    else if o == 2
    then 1
    else if o == 3
    then 4
    else if o == 4
    then 3
    else if o == 5
    then 6
    else if o == 6
    then 5
    else if o == 7
    then 8
    else 7

-- The configuration with a setting of a camera replaced.
abbrev replaced : Fields → Fields → Fields → Text → Text → Value → Fields
replaced config cams cam dev_id key v =
    put (codes "cameras") (obj (put dev_id (obj (put key v cam)) cams)) config

module _ (config cams cam : Fields) (dev_id : Text)
    (has_cameras : get (codes "cameras") config ≡ some (obj cams))
    (has_camera : get dev_id cams ≡ some (obj cam)) where
  camera_option_lem : (key : Text) → camera_option config dev_id key ≡ ok (get key cam)
  unfolding camera_option
  camera_option_lem key = rw (has_cameras, has_camera)

  orientation_of_lem :
      orientation_of config dev_id
      ≡ at_value
          (if is_set (get (codes "mirror") cam) then o_map_mirror else o_map)
          (or_default (get (codes "rotate") cam) (int (pos 0)))
  unfolding orientation_of
  orientation_of_lem =
      bind_ok _ (camera_option_lem (codes "rotate"))
        (bind_ok _ (camera_option_lem (codes "mirror")) refl)

  set_camera_key_lem :
      (key : Text) (v : Value)
      → set_camera_key config dev_id key v ≡ ok (replaced config cams cam dev_id key v)
  unfolding set_camera_key
  set_camera_key_lem key v = rw (has_cameras, has_camera) refl

  replaced-has_cameras :
      (key : Text) (v : Value)
      → get (codes "cameras") (replaced config cams cam dev_id key v)
        ≡ some (obj (put dev_id (obj (put key v cam)) cams))
  replaced-has_cameras key v =
      get-put_same (codes "cameras") (obj (put dev_id (obj (put key v cam)) cams)) config

  rotate_lem :
      (turned : Bool → ℕ → Result Value) (r : ℕ)
      → or_default (get (codes "rotate") cam) (int (pos 0)) ≡ int (pos r)
      → rotate turned dev_id config
        ≡ ok (replaced config cams cam dev_id (codes "rotate") (int (pos ((r + 1) % 4))))
  unfolding rotate
  rotate_lem turned r h =
      bind_ok _ (camera_option_lem (codes "rotate"))
        (rw h (set_camera_key_lem (codes "rotate") (int (pos ((r + 1) % 4)))))

  mirror_lem :
      mirror dev_id config
      ≡ ok (
          replaced config cams cam dev_id
            (codes "mirror")
            (bool (not (is_set (get (codes "mirror") cam)))))
  unfolding mirror
  mirror_lem = rw (has_cameras, has_camera) refl

-- The table and the rotation that two settings choose.
abbrev choose : Option Value → Option Value → Result ℕ
choose m r = at_value (if is_set m then o_map_mirror else o_map) (or_default r (int (pos 0)))

-- The orientation after a setting of the camera was replaced.
orientation_of-replaced :
    (config cams cam : Fields) (dev_id key : Text) (v : Value)
    → orientation_of (replaced config cams cam dev_id key v) dev_id
      ≡ choose (get (codes "mirror") (put key v cam)) (get (codes "rotate") (put key v cam))
orientation_of-replaced config cams cam dev_id key v =
    let cams' = put dev_id (obj (put key v cam)) cams in
    orientation_of_lem (replaced config cams cam dev_id key v) cams' (put key v cam) dev_id
      (get-put_same (codes "cameras") (obj cams') config)
      (get-put_same dev_id (obj (put key v cam)) cams)

-- The number in the table that a camera's settings choose.
abbrev chosen : Bool → ℕ → Result ℕ
chosen mirrored r = at_value (if mirrored then o_map_mirror else o_map) (int (pos r))

chosen_lem :
    (mirrored : Bool) (r : ℕ)
    → r < 4
    → (o : ℕ) × (chosen mirrored r ≡ ok o)
      × (1 ≤ o)
      × (o ≤ 8)
      × (chosen mirrored ((r + 1) % 4) ≡ ok (turned_once o))
      × (chosen (not mirrored) r ≡ ok (reflected o))
chosen_lem false zero h = (1, refl, omega arith, omega arith, refl, refl)
chosen_lem false (suc zero) h = (8, refl, omega arith, omega arith, refl, refl)
chosen_lem false (suc (suc zero)) h = (3, refl, omega arith, omega arith, refl, refl)
chosen_lem false (suc (suc (suc zero))) h = (6, refl, omega arith, omega arith, refl, refl)
chosen_lem true zero h = (2, refl, omega arith, omega arith, refl, refl)
chosen_lem true (suc zero) h = (7, refl, omega arith, omega arith, refl, refl)
chosen_lem true (suc (suc zero)) h = (4, refl, omega arith, omega arith, refl, refl)
chosen_lem true (suc (suc (suc zero))) h = (5, refl, omega arith, omega arith, refl, refl)
chosen_lem mirrored (suc (suc (suc (suc r)))) h = absurd (omega arith)

-- For a camera whose rotation is set to 0, 1, 2 or 3, or not set: its picture has an orientation from 1 to 8,
-- and after `rotate` the same orientation turned by a quarter, after `mirror` the same one reflected.
pub orientation_of-turned :
    (config cams cam : Fields) (dev_id : Text) (turned : Bool → ℕ → Result Value) (r : ℕ)
    → get (codes "cameras") config ≡ some (obj cams)
    → get dev_id cams ≡ some (obj cam)
    → or_default (get (codes "rotate") cam) (int (pos 0)) ≡ int (pos r)
    → r < 4
    → (o : ℕ) × (orientation_of config dev_id ≡ ok o)
      × (1 ≤ o)
      × (o ≤ 8)
      × (bind (λ c. orientation_of c dev_id) (rotate turned dev_id config) ≡ ok (turned_once o))
      × (bind (λ c. orientation_of c dev_id) (mirror dev_id config) ≡ ok (reflected o))
orientation_of-turned config cams cam dev_id turned r h h' e less =
    let m = is_set (get (codes "mirror") cam) in
    let quarter = int (pos ((r + 1) % 4)) in
    let (o, now, low, high, next, other) = chosen_lem m r less in
    (
      o,
      orientation_of_lem config cams cam dev_id h h'
          ∙ ap (at_value (if m then o_map_mirror else o_map)) e
          ∙ now,
      low,
      high,
      ap (bind (λ c. orientation_of c dev_id)) (rotate_lem config cams cam dev_id h h' turned r e)
          ∙ orientation_of-replaced config cams cam dev_id (codes "rotate") quarter
          ∙ ap₂ choose (get-put_other (codes "mirror") (codes "rotate") quarter cam refl)
              (get-put_same (codes "rotate") quarter cam)
          ∙ next,
      ap (bind (λ c. orientation_of c dev_id)) (mirror_lem config cams cam dev_id h h')
          ∙ orientation_of-replaced config cams cam dev_id (codes "mirror") (bool (not m))
          ∙ ap₂ choose (get-put_same (codes "mirror") (bool (not m)) cam)
              (get-put_other (codes "rotate") (codes "mirror") (bool (not m)) cam refl)
          ∙ ap (at_value (if not m then o_map_mirror else o_map)) e
          ∙ other,
    )
