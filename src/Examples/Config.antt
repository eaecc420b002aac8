-- ===== src/Examples/Config.antt =====
-- The theorems on updates of the configuration, applied at inputs where their hypotheses hold.
use cam_reverse_py.Base.{◌≡◌, refl, true, false, ok}
use cam_reverse_py.Settings.{
  Fields, field, end, obj, str, bool, codes, get, put, default_config, apply_config, camera_option,
}
use cam_reverse_py.Settings.Merge.{overlay, apply_config_untouched, apply_config_camera}

apply_config_untouched_example :
    get
      (codes "http_server")
      (apply_config default_config (obj (field (codes "logging") (str (codes "x")) end))).1
    ≡ get (codes "http_server") default_config
apply_config_untouched_example =
    apply_config_untouched (codes "http_server") default_config
      (field (codes "logging") (str (codes "x")) end) refl

-- One camera with two settings, and a new value for one of them.
abbrev old_camera : Fields
old_camera = field (codes "alias") (str (codes "door")) (field (codes "mirror") (bool true) end)

abbrev one_camera : Fields
one_camera = put (codes "cameras") (obj (field (codes "A") (obj old_camera) end)) default_config

abbrev edit : Fields
edit = field (codes "mirror") (bool false) end

apply_config_camera_example :
    ((apply_config one_camera
        (obj (field (codes "cameras") (obj (field (codes "A") (obj edit) end)) end))).0
      ≡ ok tt)
    × (camera_option
          (apply_config one_camera
            (obj (field (codes "cameras") (obj (field (codes "A") (obj edit) end)) end))).1
          (codes "A")
          (codes "mirror")
        ≡ ok (overlay (codes "mirror") edit (get (codes "mirror") old_camera)))
    × (camera_option
          (apply_config one_camera
            (obj (field (codes "cameras") (obj (field (codes "A") (obj edit) end)) end))).1
          (codes "B")
          (codes "mirror")
        ≡ camera_option one_camera (codes "B") (codes "mirror"))
apply_config_camera_example =
    apply_config_camera one_camera (field (codes "A") (obj old_camera) end) old_camera edit
      (codes "A") (codes "B") (codes "mirror") refl refl refl
