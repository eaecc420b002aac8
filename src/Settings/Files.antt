-- ===== src/Settings/Files.antt =====
-- Reading and writing the configuration file (cam_reverse/settings.py). The files and PyYAML are
-- parameters: what a path holds, whether it can be written, and the two functions of `yaml`.
use cam_reverse_py.Base.{
  Bool, true, false, Option, none, some, [], ◌∷◌, Text, text_eq, if◌then◌else◌, Result, ok, err,
  os_error, bind,
}
use cam_reverse_py.Settings.{Value, obj, Fields, codes, apply_config, load_config, or_empty}

pub record Yaml : Type 0 where
  pub safe_dump : Value → Text
  pub safe_load : Text → Result Value

-- The files: what the paths that exist hold, and which can be opened for reading and for writing.
pub record Disk : Type 0 where
  pub contents : Text → Option Text
  pub readable : Text → Bool
  pub writable : Text → Bool

-- The globals of the module, and the disk.
pub record Store : Type 0 where
  pub config : Fields
  pub config_path : Option Text
  pub disk : Disk

abbrev pub write_file : Text → Text → Disk → Disk
write_file path text d = record d {
  contents = λ p. if text_eq p path then some text else d.contents p;
}

-- `config_path or DEFAULT_CONFIG_FILE`.
abbrev pub path_or_default : Option Text → Text
path_or_default none = codes "config.yml"
path_or_default (some []) = codes "config.yml"
path_or_default (some (c ∷ cs)) = c ∷ cs

-- `open(path)` and `yaml.safe_load(fh)`.
abbrev pub read_opened : Yaml → Bool → Option Text → Result Value
read_opened yaml readable none = err os_error
read_opened yaml false (some text) = err os_error
read_opened yaml true (some text) = yaml.safe_load text

abbrev pub read_value : Yaml → Disk → Text → Result Value
read_value yaml disk path = read_opened yaml (disk.readable path) (disk.contents path)

-- The functions return the state too, since what was written before a raise stays.
abbrev pub finish_load : Store → Text → Result Fields → Result (Unit {0}) × Store
finish_load s path (err e) = (err e, s)
finish_load s path (ok config) = (ok tt, record s { config = config; config_path = some path })

unfoldable pub load_file : Yaml → Text → Store → Result (Unit {0}) × Store
unfolding load_config
load_file yaml path s = finish_load s path (bind load_config (read_value yaml s.disk path))

unfoldable pub save_config : Yaml → Store → Result Text × Store
save_config yaml s =
    let path = path_or_default s.config_path in
    if s.disk.writable path
    then (
      ok path,
      record s {
        config_path = some path;
        disk = write_file path (yaml.safe_dump (obj s.config)) s.disk;
      },
    )
    else (err os_error, s)

abbrev pub finish_apply : Store → Text → Result (Unit {0}) × Fields → Result (Option Text) × Store
finish_apply s path (ok _, config) = (ok (some path), record s { config = config })
finish_apply s path (err e, config) = (err e, record s { config = config })

abbrev pub apply_read : Store → Text → Result Value → Result (Option Text) × Store
unfolding apply_config
apply_read s path (err e) = (err e, s)
apply_read s path (ok parsed) = finish_apply s path (apply_config s.config (or_empty parsed))

-- `not config_path or not os.path.exists(config_path)`.
abbrev pub reload_from : Yaml → Store → Option Text → Result (Option Text) × Store
reload_from yaml s none = (ok none, s)
reload_from yaml s (some []) = (ok none, s)
reload_from yaml s (some (c ∷ cs)) = elim (s.disk.contents (c ∷ cs)) [
  | none ↦ (ok none, s)
  | some text ↦ apply_read s (c ∷ cs) (read_value yaml s.disk (c ∷ cs))
]

unfoldable pub reload_config : Yaml → Store → Result (Option Text) × Store
unfolding apply_config
reload_config yaml s = reload_from yaml s s.config_path
