-- ===== src/Cli.antt =====
-- cam_reverse/cli.py: the commands, what their arguments change in the settings, and what is started.
use cam_reverse_py.Base.{
  ℕ, zero, suc, Bool, Text, Option, none, some, Result, ok, err, key_error, type_error, or_raise,
  ◌>>=◌,
}
use cam_reverse_py.Base.Int.{pos}
use cam_reverse_py.Settings.{
  Value, bool, int, str, arr, obj, nil, cons, Fields, codes, get, put, attr_get,
}
use cam_reverse_py.Settings.Files.{Yaml, Store, load_file}
use cam_reverse_py.WebServer.Cameras.{put_item}
use cam_reverse_py.WebServer.Api.{item}
use cam_reverse_py.Pair.{check_password}

-- The arguments of `http_server`, as argparse hands them over.
pub record HttpArgs : Type 0 where
  pub config_file : Option Text
  pub port : Option ℕ
  pub color : Option Bool
  pub log_level : Option Text
  pub discovery_ip : Option Text

-- `config[section][key] = v`.
abbrev pub set_in : Text → Text → Value → Fields → Result Fields
set_in section key v config = do
  old ← or_raise (get section config) key_error
  new ← put_item key v old
  ok (put section new config)

-- `if args.port`: a port of 0 is passed over.
abbrev pub set_port : Option ℕ → Fields → Result Fields
set_port none config = ok config
set_port (some zero) config = ok config
set_port (some (suc n)) config =
    set_in (codes "http_server") (codes "port") (int (pos (suc n))) config

abbrev pub set_color : Option Bool → Fields → Result Fields
set_color none config = ok config
set_color (some b) config = set_in (codes "logging") (codes "use_color") (bool b) config

abbrev pub set_level : Option Text → Fields → Result Fields
set_level none config = ok config
set_level (some level) config = set_in (codes "logging") (codes "level") (str level) config

-- `settings.config["discovery_ips"] = [args.discovery_ip]`.
abbrev pub set_discovery_ip : Option Text → Fields → Fields
set_discovery_ip none config = config
set_discovery_ip (some ip) config = put (codes "discovery_ips") (arr (cons (str ip) nil)) config

unfoldable pub apply_args : HttpArgs → Fields → Result Fields
apply_args args config = do
  config ← set_port args.port config
  config ← set_color args.color config
  config ← set_level args.log_level config
  ok (set_discovery_ip args.discovery_ip config)

abbrev pub load_if : Yaml → Option Text → Store → Result (Unit {0}) × Store
unfolding load_file
load_if yaml none s = (ok tt, s)
load_if yaml (some path) s = load_file yaml path s

abbrev pub with_args : HttpArgs → Result (Unit {0}) × Store → Result Store
unfolding apply_args
with_args args (err e, s) = err e
with_args args (ok _, s) = do config ← apply_args args s.config; ok (record s { config = config })

-- The settings with which `main` starts the server; where it raises, the program ends.
unfoldable pub http_settings : Yaml → HttpArgs → Store → Result Store
unfolding load_if with_args
http_settings yaml args s = with_args args (load_if yaml args.config_file s)

-- The three commands with their arguments, as `_build_parser` has them; what is only the log's is left out.
pub data Subcommand : Type 0 where
  http_server : HttpArgs → Subcommand
  pair : Text → Text → Option Text → Subcommand
  frame : Text → Text → Subcommand

-- What `asyncio.run` is given: the port, the network and its password, or the address and the file.
pub data Program : Type 0 where
  serve_http : Value → Program
  run_pair : Text → Text → Value → Program
  capture_single : Text → Text → Program

-- `_LEVELS.get(level, ...)`: a list or a dictionary is no key.
abbrev pub as_key : Value → Result (Unit {0})
as_key (arr xs) = err type_error
as_key (obj fs) = err type_error
as_key _ = ok tt

-- `build_logger` and `serve_http` on the settings.
abbrev pub start_server : Store → Result (Program × Store)
start_server s = do
  logging ← or_raise (get (codes "logging") s.config) key_error
  level ← item logging (codes "level")
  use_color ← attr_get logging (codes "use_color")
  hashable ← as_key level
  section ← or_raise (get (codes "http_server") s.config) key_error
  port ← item section (codes "port")
  ok (serve_http port, s)

abbrev pub start_pair : Text → Text → Store → Result (Program × Store)
unfolding check_password
start_pair ssid password s = do
  allowed ← check_password password
  ips ← or_raise (get (codes "discovery_ips") s.config) key_error
  ok (run_pair ssid password ips, s)

-- `main`, up to the loop that runs the program.
unfoldable pub main : Yaml → Subcommand → Store → Result (Program × Store)
unfolding http_settings start_pair
main yaml (http_server args) s = do settings ← http_settings yaml args s; start_server settings
main yaml (pair ssid password ip) s =
    start_pair ssid password (record s { config = set_discovery_ip ip s.config })
main yaml (frame ip file) s = ok (capture_single ip file, s)
