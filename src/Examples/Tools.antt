-- ===== src/Examples/Tools.antt =====
-- The theorems on discovery, the settings file, the log and the small programs, applied at inputs where their
-- hypotheses hold.
use cam_reverse_py.Base.{
  ℕ, ◌≡◌, refl, subst, true, false, List, [], ◌∷◌, ◌++◌, ◌||◌, Text, Option, none, some, arith, ok,
}
use cam_reverse_py.DataView.{Bytes, view}
use cam_reverse_py.Settings.{
  codes, default_config, Fields, nil, cons, arr, obj, str, bool, field, end, put, Value,
}
use cam_reverse_py.Settings.Files.{Yaml, Store, save_config, reload_config}
use cam_reverse_py.Settings.Reload.{WellKeyed, AllKeyed, IsConfig, reload_config-save_config}
use cam_reverse_py.State.{State}
use cam_reverse_py.Link.{WifiListItem}
use cam_reverse_py.Parsers.Serial.{padded}
use cam_reverse_py.Discovery.{is_active, add_targets, no_search, handle_incoming_punch}
use cam_reverse_py.Discovery.Targets.{
  texts, IsSearch, add_targets-IsSearch, handle_incoming_punch_lem,
}
use cam_reverse_py.Logger.{LogRecord, empty_buffer, level_no, logs_since}
use cam_reverse_py.Logger.Buffer.{emit_all, at_level, numbered, logs_since-emit_all}
use cam_reverse_py.Crypto.{xq_bytes_dec}
use cam_reverse_py.Scripts.{dec}
use cam_reverse_py.Scripts.Decoder.{dec-xq_bytes_dec}
use cam_reverse_py.Pair.{Pairing}
use cam_reverse_py.Examples.Camera.{connected_state}

abbrev two_addresses : List Text
two_addresses = codes "192.168.1.255" ∷ codes "10.0.0.1" ∷ codes "192.168.1.255" ∷ []

add_targets-IsSearch_example :
    IsSearch (add_targets two_addresses no_search)
    × (is_active (codes "10.0.0.1") (add_targets two_addresses no_search).active
        ≡ is_active (codes "10.0.0.1") no_search.active
          || is_active (codes "10.0.0.1") two_addresses)
add_targets-IsSearch_example =
    add_targets-IsSearch two_addresses (codes "10.0.0.1") no_search (refl, tt)

-- A configuration with a blacklist, and another list of addresses to search.
abbrev unwelcome : List Text
unwelcome = codes "192.168.1.9" ∷ codes "192.168.1.7" ∷ []

abbrev guarded_config : Fields
guarded_config =
    put (codes "blacklisted_ips") (arr (texts unwelcome))
      (put (codes "discovery_ips") (arr (cons (str (codes "192.168.1.255")) nil)) default_config)

handle_incoming_punch_lem_example :
    handle_incoming_punch guarded_config
      (0xF1
        ∷ 0x41
        ∷ 0
        ∷ 0x14
        ∷ (padded 4 (codes "BAT")
            ++ ((0 ∷ 0 ∷ 0 ∷ 0 ∷ 0 ∷ 9 ∷ 76 ∷ 251 ∷ []) ++ padded 8 (codes "EXLVS"))))
      (codes "192.168.1.7")
    ≡ ok none
handle_incoming_punch_lem_example =
    handle_incoming_punch_lem guarded_config (codes "192.168.1.7") (codes "BAT")
      (0 ∷ 0 ∷ 0 ∷ 0 ∷ 0 ∷ 9 ∷ 76 ∷ 251 ∷ []) (codes "EXLVS") unwelcome refl
      (omega arith, omega arith, (omega arith, omega arith, (omega arith, omega arith, tt)))
      (
        omega arith,
        omega arith,
        (
          omega arith,
          omega arith,
          (omega arith, omega arith, (omega arith, omega arith, (omega arith, omega arith, tt))),
        ),
      )
      (omega arith) (omega arith)
      (
        omega arith,
        (
          omega arith,
          (
            omega arith,
            (omega arith, (omega arith, (omega arith, (omega arith, (omega arith, tt))))),
          ),
        ),
      )
      refl

-- One camera with two settings.
abbrev door : Fields
door = field (codes "alias") (str (codes "door")) (field (codes "mirror") (bool true) end)

abbrev with_door : Fields
with_door = put (codes "cameras") (obj (field (codes "A") (obj door) end)) default_config

-- A library of YAML that knows one document.
abbrev one_document : Yaml
one_document = record { safe_dump = λ v. codes "document"; safe_load = λ t. ok (obj with_door) }

abbrev fresh_store : Store
fresh_store = record {
  config = with_door;
  config_path = none;
  disk = record { contents = λ p. none; readable = λ p. true; writable = λ p. true };
}

abbrev WellKeyedCameras : Option Value → Type 0
WellKeyedCameras (some (obj cams)) = WellKeyed cams × AllKeyed cams
WellKeyedCameras _ = Unit {0}

with_door-IsConfig : IsConfig with_door
with_door-IsConfig = (
  (refl, (refl, (refl, (refl, (refl, tt))))),
  λ cams e. subst WellKeyedCameras e ((refl, tt), ((door, refl, (refl, (refl, tt))), tt)),
)

reload_config-save_config_example :
    ((save_config one_document fresh_store).0 ≡ ok (codes "config.yml"))
    × (reload_config one_document (save_config one_document fresh_store).1
        ≡ (ok (some (codes "config.yml")), (save_config one_document fresh_store).1))
reload_config-save_config_example =
    reload_config-save_config one_document fresh_store with_door-IsConfig refl refl refl

abbrev noted : ℕ → LogRecord
noted n = record {
  time = codes "12:00";
  levelname = codes "INFO";
  levelno = n;
  message = codes "ready";
}

logs_since-emit_all_example :
    logs_since
      (codes "info")
      2
      (emit_all ((noted 20 ∷ noted 10 ∷ []) ++ (noted 10 ∷ noted 30 ∷ [])) empty_buffer)
    ≡ at_level (level_no (codes "info")) (numbered 3 (noted 10 ∷ noted 30 ∷ []))
logs_since-emit_all_example =
    logs_since-emit_all (codes "info") (noted 20 ∷ noted 10 ∷ []) (noted 10 ∷ noted 30 ∷ [])
      (omega arith)

abbrev sniffed : Bytes
sniffed = 0 ∷ 0 ∷ 0 ∷ 0 ∷ 0 ∷ 0 ∷ 0 ∷ 0 ∷ 0 ∷ 0 ∷ 0 ∷ 0 ∷ 0 ∷ 0 ∷ 0 ∷ 0 ∷ 0 ∷ 0 ∷ 0 ∷ 0 ∷ []

dec-xq_bytes_dec_example :
    xq_bytes_dec (view (sniffed ++ 1 ∷ 2 ∷ 3 ∷ 4 ∷ 5 ∷ []) 20) 5 4
    ≡ ok (dec (sniffed ++ 1 ∷ 2 ∷ 3 ∷ 4 ∷ 5 ∷ []))
dec-xq_bytes_dec_example =
    dec-xq_bytes_dec sniffed (1 ∷ 2 ∷ 3 ∷ 4 ∷ 5 ∷ []) refl (omega arith)
      (omega arith, (omega arith, (omega arith, (omega arith, (omega arith, tt)))))

abbrev network : WifiListItem
network = record {
  ssid = codes "home";
  mac = codes "00";
  security = 4;
  dbm0 = 60;
  dbm1 = 60;
  mode = 0;
  channel = 6;
}

abbrev pairing_state : State Pairing
pairing_state = record {
  session = connected_state.session;
  wire = [];
  clock = connected_state.clock;
  config = default_config;
  app = record { pairing = []; configured = false };
}
