-- ===== src/Pair.antt =====
-- cam_reverse/pair.py: the credentials of a network go to every camera that finds the network. The
-- state around a session is its entry in `pairing` and its own `configured`.
pub mod Once
use cam_reverse_py.Base.{
  ℕ, Bool, true, false, List, [], ◌∷◌, Text, text_eq, Option, none, some, if◌then◌else◌, Result, ok,
  err, value_error,
}
use cam_reverse_py.Base.Tables.{Table, find, insert, remove}
use cam_reverse_py.State.{
  State, Session, Action, Done, DevSerial, new_session, pure, lift, ◌>>=◌, ◌>>◌,
}
use cam_reverse_py.Link.{
  WifiListItem, Event, disconnect, login, frame, audio, wifi_list, Callbacks, send,
}
use cam_reverse_py.Impl.Requests.{send_list_wifi}
use cam_reverse_py.Session.{configure_wifi}

-- The sessions by camera, and whether the camera of this session was configured.
pub record Pairing : Type 0 where
  pub pairing : Table Session
  pub configured : Bool

-- `pair` refuses an empty password.
unfoldable pub check_password : Text → Result (Unit {0})
check_password [] = err value_error
check_password (c ∷ cs) = ok tt

-- `on_discover`: a new session for a camera that has none, and whether there was none.
unfoldable pub discovered : DevSerial → Text → ℕ → Table Session → Option (Table Session)
discovered dev ip port pairing = elim (find dev.dev_id pairing) [
  | some s ↦ none
  | none ↦ some (insert dev.dev_id (new_session dev ip port 10000) pairing)
]

-- The first item with the name of the network.
abbrev pub first_match : Text → List WifiListItem → Option WifiListItem
first_match ssid [] = none
first_match ssid (i ∷ is) = if text_eq i.ssid ssid then some i else first_match ssid is

abbrev pub mark_configured : Action Pairing Done
mark_configured s = (ok tt, record s { app = record s.app { configured = true } })

abbrev pub configure_match : Text → Text → Option WifiListItem → Action Pairing Done
unfolding configure_wifi
configure_match ssid password none s = (ok tt, s)
configure_match ssid password (some i) s =
    (if s.app.configured
        then pure tt
        else configure_wifi ssid password i.channel >> mark_configured)
      s

-- `on_list_wifi`.
unfoldable pub on_list_wifi : Text → Text → List WifiListItem → Action Pairing Done
on_list_wifi ssid password items = configure_match ssid password (first_match ssid items)

-- `on_login`.
unfoldable pub on_login : Action Pairing Done
on_login = send_list_wifi >>= send

-- `on_disconnect`.
unfoldable pub on_disconnect : Text → Action Pairing Done
on_disconnect dev_id s =
    (ok tt, record s { app = record { pairing = remove dev_id s.app.pairing; configured = false } })

unfoldable pub listener : Text → Text → Text → Event → Action Pairing Done
unfolding on_list_wifi on_disconnect
listener ssid password dev_id disconnect = on_disconnect dev_id
listener ssid password dev_id login = pure tt
listener ssid password dev_id frame = pure tt
listener ssid password dev_id (audio payload) = pure tt
listener ssid password dev_id (wifi_list items) = on_list_wifi ssid password items

abbrev pub callbacks : Text → Text → Text → Callbacks Pairing
unfolding listener on_login
callbacks ssid password dev_id = record {
  on_login = on_login;
  listener = listener ssid password dev_id;
}
