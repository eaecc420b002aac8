-- ===== src/CaptureSingle.antt =====
-- cam_reverse/capture_single.py: the first whole frame goes to a file, and the program ends.
pub mod First
use cam_reverse_py.Base.{
  ℕ, Bool, true, false, List, [], ◌∷◌, Text, Option, none, some, if◌then◌else◌, Result, ok, err,
  os_error,
}
use cam_reverse_py.DataView.{Bytes}
use cam_reverse_py.Base.Tables.{Table, find, insert}
use cam_reverse_py.Settings.{bool, obj, Fields, field, end, codes}
use cam_reverse_py.State.{
  State, Session, Action, Done, DevSerial, new_session, pure, raise, ◌>>=◌, ◌>>◌,
}
use cam_reverse_py.Link.{Event, disconnect, login, frame, audio, wifi_list, Callbacks, close}
use cam_reverse_py.Session.{start_video_stream}
use cam_reverse_py.WebServer.Frame.{join}
use cam_reverse_py.WebServer.Cameras.{set_camera}

-- The output file, whether discovery was closed, and the event `done`. The disk is a parameter: whether the file can be
-- opened, and, for data that cannot be written in full, what of it gets into the file.
pub record Capture : Type 0 where
  pub file : Option Bytes
  pub opens : Bool
  pub cut : Bytes → Option Bytes
  pub discovery_closed : Bool
  pub done : Bool

-- `on_discover`: the session of a new camera, and the settings that it gets.
unfoldable pub discovered :
    DevSerial → Text → ℕ → Table Session → Fields → Option (Table Session × Result Fields)
unfolding set_camera
discovered dev ip port sessions config = elim (find dev.dev_id sessions) [
  | some s ↦ none
  | none ↦ some (
    insert dev.dev_id (new_session dev ip port 5000) sessions,
    set_camera config dev.dev_id (obj (field (codes "fix_packet_loss") (bool false) end)),
  )
]

-- Nothing of this program listens to `disconnect`.
abbrev pub nobody : Callbacks Capture
nobody = record { on_login = pure tt; listener = λ e. pure tt }

-- `fh.write`, on a file that `open` has emptied.
abbrev pub write : Bytes → Option Bytes → Action Capture Done
write data_ none s = (ok tt, record s { app = record s.app { file = some data_ } })
write data_ (some part) s = (err os_error, record s { app = record s.app { file = some part } })

abbrev pub write_file : Action Capture Done
write_file s =
    if s.app.opens
    then write (join s.session.cur_image) (s.app.cut (join s.session.cur_image)) s
    else (err os_error, s)

abbrev pub close_discovery : Action Capture Done
close_discovery s = (ok tt, record s { app = record s.app { discovery_closed = true } })

abbrev pub set_done : Action Capture Done
set_done s = (ok tt, record s { app = record s.app { done = true } })

-- `on_frame`.
unfoldable pub on_frame : Action Capture Done
unfolding close
on_frame = write_file >> (close_discovery >> (close nobody >> set_done))

unfoldable pub listener : Event → Action Capture Done
unfolding on_frame
listener frame = on_frame
listener disconnect = pure tt
listener login = pure tt
listener (audio payload) = pure tt
listener (wifi_list items) = pure tt

-- `start_session` is the callback of the login.
abbrev pub callbacks : Callbacks Capture
callbacks = record { on_login = start_video_stream; listener = listener }
