-- ===== src/Impl/Requests.antt =====
-- The builders of cam_reverse/impl.py that take the session.
use cam_reverse_py.Base.{
  ℕ, ◌+◌, Bool, List, [], ◌∷◌, Text, Option, none, some, if◌then◌else◌, key_error, value_error,
}
use cam_reverse_py.DataView.{Bytes, Dv, view}
use cam_reverse_py.Datatypes.{
  ControlCommand, control_value, connect_user, dev_status, wifi_settings_set, wifi_settings,
  list_wifi, start_video, stop_video, reboot, video_param_set, ir_toggle,
}
use cam_reverse_py.State.{Action, lift, gets, modify, pure, raise, ◌>>=◌, ◌>>◌}
use cam_reverse_py.Impl.{encode_payload, build_packet, user_body, wifi_body, resolution_payload}

module _ {App : Type 0} where
  -- `make_data_read_write`.
  unfoldable pub make_data_read_write : ℕ → Option Dv → Action App Bytes
  make_data_read_write command payload = do
    encoded ← lift (encode_payload payload)
    command_id ← gets (λ s. s.outgoing_command_id)
    ticket ← gets (λ s. s.ticket)
    ret ← lift (build_packet command_id ticket command encoded)
    modify (λ s. record s { outgoing_command_id = s.outgoing_command_id + 1 })
    pure ret

  -- `SendIRToggle`, `SendDevStatus`, `SendWifiSettings`, `SendListWifi`, `SendStopVideo`,
  -- `SendStartVideo` and `SendReboot`: commands without a payload.
  unfoldable pub send_command : ControlCommand → Action App Bytes
  send_command c = make_data_read_write (control_value c) none

  abbrev pub send_ir_toggle : Action App Bytes
  send_ir_toggle = send_command ir_toggle

  abbrev pub send_dev_status : Action App Bytes
  send_dev_status = send_command dev_status

  abbrev pub send_wifi_settings : Action App Bytes
  send_wifi_settings = send_command wifi_settings

  abbrev pub send_list_wifi : Action App Bytes
  send_list_wifi = send_command list_wifi

  abbrev pub send_stop_video : Action App Bytes
  send_stop_video = send_command stop_video

  abbrev pub send_start_video : Action App Bytes
  send_start_video = send_command start_video

  abbrev pub send_reboot : Action App Bytes
  send_reboot = send_command reboot

  -- `SendVideoResolution`.
  unfoldable pub send_video_resolution : ℕ → Action App (List Bytes)
  send_video_resolution resol = elim (resolution_payload resol) [
    | none ↦ raise key_error
    | some payload ↦ (do
      pkt ← make_data_read_write (control_value video_param_set) (some (view payload 0))
      pure (pkt ∷ []))
  ]

  -- `SendUsrChk`.
  unfoldable pub send_usr_chk : Text → Text → Action App Bytes
  send_usr_chk username password = do
    body ← lift (user_body username password)
    make_data_read_write (control_value connect_user) (some (view body 0))

  -- `SendWifiDetails`.
  unfoldable pub send_wifi_details : Text → Text → ℕ → Bool → Action App Bytes
  send_wifi_details ssid password channel dhcp =
      if dhcp
      then (lift (wifi_body ssid password channel) >>= λ body.
          make_data_read_write (control_value wifi_settings_set) (some (view body 0)))
      else raise value_error
