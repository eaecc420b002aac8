-- ===== src/Control.antt =====
-- `create_response_for_control_command` of cam_reverse/handlers.py: what a control packet of the
-- camera changes in the session, and the commands that answer it. The packet's buffer is decoded in
-- place first, and everything after that reads the decoded buffer.
pub mod Decode
pub mod Keeps
use cam_reverse_py.Base.{
  ℕ, ◌+◌, ◌-◌, Bool, true, false, ◌&&◌, List, [], ◌∷◌, Option, none, some, ltb, ◌==◌, if◌then◌else◌,
  Result, ok, err,
}
use cam_reverse_py.Base
use cam_reverse_py.DataView.{
  Bytes, Dv, add, byte_length, read_u16, read_u16le, read_u32, read_u32le, read_byte_array,
}
use cam_reverse_py.Crypto.{xq_bytes_dec}
use cam_reverse_py.Datatypes
use cam_reverse_py.Datatypes.{control_value}
use cam_reverse_py.State.{Action, Done, pure, lift, modify, ◌>>=◌, ◌>>◌}
use cam_reverse_py.Link.{login, wifi_list, Callbacks, emit}
use cam_reverse_py.Impl.Requests.{send_list_wifi, send_command}
use cam_reverse_py.Parsers.{parse_dev_status_ack, parse_list_wifi}

-- The payload's length, cut where the packet says more than it holds.
unfoldable pub cropped_length : Dv → ℕ → ℕ
cropped_length dv payload_len =
    if ltb 20 (byte_length dv) && ltb (byte_length dv) payload_len
    then byte_length dv - 20
    else payload_len

-- The packet with its payload decoded.
unfoldable pub decode_payload : Dv → ℕ → Result Dv
decode_payload dv payload_len =
    if ltb 4 payload_len
    then Base.◌>>=◌ (xq_bytes_dec (add dv 20) (payload_len - 4) 4) (λ b. ok (record dv { buf = b }))
    else ok dv

module _ {App : Type 0} where
  -- The numbers of the WiFi settings that are read for the log; the texts raise nothing.
  unfoldable pub read_wifi_settings : Dv → Action App Done
  unfolding read_u32 read_u32le
  read_wifi_settings dv = do
    enable ← lift (read_u32 (add dv 0x14))
    status ← lift (read_u32 (add dv 0x18))
    mode ← lift (read_u32le (add dv 0x1C))
    channel ← lift (read_u32 (add dv 0x20))
    authtype ← lift (read_u32 (add dv 0x24))
    dhcp ← lift (read_u32 (add dv 0x28))
    pure tt

  unfoldable pub on_wifi_settings : Dv → Action App (List Bytes)
  unfolding read_wifi_settings send_command
  on_wifi_settings dv = do read_wifi_settings dv; pkt ← send_list_wifi; pure (pkt ∷ [])

  unfoldable pub on_dev_status : Dv → Action App (List Bytes)
  unfolding parse_dev_status_ack
  on_dev_status dv = do status ← lift (parse_dev_status_ack dv); pure []

module _ {App : Type 0} (callbacks : Callbacks App) where
  unfoldable pub on_connect_user : Dv → Action App (List Bytes)
  unfolding emit read_byte_array
  on_connect_user dv = do
    modify (λ s. record s { ticket = read_byte_array (add dv 0x18) 4 })
    emit callbacks login
    pure []

  unfoldable pub on_list_wifi : Dv → ℕ → Action App (List Bytes)
  unfolding emit parse_list_wifi
  on_list_wifi dv payload_len =
      if payload_len == 4
      then pure []
      else (lift (parse_list_wifi dv) >>= λ items. emit callbacks (wifi_list items) >> pure [])

  -- The branches on the inner command, over the decoded packet.
  unfoldable pub control_command : Dv → ℕ → ℕ → Action App (List Bytes)
  unfolding on_connect_user on_dev_status on_wifi_settings on_list_wifi
  control_command dv payload_len cmd_id =
      if cmd_id == control_value Datatypes.connect_user_ack
      then on_connect_user dv
      else if cmd_id == control_value Datatypes.dev_status_ack
      then on_dev_status dv
      else if cmd_id == control_value Datatypes.wifi_settings_ack
      then on_wifi_settings dv
      else if cmd_id == control_value Datatypes.list_wifi_ack
      then on_list_wifi dv payload_len
      else pure []

  unfoldable pub create_response_for_control_command : Dv → Action App (List Bytes)
  unfolding read_u16 read_u16le control_command cropped_length decode_payload
  create_response_for_control_command dv = do
    start_type ← lift (read_u16 (add dv 8))
    cmd_id ← lift (read_u16 (add dv 10))
    announced ← lift (read_u16le (add dv 0xC))
    let payload_len = cropped_length dv announced
    (if start_type == 0x110A
        then (lift (decode_payload dv payload_len) >>= λ decoded.
            control_command decoded payload_len cmd_id)
        else pure [])
