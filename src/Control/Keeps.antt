-- ===== src/Control/Keeps.antt =====
-- A control packet leaves the waiting packets in order, and what answers it may be sent.
use cam_reverse_py.Base.{ℕ, Bool, [], ◌∷◌, ◌==◌, Result}
use cam_reverse_py.DataView.{Dv, add, read_u16, read_u16le, read_u32, read_u32le, read_byte_array}
use cam_reverse_py.Datatypes
use cam_reverse_py.Datatypes.{control_value}
use cam_reverse_py.State.{State, Action, lift, pure, ◌>>=◌, ◌>>◌}
use cam_reverse_py.State.Keeps.{
  Yields, Keeps, Anything, Keeps-lift, Keeps-pure, Keeps-bind, Keeps-if, yields-then,
}
use cam_reverse_py.Link.{Event, login, wifi_list, Callbacks, emit}
use cam_reverse_py.Link.Queued.{IsQueued}
use cam_reverse_py.Impl.Requests.{send_list_wifi}
use cam_reverse_py.Impl.Commands.{CanSend, CanSendAll, command-yields}
use cam_reverse_py.Parsers.{parse_dev_status_ack, parse_list_wifi}
use cam_reverse_py.Control.{
  cropped_length, decode_payload, read_wifi_settings, on_wifi_settings, on_dev_status,
  on_connect_user, on_list_wifi, control_command, create_response_for_control_command,
}

module _ {App : Type 0} (Holds : Bool → App → Type 0) where
  abbrev P : State App → Type 0
  P = IsQueued Holds

  none-yields : Yields P (pure []) CanSendAll
  none-yields s q = (q, tt)

  pub lift-yields :
      {A B : Type 0} (Q : B → State App → Type 0) (r : Result A) (f : A → Action App B)
      → ((a : A) → Yields P (f a) Q)
      → Yields P (lift r >>= f) Q
  lift-yields Q r f h = Keeps-bind P Q (lift r) f (Keeps-lift P r) h

  wifi_settings-Keeps : (dv : Dv) → Keeps P (read_wifi_settings dv)
  unfolding read_wifi_settings
  wifi_settings-Keeps dv = lift-yields (Anything P) (read_u32 (add dv 0x14)) _ λ _.
      lift-yields (Anything P) (read_u32 (add dv 0x18)) _ λ _.
        lift-yields (Anything P) (read_u32le (add dv 0x1C)) _ λ _.
          lift-yields (Anything P) (read_u32 (add dv 0x20)) _ λ _.
            lift-yields (Anything P) (read_u32 (add dv 0x24)) _
              λ _. lift-yields (Anything P) (read_u32 (add dv 0x28)) _ λ _. Keeps-pure P tt

  on_wifi_settings-yields : (dv : Dv) → Yields P (on_wifi_settings dv) CanSendAll
  unfolding on_wifi_settings
  on_wifi_settings-yields dv =
      Keeps-bind P CanSendAll (read_wifi_settings dv) _ (wifi_settings-Keeps dv) (λ _.
        yields-then P CanSend CanSendAll send_list_wifi (λ pkt. pure (pkt ∷ []))
          (command-yields Holds Datatypes.list_wifi) (λ pkt s q c. (q, c)))

  on_dev_status-yields : (dv : Dv) → Yields P (on_dev_status dv) CanSendAll
  unfolding on_dev_status
  on_dev_status-yields dv = lift-yields CanSendAll (parse_dev_status_ack dv) _ (λ _. none-yields)

  module _ (callbacks : Callbacks App) (listens : (e : Event) → Keeps P (callbacks.listener e))
      (logs_in : Keeps P callbacks.on_login) where
    on_connect_user-yields : (dv : Dv) → Yields P (on_connect_user callbacks dv) CanSendAll
    unfolding on_connect_user emit
    on_connect_user-yields dv s q =
        Keeps-bind P CanSendAll (callbacks.on_login >> callbacks.listener login) (λ _. pure [])
          (Keeps-bind P (Anything P) callbacks.on_login (λ _. callbacks.listener login) logs_in
            (λ _. listens login))
          (λ _. none-yields)
          (record s { session = record s.session { ticket = read_byte_array (add dv 0x18) 4 } }) q

    on_list_wifi-yields :
        (dv : Dv) (payload_len : ℕ) → Yields P (on_list_wifi callbacks dv payload_len) CanSendAll
    unfolding on_list_wifi emit
    on_list_wifi-yields dv payload_len = Keeps-if P CanSendAll (payload_len == 4) _ _ none-yields (
        lift-yields CanSendAll (parse_list_wifi dv) _ (λ items.
          Keeps-bind P CanSendAll (callbacks.listener (wifi_list items)) (λ _. pure [])
            (listens (wifi_list items)) (λ _. none-yields)))

    control-yields :
        (dv : Dv) (payload_len cmd_id : ℕ)
        → Yields P (control_command callbacks dv payload_len cmd_id) CanSendAll
    unfolding control_command
    control-yields dv payload_len cmd_id =
        Keeps-if P CanSendAll (cmd_id == control_value Datatypes.connect_user_ack) _ _
          (on_connect_user-yields dv)
          (Keeps-if P CanSendAll (cmd_id == control_value Datatypes.dev_status_ack) _ _
            (on_dev_status-yields dv)
            (Keeps-if P CanSendAll (cmd_id == control_value Datatypes.wifi_settings_ack) _ _
              (on_wifi_settings-yields dv)
              (Keeps-if P CanSendAll (cmd_id == control_value Datatypes.list_wifi_ack) _ _
                (on_list_wifi-yields dv payload_len) none-yields)))

    pub response-yields :
        (dv : Dv) → Yields P (create_response_for_control_command callbacks dv) CanSendAll
    unfolding create_response_for_control_command
    response-yields dv = lift-yields CanSendAll (read_u16 (add dv 8)) _ λ start_type.
        lift-yields CanSendAll (read_u16 (add dv 10)) _ λ cmd_id.
          lift-yields CanSendAll (read_u16le (add dv 0xC)) _ λ announced.
            Keeps-if P CanSendAll (start_type == 0x110A) _ _
              (lift-yields CanSendAll (decode_payload dv (cropped_length dv announced)) _
                (λ decoded. control-yields decoded (cropped_length dv announced) cmd_id))
              none-yields
