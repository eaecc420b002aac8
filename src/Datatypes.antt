-- ===== src/Datatypes.antt =====
-- cam_reverse/datatypes.py: the numbers of the outer packets and of the inner control commands.
-- A Python dictionary with fixed names is an enumeration and a function on it.
pub mod Lookup
use cam_reverse_py.Base.{
  ℕ, Bool, true, false, Option, none, some, List, [], ◌∷◌, ◌==◌, if◌then◌else◌,
}

-- The keys of `Commands`.
pub data Command : Type 0 where
  close lan_search_ext lan_search p2p_alive p2p_alive_ack hello p2p_rdy p2p_req lst_req drw_ack :
      Command
  drw punch_to punch_pkt hello_ack rly_to dev_lgn_ack p2p_req_ack listen_req_ack : Command
  rly_hello_ack rly_hello_ack2 : Command

-- `Commands[name]`.
abbrev pub command_value : Command → ℕ
command_value close = 0xF1F0
command_value lan_search_ext = 0xF132
command_value lan_search = 0xF130
command_value p2p_alive = 0xF1E0
command_value p2p_alive_ack = 0xF1E1
command_value hello = 0xF100
command_value p2p_rdy = 0xF142
command_value p2p_req = 0xF120
command_value lst_req = 0xF167
command_value drw_ack = 0xF1D1
command_value drw = 0xF1D0
command_value punch_to = 0xF140
command_value punch_pkt = 0xF141
command_value hello_ack = 0xF101
command_value rly_to = 0xF102
command_value dev_lgn_ack = 0xF111
command_value p2p_req_ack = 0xF121
command_value listen_req_ack = 0xF169
command_value rly_hello_ack = 0xF170
command_value rly_hello_ack2 = 0xF171

abbrev pub all_commands : List Command
all_commands =
    close ∷ lan_search_ext ∷ lan_search ∷ p2p_alive ∷ p2p_alive_ack ∷ hello ∷ p2p_rdy ∷ p2p_req
    ∷ lst_req ∷ drw_ack ∷ drw ∷ punch_to ∷ punch_pkt ∷ hello_ack ∷ rly_to ∷ dev_lgn_ack
    ∷ p2p_req_ack ∷ listen_req_ack ∷ rly_hello_ack ∷ rly_hello_ack2 ∷ []

-- The search of a number among the values of a dictionary.
abbrev pub find_command : ℕ → List Command → Option Command
find_command v [] = none
find_command v (c ∷ cs) = if command_value c == v then some c else find_command v cs

-- `CommandsByValue.get(raw)`.
unfoldable pub commands_by_value : ℕ → Option Command
commands_by_value raw = find_command raw all_commands

-- The keys of `ControlCommands`.
pub data ControlCommand : Type 0 where
  connect_user connect_user_ack dev_status dev_status_ack wifi_settings_set : ControlCommand
  wifi_settings wifi_settings_ack list_wifi list_wifi_ack start_video start_video_ack :
      ControlCommand
  stop_video shutdown reboot video_param_set video_param_set_ack video_param_get : ControlCommand
  ir_toggle : ControlCommand

-- `ControlCommands[name]`.
abbrev pub control_value : ControlCommand → ℕ
control_value connect_user = 0x2010
control_value connect_user_ack = 0x2011
control_value dev_status = 0x0810
control_value dev_status_ack = 0x0811
control_value wifi_settings_set = 0x0160
control_value wifi_settings = 0x0260
control_value wifi_settings_ack = 0x0261
control_value list_wifi = 0x0360
control_value list_wifi_ack = 0x0361
control_value start_video = 0x1030
control_value start_video_ack = 0x1031
control_value stop_video = 0x1130
control_value shutdown = 0x1010
control_value reboot = 0x1110
control_value video_param_set = 0x1830
control_value video_param_set_ack = 0x1831
control_value video_param_get = 0x1930
control_value ir_toggle = 0x0A30

-- `ccDest.get(command, 0)`: the destinations that are not 0.
unfoldable pub cc_dest : ℕ → ℕ
cc_dest command =
    if command == control_value connect_user
    then 0xFF00
    else if command == control_value list_wifi_ack
    then 0xAA55
    else if command == control_value connect_user_ack
    then 0xAA55
    else if command == control_value dev_status_ack
    then 0xAA55
    else 0
