-- ===== src/Impl.antt =====
-- cam_reverse/impl.py: the packets that the program sends, and the parser of a camera's answer to
-- discovery. A builder that takes the session is an action, since it counts the command up.
pub mod Requests
pub mod RoundTrip
pub mod Layout
pub mod Commands
pub mod Decimal
use cam_reverse_py.Base.{
  ℕ, zero, suc, ◌+◌, ◌-◌, ◌*◌, ◌/◌, ◌%◌, ◌^◌, Bool, true, false, List, [], ◌∷◌, ◌++◌, Text, Option,
  none, some, ltb, leb, ◌==◌, if◌then◌else◌, length, drop, ◌&&◌, Result, ok, err, encode_error,
  key_error, value_error, ◌>>=◌, arith,
}
use cam_reverse_py.DataView.{
  Bytes, Dv, view, add, alloc, byte_length, read_u16, read_u64, read_string, read_byte_array,
  write_u8, write_u16, write_byte_array,
}
use cam_reverse_py.Crypto.{xq_bytes_enc}
use cam_reverse_py.Utils.{u16_swap}
use cam_reverse_py.Datatypes
use cam_reverse_py.Datatypes.{Command, command_value, ControlCommand, control_value, cc_dest}
use cam_reverse_py.Settings.{codes}
use cam_reverse_py.State
use cam_reverse_py.State.{State, Action, DevSerial, lift, gets, modify, pure, raise}

-- `s.encode("latin-1")`.
abbrev pub is_latin1 : Text → Bool
is_latin1 [] = true
is_latin1 (c ∷ s) = ltb c 256 && is_latin1 s

abbrev pub str2byte : Text → Result Bytes
str2byte s = if is_latin1 s then ok s else err encode_error

-- The encoded copy of a payload of more than four bytes; a shorter one is not sent at all.
unfoldable pub encode_payload : Option Dv → Result (Option Bytes)
unfolding xq_bytes_enc
encode_payload none = ok none
encode_payload (some dv) =
    let buf_copy = drop dv.offset dv.buf in
    if ltb 4 (byte_length dv)
    then (do buf ← xq_bytes_enc (view buf_copy 0) (length buf_copy) 4; ok (some buf))
    else ok none

abbrev pub payload_size : Option Bytes → ℕ
payload_size none = 0
payload_size (some buf) = length buf

abbrev pub write_payload : Bytes → Option Bytes → Bytes
unfolding write_byte_array
write_payload ret none = ret
write_payload ret (some buf) = write_byte_array (view ret 20) buf

-- The packet: header, token and payload.
unfoldable pub build_packet : ℕ → Bytes → ℕ → Option Bytes → Result Bytes
unfolding write_u8 write_u16 write_byte_array u16_swap cc_dest write_payload
build_packet command_id ticket command payload = do
  let pkt_len = 0x10 + 0x4 + payload_size payload
  let payload_len = 0x4 + payload_size payload
  let ret = alloc pkt_len
  ret ← write_u16 (view ret 0) (command_value Command.drw)
  ret ← write_u16 (view ret 2) (pkt_len - 4)
  ret ← write_u8 (view ret 4) 0xD1
  ret ← write_u8 (view ret 5) 0
  ret ← write_u16 (view ret 6) command_id
  ret ← write_u16 (view ret 8) 0x110A
  ret ← write_u16 (view ret 10) command
  ret ← write_u16 (view ret 12) (u16_swap payload_len)
  ret ← write_u16 (view ret 14) (cc_dest command)
  let ret = write_byte_array (view ret 16) ticket
  ok (write_payload ret payload)

-- `create_LanSearch` and the other packets without a body.
unfoldable pub create_empty : Command → Result Bytes
unfolding write_u16
create_empty c = do
  outbuf ← write_u16 (view (alloc 4) 0) (command_value c)
  write_u16 (view outbuf 2) 0

-- The payload of `SendUsrChk`: account and password in fields of 0x20 and 0x80 bytes.
unfoldable pub user_body : Text → Text → Result Bytes
unfolding write_byte_array
user_body username password = do
  let buf = alloc (0x20 + 0x80)
  user ← str2byte username
  let buf = write_byte_array (view buf 0) user
  pass ← str2byte password
  ok (write_byte_array (view buf 0x20) pass)

-- The payload of `SendWifiDetails`, with the offsets of `tag_wifiParams` in types/all.h.
unfoldable pub wifi_body : Text → Text → ℕ → Result Bytes
unfolding write_u8 write_byte_array
wifi_body ssid password channel = do
  let buf = alloc 0x108
  buf ← write_u8 (view buf 0x0C) channel
  buf ← write_u8 (view buf 0x10) 0
  buf ← write_u8 (view buf 0x14) 1
  ssid_bytes ← str2byte ssid
  let buf = write_byte_array (view buf 0x18) ssid_bytes
  password_bytes ← str2byte password
  let buf = write_byte_array (view buf 0x38) password_bytes
  let buf = write_byte_array (view buf 0xB8) (codes "0.0.0.0")
  let buf = write_byte_array (view buf 0xC8) (codes "0.255.255.255")
  let buf = write_byte_array (view buf 0xD8) (codes "0.0.0.0")
  let buf = write_byte_array (view buf 0xE8) (codes "0.0.0.0")
  ok (write_byte_array (view buf 0xF8) (codes "0.0.0.0"))

-- The payloads that `SendVideoResolution` lists in `pairs`, one for each resolution.
abbrev pub resolution_payload : ℕ → Option Bytes
resolution_payload resol =
    if resol == 1
    then some (1 ∷ 0 ∷ 0 ∷ 0 ∷ 0 ∷ 0 ∷ 0 ∷ 0 ∷ [])
    else if ltb 0 resol && leb resol 4
    then some (1 ∷ 0 ∷ 0 ∷ 0 ∷ resol ∷ 0 ∷ 0 ∷ 0 ∷ [])
    else none

-- `create_P2pRdy`.
unfoldable pub create_p2p_rdy : Dv → Result Bytes
unfolding write_u16 write_byte_array read_byte_array
create_p2p_rdy inbuf = do
  outbuf ← write_u16 (view (alloc (0x14 + 4)) 0) (command_value Command.p2p_rdy)
  outbuf ← write_u16 (view outbuf 2) 0x14
  ok (write_byte_array (view outbuf 4) (read_byte_array inbuf 0x14))

-- `str(n)`. The fuel bounds the number of divisions by ten.
abbrev pub decimal_digits : ℕ → ℕ → Text → Text
decimal_digits zero n acc = (n + 48) ∷ acc
decimal_digits (suc fuel) n acc = elim (ltb n 10) [
  | true ↦ (n + 48) ∷ acc
  | false ↦ decimal_digits fuel (n / 10) ((n % 10 + 48) ∷ acc)
]

unfoldable pub decimal : ℕ → Text
decimal n = decimal_digits n n []

-- `parse_PunchPkt`. A length below 12 makes the slice of the suffix empty, as the truncated
-- subtraction does here.
unfoldable pub parse_punch_pkt : Dv → Result DevSerial
unfolding read_u16 read_u64 read_string decimal
parse_punch_pkt dv = do
  punch_command ← read_u16 dv
  len ← read_u16 (add dv 2)
  let prefix = read_string (add dv 4) 4
  serial_u64 ← read_u64 (add dv 8)
  let serial = decimal serial_u64
  let suffix = read_string (add dv 16) (len + 4 - 16)
  ok (record {
    prefix = prefix;
    serial = serial;
    suffix = suffix;
    serial_u64 = serial_u64;
    dev_id = prefix ++ (serial ++ suffix);
  })
