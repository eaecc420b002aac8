-- ===== src/Parsers.antt =====
-- The parsers and the replies of cam_reverse/handlers.py that do not touch the session.
pub mod WifiScan
pub mod Serial
use Prim.Native.Nat.{bit_and}
use cam_reverse_py.Base.{
  ℕ, zero, suc, ◌+◌, ◌-◌, ◌*◌, ◌/◌, ◌%◌, ◌^◌, Bool, true, false, ◌&&◌, List, [], ◌∷◌, ◌++◌, Text,
  ltb, leb, ◌==◌, if◌then◌else◌, Result, ok, err, ◌>>=◌,
}
use cam_reverse_py.Base.Int.{ℤ, sub_ℕ}
use cam_reverse_py.DataView.{
  Bytes, Dv, view, add, alloc, byte_length, read_u8, read_u16, read_u16le, read_u32le,
  read_byte_array, read_string, write_u8, write_u16, write_u64, write_byte_array,
}
use cam_reverse_py.Datatypes
use cam_reverse_py.Datatypes.{command_value}
use cam_reverse_py.State.{DevSerial}
use cam_reverse_py.Link.{WifiListItem}
use cam_reverse_py.Impl.{decimal, str2byte, create_empty, create_p2p_rdy}

-- `_create_p2p_alive_ack`.
unfoldable pub create_p2p_alive_ack : Result Bytes
unfolding create_empty
create_p2p_alive_ack = create_empty Datatypes.Command.p2p_alive_ack

-- `make_p2p_rdy`: the serial of a camera, sent back to it.
unfoldable pub make_p2p_rdy : DevSerial → Result Bytes
unfolding write_u64 write_byte_array create_p2p_rdy
make_p2p_rdy dev = do
  prefix ← str2byte dev.prefix
  let outbuf = write_byte_array (view (alloc 0x14) 0) prefix
  outbuf ← write_u64 (view outbuf 4) dev.serial_u64
  suffix ← str2byte dev.suffix
  let outbuf = write_byte_array (view outbuf (8 + 4)) suffix
  create_p2p_rdy (view outbuf 0)

unfoldable pub sw_ver_to_string : ℕ → Text
unfolding decimal
sw_ver_to_string swver =
    decimal (swver / 2 ^ 24 % 2 ^ 8)
    ++ (b'.'
        ∷ (decimal (swver / 2 ^ 16 % 2 ^ 8)
            ++ (b'.' ∷ (decimal (swver / 2 ^ 8 % 2 ^ 8) ++ (b'.' ∷ decimal (swver % 2 ^ 8))))))

pub record DevStatus : Type 0 where
  pub charging : Bool
  pub battery_mv : ℕ
  pub dbm : ℤ
  pub swver : Text

unfoldable pub parse_dev_status_ack : Dv → Result DevStatus
unfolding read_u8 read_u16le read_u32le sw_ver_to_string
parse_dev_status_ack dv = do
  flags ← read_u32le (add dv 0x28)
  power ← read_u16le (add dv 0x18)
  signal ← read_u8 (add dv 0x24)
  n_swver ← read_u32le (add dv 0x14)
  ok (record {
    charging = ltb 0 (bit_and flags 1);
    battery_mv = power;
    dbm = sub_ℕ signal 0x100;
    swver = sw_ver_to_string n_swver;
  })

-- `f"{b:02x}"` for a byte, and these joined by colons.
abbrev pub hex_digit : ℕ → ℕ
hex_digit d = if ltb d 10 then d + 48 else d + 87

abbrev pub hex_pair : ℕ → Text
hex_pair b = hex_digit (b / 16) ∷ hex_digit (b % 16) ∷ []

abbrev pub mac_text : Bytes → Text
mac_text [] = []
mac_text (b ∷ []) = hex_pair b
mac_text (b ∷ c ∷ bs) = hex_pair b ++ (b':' ∷ mac_text (c ∷ bs))

-- One entry of the listing.
unfoldable pub parse_wifi_item : Dv → ℕ → Result WifiListItem
unfolding read_byte_array read_string read_u32le
parse_wifi_item dv startat = do
  let mac_bytes = read_byte_array (add dv (startat + 0x40)) 6
  security ← read_u32le (add dv (startat + 0x48))
  dbm0 ← read_u32le (add dv (startat + 0x4C))
  dbm1 ← read_u32le (add dv (startat + 0x50))
  mode ← read_u32le (add dv (startat + 0x54))
  channel ← read_u32le (add dv (startat + 0x58))
  ok (record {
    ssid = read_string (add dv startat) 0x40;
    mac = mac_text mac_bytes;
    security = security;
    dbm0 = dbm0;
    dbm1 = dbm1;
    mode = mode;
    channel = channel;
  })

-- The loop, with the entries left and the offset of the next one. It stops where the entry does
-- not fit the packet.
unfoldable pub parse_wifi_items : Dv → ℕ → ℕ → Result (List WifiListItem)
unfolding parse_wifi_item
parse_wifi_items dv zero startat = ok []
parse_wifi_items dv (suc left) startat = elim (ltb (byte_length dv) (startat + 0x5C)) [
  | true ↦ ok []
  | false ↦ parse_wifi_item dv startat >>= λ item.
      parse_wifi_items dv left (startat + 0x5C) >>= λ items. ok (item ∷ items)
]

unfoldable pub parse_list_wifi : Dv → Result (List WifiListItem)
unfolding parse_wifi_items read_u32le
parse_list_wifi dv = do
  msg_count ← read_u32le (add dv 0x10)
  parse_wifi_items dv msg_count (0x10 + 4)

-- `_make_drw_ack`.
unfoldable pub make_drw_ack : Dv → Result Bytes
unfolding read_u8 read_u16 write_u8 write_u16
make_drw_ack dv = do
  pkt_id ← read_u16 (add dv 6)
  m_stream ← read_u8 (add dv 5)
  let item_count : ℕ = 1
  let reply_len = item_count * 2 + 4
  outbuf ← write_u16 (view (alloc 32) 0) (command_value Datatypes.Command.drw_ack)
  outbuf ← write_u16 (view outbuf 2) reply_len
  outbuf ← write_u8 (view outbuf 4) 0xD2
  outbuf ← write_u8 (view outbuf 5) m_stream
  outbuf ← write_u16 (view outbuf 6) item_count
  write_u16 (view outbuf 8) pkt_id
