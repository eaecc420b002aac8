-- ===== src/Examples/Packets.antt =====
-- The theorems on commands, acknowledgements and listings, applied at inputs where their hypotheses
-- hold.
use cam_reverse_py.Base.{
  ◌-◌, ◌/◌, ◌%◌, ◌^◌, min, ◌≡◌, refl, List, [], ◌∷◌, ◌++◌, some, arith, length, take, replicate, ok,
}
use cam_reverse_py.DataView.{Bytes, view, read_u8, read_u32le, read_byte_array}
use cam_reverse_py.Crypto.{xq_bytes_dec}
use cam_reverse_py.Settings.{codes}
use cam_reverse_py.Link.{WifiListItem}
use cam_reverse_py.Impl.{parse_punch_pkt}
use cam_reverse_py.Impl.Requests.{make_data_read_write}
use cam_reverse_py.Impl.Layout.{HasHeader}
use cam_reverse_py.Impl.RoundTrip.{counted, make_data_read_write_decodes}
use cam_reverse_py.Parsers.{make_p2p_rdy, parse_list_wifi, make_drw_ack}
use cam_reverse_py.Parsers.Serial.{padded, device, make_p2p_rdy-parse_punch_pkt}
use cam_reverse_py.Parsers.WifiScan.{IsListing, parse_list_wifi_lem}
use cam_reverse_py.Handlers.{handle_drw_ack}
use cam_reverse_py.Handlers.Acks.{without_id, handle_drw_ack-make_drw_ack}
use cam_reverse_py.Examples.Camera.{connected_state}

abbrev five_bytes : Bytes
five_bytes = 1 ∷ 2 ∷ 3 ∷ 4 ∷ 255 ∷ []

make_data_read_write_decodes_example :
    (packet : Bytes) × (make_data_read_write 0x1020 (some (view five_bytes 0)) connected_state
      ≡ (ok packet, record connected_state { session = counted connected_state.session }))
    × HasHeader 0 0x1020 5 packet
    × (read_byte_array (view packet 16) 4 ≡ 0 ∷ 0 ∷ 0 ∷ 0 ∷ [])
    × (xq_bytes_dec (view packet 20) 5 4 ≡ ok (take 20 packet ++ five_bytes))
make_data_read_write_decodes_example =
    make_data_read_write_decodes connected_state 0x1020 0 0 0 0 five_bytes refl (omega arith)
      (omega arith) (omega arith, (omega arith, (omega arith, (omega arith, (omega arith, tt)))))

handle_drw_ack-make_drw_ack_example :
    (ack : Bytes) × (make_drw_ack (view (0xF1 ∷ 0xD0 ∷ 0 ∷ 8 ∷ 0xD1 ∷ 1 ∷ 2 ∷ 3 ∷ 9 ∷ []) 0)
      ≡ ok ack)
    × (length ack ≡ 32)
    × (read_u8 (view ack 5) ≡ ok (1 % 2 ^ 8))
    × (handle_drw_ack (view ack 0) connected_state
        ≡ (ok tt, record connected_state { session = without_id 0x203 connected_state.session }))
handle_drw_ack-make_drw_ack_example =
    handle_drw_ack-make_drw_ack connected_state 0xF1 0xD0 0 8 0xD1 1 2 3 (9 ∷ []) (omega arith)
      (omega arith)

abbrev serial_bytes : Bytes
serial_bytes = 0 ∷ 0 ∷ 0 ∷ 0 ∷ 0 ∷ 9 ∷ 76 ∷ 251 ∷ []

abbrev answer_body : Bytes
answer_body = padded 4 (codes "BAT") ++ (serial_bytes ++ padded 8 (codes "EXLVS"))

make_p2p_rdy-parse_punch_pkt_example :
    (parse_punch_pkt (view (0xF1 ∷ 0x41 ∷ 0 ∷ 0x14 ∷ answer_body) 0)
      ≡ ok (device (codes "BAT") serial_bytes (codes "EXLVS")))
    × (make_p2p_rdy (device (codes "BAT") serial_bytes (codes "EXLVS"))
        ≡ ok (0xF1 ∷ 0x42 ∷ 0 ∷ 0x14 ∷ answer_body))
make_p2p_rdy-parse_punch_pkt_example =
    make_p2p_rdy-parse_punch_pkt (codes "BAT") serial_bytes (codes "EXLVS")
      (omega arith, omega arith, (omega arith, omega arith, (omega arith, omega arith, tt)))
      (
        omega arith,
        omega arith,
        (
          omega arith,
          omega arith,
          (omega arith, omega arith, (omega arith, omega arith, (omega arith, omega arith, tt))),
        ),
      )
      (omega arith) (omega arith)
      (
        omega arith,
        (
          omega arith,
          (
            omega arith,
            (omega arith, (omega arith, (omega arith, (omega arith, (omega arith, tt))))),
          ),
        ),
      )
      refl

-- A listing that announces two entries and holds one.
abbrev listing : Bytes
listing = replicate 16 0 ++ (2 ∷ 0 ∷ 0 ∷ 0 ∷ replicate 100 65)

listing-count : read_u32le (view listing 0x10) ≡ ok 2
unfolding read_u32le
listing-count = refl

parse_list_wifi_lem_example :
    (items : List WifiListItem) × (parse_list_wifi (view listing 0) ≡ ok items)
    × (length items ≡ min 2 ((length listing - 0x14) / 0x5C))
    × IsListing listing 0x14 items
parse_list_wifi_lem_example = parse_list_wifi_lem listing listing-count
