-- ===== src/Parsers/WifiScan.antt =====
-- The listing of WiFi networks: a packet that is too short for the number it announces gives the
-- entries that it holds whole.
use cam_reverse_py.Base.{
  ℕ, zero, suc, ◌+◌, ◌-◌, ◌/◌, ◌≤◌, min, ◌≡◌, refl, List, [], ◌∷◌, inl, inr, Bool-cases, arith, ltb,
  ltb→lt, length, slice, le→fits, ok, bind_ok,
}
use cam_reverse_py.DataView.{Bytes, view, read_u32le, before_nul, unpack_le}
use cam_reverse_py.Link.{WifiListItem}
use cam_reverse_py.Parsers.{mac_text, parse_wifi_item, parse_wifi_items, parse_list_wifi}

-- The items are those at `startat` and at every 0x5C bytes from there.
abbrev pub IsListing : Bytes → ℕ → List WifiListItem → Type 0
IsListing b startat [] = Unit {0}
IsListing b startat (x ∷ xs) =
    (parse_wifi_item (view b 0) startat ≡ ok x) × IsListing b (startat + 0x5C) xs

abbrev u32_at : Bytes → ℕ → ℕ
u32_at b o = unpack_le (slice b (0 + o) 4)

-- The entry that stands at an offset.
abbrev item_at : Bytes → ℕ → WifiListItem
item_at b startat = record {
  ssid = before_nul (slice b (0 + startat) 0x40);
  mac = mac_text (slice b (0 + (startat + 0x40)) 6);
  security = u32_at b (startat + 0x48);
  dbm0 = u32_at b (startat + 0x4C);
  dbm1 = u32_at b (startat + 0x50);
  mode = u32_at b (startat + 0x54);
  channel = u32_at b (startat + 0x58);
}

parse_wifi_item_ok :
    (b : Bytes) (startat : ℕ)
    → startat + 0x5C ≤ length b
    → parse_wifi_item (view b 0) startat ≡ ok (item_at b startat)
unfolding parse_wifi_item
parse_wifi_item_ok b startat h = rw (
  le→fits (0 + (startat + 0x48) + 4) b (omega arith),
  le→fits (0 + (startat + 0x4C) + 4) b (omega arith),
  le→fits (0 + (startat + 0x50) + 4) b (omega arith),
  le→fits (0 + (startat + 0x54) + 4) b (omega arith),
  le→fits (0 + (startat + 0x58) + 4) b (omega arith),
)

parse_wifi_items_ok :
    (b : Bytes) (left startat : ℕ)
    → (items : List WifiListItem) × (parse_wifi_items (view b 0) left startat ≡ ok items)
      × (length items ≡ min left ((length b - startat) / 0x5C))
      × IsListing b startat items
unfolding parse_wifi_items
parse_wifi_items_ok b zero startat = ([], refl, omega arith, tt)
parse_wifi_items_ok b (suc left) startat = elim (Bool-cases (ltb (length b - 0) (startat + 0x5C))) [
  | inl cropped ↦ ([], rw (cropped, parse_wifi_items), omega (arith, ltb→lt _ _ cropped), tt)
  | inr room ↦
      (let fit : startat + 0x5C ≤ length b = ground arith in
        let e = parse_wifi_item_ok b startat fit in
        let (items, es, count, listing) = parse_wifi_items_ok b left (startat + 0x5C) in
        (
          item_at b startat ∷ items,
          rw (room, parse_wifi_items, e, es),
          omega (arith, count),
          (e, listing),
        ))
]

-- `parse_list_wifi` raises only where the count itself is missing. It returns the entries from 0x14
-- on, 0x5C bytes each: as many as the packet announces or holds whole, whichever is less.
pub parse_list_wifi_lem :
    (b : Bytes) {msg_count : ℕ}
    → read_u32le (view b 0x10) ≡ ok msg_count
    → (items : List WifiListItem) × (parse_list_wifi (view b 0) ≡ ok items)
      × (length items ≡ min msg_count ((length b - 0x14) / 0x5C))
      × IsListing b 0x14 items
unfolding parse_list_wifi
parse_list_wifi_lem b {msg_count} h =
    let (items, es, count, listing) = parse_wifi_items_ok b msg_count 0x14 in
    (items, bind_ok _ h es, count, listing)
