-- ===== src/Frames/Assembly.antt =====
-- How a frame is put together from the packets of the data stream, and when it is handed on.
use cam_reverse_py.Base.{
  ℕ, ◌+◌, ◌-◌, ◌*◌, ◌/◌, ◌%◌, ◌^◌, ◌≤◌, ◌<◌, ◌≡◌, ap, ◌∙◌, true, false, ◌∷◌, arith, ltb, ltb-false,
  length, take, take_all,
}
use cam_reverse_py.DataView.{Bytes, Dv, view, has_prefix, read_u16, read_byte_array}
use cam_reverse_py.State.{State}
use cam_reverse_py.Link.{Callbacks}
use cam_reverse_py.Frames.{
  frame_header, jpeg_header, continue_frame, start_new_frame, deal_with_data, long_data, plain_data,
}

-- A packet of the data stream: its id, and what follows its header.
abbrev pub data_packet : ℕ → Bytes → Bytes
data_packet id body =
    let len = 4 + length body in
    0xF1 ∷ 0xD0 ∷ (len / 256) ∷ (len % 256) ∷ 0xD1 ∷ 1 ∷ (id / 256) ∷ (id % 256) ∷ body

-- A body that is long enough to be read and short enough to be announced.
abbrev pub HasRoom : Bytes → Type 0
HasRoom body = (8 ≤ length body) × (4 + length body < 2 ^ 16)

-- A body that continues a frame: no stream header, no JPEG header.
abbrev pub IsSlice : Bytes → Type 0
IsSlice body =
    HasRoom body
    × (has_prefix (take 4 body) frame_header ≡ false)
    × (has_prefix (take 4 body) jpeg_header ≡ false)

-- A body that begins a frame.
abbrev pub IsStart : Bytes → Type 0
IsStart body =
    HasRoom body
    × (has_prefix (take 4 body) frame_header ≡ false)
    × (has_prefix (take 4 body) jpeg_header ≡ true)

module _ {App : Type 0} (callbacks : Callbacks App) (id : ℕ) (body : Bytes) (small : id < 2 ^ 16)
    (room : HasRoom body) where
  abbrev packet : Dv
  packet = view (data_packet id body) 0

  -- The branch on the length and on the stream header.
  deal_plain :
      (s : State App)
      → has_prefix (take 4 body) frame_header ≡ false
      → deal_with_data callbacks packet s ≡ plain_data callbacks packet (4 + length body) id s
  unfolding deal_with_data long_data read_u16 read_byte_array
  deal_plain s framed =
      let len = 4 + length body in
      let e : len % 256 + 256 * (len / 256 + 256 * 0) ≡ len = omega arith in
      let e' : id % 256 + 256 * (id / 256 + 256 * 0) ≡ id = omega arith in
      let long : ltb len 12 ≡ false = ltb-false len 12 (omega arith) in rw (e, long, e', framed)

  whole : take (4 + length body - 4) body ≡ body
  whole = take_all (4 + length body - 4) body (omega arith)

  pub deal_with_slice :
      (s : State App) → IsSlice body → deal_with_data callbacks packet s ≡ continue_frame id body s
  unfolding plain_data read_byte_array
  deal_with_slice s (_, framed, starts) =
      deal_plain s framed ∙ rw starts (ap (λ b. continue_frame id b s) whole)

  pub deal_with_start :
      (s : State App)
      → IsStart body
      → deal_with_data callbacks packet s ≡ start_new_frame callbacks id body s
  unfolding plain_data read_byte_array
  deal_with_start s (_, framed, starts) =
      deal_plain s framed ∙ rw starts (ap (λ b. start_new_frame callbacks id b s) whole)
