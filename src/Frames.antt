-- ===== src/Frames.antt =====
-- `_deal_with_data` of cam_reverse/handlers.py: the slices of a JPEG frame arrive as numbered
-- packets and are collected in the session; a listener of `frame` sees the slices of a whole one.
pub mod Assembly
pub mod Delivery
pub mod Sound
pub mod Keeps
use cam_reverse_py.Base.{
  ℕ, zero, suc, ◌+◌, ◌-◌, Bool, true, false, not, ◌&&◌, List, [], ◌∷◌, ◌++◌, Option, none, some,
  ltb, leb, ◌==◌, if◌then◌else◌, take, drop, Result, ok, err,
}
use cam_reverse_py.DataView.{
  Bytes, Dv, add, has_prefix, read_u8, read_u16, read_u16le, read_byte_array,
}
use cam_reverse_py.Settings.{Value, codes, truthy, camera_option}
use cam_reverse_py.State.{Session, State, Action, Done, pure, lift, gets, modify, ◌>>=◌, ◌>>◌}
use cam_reverse_py.Link.{Event, frame, audio, Callbacks, emit}

-- `_find_all_reset_markers`: the positions, from `i` on, of a byte 0xff before one of 0xd0 to 0xd7.
abbrev pub is_marker : ℕ → Bytes → Bool
is_marker x [] = false
is_marker x (y ∷ ys) = x == 0xFF && (leb 0xD0 y && leb y 0xD7)

unfoldable pub find_markers_from : ℕ → Bytes → List ℕ
find_markers_from i [] = []
find_markers_from i (x ∷ xs) =
    let rest = find_markers_from (suc i) xs in if is_marker x xs then i ∷ rest else rest

unfoldable pub find_all_reset_markers : Bytes → List ℕ
unfolding find_markers_from
find_all_reset_markers b = find_markers_from 0 b

-- `xs[-1]` and `xs[0]` of a list that may be empty, and `xs[-1] = y`.
abbrev pub last? {ℓ} : {A : Type ℓ} → List A → Option A
last? [] = none
last? (x ∷ []) = some x
last? (x ∷ y ∷ ys) = last? (y ∷ ys)

abbrev pub first? {ℓ} : {A : Type ℓ} → List A → Option A
first? [] = none
first? (x ∷ xs) = some x

abbrev pub set_last {ℓ} : {A : Type ℓ} → List A → A → List A
set_last [] z = []
set_last (x ∷ []) z = z ∷ []
set_last (x ∷ y ∷ ys) z = x ∷ set_last (y ∷ ys) z

-- How a frame with a gap is mended: the last slice is cut at its last reset marker, and the slice
-- that came after the gap begins at its first one. `none` where there is nothing to cut at.
abbrev pub cut : List Bytes → Bytes → Option Bytes → Option (List Bytes × Bytes)
unfolding find_all_reset_markers
cut image b none = none
cut image b (some last) = elim (last? (find_all_reset_markers last)) [
  | none ↦ none
  | some last_marker ↦ elim (first? (find_all_reset_markers b)) [
    | none ↦ none
    | some first_marker ↦ some (set_last image (take last_marker last), drop first_marker b)
  ]
]

-- A frame of one slice is not mended: its header has no markers.
unfoldable pub mend : List Bytes → Bytes → Option (List Bytes × Bytes)
unfolding cut
mend [] b = none
mend (x ∷ []) b = none
mend (x ∷ y ∷ ys) b = cut (x ∷ y ∷ ys) b (last? (y ∷ ys))

abbrev pub is_empty {ℓ} : {A : Type ℓ} → List A → Bool
is_empty [] = true
is_empty (x ∷ xs) = false

abbrev pub frame_header : Bytes
frame_header = 0x55 ∷ 0xAA ∷ 0x15 ∷ 0xA8 ∷ []

abbrev pub jpeg_header : Bytes
jpeg_header = 0xFF ∷ 0xD8 ∷ 0xFF ∷ 0xDB ∷ []

abbrev pub is_truthy : Option Value → Bool
is_truthy none = false
is_truthy (some v) = truthy v

-- The session once a slice is appended to the frame.
abbrev pub appended : ℕ → Bytes → Session → Session
appended pkt_id b s = record s { rcv_seq_id = pkt_id; cur_image = s.cur_image ++ (b ∷ []) }

abbrev pub new_frame : ℕ → Bytes → Session → Session
new_frame pkt_id buf s = record s {
  frame_was_fixed = false;
  frame_is_bad = false;
  cur_image = buf ∷ [];
  rcv_seq_id = pkt_id;
}

abbrev pub marked_bad : Session → Session
marked_bad s = record s { frame_is_bad = true }

abbrev pub mended : List Bytes → Session → Session
mended image s = record s { cur_image = image; frame_is_bad = false; frame_was_fixed = true }

module _ {App : Type 0} where
  -- `settings.config["cameras"].get(session.dev_name, {}).get("fix_packet_loss")`.
  abbrev pub fix_packet_loss : Action App (Option Value)
  unfolding camera_option
  fix_packet_loss s = (camera_option s.config s.session.dev_name (codes "fix_packet_loss"), s)

  -- A slice whose number leaves a gap.
  unfoldable pub after_gap : ℕ → Bytes → Action App Done
  unfolding fix_packet_loss mend
  after_gap pkt_id b = do
    modify marked_bad
    wanted ← fix_packet_loss
    image ← gets (λ s. s.cur_image)
    (if not (is_truthy wanted) then pure tt else elim (mend image b) [
      | none ↦ pure tt
      | some (image', b') ↦ modify (λ s. appended pkt_id b' (mended image' s))
    ])

  -- A slice that begins no frame.
  unfoldable pub continue_frame : ℕ → Bytes → Action App Done
  continue_frame pkt_id b = do
    rcv_seq_id ← gets (λ s. s.rcv_seq_id)
    (if leb pkt_id rcv_seq_id
        then pure tt
        else if ltb (rcv_seq_id + 1) pkt_id
        then after_gap pkt_id b
        else modify (appended pkt_id b))

module _ {App : Type 0} (callbacks : Callbacks App) where
  -- `start_new_frame`.
  unfoldable pub start_new_frame : ℕ → Bytes → Action App Done
  unfolding emit
  start_new_frame pkt_id buf = do
    complete ← gets (λ s. not (is_empty s.cur_image) && not s.frame_is_bad)
    (if complete then emit callbacks frame else pure tt)
    modify (new_frame pkt_id buf)

  -- The branch of a packet with a stream header.
  unfoldable pub framed_data : Dv → ℕ → ℕ → Action App Done
  framed_data dv pkt_len pkt_id = do
    stream_type ← lift (read_u8 (add dv 12))
    (if stream_type == 6
        then (lift (read_u16le (add dv (8 + 16))) >>= λ audio_len.
            emit callbacks (audio (read_byte_array (add dv (32 + 8)) audio_len)))
        else if stream_type == 3
        then (if ltb (4 + 32) pkt_len
            then start_new_frame pkt_id (read_byte_array (add dv (32 + 8)) (pkt_len - 4 - 32))
            else pure tt)
        else pure tt)

  unfoldable pub plain_data : Dv → ℕ → ℕ → Action App Done
  plain_data dv pkt_len pkt_id =
      let slice = read_byte_array (add dv 8) (pkt_len - 4) in
      if has_prefix (read_byte_array (add dv 8) 4) jpeg_header
      then start_new_frame pkt_id slice
      else continue_frame pkt_id slice

  unfoldable pub long_data : Dv → ℕ → Action App Done
  long_data dv pkt_len = do
    pkt_id ← lift (read_u16 (add dv 6))
    (if has_prefix (read_byte_array (add dv 8) 4) frame_header
        then framed_data dv pkt_len pkt_id
        else plain_data dv pkt_len pkt_id)

  unfoldable pub deal_with_data : Dv → Action App Done
  deal_with_data dv = do
    pkt_len ← lift (read_u16 (add dv 2))
    (if ltb pkt_len 12 then pure tt else long_data dv pkt_len)
