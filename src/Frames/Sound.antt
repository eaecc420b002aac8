-- ===== src/Frames/Sound.antt =====
-- A packet of the data stream that holds sound (cam_reverse/handlers.py).
use cam_reverse_py.Base.{
  ℕ, ◌+◌, ◌*◌, ◌/◌, ◌%◌, ◌^◌, ◌<◌, ◌≡◌, ap, false, ◌∷◌, arith, ltb, ltb-false, length, take_all,
}
use cam_reverse_py.DataView.{Bytes, view, read_u8, read_u16, read_u16le, read_byte_array}
use cam_reverse_py.State.{State}
use cam_reverse_py.Link.{Callbacks, audio, emit}
use cam_reverse_py.Frames.{deal_with_data, long_data, framed_data}
use cam_reverse_py.Frames.Assembly.{data_packet}

-- The bytes of the stream header around its type and its length, which nothing looks at.
pub record Padding : Type 0 where
  pub b5 : ℕ
  pub b6 : ℕ
  pub b7 : ℕ
  pub b8 : ℕ
  pub b9 : ℕ
  pub b10 : ℕ
  pub b11 : ℕ
  pub b12 : ℕ
  pub b13 : ℕ
  pub b14 : ℕ
  pub b15 : ℕ
  pub b18 : ℕ
  pub b19 : ℕ
  pub b20 : ℕ
  pub b21 : ℕ
  pub b22 : ℕ
  pub b23 : ℕ
  pub b24 : ℕ
  pub b25 : ℕ
  pub b26 : ℕ
  pub b27 : ℕ
  pub b28 : ℕ
  pub b29 : ℕ
  pub b30 : ℕ
  pub b31 : ℕ

-- A stream header of 32 bytes with type 6 and the length of the payload, and the payload.
abbrev pub sound_body : Padding → Bytes → Bytes
sound_body h payload =
    let n = length payload in
    0x55
    ∷ 0xAA
    ∷ 0x15
    ∷ 0xA8
    ∷ 6
    ∷ h.b5
    ∷ h.b6
    ∷ h.b7
    ∷ h.b8
    ∷ h.b9
    ∷ h.b10
    ∷ h.b11
    ∷ h.b12
    ∷ h.b13
    ∷ h.b14
    ∷ h.b15
    ∷ (n % 256)
    ∷ (n / 256)
    ∷ h.b18
    ∷ h.b19
    ∷ h.b20
    ∷ h.b21
    ∷ h.b22
    ∷ h.b23
    ∷ h.b24
    ∷ h.b25
    ∷ h.b26
    ∷ h.b27
    ∷ h.b28
    ∷ h.b29
    ∷ h.b30
    ∷ h.b31
    ∷ payload

pub deal_with_sound :
    {App : Type 0} (callbacks : Callbacks App) (id : ℕ) (h : Padding) (payload : Bytes)
    (s : State App)
    → length payload + 36 < 2 ^ 16
    → deal_with_data callbacks (view (data_packet id (sound_body h payload)) 0) s
      ≡ callbacks.listener (audio payload) s
unfolding deal_with_data long_data framed_data read_u16 read_u8 read_u16le read_byte_array emit
deal_with_sound callbacks id h payload s room =
    let len = 4 + length (sound_body h payload) in
    let n = length payload in
    let e : len % 256 + 256 * (len / 256 + 256 * 0) ≡ len = omega arith in
    let e'' : n % 256 + 256 * (n / 256 + 256 * 0) ≡ n = omega arith in
    let long : ltb len 12 ≡ false = ltb-false len 12 (omega arith) in
    rw (e, long, e'') (ap (λ b. callbacks.listener (audio b) s) (take_all n payload (omega arith)))
