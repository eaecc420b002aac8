-- ===== src/WebServer/Base64.antt =====
-- The sound of a camera, as the event stream encodes it (cam_reverse/http_server.py).
use cam_reverse_py.Base.{
  ℕ, ◌+◌, ◌-◌, ◌*◌, ◌/◌, ◌%◌, ◌<◌, ◌≡◌, refl, ap, ap₂, ◌∙◌, false, [], ◌∷◌, Text, ◌==◌, leb,
  if◌then◌else◌, arith,
}
use cam_reverse_py.DataView.{Bytes}
use cam_reverse_py.DataView.Words.{IsBytes}
use cam_reverse_py.WebServer.Frame.{base64_digit, b64encode}

-- What a digit of the alphabet of RFC 4648 stands for.
abbrev pub digit_value : ℕ → ℕ
digit_value c =
    if leb 97 c
    then c - 71
    else if leb 65 c
    then c - 65
    else if leb 48 c
    then c + 4
    else if c == 43
    then 62
    else 63

-- What a reader of base64 gets: every four digits hold three bytes, and 61 (`=`) fills the last four up.
abbrev pub decode64 : Text → Bytes
decode64 (a ∷ b ∷ c ∷ d ∷ rest) =
    let later = decode64 rest in
    let x = digit_value a * 4 + digit_value b / 16 in
    let y = digit_value b % 16 * 16 + digit_value c / 4 in
    let z = digit_value c % 4 * 64 + digit_value d in
    if d == 61 then (if c == 61 then x ∷ [] else x ∷ y ∷ []) else x ∷ y ∷ z ∷ later
decode64 _ = []

base64_digit_lem :
    (d : ℕ) → d < 64 → (digit_value (base64_digit d) ≡ d) × ((base64_digit d == 61) ≡ false)
base64_digit_lem d h = ground arith

module _ (p q : ℕ) (hp : p < 64) (hq : q < 64) where
  decode64-one : decode64 (base64_digit p ∷ base64_digit q ∷ 61 ∷ 61 ∷ []) ≡ (p * 4 + q / 16) ∷ []
  decode64-one =
      ap₂ (λ x y. (x * 4 + y / 16) ∷ []) (base64_digit_lem p hp).0 (base64_digit_lem q hq).0

  module _ (r : ℕ) (hr : r < 64) where
    decode64-two :
        decode64 (base64_digit p ∷ base64_digit q ∷ base64_digit r ∷ 61 ∷ [])
        ≡ (p * 4 + q / 16) ∷ (q % 16 * 16 + r / 4) ∷ []
    decode64-two =
        rw
          (
            (base64_digit_lem r hr).1,
            (base64_digit_lem p hp).0,
            (base64_digit_lem q hq).0,
            (base64_digit_lem r hr).0,
          )
          refl

    decode64-three :
        (s : ℕ) (rest : Text)
        → s < 64
        → decode64 (base64_digit p ∷ base64_digit q ∷ base64_digit r ∷ base64_digit s ∷ rest)
          ≡ (p * 4 + q / 16) ∷ (q % 16 * 16 + r / 4) ∷ (r % 4 * 64 + s) ∷ decode64 rest
    decode64-three s rest hs =
        rw
          (
            (base64_digit_lem s hs).1,
            (base64_digit_lem p hp).0,
            (base64_digit_lem q hq).0,
            (base64_digit_lem r hr).0,
            (base64_digit_lem s hs).0,
          )
          refl

first_byte : (a b : ℕ) → a < 256 → b < 256 → a / 4 * 4 + (a % 4 * 16 + b / 16) / 16 ≡ a
first_byte a b h h' = omega arith

second_byte :
    (a b c : ℕ)
    → b < 256
    → c < 256
    → (a % 4 * 16 + b / 16) % 16 * 16 + (b % 16 * 4 + c / 64) / 4 ≡ b
second_byte a b c h h' = omega arith

third_byte : (b c : ℕ) → c < 256 → (b % 16 * 4 + c / 64) % 4 * 64 + c % 64 ≡ c
third_byte b c h = omega arith

-- A payload of bytes that `b64encode` has turned into text, decoded by the alphabet and the padding of RFC 4648, is the
-- same payload.
pub decode64-b64encode :
    (payload : Bytes) → IsBytes payload → decode64 (b64encode payload) ≡ payload
unfolding b64encode
decode64-b64encode [] h = refl
decode64-b64encode (a ∷ []) h =
    decode64-one (a / 4) (a % 4 * 16) (omega arith) (omega arith) ∙ ap (λ x. x ∷ []) (omega arith)
decode64-b64encode (a ∷ b ∷ []) h =
    decode64-two (a / 4) (a % 4 * 16 + b / 16) (omega arith) (omega arith) (b % 16 * 4)
      (omega arith)
    ∙ ap₂ (λ x y. x ∷ y ∷ []) (first_byte a b h.0 h.1.0) (omega arith)
decode64-b64encode (a ∷ b ∷ c ∷ rest) h =
    decode64-three (a / 4) (a % 4 * 16 + b / 16) (omega arith) (omega arith) (b % 16 * 4 + c / 64)
      (omega arith) (c % 64) (b64encode rest) (omega arith)
    ∙ ap₂ (λ x y. x ∷ y ∷ ((b % 16 * 4 + c / 64) % 4 * 64 + c % 64) ∷ decode64 (b64encode rest))
        (first_byte a b h.0 h.1.0) (second_byte a b c h.1.0 h.1.1.0)
    ∙ ap₂ (λ z later. a ∷ b ∷ z ∷ later) (third_byte b c h.1.1.0) (decode64-b64encode rest h.1.1.1)
