-- ===== src/Scripts/Decoder.antt =====
-- The script's decoder and the one of cam_reverse/crypto.py are the same function.
use cam_reverse_py.Base.{
  ℕ, ◌-◌, ◌≤◌, ◌<◌, ◌≡◌, refl, sym, ap, ap₂, ◌∙◌, [], ◌∷◌, ◌++◌, map, append-nil, arith, take, drop,
  length, take_left, drop_left, ok,
}
use cam_reverse_py.Base.Bits.{byte_facts}
use cam_reverse_py.DataView.{Bytes, view}
use cam_reverse_py.DataView.Words.{IsBytes}
use cam_reverse_py.Crypto.{flip_low_bit, xq_bytes_dec}
use cam_reverse_py.Crypto.Loops.{flip_byte, length-flip}
use cam_reverse_py.Crypto.Cipher.{dec_region, xq_bytes_dec_lem}
use cam_reverse_py.Scripts.{flip, dec, last_four, before_four}

flip-flip_byte : (x : ℕ) → x < 256 → flip x ≡ flip_byte x
unfolding flip_low_bit
flip-flip_byte x h = ground (arith, byte_facts x h)

map-flip : (xs : Bytes) → IsBytes xs → map flip xs ≡ map flip_byte xs
map-flip [] h = refl
map-flip (x ∷ xs) h = ap₂ ◌∷◌ (flip-flip_byte x h.0) (map-flip xs h.1)

-- For a packet with at least four bytes behind its first twenty, `dec` of scripts/dec.py gives what
-- `xq_bytes_dec` makes of it in place, at 20 with a rotation of 4.
pub dec-xq_bytes_dec :
    (header payload : Bytes)
    → length header ≡ 20
    → 4 ≤ length payload
    → IsBytes payload
    → xq_bytes_dec (view (header ++ payload) 20) (length payload) 4 ≡ ok (dec (header ++ payload))
unfolding dec
dec-xq_bytes_dec header payload twenty enough bytes =
    ap₂ (λ b o. xq_bytes_dec (view (header ++ b) o) (length payload) 4) (sym (append-nil payload))
      (sym twenty)
    ∙ xq_bytes_dec_lem header payload [] 4 enough
    ∙ ap (λ l. ok (header ++ l)) (append-nil (dec_region 4 payload))
    ∙ ap ok (sym same)
  where
    flipped : map flip (drop 0x14 (header ++ payload)) ≡ map flip_byte payload
    flipped = ap (map flip) (drop_left 20 header payload twenty) ∙ map-flip payload bytes

    same : dec (header ++ payload) ≡ header ++ dec_region 4 payload
    same =
        ap₂ (λ h l. h ++ (last_four l ++ before_four l)) (take_left 20 header payload twenty)
          flipped
        ∙ ap
            (λ n.
              header
              ++ (drop (n - 4) (map flip_byte payload) ++ take (n - 4) (map flip_byte payload)))
            (length-flip payload)
