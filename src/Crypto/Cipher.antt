-- ===== src/Crypto/Cipher.antt =====
-- The obfuscation of a region is a rotation of its flipped bytes, so one function undoes the other.
use cam_reverse_py.Base.{
  ℕ, ◌+◌, ◌-◌, ◌≤◌, ◌≡◌, sym, ap, ap₂, ◌∙◌, [], ◌++◌, map, append-nil, arith, length, take, drop,
  length-append, length-take_le, length-take, length-drop, take-append-drop, take_left, drop_left,
  ok, ◌>>=◌, bind_ok, subst₂,
}
use mathlib.Core.List.{map-append}
use cam_reverse_py.DataView.{Bytes, view}
use cam_reverse_py.DataView.Words.{IsBytes}
use cam_reverse_py.Crypto.{copy, xq_bytes_dec, xq_bytes_enc}
use cam_reverse_py.Crypto.Loops.{
  flip_byte, map-flip-flip, IsBytes-flip, length-flip, read_flipped_lem, front_then_back,
  back_then_front,
}

-- What the two functions are meant to do to a region.
abbrev pub enc_region : ℕ → Bytes → Bytes
enc_region rotate xs = drop rotate (map flip_byte xs) ++ take rotate (map flip_byte xs)

abbrev pub dec_region : ℕ → Bytes → Bytes
dec_region rotate xs =
    drop (length xs - rotate) (map flip_byte xs) ++ take (length xs - rotate) (map flip_byte xs)

-- `xq_bytes_enc` on a region that lies in the buffer replaces it by its bytes flipped and rotated
-- to the left, and leaves the rest of the buffer alone.
pub xq_bytes_enc_lem :
    (pre xs post : Bytes) (rotate : ℕ)
    → rotate ≤ length xs
    → xq_bytes_enc (view (pre ++ (xs ++ post)) (length pre)) (length xs) rotate
      ≡ ok (pre ++ (enc_region rotate xs ++ post))
unfolding xq_bytes_enc
xq_bytes_enc_lem pre xs post rotate h =
    let new = map flip_byte xs in
    let k = length xs - rotate in
    bind_ok _ (read_flipped_lem pre xs post (length pre) 0 (omega arith)) (
      subst₂
        (λ l r.
          (copy new (length l - r) r 0 (length pre) 0 (pre ++ (l ++ post))
            >>= copy new r 0 0 (length pre + length l) r)
          ≡ ok (pre ++ ((drop r new ++ take r new) ++ post)))
        (take-append-drop k xs) (omega (arith, length-drop k xs))
        (front_then_back new pre (take k xs) (drop k xs) post (IsBytes-flip xs)
          (length-flip xs ∙ ap length (sym (take-append-drop k xs)))))

-- `xq_bytes_dec` on a region that lies in the buffer replaces it by its bytes flipped and rotated
-- to the right, and leaves the rest of the buffer alone.
pub xq_bytes_dec_lem :
    (pre xs post : Bytes) (rotate : ℕ)
    → rotate ≤ length xs
    → xq_bytes_dec (view (pre ++ (xs ++ post)) (length pre)) (length xs) rotate
      ≡ ok (pre ++ (dec_region rotate xs ++ post))
unfolding xq_bytes_dec
xq_bytes_dec_lem pre xs post rotate h =
    let new = map flip_byte xs in
    bind_ok _ (read_flipped_lem pre xs post (length pre) 0 (omega arith)) (
      subst₂
        (λ l r.
          (copy new (length l - r) 0 0 (length pre + r) 0 (pre ++ (l ++ post))
            >>= copy new r (length l) r (length pre) 0)
          ≡ ok (pre ++ ((drop (length l - r) new ++ take (length l - r) new) ++ post)))
        (take-append-drop rotate xs) (length-take_le rotate xs h)
        (back_then_front new pre (take rotate xs) (drop rotate xs) post (IsBytes-flip xs)
          (length-flip xs ∙ ap length (sym (take-append-drop rotate xs)))))

pub length-enc_region : (r : ℕ) (xs : Bytes) → r ≤ length xs → length (enc_region r xs) ≡ length xs
length-enc_region r xs h = omega (
  arith,
  length-append (drop r (map flip_byte xs)) (take r (map flip_byte xs)),
  length-drop r (map flip_byte xs),
  length-take r (map flip_byte xs),
  length-flip xs,
)

pub dec_region-enc_region :
    (r : ℕ) (xs : Bytes) → r ≤ length xs → IsBytes xs → dec_region r (enc_region r xs) ≡ xs
dec_region-enc_region r xs h bytes =
    let ys = map flip_byte xs in
    let back = drop r ys in
    let front = take r ys in
    let k = length (back ++ front) - r in
    let at : length (map flip_byte back) ≡ k =
      omega (arith, length-flip back, length-drop r ys, length-flip xs, length-enc_region r xs h) in
    ap₂ ◌++◌
      (ap (drop k) (map-append flip_byte back front)
        ∙ drop_left k (map flip_byte back) (map flip_byte front) at)
      (ap (take k) (map-append flip_byte back front)
        ∙ take_left k (map flip_byte back) (map flip_byte front) at)
    ∙ sym (map-append flip_byte front back)
    ∙ ap (map flip_byte) (take-append-drop r ys)
    ∙ map-flip-flip xs bytes

-- Decoding undoes encoding: for every region of bytes that lies in the buffer and every rotation up
-- to its length, `xq_bytes_enc` and then `xq_bytes_dec` give the whole buffer back.
pub xq_bytes_dec-xq_bytes_enc :
    (pre xs post : Bytes) (rotate : ℕ)
    → rotate ≤ length xs
    → IsBytes xs
    → (xq_bytes_enc (view (pre ++ (xs ++ post)) (length pre)) (length xs) rotate >>= λ buf.
        xq_bytes_dec (view buf (length pre)) (length xs) rotate)
      ≡ ok (pre ++ (xs ++ post))
xq_bytes_dec-xq_bytes_enc pre xs post rotate h bytes =
    let same = length-enc_region rotate xs h in
    bind_ok _ (xq_bytes_enc_lem pre xs post rotate h) (
      ap (λ n. xq_bytes_dec (view (pre ++ (enc_region rotate xs ++ post)) (length pre)) n rotate)
        (sym same)
      ∙ xq_bytes_dec_lem pre (enc_region rotate xs) post rotate (omega (arith, same))
      ∙ ap (λ l. ok (pre ++ (l ++ post))) (dec_region-enc_region rotate xs h bytes))

-- Both at the end of a buffer.
pub enc_suffix :
    (pre xs : Bytes) (rotate : ℕ)
    → rotate ≤ length xs
    → xq_bytes_enc (view (pre ++ xs) (length pre)) (length xs) rotate
      ≡ ok (pre ++ enc_region rotate xs)
enc_suffix pre xs rotate h =
    ap (λ l. xq_bytes_enc (view (pre ++ l) (length pre)) (length xs) rotate) (sym (append-nil xs))
    ∙ xq_bytes_enc_lem pre xs [] rotate h
    ∙ ap (λ l. ok (pre ++ l)) (append-nil (enc_region rotate xs))

pub dec_suffix :
    (pre xs : Bytes) (rotate : ℕ)
    → rotate ≤ length xs
    → IsBytes xs
    → xq_bytes_dec (view (pre ++ enc_region rotate xs) (length pre)) (length xs) rotate
      ≡ ok (pre ++ xs)
dec_suffix pre xs rotate h bytes =
    let encoded = enc_region rotate xs in
    let same = length-enc_region rotate xs h in
    ap (λ l. xq_bytes_dec (view (pre ++ l) (length pre)) (length xs) rotate)
      (sym (append-nil encoded))
    ∙ ap (λ n. xq_bytes_dec (view (pre ++ (encoded ++ [])) (length pre)) n rotate) (sym same)
    ∙ xq_bytes_dec_lem pre encoded [] rotate (omega (arith, same))
    ∙ ap (λ l. ok (pre ++ l))
        (append-nil (dec_region rotate encoded) ∙ dec_region-enc_region rotate xs h bytes)
