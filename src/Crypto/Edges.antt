-- ===== src/Crypto/Edges.antt =====
-- A region that runs over the end of the buffer.
use cam_reverse_py.Base.{
  ℕ, zero, suc, ◌+◌, ◌≤◌, ◌<◌, ◌≡◌, refl, ap, [], ◌∷◌, some, none, arith, length, get_elem?, err,
  index_error, bind, ltb, ltb→lt, Bool-cases, inl, inr,
}
use cam_reverse_py.DataView.{Bytes, view, read_u8}
use cam_reverse_py.Crypto.{read_flipped, xq_bytes_dec}

get_elem?-in : (xs : Bytes) (i : ℕ) → i < length xs → (v : ℕ) × (get_elem? xs i ≡ some v)
get_elem?-in [] i h = absurd (omega arith)
get_elem?-in (x ∷ xs) zero h = (x, refl)
get_elem?-in (x ∷ xs) (suc i) h = get_elem?-in xs i (omega arith)

get_elem?-out : (xs : Bytes) (i : ℕ) → length xs ≤ i → get_elem? xs i ≡ none
get_elem?-out [] i h = refl
get_elem?-out (x ∷ xs) zero h = absurd (omega arith)
get_elem?-out (x ∷ xs) (suc i) h = get_elem?-out xs i (omega arith)

read_flipped_short :
    (b : Bytes) (o left i : ℕ)
    → o + i ≤ length b
    → length b < o + (i + left)
    → read_flipped (view b o) left i ≡ err index_error
unfolding read_flipped read_u8
read_flipped_short b o zero i h k = absurd (omega arith)
read_flipped_short b o (suc left) i h k = elim (Bool-cases (ltb (o + i) (length b))) [
  | inl inside ↦
      (let (v, e) = get_elem?-in b (o + i) (ltb→lt (o + i) (length b) inside) in
        rw (
          e,
          read_flipped_short b o left (suc i) (omega (arith, ltb→lt (o + i) (length b) inside))
              (omega arith),
        ))
  | inr outside ↦ rw (get_elem?-out b (o + i) (ground arith))
]

-- `xq_bytes_dec` on a region that begins in the buffer and ends behind it raises IndexError, before
-- anything is written.
pub xq_bytes_dec_short :
    (b : Bytes) (o buflen rotate : ℕ)
    → o ≤ length b
    → length b < o + buflen
    → xq_bytes_dec (view b o) buflen rotate ≡ err index_error
unfolding xq_bytes_dec
xq_bytes_dec_short b o buflen rotate h k =
    ap (bind _) (read_flipped_short b o buflen 0 (omega arith) (omega arith))
