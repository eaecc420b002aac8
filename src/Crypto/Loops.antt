-- ===== src/Crypto/Loops.antt =====
-- What the loops of cam_reverse/crypto.py do to a buffer whose region is in range.
use cam_reverse_py.Base.{
  ℕ, zero, suc, ◌+◌, ◌-◌, ◌%◌, ◌^◌, ◌≤◌, ◌<◌, ◌≡◌, refl, sym, ap, ap₂, ◌∙◌, [], ◌∷◌, ◌++◌, map,
  append_assoc, some, arith, length, get_elem?, take, drop, slice, length-append, splice_middle,
  move_front, length-snoc, length-drop, take_all, ok, or_raise, index_error, ◌>>=◌, bind_ok, subst,
}
use cam_reverse_py.Base.Bits.{byte_facts}
use cam_reverse_py.DataView.{Bytes, view, read_u8}
use cam_reverse_py.DataView.Words.{IsBytes}
use cam_reverse_py.Crypto.{flip_low_bit, py_index, read_flipped, put_byte, copy}

-- The byte that the loops store for a byte that they read.
abbrev pub flip_byte : ℕ → ℕ
flip_byte x = flip_low_bit x % 2 ^ 8

pub flip_byte-flip_byte : (x : ℕ) → x < 256 → flip_byte (flip_byte x) ≡ x
unfolding flip_low_bit
flip_byte-flip_byte x h = ground (arith, byte_facts x h, byte_facts (flip_byte x))

pub map-flip-flip : (xs : Bytes) → IsBytes xs → map flip_byte (map flip_byte xs) ≡ xs
map-flip-flip [] h = refl
map-flip-flip (x ∷ xs) h = ap₂ ◌∷◌ (flip_byte-flip_byte x h.0) (map-flip-flip xs h.1)

pub IsBytes-flip : (xs : Bytes) → IsBytes (map flip_byte xs)
IsBytes-flip [] = tt
IsBytes-flip (x ∷ xs) = (omega arith, IsBytes-flip xs)

pub length-flip : (xs : Bytes) → length (map flip_byte xs) ≡ length xs
length-flip [] = refl
length-flip (x ∷ xs) = ap suc (length-flip xs)

get_elem?-past :
    (pre : Bytes) (x : ℕ) (post : Bytes) (i : ℕ)
    → length pre ≡ i
    → get_elem? (pre ++ x ∷ post) i ≡ some x
get_elem?-past [] x post zero e = refl
get_elem?-past [] x post (suc i) e = absurd (omega arith)
get_elem?-past (y ∷ pre) x post zero e = absurd (omega arith)
get_elem?-past (y ∷ pre) x post (suc i) e = get_elem?-past pre x post i (omega arith)

-- The first loop over a region in the middle of a buffer.
pub read_flipped_lem :
    (pre xs post : Bytes) (o i : ℕ)
    → length pre ≡ o + i
    → read_flipped (view (pre ++ (xs ++ post)) o) (length xs) i ≡ ok (map flip_byte xs)
unfolding read_flipped read_u8
read_flipped_lem pre [] post o i e = refl
read_flipped_lem pre (x ∷ xs) post o i e =
    let rest : read_flipped (view (pre ++ x ∷ (xs ++ post)) o) (length xs) (suc i)
        ≡ ok (map flip_byte xs) =
      ap (λ b. read_flipped (view b o) (length xs) (suc i)) (move_front pre x (xs ++ post))
      ∙ read_flipped_lem (pre ++ x ∷ []) xs post o (suc i) (omega (arith, length-snoc pre x)) in
    bind_ok _ (ap (λ r. or_raise r index_error) (get_elem?-past pre x (xs ++ post) (o + i) e))
      (bind_ok _ rest refl)

IsBytes-get : (xs : Bytes) (i : ℕ) {v : ℕ} → IsBytes xs → get_elem? xs i ≡ some v → v < 256
IsBytes-get [] i h e = cc
IsBytes-get (x ∷ xs) zero h e = ground arith
IsBytes-get (x ∷ xs) (suc i) h e = IsBytes-get xs i h.1 e

-- A slice begins with the element at its start.
slice-suc :
    (xs : Bytes) (i n : ℕ)
    → i < length xs
    → (v : ℕ) × (get_elem? xs i ≡ some v) × (slice xs i (suc n) ≡ v ∷ slice xs (suc i) n)
slice-suc [] i n h = absurd (omega arith)
slice-suc (x ∷ xs) zero n h = (x, refl, refl)
slice-suc (x ∷ xs) (suc i) n h = slice-suc xs i n (omega arith)

py_index_ok : (n a b i : ℕ) → a ≡ b + i → i < n → py_index n a b ≡ some i
unfolding py_index
py_index_ok n a b i e h = ground arith

put_byte_lem :
    (pre : Bytes) (x v : ℕ) (post : Bytes) (a b : ℕ)
    → a ≡ b + length pre
    → v < 256
    → put_byte (pre ++ x ∷ post) a b v ≡ ok (pre ++ v ∷ post)
unfolding put_byte
put_byte_lem pre x v post a b e h =
    rw
      (py_index_ok (length (pre ++ x ∷ post)) a b (length pre) e
        (omega (arith, length-append pre (x ∷ post))))
      (ap ok (splice_middle pre (x ∷ []) post ((v % 2 ^ 8) ∷ []) (length pre) refl refl)
        ∙ ap (λ w. ok (pre ++ w ∷ post)) (omega arith))

-- A loop that stays in range writes a slice of what was read over a part of the buffer.
copy_lem :
    (new pre mid post : Bytes) (s s' i d d' : ℕ)
    → IsBytes new
    → s ≡ s' + i
    → i + length mid ≤ length new
    → d ≡ d' + length pre
    → copy new (length mid) s s' d d' (pre ++ (mid ++ post))
      ≡ ok (pre ++ (slice new i (length mid) ++ post))
unfolding copy
copy_lem new pre [] post s s' i d d' bytes es h ed = refl
copy_lem new pre (x ∷ mid) post s s' i d d' bytes es h ed =
    let (v, at, front) = slice-suc new i (length mid) (omega arith) in
    rw
      (
        py_index_ok (length new) s s' i es (omega arith),
        at,
        put_byte_lem pre x v (mid ++ post) d d' ed (IsBytes-get new i bytes at),
        move_front pre v (mid ++ post),
        copy_lem new (pre ++ v ∷ []) mid post (suc s) s' (suc i) (suc d) d' bytes (omega arith)
            (omega arith) (omega (arith, length-snoc pre v)),
        front,
      )
      (ap ok (sym (move_front pre v (slice new (suc i) (length mid) ++ post))))

copy_at :
    (new pre mid post : Bytes) (n s s' i d d' : ℕ)
    → length mid ≡ n
    → IsBytes new
    → s ≡ s' + i
    → i + n ≤ length new
    → d ≡ d' + length pre
    → copy new n s s' d d' (pre ++ (mid ++ post)) ≡ ok (pre ++ (slice new i n ++ post))
copy_at new pre mid post n s s' i d d' e bytes es h ed =
    subst (λ k. copy new k s s' d d' (pre ++ (mid ++ post)) ≡ ok (pre ++ (slice new i k ++ post))) e
      (copy_lem new pre mid post s s' i d d' bytes es (omega arith) ed)

-- A slice up to the end.
slice_rest : (xs : Bytes) (i n : ℕ) → i + n ≡ length xs → slice xs i n ≡ drop i xs
slice_rest xs i n e = take_all n (drop i xs) (omega (arith, length-drop i xs))

-- Two loops, first over the front `a` and then over `b`, or the other way round.
module _ (new pre a b post : Bytes) (bytes : IsBytes new)
    (size : length new ≡ length (a ++ b)) where
  pub front_then_back :
      (copy new (length (a ++ b) - length b) (length b) 0 (length pre) 0 (pre ++ ((a ++ b) ++ post))
        >>= copy new (length b) 0 0 (length pre + length (a ++ b)) (length b))
      ≡ ok (pre ++ ((drop (length b) new ++ take (length b) new) ++ post))
  front_then_back =
      let sum = length-append a b in
      let rest = drop (length b) new in
      let len : length rest ≡ length a = omega (arith, length-drop (length b) new) in
      bind_ok _
        (ap (λ l. copy new (length (a ++ b) - length b) (length b) 0 (length pre) 0 (pre ++ l))
            (append_assoc a b post)
          ∙ copy_at new pre a (b ++ post) (length (a ++ b) - length b) (length b) 0 (length b)
              (length pre) 0 (omega arith) bytes (omega arith) (omega arith) (omega arith)
          ∙ ap (λ l. ok (pre ++ (l ++ (b ++ post))))
              (slice_rest new (length b) (length (a ++ b) - length b) (omega arith)))
        (ap (copy new (length b) 0 0 (length pre + length (a ++ b)) (length b))
            (sym (append_assoc pre rest (b ++ post)))
          ∙ copy_at new (pre ++ rest) b post (length b) 0 0 0 (length pre + length (a ++ b))
              (length b) refl bytes (omega arith) (omega arith)
              (omega (arith, length-append pre rest))
          ∙ ap ok (append_assoc pre rest (take (length b) new ++ post))
          ∙ ap (λ l. ok (pre ++ l)) (sym (append_assoc rest (take (length b) new) post)))

  pub back_then_front :
      (copy new
          (length (a ++ b) - length a)
          0
          0
          (length pre + length a)
          0
          (pre ++ ((a ++ b) ++ post))
        >>= copy new (length a) (length (a ++ b)) (length a) (length pre) 0)
      ≡ ok (
          pre
          ++ ((drop (length (a ++ b) - length a) new ++ take (length (a ++ b) - length a) new)
              ++ post))
  back_then_front =
      let sum = length-append a b in
      let n = length (a ++ b) - length a in
      bind_ok _
        (ap (copy new n 0 0 (length pre + length a) 0)
            (ap (λ l. pre ++ l) (append_assoc a b post) ∙ sym (append_assoc pre a (b ++ post)))
          ∙ copy_at new (pre ++ a) b post n 0 0 0 (length pre + length a) 0 (omega arith) bytes
              (omega arith) (omega arith) (omega (arith, length-append pre a)))
        (ap (copy new (length a) (length (a ++ b)) (length a) (length pre) 0)
            (append_assoc pre a (take n new ++ post))
          ∙ copy_at new pre a (take n new ++ post) (length a) (length (a ++ b)) (length a) n
              (length pre) 0 refl bytes (omega arith) (omega arith) (omega arith)
          ∙ ap (λ l. ok (pre ++ (l ++ (take n new ++ post))))
              (slice_rest new n (length a) (omega arith))
          ∙ ap (λ l. ok (pre ++ l)) (sym (append_assoc (drop n new) (take n new) post)))
