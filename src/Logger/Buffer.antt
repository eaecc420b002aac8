-- ===== src/Logger/Buffer.antt =====
-- What the buffer of records holds, and what the web page reads from it by its last number.
use cam_reverse_py.Base.{
  ℕ, zero, suc, ◌+◌, ◌-◌, ◌≤◌, ◌<◌, ◌≡◌, refl, sym, ap, ap₂, ◌∙◌, List, [], ◌∷◌, ◌++◌, leb, length,
  drop, drop_all, Text, arith, if◌then◌else◌, length-append, length-drop, append_assoc, append-nil,
}
use cam_reverse_py.Logger.{
  Entry, LogBuffer, LogRecord, maxlen, empty_buffer, emit, select_entries, logs_since, level_no,
  push_bounded,
}

-- The records are emitted one after another.
abbrev pub emit_all : List LogRecord → LogBuffer → LogBuffer
emit_all [] b = b
emit_all (r ∷ rs) b = emit_all rs (emit r b)

-- A record under its number.
abbrev pub entry : ℕ → LogRecord → Entry
entry n r = record {
  seq = n;
  time = r.time;
  level = r.levelname;
  levelno = r.levelno;
  message = r.message;
}

-- Records numbered one after another.
abbrev pub numbered : ℕ → List LogRecord → List Entry
numbered n [] = []
numbered n (r ∷ rs) = entry n r ∷ numbered (suc n) rs

-- The entries of a level and above.
abbrev pub at_level : ℕ → List Entry → List Entry
at_level minno [] = []
at_level minno (e ∷ es) =
    let rest = at_level minno es in if leb minno e.levelno then e ∷ rest else rest

-- The last `m` elements.
abbrev pub last_of {ℓ} : {A : Type ℓ} → ℕ → List A → List A
last_of m xs = drop (length xs - m) xs

drop-append_le {ℓ} :
    {A : Type ℓ} (d : ℕ) (xs ys : List A) → d ≤ length xs → drop d (xs ++ ys) ≡ drop d xs ++ ys
drop-append_le zero xs ys h = refl
drop-append_le (suc d) [] ys h = ground arith
drop-append_le (suc d) (x ∷ xs) ys h = drop-append_le d xs ys (omega arith)

drop-drop {ℓ} : {A : Type ℓ} (a b : ℕ) (xs : List A) → drop a (drop b xs) ≡ drop (b + a) xs
drop-drop a zero xs = let same : a ≡ 0 + a = omega arith in ap (λ n. drop n xs) same
drop-drop a (suc b) [] = drop_all a [] (omega arith) ∙ sym (drop_all (suc b + a) [] (omega arith))
drop-drop a (suc b) (x ∷ xs) =
    let same : suc (b + a) ≡ suc b + a = omega arith in
    drop-drop a b xs ∙ ap (λ n. drop n (x ∷ xs)) same

push_bounded-last_of {ℓ} :
    {A : Type ℓ} (m : ℕ) (xs : List A) (x : A)
    → push_bounded m (last_of m xs) x ≡ last_of m (xs ++ x ∷ [])
push_bounded-last_of m xs x =
    let d = length xs - m in
    ap (λ l. drop (suc (length (drop d xs)) - m) l)
      (sym (drop-append_le d xs (x ∷ []) (omega arith)))
    ∙ drop-drop (suc (length (drop d xs)) - m) d (xs ++ x ∷ [])
    ∙ ap (λ n. drop n (xs ++ x ∷ [])) (omega (arith, length-drop d xs, length-append xs (x ∷ [])))

length-numbered : (n : ℕ) (rs : List LogRecord) → length (numbered n rs) ≡ length rs
length-numbered n [] = refl
length-numbered n (r ∷ rs) = omega (arith, length-numbered (suc n) rs)

numbered-append :
    (n : ℕ) (old new : List LogRecord)
    → numbered n (old ++ new) ≡ numbered n old ++ numbered (n + length old) new
numbered-append n [] new = ap (λ k. numbered k new) (omega arith)
numbered-append n (r ∷ old) new =
    ap (λ l. entry n r ∷ l)
      (numbered-append (suc n) old new
        ∙ ap (λ k. numbered (suc n) old ++ numbered k new) (omega arith))

emit_all_lem :
    (rs : List LogRecord) (es : List Entry) (n : ℕ)
    → (emit_all rs (record { entries = last_of maxlen es; next_seq = n })).entries
      ≡ last_of maxlen (es ++ numbered n rs)
unfolding emit
emit_all_lem [] es n = ap (λ l. last_of maxlen l) (sym (append-nil es))
emit_all_lem (r ∷ rs) es n =
    ap₂ (λ l k. (emit_all rs (record { entries = l; next_seq = k })).entries)
      (push_bounded-last_of maxlen es (entry n r)) (omega arith)
    ∙ emit_all_lem rs (es ++ entry n r ∷ []) (suc n)
    ∙ ap (λ l. last_of maxlen l) (append_assoc es (entry n r ∷ []) (numbered (suc n) rs))

select_entries-seen :
    (minno after n k : ℕ) (old : List LogRecord) (rest : List Entry)
    → n + length old ≤ suc after
    → select_entries minno after (drop k (numbered n old) ++ rest) ≡ select_entries minno after rest
select_entries-seen minno after n zero [] rest h = refl
select_entries-seen minno after n (suc k) [] rest h = refl
select_entries-seen minno after n zero (r ∷ old) rest h =
    ground (arith, select_entries-seen minno after (suc n) zero old rest)
select_entries-seen minno after n (suc k) (r ∷ old) rest h =
    select_entries-seen minno after (suc n) k old rest (omega arith)

select_entries-numbered :
    (minno after n : ℕ) (new : List LogRecord)
    → after < n
    → select_entries minno after (numbered n new) ≡ at_level minno (numbered n new)
select_entries-numbered minno after n [] h = refl
select_entries-numbered minno after n (r ∷ new) h =
    ground (arith, select_entries-numbered minno after (suc n) new)

-- After any records were emitted, the buffer holds the last 2000 of them in order, numbered from 1 by their place.
pub emit_all-last_of :
    (rs : List LogRecord) → (emit_all rs empty_buffer).entries ≡ last_of maxlen (numbered 1 rs)
emit_all-last_of rs = emit_all_lem rs [] 1

-- A client that knows the records up to the last number gets, where at most 2000 records came since, exactly the
-- new ones of its level and above, in order and under their numbers.
pub logs_since-emit_all :
    (level : Text) (old new : List LogRecord)
    → length new ≤ maxlen
    → logs_since level (length old) (emit_all (old ++ new) empty_buffer)
      ≡ at_level (level_no level) (numbered (suc (length old)) new)
unfolding logs_since
logs_since-emit_all level old new h =
    let k = length (numbered 1 (old ++ new)) - maxlen in
    ap (λ l. select_entries (level_no level) (length old) l)
      (emit_all-last_of (old ++ new)
        ∙ ap (λ l. drop k l) (numbered-append 1 old new)
        ∙ drop-append_le k (numbered 1 old) (numbered (1 + length old) new) (
            omega (
              arith,
              length-numbered 1 (old ++ new),
              length-append old new,
              length-numbered 1 old,
            )))
    ∙ select_entries-seen (level_no level) (length old) 1 k old (numbered (1 + length old) new)
        (omega arith)
    ∙ select_entries-numbered (level_no level) (length old) (1 + length old) new (omega arith)
    ∙ ap (λ n. at_level (level_no level) (numbered n new)) (omega arith)
