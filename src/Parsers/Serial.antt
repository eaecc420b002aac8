-- ===== src/Parsers/Serial.antt =====
-- The serial of a camera: what `parse_PunchPkt` reads from a camera's answer, `make_p2p_rdy` sends
-- back byte by byte.
use cam_reverse_py.Base.{
  ℕ, zero, suc, ◌+◌, ◌-◌, ◌%◌, ◌^◌, ◌≤◌, ◌<◌, ◌≡◌, refl, sym, ap, ap₂, ◌∙◌, true, [], ◌∷◌, ◌++◌,
  arith, if◌then◌else◌, length, take, drop, replicate, splice, le→fits, length-append,
  length-replicate, take_left, drop_left, drop-drop, take_all, splice_middle, append_assoc,
  append-nil, ok, err, encode_error, bind_ok,
}
use cam_reverse_py.DataView.{
  Bytes, view, alloc, before_nul, write_u64, write_byte_array, pack_be, unpack_be, pack_into,
}
use cam_reverse_py.DataView.Words.{IsBytes, pack_be-unpack_be, unpack_be-lt}
use cam_reverse_py.DataView.Access.{pack_into_ok}
use cam_reverse_py.State.{DevSerial}
use cam_reverse_py.Impl.{decimal, is_latin1, str2byte, parse_punch_pkt, create_p2p_rdy}
use cam_reverse_py.Parsers.{make_p2p_rdy}

-- A name of bytes that are not 0.
abbrev pub IsName : Bytes → Type 0
IsName [] = Unit {0}
IsName (x ∷ xs) = (0 < x) × (x < 256) × IsName xs

-- A field of `n` bytes that holds a name, with zeros behind it.
abbrev pub padded : ℕ → Bytes → Bytes
padded n name = name ++ replicate (n - length name) 0

length-padded : (n : ℕ) (name : Bytes) → length name ≤ n → length (padded n name) ≡ n
length-padded n name h = omega (
  arith,
  length-append name (replicate (n - length name) 0),
  length-replicate {A = ℕ} (n - length name) 0,
)

before_nul-replicate : (n : ℕ) → before_nul (replicate n 0) ≡ []
before_nul-replicate zero = refl
before_nul-replicate (suc n) = refl

before_nul-name : (name : Bytes) (n : ℕ) → IsName name → before_nul (name ++ replicate n 0) ≡ name
before_nul-name [] n h = before_nul-replicate n
before_nul-name (x ∷ name) n h = ground (arith, before_nul-name name n h.2)

str2byte-name : (name : Bytes) → IsName name → str2byte name ≡ ok name
str2byte-name name h = ap (λ b. if b then ok name else err encode_error) (latin name h)
  where
    latin : (xs : Bytes) → IsName xs → is_latin1 xs ≡ true
    latin [] k = refl
    latin (x ∷ xs) k = ground (arith, latin xs k.2)

drop-replicate : (k n m : ℕ) → k + m ≡ n → drop k (replicate {A = ℕ} n 0) ≡ replicate m 0
drop-replicate zero n m e = ap (λ j. replicate j 0) (omega arith)
drop-replicate (suc k) zero m e = absurd (omega arith)
drop-replicate (suc k) (suc n) m e = drop-replicate k n m (omega arith)

replicate-add : (k m n : ℕ) → k + m ≡ n → replicate {A = ℕ} n 0 ≡ replicate k 0 ++ replicate m 0
replicate-add zero m n e = ap (λ j. replicate j 0) (omega arith)
replicate-add (suc k) m zero e = absurd (omega arith)
replicate-add (suc k) m (suc n) e = ap (λ l. 0 ∷ l) (replicate-add k m n (omega arith))

-- Writing a name over zeros pads it.
write_name :
    (pre name : Bytes) (n m k : ℕ)
    → length name ≤ n
    → n + m ≡ k
    → splice (pre ++ replicate k 0) (length pre) name ≡ pre ++ (padded n name ++ replicate m 0)
write_name pre name n m k h e =
    ap (λ l. splice (pre ++ l) (length pre) name)
      (replicate-add (length name) (k - length name) k (omega arith))
    ∙ splice_middle pre (replicate (length name) 0) (replicate (k - length name) 0) name
        (length pre) refl (sym (length-replicate (length name) 0))
    ∙ ap (λ l. pre ++ (name ++ l))
        (replicate-add (n - length name) m (k - length name) (omega arith))
    ∙ ap (λ l. pre ++ l) (sym (append_assoc name (replicate (n - length name) 0) (replicate m 0)))

create_p2p_rdy_lem :
    (b : Bytes) → length b ≡ 20 → create_p2p_rdy (view b 0) ≡ ok (0xF1 ∷ 0x42 ∷ 0 ∷ 0x14 ∷ b)
unfolding create_p2p_rdy
create_p2p_rdy_lem b e =
    ap (λ l. ok (0xF1 ∷ 0x42 ∷ 0 ∷ 0x14 ∷ l))
      (ap (λ l. l ++ drop (4 + length l) (0xF1 ∷ 0x42 ∷ 0 ∷ 0x14 ∷ replicate 20 0))
          (take_all 20 b (omega arith))
        ∙ ap (λ n. b ++ drop (4 + n) (0xF1 ∷ 0x42 ∷ 0 ∷ 0x14 ∷ replicate 20 0)) e
        ∙ append-nil b)

-- The device that the answer of a camera describes.
abbrev pub device : Bytes → Bytes → Bytes → DevSerial
device prefix serial suffix =
    let n = unpack_be serial in
    record {
      prefix = prefix;
      serial = decimal n;
      suffix = suffix;
      serial_u64 = n;
      dev_id = prefix ++ (decimal n ++ suffix);
    }

module _ (prefix serial suffix : Bytes) (named : IsName prefix) (named' : IsName suffix)
    (short : length prefix ≤ 4) (short' : length suffix ≤ 8) (bytes : IsBytes serial)
    (eight : length serial ≡ 8) where
  abbrev body : Bytes
  body = padded 4 prefix ++ (serial ++ padded 8 suffix)

  length-body : length body ≡ 20
  length-body = omega (
    arith,
    length-append (padded 4 prefix) (serial ++ padded 8 suffix),
    length-append serial (padded 8 suffix),
    length-padded 4 prefix short,
    length-padded 8 suffix short',
  )

  after_prefix : drop 4 body ≡ serial ++ padded 8 suffix
  after_prefix =
      drop_left 4 (padded 4 prefix) (serial ++ padded 8 suffix) (length-padded 4 prefix short)

  read_prefix : before_nul (take 4 body) ≡ prefix
  read_prefix =
      ap before_nul
        (take_left 4 (padded 4 prefix) (serial ++ padded 8 suffix) (length-padded 4 prefix short))
      ∙ before_nul-name prefix (4 - length prefix) named

  read_serial : take 8 (drop 4 body) ≡ serial
  read_serial = ap (take 8) after_prefix ∙ take_left 8 serial (padded 8 suffix) eight

  read_suffix : before_nul (take 8 (drop 12 body)) ≡ suffix
  read_suffix =
      ap (λ l. before_nul (take 8 l))
        (sym (drop-drop 8 4 12 body refl)
          ∙ ap (drop 8) after_prefix
          ∙ drop_left 8 serial (padded 8 suffix) eight)
      ∙ ap before_nul (take_all 8 (padded 8 suffix) (omega (arith, length-padded 8 suffix short')))
      ∙ before_nul-name suffix (8 - length suffix) named'

  parse_lem :
      parse_punch_pkt (view (0xF1 ∷ 0x41 ∷ 0 ∷ 0x14 ∷ body) 0) ≡ ok (device prefix serial suffix)
  unfolding parse_punch_pkt
  parse_lem =
      rw (le→fits 12 body (omega (arith, length-body)), read_prefix, read_serial, read_suffix)

  abbrev number : ℕ
  number = unpack_be serial

  packed : pack_be 8 (number % 2 ^ 64) ≡ serial
  packed =
      let small : number < 256 ^ 8 = unpack_be-lt serial 8 bytes eight in
      ap (pack_be 8) {y = number} (omega (arith, small))
      ∙ ap (λ n. pack_be n number) (sym eight)
      ∙ pack_be-unpack_be serial bytes

  write_serial :
      write_u64 (view (write_byte_array (view (alloc 0x14) 0) prefix) 4) number
      ≡ ok (padded 4 prefix ++ (serial ++ replicate 8 0))
  unfolding write_u64 write_byte_array
  write_serial =
      let four = length-padded 4 prefix short in
      let buf : Bytes = padded 4 prefix ++ replicate 16 0 in
      ap₂ (λ b l. pack_into (view b 4) l) (write_name [] prefix 4 16 20 short refl) packed
      ∙ pack_into_ok buf 4 serial (omega (arith, length-append (padded 4 prefix) (replicate 16 0)))
      ∙ ap ok (splice_middle (padded 4 prefix) (replicate 8 0) (replicate 8 0) serial 4 four eight)

  write_suffix :
      write_byte_array (view (padded 4 prefix ++ (serial ++ replicate 8 0)) 12) suffix ≡ body
  unfolding write_byte_array
  write_suffix =
      let pre : Bytes = padded 4 prefix ++ serial in
      let twelve : 12 ≡ length pre =
        omega (arith, length-append (padded 4 prefix) serial, length-padded 4 prefix short) in
      ap₂ (λ l o. splice l o suffix) (sym (append_assoc (padded 4 prefix) serial (replicate 8 0)))
        twelve
      ∙ write_name pre suffix 8 0 8 short' refl
      ∙ ap (λ l. pre ++ l) (append-nil (padded 8 suffix))
      ∙ append_assoc (padded 4 prefix) serial (padded 8 suffix)

  make_lem : make_p2p_rdy (device prefix serial suffix) ≡ ok (0xF1 ∷ 0x42 ∷ 0 ∷ 0x14 ∷ body)
  unfolding make_p2p_rdy
  make_lem = bind_ok _ (str2byte-name prefix named) (
      bind_ok _ write_serial (
        bind_ok _ (str2byte-name suffix named')
          (ap (λ b. create_p2p_rdy (view b 0)) write_suffix ∙ create_p2p_rdy_lem body length-body)))

-- A camera's answer to discovery that names its prefix and suffix in zero-padded fields of 4 and 8
-- bytes around a serial of 8 bytes: `parse_PunchPkt` returns these, and `make_p2p_rdy` of the result
-- is the packet with the command P2pRdy in place of PunchPkt, all bytes after it the same.
pub make_p2p_rdy-parse_punch_pkt :
    (prefix serial suffix : Bytes)
    → IsName prefix
    → IsName suffix
    → length prefix ≤ 4
    → length suffix ≤ 8
    → IsBytes serial
    → length serial ≡ 8
    → let body = padded 4 prefix ++ (serial ++ padded 8 suffix) in
      (parse_punch_pkt (view (0xF1 ∷ 0x41 ∷ 0 ∷ 0x14 ∷ body) 0) ≡ ok (device prefix serial suffix))
      × (make_p2p_rdy (device prefix serial suffix) ≡ ok (0xF1 ∷ 0x42 ∷ 0 ∷ 0x14 ∷ body))
make_p2p_rdy-parse_punch_pkt prefix serial suffix n n' h h' b e =
    (parse_lem prefix serial suffix n n' h h' b e, make_lem prefix serial suffix n n' h h' b e)
