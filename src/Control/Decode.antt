-- ===== src/Control/Decode.antt =====
-- A control packet is decoded before its command is looked at.
use cam_reverse_py.Base.{
  ℕ, ◌+◌, ◌-◌, ◌<◌, ◌≤◌, ◌^◌, ◌%◌, ◌≡◌, refl, sym, ap, subst, ◌∙◌, Bool, true, false, ◌&&◌, List,
  [], ◌∷◌, ◌++◌, arith, ltb, lt→ltb, ltb-false, length, length-append, if◌then◌else◌, Result, ok,
  err, index_error, bind_ok, ◌==◌,
}
use cam_reverse_py.Base
use cam_reverse_py.DataView.{Bytes, Dv, view, add, byte_length, read_u16, read_u16le}
use cam_reverse_py.DataView.Words.{IsBytes}
use cam_reverse_py.Crypto.{xq_bytes_dec}
use cam_reverse_py.Crypto.Cipher.{enc_region, dec_suffix, length-enc_region}
use cam_reverse_py.Crypto.Edges.{xq_bytes_dec_short}
use cam_reverse_py.Datatypes
use cam_reverse_py.Datatypes.{control_value}
use cam_reverse_py.State.{State, Action, lift, continue_with, pure, ◌>>=◌, ◌>>◌}
use cam_reverse_py.Link.{login, Callbacks, emit}
use cam_reverse_py.Impl.Layout.{header, HasHeader, header-HasHeader}
use cam_reverse_py.Control.{
  cropped_length, decode_payload, control_command, create_response_for_control_command,
}

-- A length that the packet can hold is kept.
not_cropped : (dv : Dv) (n : ℕ) → n ≤ byte_length dv → cropped_length dv n ≡ n
unfolding cropped_length
not_cropped dv n h = ground (arith, ltb-false (byte_length dv) n h)

-- A control packet that announces a payload's length: header, token and the payload's bytes.
abbrev pub control_packet : ℕ → ℕ → ℕ → Bytes → Bytes → Bytes
control_packet id command size token body = header id command size ++ (token ++ body)

module _ (id command a b c d : ℕ) (payload : Bytes) (long : 4 < length payload)
    (short : length payload + 16 < 2 ^ 16) (bytes : IsBytes payload) where
  abbrev token : Bytes
  token = a ∷ b ∷ c ∷ d ∷ []

  abbrev received : Bytes
  received = control_packet id command (length payload) token (enc_region 4 payload)

  same : length (enc_region 4 payload) ≡ length payload
  same = length-enc_region 4 payload (omega arith)

  fields : HasHeader id command (length payload) received
  fields =
      header-HasHeader id command (length payload) (token ++ enc_region 4 payload) (omega arith)

  kept : cropped_length (view received 0) (4 + length payload) ≡ 4 + length payload
  kept = not_cropped (view received 0) (4 + length payload) (omega (arith, same))

  decoded :
      decode_payload (view received 0) (4 + length payload)
      ≡ ok (view (control_packet id command (length payload) token payload) 0)
  unfolding decode_payload
  decoded = rw (lt→ltb 4 (4 + length payload) (omega arith)) (
      ap
        (λ n.
          Base.◌>>=◌ (xq_bytes_dec (view received 20) n 4)
            (λ buf. ok (record (view received 0) { buf = buf })))
        (the_size)
      ∙ bind_ok _
          (dec_suffix (header id command (length payload) ++ token) payload 4 (omega arith) bytes)
          refl)
    where
      the_size : 4 + length payload - 4 ≡ length payload
      the_size = omega arith

-- `create_response_for_control_command` on a control packet whose payload, of more than four bytes, was
-- encoded with a rotation of 4, as the program encodes its own, and whose length field is right: it goes on
-- with the inner command on the packet with the payload decoded in place.
pub create_response_decodes :
    {App : Type 0} (callbacks : Callbacks App) (s : State App) (id command a b c d : ℕ)
    (payload : Bytes)
    → 4 < length payload
    → length payload + 16 < 2 ^ 16
    → IsBytes payload
    → command < 2 ^ 16
    → create_response_for_control_command callbacks
        (view
          (control_packet id command (length payload) (a ∷ b ∷ c ∷ d ∷ []) (enc_region 4 payload))
          0)
        s
      ≡ control_command callbacks
          (view (control_packet id command (length payload) (a ∷ b ∷ c ∷ d ∷ []) payload) 0)
          (4 + length payload)
          command
          s
unfolding create_response_for_control_command
create_response_decodes {App} callbacks s id command a b c d payload long short bytes small =
    let head = fields id command a b c d payload long short bytes in
    let dv = view (received id command a b c d payload long short bytes) 0 in
    let go : ℕ → ℕ → Action App (List Bytes) = λ cmd_id n.
      lift (decode_payload dv n) >>= λ decoded. control_command callbacks decoded n cmd_id in
    let lengths : ℕ → Action App (List Bytes) =
      λ cmd_id. lift (read_u16le (add dv 0xC)) >>= λ n. go cmd_id (cropped_length dv n) in
    ap (λ r. continue_with (r, s) lengths) head.6
    ∙ ap (λ r. continue_with (r, s) (λ n. go (command % 2 ^ 16) (cropped_length dv n))) head.7
    ∙ ap (λ n. go (command % 2 ^ 16) n s) (kept id command a b c d payload long short bytes)
    ∙ ap (λ cmd_id. go cmd_id (4 + length payload) s) {x = command % 2 ^ 16} {y = command}
        (omega arith)
    ∙ ap
        (λ r.
          continue_with (r, s) (λ dec. control_command callbacks dec (4 + length payload) command))
        (decoded id command a b c d payload long short bytes)

-- The login: on a ConnectUserAck with at least eight bytes of payload, encoded with a rotation of 4,
-- the session's token becomes bytes 4 to 7 of the decoded payload, then the event `login` is emitted,
-- and no packet answers.
pub create_response_login :
    {App : Type 0} (callbacks : Callbacks App) (s : State App) (id a b c d p q r t e f g h : ℕ)
    (rest : Bytes)
    → let payload : Bytes = p ∷ q ∷ r ∷ t ∷ e ∷ f ∷ g ∷ h ∷ rest in
      length payload + 16 < 2 ^ 16
      → IsBytes payload
      → create_response_for_control_command callbacks
          (view
            (control_packet id
              (control_value Datatypes.connect_user_ack)
              (length payload)
              (a ∷ b ∷ c ∷ d ∷ [])
              (enc_region 4 payload))
            0)
          s
        ≡ (emit callbacks login >> pure [])
            (record s { session = record s.session { ticket = e ∷ f ∷ g ∷ h ∷ [] } })
unfolding control_command
create_response_login callbacks s id a b c d p q r t e f g h rest short bytes =
    let payload : Bytes = p ∷ q ∷ r ∷ t ∷ e ∷ f ∷ g ∷ h ∷ rest in
    create_response_decodes callbacks s id (control_value Datatypes.connect_user_ack) a b c d
      payload (omega arith) short bytes (omega arith)

decode_uncropped :
    (b : Bytes) (n : ℕ)
    → 20 ≤ length b
    → length b < 16 + n
    → decode_payload (view b 0) n ≡ err index_error
unfolding decode_payload
decode_uncropped b n enough over =
    rw (lt→ltb 4 n (omega arith))
      (ap (Base.bind _) (xq_bytes_dec_short b 20 (n - 4) 4 enough (omega arith)))

-- A packet of 20 bytes or more whose length field is at most the packet's length but more than what
-- follows its first 16 bytes is not cut: decoding it raises IndexError, and the session is left as it was.
pub create_response_uncropped :
    {App : Type 0} (callbacks : Callbacks App) (s : State App) (b : Bytes) (command n : ℕ)
    → read_u16 (view b 8) ≡ ok 0x110A
    → read_u16 (view b 10) ≡ ok command
    → read_u16le (view b 12) ≡ ok n
    → 20 ≤ length b
    → n ≤ length b
    → length b < 16 + n
    → create_response_for_control_command callbacks (view b 0) s ≡ (err index_error, s)
unfolding create_response_for_control_command
create_response_uncropped {App} callbacks s b command n magic cmd len enough held over =
    let dv = view b 0 in
    let go : ℕ → ℕ → Action App (List Bytes) =
      λ cmd_id k. lift (decode_payload dv k) >>= λ dec. control_command callbacks dec k cmd_id in
    let branch : ℕ → ℕ → ℕ → Action App (List Bytes) = λ start_type cmd_id k.
      if start_type == 0x110A then go cmd_id (cropped_length dv k) else pure [] in
    let lengths : ℕ → ℕ → Action App (List Bytes) =
      λ start_type cmd_id. lift (read_u16le (add dv 0xC)) >>= branch start_type cmd_id in
    let commands : ℕ → Action App (List Bytes) =
      λ start_type. lift (read_u16 (add dv 10)) >>= lengths start_type in
    ap (λ r. continue_with (r, s) commands) magic
    ∙ ap (λ r. continue_with (r, s) (lengths 0x110A)) cmd
    ∙ ap (λ r. continue_with (r, s) (branch 0x110A command)) len
    ∙ ap (λ k. go command k s) (not_cropped dv n (omega arith))
    ∙ ap (λ r. continue_with (r, s) (λ dec. control_command callbacks dec n command))
        (decode_uncropped b n enough over)
