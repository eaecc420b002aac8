-- ===== src/Impl/RoundTrip.antt =====
-- A command with a payload, as the camera reads it: the header says what it should, and decoding
-- gives the payload back.
use cam_reverse_py.Base.{
  ℕ, ◌+◌, ◌-◌, ◌<◌, ◌^◌, ◌≡◌, refl, subst, true, [], ◌∷◌, ◌++◌, some, arith, ltb, lt→ltb, length,
  take, ok, bind_ok,
}
use cam_reverse_py.DataView.{Bytes, view, read_byte_array}
use cam_reverse_py.DataView.Words.{IsBytes}
use cam_reverse_py.Crypto.{xq_bytes_dec}
use cam_reverse_py.Crypto.Cipher.{enc_region, enc_suffix, dec_suffix, length-enc_region}
use cam_reverse_py.State.{State, Session}
use cam_reverse_py.Impl.{encode_payload}
use cam_reverse_py.Impl.Requests.{make_data_read_write}
use cam_reverse_py.Impl.Layout.{header, HasHeader, header-HasHeader, build_packet_lem}

-- A payload of more than four bytes is encoded whole.
encode_payload_lem :
    (payload : Bytes)
    → 4 < length payload
    → encode_payload (some (view payload 0)) ≡ ok (some (enc_region 4 payload))
unfolding encode_payload
encode_payload_lem payload h =
    let long : ltb 4 (length payload - 0) ≡ true = lt→ltb 4 _ (omega arith) in
    rw long (bind_ok _ (enc_suffix [] payload 4 (omega arith)) refl)

-- The session after a command was built.
abbrev pub counted : Session → Session
counted s = record s { outgoing_command_id = s.outgoing_command_id + 1 }

-- For a token of four bytes and a payload of more than four bytes that fits a 16-bit length,
-- `make_data_read_write` returns a packet whose fields read back as the Drw command, the length, the
-- command id, the inner command, the payload's length and its destination, that holds the token at
-- 16, and from which `xq_bytes_dec` at 20 gives the payload back; the command id is counted up.
pub make_data_read_write_decodes :
    {App : Type 0} (s : State App) (command a b c d : ℕ) (payload : Bytes)
    → s.session.ticket ≡ a ∷ b ∷ c ∷ d ∷ []
    → 4 < length payload
    → length payload + 16 < 2 ^ 16
    → IsBytes payload
    → (packet : Bytes) × (make_data_read_write command (some (view payload 0)) s
        ≡ (ok packet, record s { session = counted s.session }))
      × HasHeader s.session.outgoing_command_id command (length payload) packet
      × (read_byte_array (view packet 16) 4 ≡ a ∷ b ∷ c ∷ d ∷ [])
      × (xq_bytes_dec (view packet 20) (length payload) 4 ≡ ok (take 20 packet ++ payload))
unfolding make_data_read_write read_byte_array
make_data_read_write_decodes s command a b c d payload t long short bytes =
    let encoded = enc_region 4 payload in
    let same : length encoded ≡ length payload = length-enc_region 4 payload (omega arith) in
    let head = header s.session.outgoing_command_id command (length encoded) in
    let front : Bytes = head ++ (a ∷ b ∷ c ∷ d ∷ []) in
    let built = build_packet_lem s.session.outgoing_command_id command a b c d encoded in
    (
      front ++ encoded,
      rw (encode_payload_lem payload long, t, built),
      subst (λ n. HasHeader s.session.outgoing_command_id command n (front ++ encoded)) same
          (header-HasHeader s.session.outgoing_command_id command (length encoded)
            ((a ∷ b ∷ c ∷ d ∷ []) ++ encoded) (omega (arith, same))),
      refl,
      dec_suffix front payload 4 (omega arith) bytes,
    )
