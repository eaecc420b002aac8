-- ===== src/Examples/Control.antt =====
-- The theorems on control packets, applied at inputs where their hypotheses hold.
use cam_reverse_py.Base.{◌≡◌, refl, [], ◌∷◌, arith, replicate, ok, err, index_error}
use cam_reverse_py.DataView.{Bytes, view, read_u16, read_u16le}
use cam_reverse_py.Crypto.Cipher.{enc_region}
use cam_reverse_py.Control.{control_command, create_response_for_control_command}
use cam_reverse_py.Control.Decode.{
  control_packet, create_response_decodes, create_response_uncropped,
}
use cam_reverse_py.Examples.Camera.{counting, connected_state}

abbrev payload : Bytes
payload = 1 ∷ 2 ∷ 3 ∷ 4 ∷ 65 ∷ 66 ∷ 67 ∷ 68 ∷ []

create_response_decodes_example :
    create_response_for_control_command counting
      (view (control_packet 7 0x811 8 (0 ∷ 0 ∷ 0 ∷ 0 ∷ []) (enc_region 4 payload)) 0)
      connected_state
    ≡ control_command counting
        (view (control_packet 7 0x811 8 (0 ∷ 0 ∷ 0 ∷ 0 ∷ []) payload) 0)
        12
        0x811
        connected_state
create_response_decodes_example =
    create_response_decodes counting connected_state 7 0x811 0 0 0 0 payload (omega arith)
      (omega arith)
      (
        omega arith,
        (
          omega arith,
          (
            omega arith,
            (omega arith, (omega arith, (omega arith, (omega arith, (omega arith, tt))))),
          ),
        ),
      )
      (omega arith)

-- Twenty-four bytes that announce twelve, and hold eight after the first sixteen.
abbrev short_packet : Bytes
short_packet =
    0xF1
    ∷ 0xD0
    ∷ 0
    ∷ 20
    ∷ 0xD1
    ∷ 0
    ∷ 0
    ∷ 7
    ∷ 0x11
    ∷ 0x0A
    ∷ 0x08
    ∷ 0x11
    ∷ 12
    ∷ 0
    ∷ 0
    ∷ 0
    ∷ replicate 8 0

short_packet-magic : read_u16 (view short_packet 8) ≡ ok 0x110A
unfolding read_u16
short_packet-magic = refl

short_packet-command : read_u16 (view short_packet 10) ≡ ok 0x811
unfolding read_u16
short_packet-command = refl

short_packet-length : read_u16le (view short_packet 12) ≡ ok 12
unfolding read_u16le
short_packet-length = refl

create_response_uncropped_example :
    create_response_for_control_command counting (view short_packet 0) connected_state
    ≡ (err index_error, connected_state)
create_response_uncropped_example =
    create_response_uncropped counting connected_state short_packet 0x811 12 short_packet-magic
      short_packet-command short_packet-length (omega arith) (omega arith) (omega arith)
