-- ===== src/Examples.antt =====
-- The theorems on bytes and packets, applied at inputs where their hypotheses hold.
pub mod Camera
mod Sessions
mod Packets
mod Control
mod Config
mod Histories
mod Tools
mod Capture
pub mod Web
pub mod Servers
mod Watching
use cam_reverse_py.Base.{
  ℕ, ◌+◌, ◌≤◌, ◌<◌, ◌≡◌, refl, Bool, true, false, List, [], ◌∷◌, ◌++◌, Option, none, some, arith,
  length, Result, ok, err, value_error, ◌>>=◌, ◌%◌, ◌^◌, take, drop, ◌↔◌,
}
use cam_reverse_py.DataView.{
  Bytes, view, pack_le, pack_be, read_u8, read_u16, read_u32, read_u64, write_u16, write_u32,
  write_u64,
}
use cam_reverse_py.DataView.Words.{IsBytes}
use cam_reverse_py.DataView.Access.{
  IsStored, read_u16-write_u16, read_u32-write_u32, read_u64-write_u64,
}
use cam_reverse_py.Crypto.{flip_low_bit, xq_bytes_dec, xq_bytes_enc}
use cam_reverse_py.Crypto.Cipher.{
  enc_region, dec_region, xq_bytes_dec-xq_bytes_enc, xq_bytes_enc_lem, xq_bytes_dec_lem,
}
use cam_reverse_py.Utils.{u16_swap, u16_swap_twice}
use cam_reverse_py.Datatypes
use cam_reverse_py.Datatypes.{commands_by_value, command_value}
use cam_reverse_py.Datatypes.Lookup.{commands_by_value_iff}
use cam_reverse_py.Exif.{create_exif_orientation, add_exif_to_jpeg}
use cam_reverse_py.Exif.Segment.{add_exif_to_jpeg_once, add_exif_to_jpeg_places}

xq_bytes_dec-xq_bytes_enc_example :
    (xq_bytes_enc (view (9 ∷ 1 ∷ 2 ∷ 3 ∷ 7 ∷ []) 1) 3 2 >>= λ buf. xq_bytes_dec (view buf 1) 3 2)
    ≡ ok (9 ∷ 1 ∷ 2 ∷ 3 ∷ 7 ∷ [])
xq_bytes_dec-xq_bytes_enc_example =
    xq_bytes_dec-xq_bytes_enc (9 ∷ []) (1 ∷ 2 ∷ 3 ∷ []) (7 ∷ []) 2 (omega arith)
      (omega arith, (omega arith, (omega arith, tt)))

xq_bytes_dec_lem_example :
    xq_bytes_dec (view (9 ∷ 2 ∷ 0 ∷ 3 ∷ 7 ∷ []) 1) 3 2 ≡ ok (9 ∷ 1 ∷ 2 ∷ 3 ∷ 7 ∷ [])
unfolding flip_low_bit
xq_bytes_dec_lem_example = xq_bytes_dec_lem (9 ∷ []) (2 ∷ 0 ∷ 3 ∷ []) (7 ∷ []) 2 (omega arith)

abbrev small_jpeg : Bytes
small_jpeg = 0xFF ∷ 0xD8 ∷ 0xFF ∷ 0xDB ∷ 1 ∷ []

abbrev small_jpeg_with_exif : Bytes
unfolding create_exif_orientation
small_jpeg_with_exif = 0xFF ∷ 0xD8 ∷ (create_exif_orientation 6 ++ (0xFF ∷ 0xDB ∷ 1 ∷ []))

small_jpeg-added : add_exif_to_jpeg small_jpeg (create_exif_orientation 6) ≡ ok small_jpeg_with_exif
unfolding add_exif_to_jpeg create_exif_orientation
small_jpeg-added = refl

add_exif_to_jpeg_once_example :
    add_exif_to_jpeg small_jpeg_with_exif (create_exif_orientation 3) ≡ err value_error
add_exif_to_jpeg_once_example =
    add_exif_to_jpeg_once small_jpeg 6 (create_exif_orientation 3) small_jpeg-added

add_exif_to_jpeg_places_example :
    (out : Bytes) × (add_exif_to_jpeg small_jpeg (create_exif_orientation 6) ≡ ok out)
    × (take 2 out ≡ 0xFF ∷ 0xD8 ∷ [])
    × (read_u16 (view out 2) ≡ ok 0xFFE1)
    × (read_u16 (view out 4) ≡ ok 34)
    × (drop (4 + 34) out ≡ 0xFF ∷ 0xDB ∷ 1 ∷ [])
    × (read_u8 (view out 30) ≡ ok (6 % 2 ^ 8))
add_exif_to_jpeg_places_example = add_exif_to_jpeg_places 0xFF 0xD8 (0xFF ∷ 0xDB ∷ 1 ∷ []) 6 refl
