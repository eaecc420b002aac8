-- ===== src/Exif.antt =====
-- cam_reverse/exif.py: the EXIF segment that tells a viewer how to turn the picture.
pub mod Segment
use cam_reverse_py.Base.{
  ℕ, ◌+◌, ◌/◌, ◌%◌, ◌^◌, Bool, true, false, ◌&&◌, ◌||◌, List, [], ◌∷◌, ◌++◌, ◌==◌, if◌then◌else◌,
  length, take, drop, Result, ok, err, value_error,
}
use cam_reverse_py.DataView.{Bytes, contains}

abbrev pub tiff_header : Bytes
tiff_header = 0x49 ∷ 0x49 ∷ 0x2A ∷ 0 ∷ 8 ∷ 0 ∷ 0 ∷ 0 ∷ []

-- The number of entries; tag, type and count; the orientation; no more entries; padding.
abbrev pub ifd_entry : ℕ → Bytes
ifd_entry orientation =
    (1 ∷ 0 ∷ [])
    ++ ((0x12 ∷ 1 ∷ 3 ∷ 0 ∷ 1 ∷ 0 ∷ 0 ∷ 0 ∷ [])
        ++ (((orientation % 2 ^ 8) ∷ []) ++ ((0 ∷ 0 ∷ []) ++ (0 ∷ 0 ∷ 0 ∷ 0 ∷ 0 ∷ []))))

unfoldable pub create_exif_orientation : ℕ → Bytes
create_exif_orientation orientation =
    let exif_data =
      (0x45 ∷ 0x78 ∷ 0x69 ∷ 0x66 ∷ 0 ∷ 0 ∷ []) ++ (tiff_header ++ ifd_entry orientation) in
    let seg_len = length exif_data + 2 in
    let exif_header = (0xFF ∷ 0xE1 ∷ []) ++ ((seg_len / 2 ^ 8 % 2 ^ 8) ∷ (seg_len % 2 ^ 8) ∷ []) in
    exif_header ++ exif_data

unfoldable pub add_exif_to_jpeg : Bytes → Bytes → Result Bytes
add_exif_to_jpeg jpeg_data exif_segment =
    if contains jpeg_data (0xFF ∷ 0xE1 ∷ [])
    then err value_error
    else ok (take 2 jpeg_data ++ (exif_segment ++ drop 2 jpeg_data))
