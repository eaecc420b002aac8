-- ===== src/Exif/Segment.antt =====
-- The segment is well formed, is put behind the first marker, and is put there once.
use cam_reverse_py.Base.{
  ℕ, ◌+◌, ◌%◌, ◌^◌, ◌≡◌, refl, true, false, [], ◌∷◌, ◌++◌, arith, take, drop, ok, err, value_error,
}
use cam_reverse_py.DataView.{Bytes, contains, view, read_u8, read_u16}
use cam_reverse_py.Exif.{create_exif_orientation, add_exif_to_jpeg}

abbrev pub app1 : Bytes
app1 = 0xFF ∷ 0xE1 ∷ []

contains-append : (xs ys : Bytes) → contains (xs ++ (0xFF ∷ 0xE1 ∷ ys)) app1 ≡ true
contains-append [] ys = refl
contains-append (x ∷ xs) ys = ground (arith, contains-append xs ys)

-- Once a segment made by `create_exif_orientation` has been added, adding any segment raises
-- ValueError: no picture gets two EXIF segments.
pub add_exif_to_jpeg_once :
    (jpeg : Bytes) (orientation : ℕ) (segment : Bytes) {out : Bytes}
    → add_exif_to_jpeg jpeg (create_exif_orientation orientation) ≡ ok out
    → add_exif_to_jpeg out segment ≡ err value_error
unfolding add_exif_to_jpeg create_exif_orientation
add_exif_to_jpeg_once jpeg orientation segment {out} h = ground (
  arith,
  contains-append (take 2 jpeg) (drop 2 (create_exif_orientation orientation) ++ drop 2 jpeg),
)

-- For a picture without EXIF data that begins with two bytes, the result is the picture with the
-- segment behind these bytes: the length field counts the segment without its marker, and the
-- orientation stands at byte 30.
pub add_exif_to_jpeg_places :
    (a b : ℕ) (rest : Bytes) (orientation : ℕ)
    → contains (a ∷ b ∷ rest) app1 ≡ false
    → (out : Bytes) × (add_exif_to_jpeg (a ∷ b ∷ rest) (create_exif_orientation orientation)
        ≡ ok out)
      × (take 2 out ≡ a ∷ b ∷ [])
      × (read_u16 (view out 2) ≡ ok 0xFFE1)
      × (read_u16 (view out 4) ≡ ok 34)
      × (drop (4 + 34) out ≡ rest)
      × (read_u8 (view out 30) ≡ ok (orientation % 2 ^ 8))
unfolding add_exif_to_jpeg create_exif_orientation read_u16 read_u8
add_exif_to_jpeg_places a b rest orientation h =
    (a ∷ b ∷ (create_exif_orientation orientation ++ rest), rw h, refl, refl, refl, refl, refl)
