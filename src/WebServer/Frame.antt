-- ===== src/WebServer/Frame.antt =====
-- The picture that a client gets, and what a client gets for it: `_assemble_frame` and the chunks of
-- cam_reverse/http_server.py.
use cam_reverse_py.Base.{
  ℕ, suc, ◌+◌, ◌-◌, ◌*◌, ◌/◌, ◌%◌, Bool, true, false, List, [], ◌∷◌, ◌++◌, Text, Option, none, some,
  get_elem?, length, if◌then◌else◌, leb, ltb, Result, ok, err, index_error, type_error, or_raise,
  ◌>>=◌,
}
use cam_reverse_py.Base.Int.{ℤ, pos, negsuc}
use cam_reverse_py.DataView.{Bytes}
use cam_reverse_py.Settings.{Value, bool, int, Fields, codes, or_default, truthy, camera_option}
use cam_reverse_py.Exif.{create_exif_orientation, add_exif_to_jpeg}
use cam_reverse_py.Impl.{decimal}
use cam_reverse_py.State.{Session}

-- `oMap` and `oMapMirror`.
abbrev pub o_map : List ℕ
o_map = 1 ∷ 8 ∷ 3 ∷ 6 ∷ []

abbrev pub o_map_mirror : List ℕ
o_map_mirror = 2 ∷ 7 ∷ 4 ∷ 5 ∷ []

-- `xs[value]` on a list: an integer below 0 counts from the end, and a truth value is 0 or 1.
abbrev pub at_int : List ℕ → ℤ → Result ℕ
at_int xs (pos n) = or_raise (get_elem? xs n) index_error
at_int xs (negsuc n) =
    if leb (suc n) (length xs)
    then or_raise (get_elem? xs (length xs - suc n)) index_error
    else err index_error

abbrev pub at_value : List ℕ → Value → Result ℕ
at_value xs (int z) = at_int xs z
at_value xs (bool true) = at_int xs (pos 1)
at_value xs (bool false) = at_int xs (pos 0)
at_value xs _ = err type_error

abbrev pub is_set : Option Value → Bool
is_set none = false
is_set (some v) = truthy v

-- The number of the EXIF orientation of a camera.
unfoldable pub orientation_of : Fields → Text → Result ℕ
unfolding camera_option
orientation_of config dev_id = do
  rotate ← camera_option config dev_id (codes "rotate")
  mirror ← camera_option config dev_id (codes "mirror")
  at_value (if is_set mirror then o_map_mirror else o_map) (or_default rotate (int (pos 0)))

abbrev pub join : List Bytes → Bytes
join [] = []
join (x ∷ xs) = x ++ join xs

-- The slices of the frame with the segment in the first one.
abbrev pub with_segment : Bytes → List Bytes → Result Bytes
unfolding add_exif_to_jpeg
with_segment segment [] = err index_error
with_segment segment (first ∷ rest) = do
  jpeg_header ← add_exif_to_jpeg first segment
  ok (jpeg_header ++ join rest)

-- `_assemble_frame`; `orientations` holds the segments of 1 to 8.
unfoldable pub assemble_frame : Fields → Text → Session → Result Bytes
unfolding orientation_of with_segment
assemble_frame config dev_id s = do
  orientation ← orientation_of config dev_id
  with_segment (create_exif_orientation orientation) s.cur_image

abbrev pub new_line : Text
new_line = 13 ∷ 10 ∷ []

abbrev pub boundary : Text
boundary = codes "a very good boundary line"

-- The chunk of the multipart stream.
unfoldable pub frame_chunk : Bytes → Bytes
unfolding decimal
frame_chunk assembled =
    new_line
    ++ (codes "--"
        ++ (boundary
            ++ (new_line
                ++ (codes "Content-Length: "
                    ++ (decimal (length assembled)
                        ++ (new_line
                            ++ (codes "Content-Type: image/jpeg"
                                ++ (new_line ++ (new_line ++ assembled)))))))))

-- `base64.b64encode`: three bytes make four digits, and a rest is padded.
abbrev pub base64_digit : ℕ → ℕ
base64_digit d =
    if ltb d 26
    then d + 65
    else if ltb d 52
    then d + 71
    else if ltb d 62
    then d - 52 + 48
    else if ltb d 63
    then 43
    else 47

unfoldable pub b64encode : Bytes → Text
b64encode [] = []
b64encode (a ∷ []) = base64_digit (a / 4) ∷ base64_digit (a % 4 * 16) ∷ 61 ∷ 61 ∷ []
b64encode (a ∷ b ∷ []) =
    base64_digit (a / 4) ∷ base64_digit (a % 4 * 16 + b / 16) ∷ base64_digit (b % 16 * 4) ∷ 61 ∷ []
b64encode (a ∷ b ∷ c ∷ rest) =
    base64_digit (a / 4)
    ∷ base64_digit (a % 4 * 16 + b / 16)
    ∷ base64_digit (b % 16 * 4 + c / 64)
    ∷ base64_digit (c % 64)
    ∷ b64encode rest

-- The chunk of the event stream.
unfoldable pub audio_chunk : Bytes → Bytes
unfolding b64encode
audio_chunk payload = codes "data: " ++ (b64encode payload ++ (10 ∷ 10 ∷ []))
