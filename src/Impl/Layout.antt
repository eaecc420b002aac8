-- ===== src/Impl/Layout.antt =====
-- What stands where in the packets that the program builds.
use cam_reverse_py.Base.{
  ℕ, ◌+◌, ◌-◌, ◌/◌, ◌%◌, ◌^◌, ◌<◌, ◌≡◌, refl, ap, ◌∙◌, suc, drop, drop_all, length-replicate,
  append-nil, [], ◌∷◌, ◌++◌, none, some, arith, length, replicate, ok,
}
use cam_reverse_py.DataView.{Bytes, view, read_u8, read_u16, read_u16le}
use cam_reverse_py.Utils.{u16_swap, u16_swap_lem}
use cam_reverse_py.Datatypes.{cc_dest}
use cam_reverse_py.Impl.{build_packet}

-- The sixteen bytes before the token.
abbrev pub header : ℕ → ℕ → ℕ → Bytes
header command_id command size =
    0xF1
    ∷ 0xD0
    ∷ ((20 + size - 4) % 2 ^ 16 / 256 % 256)
    ∷ ((20 + size - 4) % 2 ^ 16 % 256)
    ∷ 0xD1
    ∷ 0
    ∷ (command_id % 2 ^ 16 / 256 % 256)
    ∷ (command_id % 2 ^ 16 % 256)
    ∷ 0x11
    ∷ 0x0A
    ∷ (command % 2 ^ 16 / 256 % 256)
    ∷ (command % 2 ^ 16 % 256)
    ∷ (u16_swap (4 + size) % 2 ^ 16 / 256 % 256)
    ∷ (u16_swap (4 + size) % 2 ^ 16 % 256)
    ∷ (cc_dest command % 2 ^ 16 / 256 % 256)
    ∷ (cc_dest command % 2 ^ 16 % 256)
    ∷ []

build_packet-none :
    (command_id command a b c d : ℕ)
    → build_packet command_id (a ∷ b ∷ c ∷ d ∷ []) command none
      ≡ ok (header command_id command 0 ++ (a ∷ b ∷ c ∷ d ∷ []))
unfolding build_packet
build_packet-none command_id command a b c d = refl

-- Twenty cells, and the rest.
abbrev pub twenty : ℕ → ℕ
twenty n = suc (
    suc (
      suc (
        suc (
          suc (
            suc (
              suc (
                suc (suc (suc (suc (suc (suc (suc (suc (suc (suc (suc (suc (suc n)))))))))))))))))))

build_packet_cells :
    (command_id command a b c d : ℕ) (buf : Bytes) (n : ℕ)
    → 20 + length buf ≡ n
    → n ≡ twenty (length buf)
    → build_packet command_id (a ∷ b ∷ c ∷ d ∷ []) command (some buf)
      ≡ ok (
          header command_id command (length buf)
          ++ ((a ∷ b ∷ c ∷ d ∷ []) ++ (buf ++ drop (length buf) (replicate (length buf) 0))))
unfolding build_packet
build_packet_cells command_id command a b c d buf n e e' = rw (e, e')

-- The packet of a command with a payload: header, token and payload.
pub build_packet_lem :
    (command_id command a b c d : ℕ) (buf : Bytes)
    → build_packet command_id (a ∷ b ∷ c ∷ d ∷ []) command (some buf)
      ≡ ok (header command_id command (length buf) ++ ((a ∷ b ∷ c ∷ d ∷ []) ++ buf))
build_packet_lem command_id command a b c d buf =
    build_packet_cells command_id command a b c d buf (20 + length buf) refl (omega arith)
    ∙ ap (λ l. ok (header command_id command (length buf) ++ ((a ∷ b ∷ c ∷ d ∷ []) ++ l)))
        (ap (λ l. buf ++ l)
            (drop_all (length buf) (replicate (length buf) 0)
              (omega (arith, length-replicate (length buf) (let z : ℕ = 0 in z))))
          ∙ append-nil buf)

-- Whether the fields of a packet read as they were meant.
abbrev pub HasHeader : ℕ → ℕ → ℕ → Bytes → Type 0
HasHeader command_id command size packet =
    (read_u16 (view packet 0) ≡ ok 0xF1D0)
    × (read_u16 (view packet 2) ≡ ok (16 + size))
    × (read_u8 (view packet 4) ≡ ok 0xD1)
    × (read_u8 (view packet 5) ≡ ok 0)
    × (read_u16 (view packet 6) ≡ ok (command_id % 2 ^ 16))
    × (read_u16 (view packet 8) ≡ ok 0x110A)
    × (read_u16 (view packet 10) ≡ ok (command % 2 ^ 16))
    × (read_u16le (view packet 12) ≡ ok (4 + size))
    × (read_u16 (view packet 14) ≡ ok (cc_dest command))

cc_dest-lt : (command : ℕ) → cc_dest command < 2 ^ 16
unfolding cc_dest
cc_dest-lt command = ground arith

pub header-HasHeader :
    (command_id command size : ℕ) (rest : Bytes)
    → size + 16 < 2 ^ 16
    → HasHeader command_id command size (header command_id command size ++ rest)
unfolding read_u8 read_u16 read_u16le
header-HasHeader command_id command size rest h =
    let swap = u16_swap_lem (4 + size) (omega arith) in
    let dest = cc_dest-lt command in
    (
      refl,
      ap ok (omega arith),
      refl,
      refl,
      ap ok (omega arith),
      refl,
      ap ok (omega arith),
      ap ok (omega (arith, swap)),
      ap ok (omega (arith, dest)),
    )
