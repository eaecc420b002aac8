-- ===== src/Handlers/Acks.antt =====
-- Acknowledgements: the one that is sent for a packet names that packet.
use cam_reverse_py.Base.{
  ℕ, ◌+◌, ◌*◌, ◌/◌, ◌%◌, ◌^◌, ◌<◌, ◌≡◌, refl, ap, ◌∷◌, arith, length, replicate, ok,
}
use cam_reverse_py.DataView.{Bytes, view, read_u8}
use cam_reverse_py.State.{State, Session, pop_pending}
use cam_reverse_py.Parsers.{make_drw_ack}
use cam_reverse_py.Handlers.{handle_drw_ack}

-- The session once the packet `id` is acknowledged.
abbrev pub without_id : ℕ → Session → Session
without_id id s = record s { unacked_drw = pop_pending id s.unacked_drw }

-- The acknowledgement of the packet `id` of a stream.
abbrev pub ack_packet : ℕ → ℕ → Bytes
ack_packet stream id =
    0xF1
    ∷ 0xD1
    ∷ 0
    ∷ 6
    ∷ 0xD2
    ∷ (stream % 2 ^ 8)
    ∷ 0
    ∷ 1
    ∷ (id % 2 ^ 16 / 256 % 256)
    ∷ (id % 2 ^ 16 % 256)
    ∷ replicate 22 0

-- `_make_drw_ack` of a packet whose bytes 6 and 7 are its id makes a packet of 32 bytes, and a
-- session that gets it by `handle_drw_ack` drops exactly that id from its pending packets and changes
-- nothing else.
pub handle_drw_ack-make_drw_ack :
    {App : Type 0} (s : State App) (a b c d e stream high low : ℕ) (rest : Bytes)
    → high < 256
    → low < 256
    → (ack : Bytes) × (make_drw_ack (view (a ∷ b ∷ c ∷ d ∷ e ∷ stream ∷ high ∷ low ∷ rest) 0)
        ≡ ok ack)
      × (length ack ≡ 32)
      × (read_u8 (view ack 5) ≡ ok (stream % 2 ^ 8))
      × (handle_drw_ack (view ack 0) s
          ≡ (ok tt, record s { session = without_id (high * 256 + low) s.session }))
unfolding make_drw_ack handle_drw_ack read_u8
handle_drw_ack-make_drw_ack s a b c d e stream high low rest h h' = (
  ack_packet stream (low + 256 * (high + 256 * 0)),
  refl,
  refl,
  refl,
  ap {A = ℕ} (λ id. (ok tt, record s { session = without_id id s.session })) (omega arith),
)
