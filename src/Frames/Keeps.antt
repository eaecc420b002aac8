-- ===== src/Frames/Keeps.antt =====
-- The frame assembly leaves the waiting packets and the connection alone.
use cam_reverse_py.Base.{ℕ, ◌+◌, Bool, not, ◌&&◌, List, Option, none, some, ltb, leb, ◌==◌}
use cam_reverse_py.DataView.{Bytes, Dv, add, read_u8, read_u16, read_u16le, read_byte_array}
use cam_reverse_py.State.{State, lift, modify, pure}
use cam_reverse_py.State.Keeps.{Keeps, Anything, Keeps-lift, Keeps-pure, Keeps-bind, Keeps-if}
use cam_reverse_py.Settings.{codes, camera_option}
use cam_reverse_py.Link.{Event, frame, audio, Callbacks, emit}
use cam_reverse_py.Link.Queued.{IsQueued}
use cam_reverse_py.Frames.{
  is_truthy, is_empty, appended, new_frame, marked_bad, mended, mend, fix_packet_loss, after_gap,
  continue_frame, start_new_frame, framed_data, plain_data, long_data, deal_with_data,
}

module _ {App : Type 0} (Holds : Bool → App → Type 0) where
  abbrev P : State App → Type 0
  P = IsQueued Holds

  mend-branch :
      (pkt_id : ℕ) (o : Option (List Bytes × Bytes))
      → Keeps P (elim o [
        | none ↦ pure tt
        | some (image', b') ↦ modify (λ s. appended pkt_id b' (mended image' s))
      ])
  mend-branch pkt_id none s q = (q, tt)
  mend-branch pkt_id (some (image', b')) s q = (q, tt)

  after_gap-Keeps : (pkt_id : ℕ) (b : Bytes) → Keeps P (after_gap pkt_id b)
  unfolding after_gap fix_packet_loss
  after_gap-Keeps pkt_id b s q =
      Keeps-bind P (Anything P)
        (lift (camera_option s.config s.session.dev_name (codes "fix_packet_loss"))) _
        (Keeps-lift P _)
        (λ wanted t r.
          Keeps-if P (Anything P) (not (is_truthy wanted)) _ _ (Keeps-pure P tt)
            (mend-branch pkt_id (mend t.session.cur_image b)) t r)
        (record s { session = marked_bad s.session }) q

  continue-Keeps : (pkt_id : ℕ) (b : Bytes) → Keeps P (continue_frame pkt_id b)
  unfolding continue_frame
  continue-Keeps pkt_id b s =
      Keeps-if P (Anything P) (leb pkt_id s.session.rcv_seq_id) _ _ (Keeps-pure P tt)
        (Keeps-if P (Anything P) (ltb (s.session.rcv_seq_id + 1) pkt_id) _ _
          (after_gap-Keeps pkt_id b) (λ t q. (q, tt)))
        s

  module _ (callbacks : Callbacks App)
      (listens : (e : Event) → Keeps P (callbacks.listener e)) where
    start-Keeps : (pkt_id : ℕ) (buf : Bytes) → Keeps P (start_new_frame callbacks pkt_id buf)
    unfolding start_new_frame emit
    start-Keeps pkt_id buf s =
        Keeps-bind P (Anything P) _ (λ _. modify (new_frame pkt_id buf))
          (Keeps-if P (Anything P)
            (not (is_empty s.session.cur_image) && not s.session.frame_is_bad) _ _ (listens frame)
            (Keeps-pure P tt))
          (λ _ t q. (q, tt)) s

    framed-Keeps :
        (dv : Dv) (pkt_len pkt_id : ℕ) → Keeps P (framed_data callbacks dv pkt_len pkt_id)
    unfolding framed_data emit
    framed-Keeps dv pkt_len pkt_id =
        Keeps-bind P (Anything P) (lift (read_u8 (add dv 12))) _ (Keeps-lift P _) (λ stream_type.
          Keeps-if P (Anything P) (stream_type == 6) _ _
            (Keeps-bind P (Anything P) (lift (read_u16le (add dv (8 + 16)))) _ (Keeps-lift P _)
              (λ audio_len. listens (audio (read_byte_array (add dv (32 + 8)) audio_len))))
            (Keeps-if P (Anything P) (stream_type == 3) _ _
              (Keeps-if P (Anything P) (ltb (4 + 32) pkt_len) _ _ (start-Keeps pkt_id _)
                (Keeps-pure P tt))
              (Keeps-pure P tt)))

    plain-Keeps : (dv : Dv) (pkt_len pkt_id : ℕ) → Keeps P (plain_data callbacks dv pkt_len pkt_id)
    unfolding plain_data
    plain-Keeps dv pkt_len pkt_id =
        Keeps-if P (Anything P) _ _ _ (start-Keeps pkt_id _) (continue-Keeps pkt_id _)

    long-Keeps : (dv : Dv) (pkt_len : ℕ) → Keeps P (long_data callbacks dv pkt_len)
    unfolding long_data
    long-Keeps dv pkt_len =
        Keeps-bind P (Anything P) (lift (read_u16 (add dv 6))) _ (Keeps-lift P _) (λ pkt_id.
          Keeps-if P (Anything P) _ _ _ (framed-Keeps dv pkt_len pkt_id)
            (plain-Keeps dv pkt_len pkt_id))

    pub deal-Keeps : (dv : Dv) → Keeps P (deal_with_data callbacks dv)
    unfolding deal_with_data
    deal-Keeps dv =
        Keeps-bind P (Anything P) (lift (read_u16 (add dv 2))) _ (Keeps-lift P _) (λ pkt_len.
          Keeps-if P (Anything P) (ltb pkt_len 12) _ _ (Keeps-pure P tt) (long-Keeps dv pkt_len))
