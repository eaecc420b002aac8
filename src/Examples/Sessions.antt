-- ===== src/Examples/Sessions.antt =====
-- The theorems on frames, timers and incoming packets, applied at inputs where their hypotheses hold.
use cam_reverse_py.Base.{ℕ, suc, ◌≡◌, refl, true, List, [], ◌∷◌, ◌++◌, none, arith, ok}
use cam_reverse_py.DataView.{Bytes}
use cam_reverse_py.Settings.{codes, camera_option}
use cam_reverse_py.State.{State, closed_transport, for_each, modify, pure, ◌>>◌}
use cam_reverse_py.Datatypes
use cam_reverse_py.Datatypes.{control_value}
use cam_reverse_py.Control.Decode.{control_packet}
use cam_reverse_py.Crypto.Cipher.{enc_region}
use cam_reverse_py.Link.Sending.{with_wire}
use cam_reverse_py.Session.Login.{
  commanded, start_packet, video_packet, with_ticket, control_ack,
  handle_incoming-start_video_stream,
}
use cam_reverse_py.Link.{Callbacks, frame, disconnect}
use cam_reverse_py.Frames.{new_frame}
use cam_reverse_py.Frames.Assembly.{data_packet}
use cam_reverse_py.Frames.Delivery.{
  numbered, labelled, receive, frame_delivered, gap_drops_frame, wrapped_slices_lost,
}
use cam_reverse_py.Session.{start_video_stream, touch, handle_incoming, resend_tick, sess_tick}
use cam_reverse_py.Session.Expiry.{gone_from, sess_tick_expired}
use cam_reverse_py.Session.Incoming.{handle_incoming-close_short}
use cam_reverse_py.Session.Timers.{
  Sent, pending, datagrams, renumbered, advanced, resent, resend_tick_lem,
}
use cam_reverse_py.Examples.Camera.{counting, connected_state}

abbrev start_body : Bytes
start_body = 0xFF ∷ 0xD8 ∷ 0xFF ∷ 0xDB ∷ 1 ∷ 2 ∷ 3 ∷ 4 ∷ []

abbrev slice_body : Bytes
slice_body = 10 ∷ 20 ∷ 30 ∷ 40 ∷ 50 ∷ 60 ∷ 70 ∷ 80 ∷ []

-- A session with the first slice of a frame, after the packet `id`.
abbrev amid : ℕ → State ℕ
amid id = record connected_state {
  session = record connected_state.session { rcv_seq_id = id; cur_image = start_body ∷ [] };
}

frame_delivered_example :
    for_each
      (numbered 8 (slice_body ∷ slice_body ∷ []) ++ data_packet 10 start_body ∷ [])
      (receive counting)
      (amid 7)
    ≡ (counting.listener frame >> modify (new_frame 10 start_body)) (record connected_state {
      session = record connected_state.session {
        rcv_seq_id = 9;
        cur_image = start_body ∷ slice_body ∷ slice_body ∷ [];
      };
    })
frame_delivered_example =
    frame_delivered counting (amid 7) start_body start_body (slice_body ∷ slice_body ∷ []) 10 refl
      refl
      (((omega arith, omega arith), refl, refl), (((omega arith, omega arith), refl, refl), tt))
      ((omega arith, omega arith), refl, refl) (omega arith) (omega arith)

option_off :
    camera_option connected_state.config connected_state.session.dev_name (codes "fix_packet_loss")
    ≡ ok none
unfolding camera_option
option_off = refl

gap_drops_frame_example :
    (receive counting (data_packet 9 slice_body) (amid 7) ≡ (
      ok tt,
      record connected_state { session = record (amid 7).session { frame_is_bad = true } },
    ))
    × (for_each
          (data_packet 9 slice_body ∷ data_packet 10 start_body ∷ [])
          (receive counting)
          (amid 7)
        ≡ (
          ok tt,
          record connected_state { session = new_frame 10 start_body connected_state.session },
        ))
gap_drops_frame_example =
    gap_drops_frame counting (amid 7) slice_body start_body 9 10 (omega arith) option_off refl
      ((omega arith, omega arith), refl, refl) ((omega arith, omega arith), refl, refl)
      (omega arith) (omega arith)

wrapped_slices_lost_example :
    for_each
      (labelled ((0, slice_body) ∷ (1, slice_body) ∷ []) ++ data_packet 2 start_body ∷ [])
      (receive counting)
      (amid 65535)
    ≡ (counting.listener frame >> modify (new_frame 2 start_body)) (amid 65535)
wrapped_slices_lost_example =
    wrapped_slices_lost counting (amid 65535) start_body ((0, slice_body) ∷ (1, slice_body) ∷ []) 2
      refl refl refl
      (
        omega arith,
        ((omega arith, omega arith), refl, refl),
        (omega arith, ((omega arith, omega arith), refl, refl), tt),
      )
      ((omega arith, omega arith), refl, refl) (omega arith)

-- Two commands that wait for an acknowledgement.
abbrev waiting : List Sent
waiting =
    record { id = 3; sent_ts = 49000; l = 0; l' = 12; channel = 0; rest = 1 ∷ 2 ∷ [] }
    ∷ record { id = 4; sent_ts = 49500; l = 0; l' = 12; channel = 0; rest = 3 ∷ 4 ∷ [] }
    ∷ []

resend_tick_lem_example :
    resend_tick (resent connected_state 5 (pending waiting) [] connected_state.clock) ≡ (
      ok tt,
      resent connected_state 7
          (pending (renumbered 5 (λ k. connected_state.clock (suc k)) waiting))
          (datagrams (renumbered 5 (λ k. connected_state.clock (suc k)) waiting))
          (advanced 3 connected_state.clock),
    )
resend_tick_lem_example =
    resend_tick_lem connected_state refl waiting 5 [] connected_state.clock
      (omega arith, (omega arith, tt)) (omega arith, (omega arith, tt)) (omega arith)

sess_tick_expired_example :
    sess_tick counting connected_state
    ≡ (counting.listener disconnect >> pure true) (record connected_state {
      session = gone_from connected_state.session closed_transport;
      wire = (0xF1 ∷ 0xE0 ∷ 0 ∷ 0 ∷ []) ∷ [];
      clock = λ k. connected_state.clock (suc k);
    })
sess_tick_expired_example =
    sess_tick_expired counting connected_state refl refl refl (omega arith) (omega arith)

handle_incoming-close_short_example :
    handle_incoming counting (0xF1 ∷ 0xF0 ∷ 0 ∷ 0 ∷ []) connected_state ≡ connected_state
handle_incoming-close_short_example =
    handle_incoming-close_short counting (0 ∷ 0 ∷ []) connected_state (omega arith)

-- A server's session hears that it is logged in.
abbrev viewer : Callbacks ℕ
viewer = record { on_login = start_video_stream; listener = λ e s. (ok tt, s) }

abbrev logged_in : Bytes
logged_in = 0 ∷ 0 ∷ 0 ∷ 0 ∷ 1 ∷ 2 ∷ 3 ∷ 4 ∷ []

handle_incoming-start_video_stream_example :
    handle_incoming viewer
      (control_packet 5
        (control_value Datatypes.connect_user_ack)
        8
        (0 ∷ 0 ∷ 0 ∷ 0 ∷ [])
        (enc_region 4 logged_in))
      connected_state
    ≡ touch viewer (
        commanded (start_packet 1 (1 ∷ 2 ∷ 3 ∷ 4 ∷ [])) (
          commanded
            (video_packet 0 (1 ∷ 2 ∷ 3 ∷ 4 ∷ []))
            (with_ticket (1 ∷ 2 ∷ 3 ∷ 4 ∷ []) (with_wire (control_ack 5) connected_state))))
handle_incoming-start_video_stream_example =
    handle_incoming-start_video_stream viewer connected_state 5 0 0 0 0 0 0 0 0 1 2 3 4 [] refl
      (λ u. refl) refl (omega arith) (omega arith)
      (
        omega arith,
        (
          omega arith,
          (
            omega arith,
            (omega arith, (omega arith, (omega arith, (omega arith, (omega arith, tt))))),
          ),
        ),
      )
