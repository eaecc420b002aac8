-- ===== src/Session/Streaming.antt =====
-- What a datagram of the data stream does, from `_handle_incoming` (cam_reverse/session.py) on.
use cam_reverse_py.Base.{length, ℕ, ◌+◌, ◌*◌, ◌/◌, ◌%◌, ◌^◌, ◌<◌, ◌≡◌, ap, ◌∙◌, false, ok}
use cam_reverse_py.DataView.{Bytes, view}
use cam_reverse_py.State.{State, open_transport, continue_with, pure, modify}
use cam_reverse_py.Link.{audio, Callbacks, frame, send, send_to}
use cam_reverse_py.Link.Sending.{with_wire}
use cam_reverse_py.Parsers.{make_drw_ack}
use cam_reverse_py.Frames.{is_empty, appended, new_frame, deal_with_data}
use cam_reverse_py.Frames.Assembly.{data_packet, IsSlice, IsStart, deal_with_slice, deal_with_start}
use cam_reverse_py.Frames.Delivery.{continue_next, start_after_good}
use cam_reverse_py.Handlers.{handle_drw, send_drw_ack}
use cam_reverse_py.Frames.Sound.{Padding, sound_body, deal_with_sound}
use cam_reverse_py.Handlers.Acks.{ack_packet}
use cam_reverse_py.Session.{handle_incoming, account, touch}

-- The acknowledgement of a packet of the data stream.
abbrev pub ack_of : ℕ → Bytes
ack_of id = ack_packet 1 (id % 256 + 256 * (id / 256 + 256 * 0))

module _ {App : Type 0} (callbacks : Callbacks App) (id : ℕ) (body : Bytes) where
  -- The packet is acknowledged, then dealt with.
  pub handle_incoming-data :
      (s : State App)
      → s.session.transport ≡ open_transport
      → handle_incoming callbacks (data_packet id body) s
        ≡ account callbacks (
            continue_with
              (deal_with_data callbacks (view (data_packet id body) 0) (with_wire (ack_of id) s))
              (λ _. pure 0xF1D0))
  unfolding handle_incoming handle_drw send_drw_ack make_drw_ack send
  handle_incoming-data s up =
      ap
        (λ t. account callbacks (
          continue_with
            (continue_with (send_to t (ack_of id) s)
              (λ _. deal_with_data callbacks (view (data_packet id body) 0)))
            (λ _. pure 0xF1D0)))
        up

  -- The slice that comes next is acknowledged and appended.
  pub handle_incoming-slice :
      (fit : id < 2 ^ 16) (s : State App)
      → s.session.transport ≡ open_transport
      → IsSlice body
      → s.session.rcv_seq_id + 1 ≡ id
      → handle_incoming callbacks (data_packet id body) s
        ≡ touch callbacks
            (with_wire (ack_of id) (record s { session = appended id body s.session }))
  handle_incoming-slice fit s up slice next =
      let s' = with_wire (ack_of id) s in
      handle_incoming-data s up
      ∙ ap (λ p. account callbacks (continue_with p (λ _. pure 0xF1D0)))
          (deal_with_slice callbacks id body fit slice.0 s' slice ∙ continue_next id body s' next)

  -- The start of the next frame is acknowledged and hands the frame at hand to the listener.
  pub handle_incoming-start :
      (fit : id < 2 ^ 16) (s t : State App)
      → s.session.transport ≡ open_transport
      → IsStart body
      → is_empty s.session.cur_image ≡ false
      → s.session.frame_is_bad ≡ false
      → callbacks.listener frame (with_wire (ack_of id) s) ≡ (ok tt, t)
      → handle_incoming callbacks (data_packet id body) s
        ≡ touch callbacks (record t { session = new_frame id body t.session })
  handle_incoming-start fit s t up start full good heard =
      let s' = with_wire (ack_of id) s in
      handle_incoming-data s up
      ∙ ap (λ p. account callbacks (continue_with p (λ _. pure 0xF1D0)))
          (deal_with_start callbacks id body fit start.0 s' start
            ∙ start_after_good callbacks id body s' full good
            ∙ ap (λ p. continue_with p (λ _. modify (new_frame id body))) heard)

-- Sound is acknowledged and handed to the listener.
pub handle_incoming_sound :
    {App : Type 0} (callbacks : Callbacks App) (id : ℕ) (h : Padding) (payload : Bytes)
    (s t : State App)
    → length payload + 36 < 2 ^ 16
    → s.session.transport ≡ open_transport
    → callbacks.listener (audio payload) (with_wire (ack_of id) s) ≡ (ok tt, t)
    → handle_incoming callbacks (data_packet id (sound_body h payload)) s ≡ touch callbacks t
handle_incoming_sound callbacks id h payload s t room up heard =
    handle_incoming-data callbacks id (sound_body h payload) s up
    ∙ ap (λ p. account callbacks (continue_with p (λ _. pure 0xF1D0)))
        (deal_with_sound callbacks id h payload (with_wire (ack_of id) s) room ∙ heard)
