-- ===== src/Session.antt =====
-- The entry points of a session (cam_reverse/session.py): a datagram came in, the socket opened, a
-- timer fired. The two timers are modelled by one round of their loops, after the sleep; the loops
-- and the scheduling of these calls are asyncio's.
pub mod Expiry
pub mod Silence
pub mod Streaming
pub mod Reopening
pub mod Login
pub mod Incoming
pub mod Steps
pub mod Retransmission
pub mod Timers
use cam_reverse_py.Base.{
  ℕ, zero, suc, ◌+◌, Bool, true, false, not, ◌&&◌, List, [], ◌∷◌, Text, ltb, ◌==◌, if◌then◌else◌,
  Result, ok, err,
}
use cam_reverse_py.DataView.{Bytes, Dv, view, add, read_u16, write_u16}
use cam_reverse_py.Datatypes
use cam_reverse_py.Datatypes.{command_value, commands_by_value}
use cam_reverse_py.State.{
  Session, State, Action, Done, Unacked, open_transport, pop_pending, pure, lift, gets, modify,
  now_ms, for_each, ◌>>=◌, ◌>>◌,
}
use cam_reverse_py.Link.{disconnect, Callbacks, send, emit}
use cam_reverse_py.Impl.{create_empty}
use cam_reverse_py.Impl.Requests.{
  send_video_resolution, send_start_video, send_wifi_details, send_command,
}
use cam_reverse_py.Parsers.{make_p2p_rdy}
use cam_reverse_py.Handlers.{handler}

module _ {App : Type 0} where
  -- `_SessionProtocol.connection_made`.
  unfoldable pub connection_made : Action App Done
  connection_made = do
    modify (λ s. record s { transport = open_transport })
    dev ← gets (λ s. s.dev)
    pkt ← lift (make_p2p_rdy dev)
    send pkt
    modify (λ s. record s { started = true; timers = true })

  -- `configure_wifi` and `start_video_stream`.
  unfoldable pub configure_wifi : Text → Text → ℕ → Action App Done
  configure_wifi ssid password channel = do
    pkt ← send_wifi_details ssid password channel true
    send pkt

  unfoldable pub start_video_stream : Action App Done
  unfolding send_command
  start_video_stream = do
    pkts ← send_video_resolution 2
    for_each pkts send
    start ← send_start_video
    send start

  -- One entry of the snapshot that `_resend_timer` walks.
  unfoldable pub resend_one : ℕ → ℕ × Unacked → Action App Done
  unfolding write_u16 read_u16
  resend_one now (key, value) =
      if ltb (value.sent_ts + 100) now
      then (do
        pkt_id ← lift (read_u16 (view value.packet 6))
        command_id ← gets (λ s. s.outgoing_command_id)
        packet ← lift (write_u16 (view value.packet 6) command_id)
        modify (λ s. record s {
          outgoing_command_id = s.outgoing_command_id + 1;
          unacked_drw = pop_pending key s.unacked_drw;
        })
        send packet)
      else pure tt

  -- One round of `_resend_timer`.
  unfoldable pub resend_tick : Action App Done
  unfolding resend_one
  resend_tick = do
    now ← now_ms
    entries ← gets (λ s. s.unacked_drw)
    for_each entries (resend_one now)

module _ {App : Type 0} (callbacks : Callbacks App) where
  -- What `_handle_incoming` tries: it ends with the packet's command.
  unfoldable pub try_packet : Bytes → Action App ℕ
  unfolding read_u16 commands_by_value handler
  try_packet msg = do
    raw ← lift (read_u16 (view msg 0))
    handler callbacks (commands_by_value raw) (view msg 0)
    pure raw

  abbrev pub is_alive : ℕ → Bool
  is_alive raw =
      if raw == command_value Datatypes.p2p_alive
      then true
      else raw == command_value Datatypes.p2p_alive_ack

  abbrev pub touch : State App → State App
  touch s =
      let (r, s') = (now_ms >>= λ now. modify (λ t. record t { last_received_packet = now })) s in
      s'

  -- The end of `_handle_incoming`: every packet but the two keep-alives is a sign of life.
  abbrev pub account : Result ℕ × State App → State App
  account (err e, s) = s
  account (ok raw, s) = if is_alive raw then s else touch s

  -- `_handle_incoming`: an exception drops the packet, and what was done before it stays done.
  unfoldable pub handle_incoming : Bytes → State App → State App
  unfolding try_packet
  handle_incoming msg s = account (try_packet msg s)

  -- One round of `_sess_timer`: whether the loop ends here.
  unfoldable pub sess_tick_started : Action App Bool
  unfolding emit
  sess_tick_started = do
    now ← now_ms
    last ← gets (λ s. s.last_received_packet)
    (if ltb (last + 600) now
        then (lift (create_empty Datatypes.p2p_alive) >>= λ pkt. send pkt)
        else pure tt)
    timeout_ms ← gets (λ s. s.timeout_ms)
    (if ltb (last + timeout_ms) now then (emit callbacks disconnect >> pure true) else pure false)

  unfoldable pub sess_tick : Action App Bool
  unfolding sess_tick_started create_empty
  sess_tick = do
    started ← gets (λ s. s.started)
    (if started then sess_tick_started else pure false)

  -- `_sess_timer`, for so many rounds at most: whether the loop has ended.
  unfoldable pub sess_timer : ℕ → Action App Bool
  unfolding sess_tick
  sess_timer zero = pure false
  sess_timer (suc n) = sess_tick >>= λ ended. if ended then pure true else sess_timer n
