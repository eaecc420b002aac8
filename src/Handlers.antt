-- ===== src/Handlers.antt =====
-- The handlers of cam_reverse/handlers.py, and the table `Handlers` of cam_reverse/session.py.
pub mod Acks
pub mod Keeps
use cam_reverse_py.Base.{
  ℕ, zero, suc, ◌+◌, ◌*◌, List, [], ◌∷◌, Option, none, some, ◌==◌, if◌then◌else◌, Result, ok, err,
}
use cam_reverse_py.DataView.{Bytes, Dv, add, read_u8, read_u16}
use cam_reverse_py.Datatypes
use cam_reverse_py.Datatypes.{Command}
use cam_reverse_py.Settings.{codes}
use cam_reverse_py.State.{Action, Done, pure, lift, for_each, ◌>>=◌, ◌>>◌}
use cam_reverse_py.Link.{Callbacks, send, ack_drw, close}
use cam_reverse_py.Impl.Requests.{send_usr_chk}
use cam_reverse_py.Parsers.{create_p2p_alive_ack, make_drw_ack}
use cam_reverse_py.Frames.{deal_with_data}
use cam_reverse_py.Control.{create_response_for_control_command}

module _ {App : Type 0} where
  -- `not_impl` reads the command for the log, and `noop` does nothing.
  unfoldable pub not_impl : Dv → Action App Done
  unfolding read_u16
  not_impl dv = do raw ← lift (read_u16 dv); pure tt

  abbrev pub noop : Dv → Action App Done
  noop dv = pure tt

  unfoldable pub handle_p2p_alive : Dv → Action App Done
  unfolding create_p2p_alive_ack
  handle_p2p_alive dv = do pkt ← lift create_p2p_alive_ack; send pkt

  unfoldable pub handle_p2p_rdy : Dv → Action App Done
  handle_p2p_rdy dv = do pkt ← send_usr_chk (codes "admin") (codes "admin"); send pkt

  -- The loop of `handle_drw_ack`, with `left` rounds to go at index `i`.
  unfoldable pub ack_from : Dv → ℕ → ℕ → Action App Done
  unfolding ack_drw read_u16
  ack_from dv zero i s = (ok tt, s)
  ack_from dv (suc left) i s =
      (lift (read_u16 (add dv (8 + i * 2))) >>= λ ack_id.
      ack_drw ack_id >>= λ _. ack_from dv left (i + 1))
        s

  unfoldable pub handle_drw_ack : Dv → Action App Done
  unfolding ack_from read_u16
  handle_drw_ack dv = do ack_count ← lift (read_u16 (add dv 6)); ack_from dv ack_count 0

  -- `session.send(_make_drw_ack(dv))`.
  unfoldable pub send_drw_ack : Dv → Action App Done
  send_drw_ack dv = do pkt ← lift (make_drw_ack dv); send pkt

module _ {App : Type 0} (callbacks : Callbacks App) where
  unfoldable pub handle_drw : Dv → Action App Done
  unfolding send_drw_ack read_u8
  handle_drw dv = do
    send_drw_ack dv
    m_stream ← lift (read_u8 (add dv 5))
    (if m_stream == 1
        then deal_with_data callbacks dv
        else if m_stream == 0
        then (create_response_for_control_command callbacks dv >>= λ pkts. for_each pkts send)
        else pure tt)

  unfoldable pub handle_close : Dv → Action App Done
  unfolding send_drw_ack close make_drw_ack
  handle_close dv = do send_drw_ack dv; close callbacks

  -- `self.handlers.get(cmd, not_impl)`.
  unfoldable pub handler : Option Command → Dv → Action App Done
  unfolding not_impl handle_p2p_alive handle_p2p_rdy handle_drw_ack handle_drw handle_close
  handler none = not_impl
  handler (some Datatypes.p2p_alive) = handle_p2p_alive
  handler (some Datatypes.p2p_rdy) = handle_p2p_rdy
  handler (some Datatypes.drw_ack) = handle_drw_ack
  handler (some Datatypes.drw) = handle_drw
  handler (some Datatypes.close) = handle_close
  handler (some Datatypes.p2p_alive_ack) = noop
  handler (some _) = not_impl
