-- ===== src/Handlers/Keeps.antt =====
-- Every handler leaves the waiting packets in order.
use cam_reverse_py.Base.{
  ℕ, zero, suc, ◌+◌, ◌*◌, ◌≡◌, ◌≢◌, refl, Bool, true, false, ◌∷◌, Option, none, some, arith, inl,
  ◌==◌, Result, ok, err, bind,
}
use cam_reverse_py.DataView.{Bytes, Dv, add, read_u8, read_u16}
use cam_reverse_py.Datatypes
use cam_reverse_py.Datatypes.{Command}
use cam_reverse_py.Settings.{codes}
use cam_reverse_py.State.{State, lift, modify, for_each, ◌>>=◌}
use cam_reverse_py.State.Keeps.{Keeps, Anything, Keeps-pure, Keeps-bind, Keeps-if, yields-then}
use cam_reverse_py.Link.{Event, disconnect, Callbacks, send, ack_drw, emit, close, disconnected}
use cam_reverse_py.Link.Ending.{disconnected_if}
use cam_reverse_py.Link.Queued.{IsQueued, AllQueued-pop, send-Keeps}
use cam_reverse_py.Impl.{create_empty}
use cam_reverse_py.Impl.Requests.{send_usr_chk}
use cam_reverse_py.Impl.Commands.{CanSendAll, usr_chk-yields, build_send-Keeps, send_all-Keeps}
use cam_reverse_py.Parsers.{create_p2p_alive_ack, make_drw_ack}
use cam_reverse_py.Frames.Keeps.{deal-Keeps}
use cam_reverse_py.Control.{create_response_for_control_command}
use cam_reverse_py.Control.Keeps.{response-yields, lift-yields}
use cam_reverse_py.Handlers.{
  not_impl, handle_p2p_alive, handle_p2p_rdy, ack_from, handle_drw_ack, send_drw_ack, handle_drw,
  handle_close, handler,
}

-- A packet that is no Drw packet, if it could be built.
abbrev pub IsOther : Result Bytes → Type 0
IsOther (ok packet) = (kind : ℕ) × (rest : Bytes) × (packet ≡ 0xF1 ∷ kind ∷ rest) × (kind ≢ 0xD0)
IsOther (err e) = Unit {0}

pub IsOther-bind :
    {A : Type 0} (r : Result A) (f : A → Result Bytes)
    → ((a : A) → IsOther (f a))
    → IsOther (bind f r)
IsOther-bind (ok a) f h = h a
IsOther-bind (err e) f h = tt

drw_ack-IsOther : (dv : Dv) → IsOther (make_drw_ack dv)
unfolding make_drw_ack
drw_ack-IsOther dv =
    IsOther-bind (read_u16 (add dv 6)) _
      λ pkt_id. IsOther-bind (read_u8 (add dv 5)) _ λ m_stream. (0xD1, _, refl, λ e. omega arith)

module _ {App : Type 0} (Holds : Bool → App → Type 0) where
  abbrev P : State App → Type 0
  P = IsQueued Holds

  pub send_other-Keeps : (r : Result Bytes) → IsOther r → Keeps P (lift r >>= send)
  send_other-Keeps (ok packet) h s q = send-Keeps Holds packet s q (inl h)
  send_other-Keeps (err e) h s q = q

  alive_ack-Keeps : (dv : Dv) → Keeps P (handle_p2p_alive dv)
  unfolding handle_p2p_alive create_p2p_alive_ack create_empty
  alive_ack-Keeps dv = send_other-Keeps create_p2p_alive_ack (0xE1, _, refl, λ e. omega arith)

  rdy-Keeps : (dv : Dv) → Keeps P (handle_p2p_rdy dv)
  unfolding handle_p2p_rdy
  rdy-Keeps dv =
      build_send-Keeps Holds (send_usr_chk (codes "admin") (codes "admin"))
        (usr_chk-yields Holds (codes "admin") (codes "admin"))

  ack_drw-Keeps : (id : ℕ) → Keeps P (ack_drw id)
  unfolding ack_drw
  ack_drw-Keeps id s q =
      ((AllQueued-pop s.session.outgoing_command_id id s.session.unacked_drw q.0, q.1), tt)

  ack_from-Keeps : (dv : Dv) (left i : ℕ) → Keeps P (ack_from dv left i)
  unfolding ack_from
  ack_from-Keeps dv zero i s q = (q, tt)
  ack_from-Keeps dv (suc left) i s q =
      lift-yields Holds (Anything P) (read_u16 (add dv (8 + i * 2))) _
        (λ ack_id.
          Keeps-bind P (Anything P) (ack_drw ack_id) _ (ack_drw-Keeps ack_id)
            (λ _. ack_from-Keeps dv left (i + 1)))
        s q

  drw_ack-Keeps : (dv : Dv) → Keeps P (handle_drw_ack dv)
  unfolding handle_drw_ack
  drw_ack-Keeps dv =
      lift-yields Holds (Anything P) (read_u16 (add dv 6)) _
        (λ ack_count. ack_from-Keeps dv ack_count 0)

  send_drw_ack-Keeps : (dv : Dv) → Keeps P (send_drw_ack dv)
  unfolding send_drw_ack
  send_drw_ack-Keeps dv = send_other-Keeps (make_drw_ack dv) (drw_ack-IsOther dv)

  not_impl-Keeps : (dv : Dv) → Keeps P (not_impl dv)
  unfolding not_impl
  not_impl-Keeps dv = lift-yields Holds (Anything P) (read_u16 dv) _ (λ raw. Keeps-pure P tt)

  module _ (drops : (b : Bool) (a : App) → Holds b a → Holds false a) (callbacks : Callbacks App)
      (listens : (e : Event) → Keeps P (callbacks.listener e))
      (logs_in : Keeps P callbacks.on_login) where
    drw-Keeps : (dv : Dv) → Keeps P (handle_drw callbacks dv)
    unfolding handle_drw
    drw-Keeps dv = Keeps-bind P (Anything P) (send_drw_ack dv) _ (send_drw_ack-Keeps dv) (λ _.
        lift-yields Holds (Anything P) (read_u8 (add dv 5)) _ (λ m_stream.
          Keeps-if P (Anything P) (m_stream == 1) _ _ (deal-Keeps Holds callbacks listens dv) (
            Keeps-if P (Anything P) (m_stream == 0) _ _
              (yields-then P CanSendAll (Anything P)
                (create_response_for_control_command callbacks dv) (λ pkts. for_each pkts send)
                (response-yields Holds callbacks listens logs_in dv)
                (λ pkts. send_all-Keeps Holds pkts))
              (Keeps-pure P tt))))

    -- A session that ends stays in order.
    ends : (b : Bool) (s : State App) → P s → P (record s { session = disconnected_if b s.session })
    ends true s q = (q.0, drops s.session.connected s.app q.1)
    ends false s q = q

    pub disconnect-Keeps : Keeps P (emit callbacks disconnect)
    unfolding emit
    disconnect-Keeps =
        Keeps-bind P (Anything P) (modify disconnected) (λ _. callbacks.listener disconnect)
          (λ s q. (ends s.session.connected s q, tt)) (λ _. listens disconnect)

    close-Keeps : (dv : Dv) → Keeps P (handle_close callbacks dv)
    unfolding handle_close close
    close-Keeps dv =
        Keeps-bind P (Anything P) (send_drw_ack dv) _ (send_drw_ack-Keeps dv)
          (λ _. disconnect-Keeps)

    pub handler-Keeps : (cmd : Option Command) (dv : Dv) → Keeps P (handler callbacks cmd dv)
    unfolding handler
    handler-Keeps none dv = not_impl-Keeps dv
    handler-Keeps (some Datatypes.p2p_alive) dv = alive_ack-Keeps dv
    handler-Keeps (some Datatypes.p2p_rdy) dv = rdy-Keeps dv
    handler-Keeps (some Datatypes.drw_ack) dv = drw_ack-Keeps dv
    handler-Keeps (some Datatypes.drw) dv = drw-Keeps dv
    handler-Keeps (some Datatypes.close) dv = close-Keeps dv
    handler-Keeps (some Datatypes.p2p_alive_ack) dv = Keeps-pure P tt
    handler-Keeps (some _) dv = not_impl-Keeps dv
