-- ===== src/Session/Incoming.antt =====
-- What a datagram does to the state of a session.
use cam_reverse_py.Base.{◌<◌, ◌≡◌, refl, ap, [], ◌∷◌, ◌++◌, arith, length}
use cam_reverse_py.DataView.{Bytes}
use cam_reverse_py.State.{State, open_transport, continue_with, pure}
use cam_reverse_py.Link.{Callbacks, send, send_to}
use cam_reverse_py.Handlers.{handle_p2p_alive}
use cam_reverse_py.Session.{handle_incoming, account}

-- A Close packet of fewer than eight bytes, which is how `create_P2pClose` makes it, is dropped: the
-- session stays connected, nothing is sent, and no listener is called.
pub handle_incoming-close_short :
    {App : Type 0} (callbacks : Callbacks App) (rest : Bytes) (s : State App)
    → length rest < 6
    → handle_incoming callbacks (0xF1 ∷ 0xF0 ∷ rest) s ≡ s
unfolding handle_incoming
handle_incoming-close_short callbacks [] s h = refl
handle_incoming-close_short callbacks (c ∷ []) s h = refl
handle_incoming-close_short callbacks (c ∷ d ∷ []) s h = refl
handle_incoming-close_short callbacks (c ∷ d ∷ e ∷ []) s h = refl
handle_incoming-close_short callbacks (c ∷ d ∷ e ∷ f ∷ []) s h = refl
handle_incoming-close_short callbacks (c ∷ d ∷ e ∷ f ∷ g ∷ []) s h = refl
handle_incoming-close_short callbacks (c ∷ d ∷ e ∷ f ∷ g ∷ i ∷ rest) s h = absurd (omega arith)

-- A keep-alive on an open socket is answered with four bytes, and is not counted as a packet from the
-- camera: the session, with its time of the last packet, stays as it was.
pub handle_incoming-p2p_alive :
    {App : Type 0} (callbacks : Callbacks App) (rest : Bytes) (s : State App)
    → s.session.transport ≡ open_transport
    → handle_incoming callbacks (0xF1 ∷ 0xE0 ∷ rest) s
      ≡ record s { wire = s.wire ++ (0xF1 ∷ 0xE1 ∷ 0 ∷ 0 ∷ []) ∷ [] }
unfolding handle_incoming handle_p2p_alive send
handle_incoming-p2p_alive callbacks rest s up =
    let msg = 0xF1 ∷ 0xE0 ∷ rest in
    ap
      (λ t.
        account callbacks
          (continue_with (send_to t (0xF1 ∷ 0xE1 ∷ 0 ∷ 0 ∷ []) s) (λ _. pure 0xF1E0)))
      up
