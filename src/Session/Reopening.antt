-- ===== src/Session/Reopening.antt =====
-- A session that is closed before its socket has opened (cam_reverse/session.py).
use cam_reverse_py.Base.{
  sym, subst, suc, ◌+◌, ◌<◌, ◌≡◌, refl, ap, ◌∙◌, Bool, true, false, [], ◌∷◌, ◌++◌, lt→ltb, ok,
  if◌then◌else◌,
}
use cam_reverse_py.DataView.{Bytes}
use cam_reverse_py.State.{State, Session, open_transport, pure, continue_with, modify, ◌>>◌}
use cam_reverse_py.Link.{
  close_transport, Callbacks, disconnect, emit, send, close, send_to, disconnected,
}
use cam_reverse_py.Parsers.{make_p2p_rdy}
use cam_reverse_py.Impl.{create_empty}
use cam_reverse_py.Session.{connection_made, sess_tick, sess_tick_started}
use cam_reverse_py.Session.Expiry.{gone_from, ticked, keep_alive, rest_of_round}

module _ {App : Type 0} (callbacks : Callbacks App) (f : App → App)
    (told : (u : State App)
      → callbacks.listener disconnect u ≡ (ok tt, record u { app = f u.app })) where
  -- The session that was given up and is then opened.
  abbrev revived : Session → Session
  revived s = record (gone_from s open_transport) { started = true; timers = true }

  close-connection_made :
      (s : State App) (rest : Bytes)
      → s.session.connected ≡ true
      → make_p2p_rdy s.session.dev ≡ ok (0xF1 ∷ 0x42 ∷ rest)
      → (close callbacks >> connection_made) s ≡ (
        ok tt,
        record s {
          session = revived s.session;
          wire = s.wire ++ (0xF1 ∷ 0x42 ∷ rest) ∷ [];
          app = f s.app;
        },
      )
  unfolding close emit connection_made send
  close-connection_made s rest up rdy =
      let closed : Bool → State App = λ b. record s {
        session =
            if b then gone_from s.session (close_transport s.session.transport) else s.session;
        app = f s.app;
      } in
      let u : State App = record s {
        session = gone_from s.session open_transport;
        app = f s.app;
      } in
      ap (λ p. continue_with p (λ _. connection_made))
        (told (record s { session = disconnected s.session }))
      ∙ ap (λ b. connection_made (closed b)) up
      ∙ ap
          (λ r.
            continue_with (r, u)
              (λ pkt. send pkt >> modify (λ x. record x { started = true; timers = true })))
          rdy

  -- The timeout of a session that is not connected tells the listeners of `disconnect` all the same.
  sess_tick-revived :
      (s : State App)
      → s.session.started ≡ true
      → s.session.connected ≡ false
      → s.session.transport ≡ open_transport
      → s.session.last_received_packet + 600 < s.clock 0
      → s.session.last_received_packet + s.session.timeout_ms < s.clock 0
      → (sess_tick callbacks s).1.app ≡ f s.app
  unfolding sess_tick send emit create_empty
  sess_tick-revived s started down open_ late gone =
      let alive : Bytes = 0xF1 ∷ 0xE0 ∷ 0 ∷ 0 ∷ [] in
      let s' = record s { wire = s.wire ++ alive ∷ []; clock = λ k. s.clock (suc k) } in
      ap (λ b. ((if b then sess_tick_started callbacks else pure false) s).1.app) started
      ∙ ap
          (λ b.
            (continue_with ((if b then keep_alive callbacks s else pure tt) (ticked s))
              (λ _. rest_of_round callbacks s)).1.app)
          (lt→ltb (s.session.last_received_packet + 600) (s.clock 0) late)
      ∙ ap
          (λ t. (continue_with (send_to t alive (ticked s)) (λ _. rest_of_round callbacks s)).1.app)
          open_
      ∙ ap (λ b. ((if b then emit callbacks disconnect >> pure true else pure false) s').1.app)
          (lt→ltb (s.session.last_received_packet + s.session.timeout_ms) (s.clock 0) gone)
      ∙ ap (λ p. (continue_with p (λ _. pure {A = Bool} true)).1.app)
          (told (record s' { session = disconnected s'.session }))

  -- A connected session is closed, and its socket opens only then, for a camera whose answer can be made,
  -- while the clock stands more than 600 ms and more than the timeout past its last packet, time zero if
  -- there was none: the opening sends the answer and starts the timers of a session that is not connected,
  -- the socket stays open, and the first round of `_sess_timer` tells the listeners of `disconnect` a second
  -- time.
  pub connection_made-closed :
      (s : State App) (rest : Bytes)
      → s.session.connected ≡ true
      → make_p2p_rdy s.session.dev ≡ ok (0xF1 ∷ 0x42 ∷ rest)
      → s.session.last_received_packet + 600 < s.clock 0
      → s.session.last_received_packet + s.session.timeout_ms < s.clock 0
      → let (r, t) = (close callbacks >> connection_made) s in
        (r ≡ ok tt)
        × (t.session.connected ≡ false)
        × (t.session.timers ≡ true)
        × (t.session.transport ≡ open_transport)
        × (t.wire ≡ s.wire ++ (0xF1 ∷ 0x42 ∷ rest) ∷ [])
        × (t.app ≡ f s.app)
        × ((sess_tick callbacks t).1.app ≡ f (f s.app))
  connection_made-closed s rest up rdy late gone =
      let t : State App = record s {
        session = revived s.session;
        wire = s.wire ++ (0xF1 ∷ 0x42 ∷ rest) ∷ [];
        app = f s.app;
      } in
      subst
        (λ p.
          (p.0 ≡ ok tt)
          × (p.1.session.connected ≡ false)
          × (p.1.session.timers ≡ true)
          × (p.1.session.transport ≡ open_transport)
          × (p.1.wire ≡ s.wire ++ (0xF1 ∷ 0x42 ∷ rest) ∷ [])
          × (p.1.app ≡ f s.app)
          × ((sess_tick callbacks p.1).1.app ≡ f (f s.app)))
        (sym (close-connection_made s rest up rdy))
        (refl, refl, refl, refl, refl, refl, sess_tick-revived t refl refl refl late gone)
