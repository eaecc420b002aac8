-- ===== src/Session/Expiry.antt =====
-- What a round of `_sess_timer` does for a session that is heard, and for one that is not.
use cam_reverse_py.Base.{
  suc, ◌+◌, ◌≤◌, ◌<◌, ◌≡◌, ap, ◌∙◌, Bool, true, false, [], ◌∷◌, ◌++◌, arith, ltb, lt→ltb, ltb-false,
  if◌then◌else◌, Result, ok,
}
use cam_reverse_py.DataView.{Bytes}
use cam_reverse_py.Settings.{codes}
use cam_reverse_py.State.{
  State, Session, Action, Done, Transport, open_transport, closed_transport, pure, lift, gets,
  continue_with, ◌>>=◌, ◌>>◌,
}
use cam_reverse_py.Link.{Callbacks, disconnect, close_transport, emit, send, send_to}
use cam_reverse_py.Datatypes
use cam_reverse_py.Impl.{create_empty}
use cam_reverse_py.Session.{sess_tick, sess_tick_started}

-- The session once the camera is given up.
abbrev pub gone_from : Session → Transport → Session
gone_from s transport = record s {
  dst_ip = codes "0.0.0.0";
  connected = false;
  timers = false;
  transport = transport;
}

-- The state after the one reading of the clock.
abbrev pub ticked : {App : Type 0} → State App → State App
ticked s = record s { clock = λ k. s.clock (suc k) }

module _ {App : Type 0} (callbacks : Callbacks App) (s : State App) where
  abbrev pub keep_alive : Action App Done
  keep_alive = lift (create_empty Datatypes.p2p_alive) >>= λ pkt. send pkt

  abbrev pub rest_of_round : Action App Bool
  rest_of_round = do
    timeout_ms ← gets (λ t. t.timeout_ms)
    (if ltb (s.session.last_received_packet + timeout_ms) (s.clock 0)
        then (emit callbacks disconnect >> pure true)
        else pure false)

  -- A started session that had a packet from the camera within the last 600 ms, with a timeout of at least
  -- 600 ms: the round reads the clock, changes nothing else, and the loop goes on.
  pub sess_tick_quiet :
      s.session.started ≡ true
      → s.clock 0 ≤ s.session.last_received_packet + 600
      → 600 ≤ s.session.timeout_ms
      → sess_tick callbacks s ≡ (ok false, ticked s)
  unfolding sess_tick
  sess_tick_quiet started heard long =
      ap (λ b. (if b then sess_tick_started callbacks else pure false) s) started
      ∙ ap
          (λ b. continue_with ((if b then keep_alive else pure tt) (ticked s)) (λ _. rest_of_round))
          (ltb-false (s.session.last_received_packet + 600) (s.clock 0) heard)
      ∙ ap (λ b. (if b then emit callbacks disconnect >> pure true else pure false) (ticked s))
          (ltb-false (s.session.last_received_packet + s.session.timeout_ms) (s.clock 0)
            (omega arith))

  -- A started, connected session over an open socket without a packet from the camera for more than
  -- 600 ms and more than its timeout: a keep-alive goes out, the session is given up and its socket
  -- closed, then the listeners of `disconnect` run, and with them the loop ends. A session that
  -- has never had a packet counts from time zero.
  pub sess_tick_expired :
      s.session.started ≡ true
      → s.session.connected ≡ true
      → s.session.transport ≡ open_transport
      → s.session.last_received_packet + 600 < s.clock 0
      → s.session.last_received_packet + s.session.timeout_ms < s.clock 0
      → sess_tick callbacks s
        ≡ (callbacks.listener disconnect >> pure true) (record s {
          session = gone_from s.session closed_transport;
          wire = s.wire ++ (0xF1 ∷ 0xE0 ∷ 0 ∷ 0 ∷ []) ∷ [];
          clock = λ k. s.clock (suc k);
        })
  unfolding sess_tick send emit create_empty
  sess_tick_expired started up open_ late gone =
      let alive : Bytes = 0xF1 ∷ 0xE0 ∷ 0 ∷ 0 ∷ [] in
      let s' = record s { wire = s.wire ++ alive ∷ []; clock = λ k. s.clock (suc k) } in
      let after : Session → Result Bool × State App =
        λ session. (callbacks.listener disconnect >> pure true) (record s' { session = session }) in
      ap (λ b. (if b then sess_tick_started callbacks else pure false) s) started
      ∙ ap
          (λ b. continue_with ((if b then keep_alive else pure tt) (ticked s)) (λ _. rest_of_round))
          (lt→ltb (s.session.last_received_packet + 600) (s.clock 0) late)
      ∙ ap (λ t. continue_with (send_to t alive (ticked s)) (λ _. rest_of_round)) open_
      ∙ ap (λ b. (if b then emit callbacks disconnect >> pure true else pure false) s')
          (lt→ltb (s.session.last_received_packet + s.session.timeout_ms) (s.clock 0) gone)
      ∙ ap
          (λ c.
            after
              (if c then gone_from s.session (close_transport s.session.transport) else s.session))
          up
      ∙ ap (λ t. after (gone_from s.session (close_transport t))) open_
