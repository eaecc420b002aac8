-- ===== src/Examples/Histories.antt =====
-- The theorems on everything that can happen to a session, applied at inputs where their hypotheses hold.
use cam_reverse_py.Base.{
  ◌++◌, ◌*◌, ◌≤◌, true, ℕ, suc, ◌+◌, ◌≡◌, refl, Bool, false, List, [], ◌∷◌, arith, length, ok,
}
use cam_reverse_py.State.{◌>>◌, new_session, open_transport, State, closed_transport}
use cam_reverse_py.DataView.{Bytes}
use cam_reverse_py.Parsers.{make_p2p_rdy}
use cam_reverse_py.Parsers.Serial.{padded}
use cam_reverse_py.Session.Reopening.{connection_made-closed}
use cam_reverse_py.Link.{close, Callbacks, disconnect}
use cam_reverse_py.Link.Queued.{IsQueued}
use cam_reverse_py.Session.{
  connection_made, sess_tick, sess_timer, start_video_stream, handle_incoming, resend_tick,
}
use cam_reverse_py.Session.Timers.{Sent, pending, datagrams, renumbered, advanced, resent}
use cam_reverse_py.Session.Steps.{here, next, receives, resends, Reach-IsQueued}
use cam_reverse_py.Session.Retransmission.{Always, start_video-Keeps, Reach-resends}
use cam_reverse_py.Examples.Camera.{connected_state, connected_session, camera}
use cam_reverse_py.Examples.Web.{found}
use cam_reverse_py.Session.Expiry.{gone_from}
use cam_reverse_py.Session.Silence.{IsFirstAfter, sess_timer_lem}
use cam_reverse_py.WebServer.{Server}
use cam_reverse_py.WebServer.Streams.{callbacks_of, listeners, on_disconnect}
use cam_reverse_py.Base.Tables.{remove}
use cam_reverse_py.Settings.{codes, default_config}

-- A program that starts the video stream at the login.
abbrev viewer : Callbacks ℕ
viewer = record { on_login = start_video_stream; listener = λ e s. (ok tt, s) }

-- The session has ended, and stays so.
abbrev Ended : Bool → ℕ → Type 0
Ended connected n = connected ≡ false

abbrev ended_state : State ℕ
ended_state = record connected_state {
  session = record connected_state.session { connected = false };
}

Reach-IsQueued_example :
    IsQueued Ended (resend_tick (handle_incoming viewer (0xF1 ∷ 0x42 ∷ 0 ∷ 0 ∷ []) ended_state)).1
Reach-IsQueued_example =
    Reach-IsQueued Ended (λ b n h. refl) viewer (λ e s q. (q, tt)) (start_video-Keeps Ended)
      (next (next here (receives (0xF1 ∷ 0x42 ∷ 0 ∷ 0 ∷ []) ended_state))
        (resends (handle_incoming viewer (0xF1 ∷ 0x42 ∷ 0 ∷ 0 ∷ []) ended_state)))
      (tt, refl)

-- Two commands wait, one of them for the second time.
abbrev waiting : List Sent
waiting =
    record { id = 3; sent_ts = 49000; l = 0; l' = 12; channel = 0; rest = 1 ∷ 2 ∷ [] }
    ∷ record { id = 6; sent_ts = 49500; l = 0; l' = 12; channel = 0; rest = 3 ∷ 4 ∷ [] }
    ∷ []

abbrev busy : State ℕ
busy = resent connected_state 7 (pending waiting) [] connected_state.clock

-- A datagram that is no packet is dropped.
abbrev disturbed : State ℕ
disturbed = handle_incoming viewer [] busy

Reach-resends_example :
    (cs : List Sent) × (disturbed.session.unacked_drw ≡ pending cs)
    × (resend_tick disturbed ≡ (
      ok tt,
      resent disturbed
          (disturbed.session.outgoing_command_id + length cs)
          (pending
            (renumbered disturbed.session.outgoing_command_id (λ k. disturbed.clock (suc k)) cs))
          (datagrams
            (renumbered disturbed.session.outgoing_command_id (λ k. disturbed.clock (suc k)) cs))
          (advanced (suc (length cs)) disturbed.clock),
    ))
unfolding handle_incoming
Reach-resends_example =
    Reach-resends viewer busy disturbed (λ e s q. (q, tt)) (start_video-Keeps Always)
      (next here (receives [] busy))
      (
        (
          (0, 12, 0, 1 ∷ 2 ∷ [], refl),
          omega arith,
          ((0, 12, 0, 3 ∷ 4 ∷ [], refl), omega arith, tt),
        ),
        tt,
      )
      refl (omega arith, (omega arith, tt)) (omega arith)

-- A camera of the server that says no more: it leaves the table of sessions.
abbrev forgets : Server → Server
forgets w = record w { sessions = remove camera.dev_id w.sessions }

abbrev its_listeners : Callbacks Server
its_listeners =
    callbacks_of camera.dev_id
      (record { session = connected_session; hears_frames = true; hears_audio = true })

told :
    (u : State Server)
    → its_listeners.listener disconnect u ≡ (ok tt, record u { app = forgets u.app })
unfolding listeners on_disconnect
told u = refl

abbrev silent : State Server
silent = record {
  session = record connected_session { last_received_packet = 50000 };
  wire = [];
  clock = λ k. 50000 + 400 * k;
  config = default_config;
  app = found;
}

sess_timer_lem_example :
    (n : ℕ) × (n ≤ suc 60000)
    × IsFirstAfter 60000 silent.clock n
    × (let (before, t) = sess_timer its_listeners n silent in
        (before ≡ ok false) × (t.session ≡ silent.session) × (t.app ≡ found))
    × (let (after, u) = sess_timer its_listeners (suc n) silent in
        (after ≡ ok true)
        × (u.session ≡ gone_from silent.session closed_transport)
        × (u.app ≡ forgets found))
sess_timer_lem_example =
    sess_timer_lem its_listeners forgets told silent refl refl refl (omega arith) (λ k. omega arith)

-- A camera that is closed right after it was found.
abbrev unopened : State Server
unopened = record silent { session = new_session camera (codes "192.168.1.3") 32108 5000 }

abbrev answer_rest : Bytes
answer_rest =
    0
    ∷ 0x14
    ∷ (padded 4 (codes "BATD")
        ++ ((0 ∷ 0 ∷ 0 ∷ 0 ∷ 0 ∷ 9 ∷ 76 ∷ 251 ∷ []) ++ padded 8 (codes "EXLVS")))

its_answer : make_p2p_rdy camera ≡ ok (0xF1 ∷ 0x42 ∷ answer_rest)
unfolding make_p2p_rdy
its_answer = refl

connection_made-closed_example :
    let (r, t) = (close its_listeners >> connection_made) unopened in
    (r ≡ ok tt)
    × (t.session.connected ≡ false)
    × (t.session.timers ≡ true)
    × (t.session.transport ≡ open_transport)
    × (t.wire ≡ (0xF1 ∷ 0x42 ∷ answer_rest) ∷ [])
    × (t.app ≡ forgets found)
    × ((sess_tick its_listeners t).1.app ≡ forgets (forgets found))
connection_made-closed_example =
    connection_made-closed its_listeners forgets told unopened answer_rest refl its_answer
      (omega arith) (omega arith)
