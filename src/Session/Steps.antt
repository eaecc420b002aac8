-- ===== src/Session/Steps.antt =====
-- Everything that can happen to a session (cam_reverse/session.py), in any order: datagrams with any
-- content, the rounds of the two timers, and the opening of the socket.
use cam_reverse_py.Base.{
  ℕ, suc, ◌+◌, refl, sym, subst, Bool, true, false, [], ◌∷◌, arith, inl, inr, ltb, if◌then◌else◌,
  Result, ok, err,
}
use cam_reverse_py.DataView.{Bytes, view, alloc, read_u16, write_u64, write_byte_array}
use cam_reverse_py.Datatypes
use cam_reverse_py.Datatypes.{commands_by_value}
use cam_reverse_py.State.{
  State, DevSerial, open_transport, continue_with, Pending, Unacked, lift, modify, pure, now_ms,
  for_each, ◌>>=◌, ◌>>◌, pop_pending,
}
use cam_reverse_py.State.Keeps.{
  Post, Keeps, Anything, Post-state, Keeps-pure, Keeps-bind, Keeps-if, Post-continue,
}
use cam_reverse_py.Link.{Event, disconnect, Callbacks, send, emit}
use cam_reverse_py.Link.Queued.{
  IsCommand, AllQueued, IsQueued, AllQueued-mono, AllQueued-pop, send-Keeps,
}
use cam_reverse_py.Link.Sending.{command}
use cam_reverse_py.Impl.{create_empty, create_p2p_rdy, str2byte}
use cam_reverse_py.Handlers.{handler}
use cam_reverse_py.Handlers.Keeps.{
  IsOther, IsOther-bind, send_other-Keeps, handler-Keeps, disconnect-Keeps,
}
use cam_reverse_py.Control.Keeps.{lift-yields}
use cam_reverse_py.Parsers.{make_p2p_rdy}
use cam_reverse_py.Session.{
  connection_made, resend_one, resend_tick, try_packet, account, is_alive, touch, handle_incoming,
  sess_tick, sess_tick_started,
}

pub data Step {App : Type 0} (callbacks : Callbacks App) : State App → State App → Type 0 where
  receives : (msg : Bytes) (s : State App) → Step callbacks s (handle_incoming callbacks msg s)
  watches : (s : State App) → Step callbacks s (sess_tick callbacks s).1
  resends : (s : State App) → Step callbacks s (resend_tick s).1
  opens : (s : State App) → Step callbacks s (connection_made s).1

pub data Reach {App : Type 0} (callbacks : Callbacks App) (s : State App) : State App → Type 0 where
  here : Reach callbacks s s
  next : {t u : State App} → Reach callbacks s t → Step callbacks t u → Reach callbacks s u

-- The entries of a snapshot, which later sends do not change.
abbrev AllCommands : Pending → Type 0
AllCommands [] = Unit {0}
AllCommands ((id, u) ∷ m) = IsCommand id u.packet × AllCommands m

all_commands : (o : ℕ) (m : Pending) → AllQueued o m → AllCommands m
all_commands o [] q = tt
all_commands o ((id, u) ∷ m) q = (q.0, all_commands o m q.2)

p2p_rdy-IsOther : (dev : DevSerial) → IsOther (make_p2p_rdy dev)
unfolding make_p2p_rdy create_p2p_rdy
p2p_rdy-IsOther dev = IsOther-bind (str2byte dev.prefix) _ λ prefix.
    IsOther-bind (write_u64 (view (write_byte_array (view (alloc 0x14) 0) prefix) 4) dev.serial_u64)
      _ λ outbuf. IsOther-bind (str2byte dev.suffix) _ λ suffix. (0x42, _, refl, λ e. omega arith)

module _ {App : Type 0} (Holds : Bool → App → Type 0) where
  abbrev P : State App → Type 0
  P = IsQueued Holds

  now-Keeps : Keeps P now_ms
  now-Keeps s q = (q, tt)

  pub opens-Keeps : Keeps P connection_made
  unfolding connection_made
  opens-Keeps s q = sends (make_p2p_rdy s.session.dev) (p2p_rdy-IsOther s.session.dev)
    where
      t : State App
      t = record s { session = record s.session { transport = open_transport } }

      sends :
          (r : Result Bytes)
          → IsOther r
          → Post P (Anything P) (
              continue_with
                (r, t)
                (λ pkt. send pkt >> modify (λ u. record u { started = true; timers = true })))
      sends (ok packet) h =
          Post-continue P (Anything P) (Anything P) (send packet t) _
            (send-Keeps Holds packet t q (inl h)) (λ _ u k _. (k, tt))
      sends (err e) h = q

  resend_command-Keeps :
      (now key sent_ts l l' channel : ℕ) (rest : Bytes)
      → Keeps P (
          resend_one now
            (key, record { sent_ts = sent_ts; packet = command l l' channel key rest }))
  unfolding resend_one
  resend_command-Keeps now key sent_ts l l' channel rest =
      Keeps-if P (Anything P) (ltb (sent_ts + 100) now) _ (pure tt)
        (λ s q.
          let o = s.session.outgoing_command_id in
          let t = record s {
            session = record s.session {
              outgoing_command_id = o + 1;
              unacked_drw = pop_pending key s.session.unacked_drw;
            };
          } in
          send-Keeps Holds (command l l' channel o rest) t
            (
              AllQueued-mono o (o + 1) (pop_pending key s.session.unacked_drw) (omega arith)
                  (AllQueued-pop o key s.session.unacked_drw q.0),
              q.1,
            )
            (inr (o, (l, l', channel, rest, refl), omega arith)))
        (Keeps-pure P tt)

  resend_one-Keeps :
      (now key : ℕ) (u : Unacked) → IsCommand key u.packet → Keeps P (resend_one now (key, u))
  resend_one-Keeps now key u (l, l', channel, rest, e) =
      subst (λ p. Keeps P (resend_one now (key, record { sent_ts = u.sent_ts; packet = p })))
        (sym e) (resend_command-Keeps now key u.sent_ts l l' channel rest)

  resend_all-Keeps : (now : ℕ) (m : Pending) → AllCommands m → Keeps P (for_each m (resend_one now))
  resend_all-Keeps now [] c s q = (q, tt)
  resend_all-Keeps now ((key, u) ∷ m) c s q =
      Keeps-bind P (Anything P) (resend_one now (key, u)) (λ _. for_each m (resend_one now))
        (resend_one-Keeps now key u c.0) (λ _. resend_all-Keeps now m c.1) s q

  pub resends-Keeps : Keeps P resend_tick
  unfolding resend_tick
  resends-Keeps s q =
      resend_all-Keeps (s.clock 0) s.session.unacked_drw (all_commands _ s.session.unacked_drw q.0)
        (record s { clock = λ k. s.clock (suc k) }) q

  module _ (drops : (b : Bool) (a : App) → Holds b a → Holds false a) (callbacks : Callbacks App)
      (listens : (e : Event) → Keeps P (callbacks.listener e))
      (logs_in : Keeps P callbacks.on_login) where
    try-Keeps : (msg : Bytes) → Keeps P (try_packet callbacks msg)
    unfolding try_packet
    try-Keeps msg = lift-yields Holds (Anything P) (read_u16 (view msg 0)) _ (λ raw.
        Keeps-bind P (Anything P) (handler callbacks (commands_by_value raw) (view msg 0)) _
          (handler-Keeps Holds drops callbacks listens logs_in (commands_by_value raw) (view msg 0))
          (λ _. Keeps-pure P raw))

    account-Keeps : (p : Result ℕ × State App) → Post P (Anything P) p → P (account callbacks p)
    account-Keeps (err e, s) q = q
    account-Keeps (ok raw, s) q = either (is_alive callbacks raw)
      where
        either : (b : Bool) → P (if b then s else touch callbacks s)
        either true = q.0
        either false = q.0

    pub receives-Keeps : (msg : Bytes) (s : State App) → P s → P (handle_incoming callbacks msg s)
    unfolding handle_incoming
    receives-Keeps msg s q = account-Keeps (try_packet callbacks msg s) (try-Keeps msg s q)

    pub watches-Keeps : Keeps P (sess_tick callbacks)
    unfolding sess_tick sess_tick_started create_empty
    watches-Keeps s =
        Keeps-if P (Anything P) s.session.started _ (pure false)
          (Keeps-bind P (Anything P) now_ms _ now-Keeps (λ now t.
            Keeps-bind P (Anything P)
              (if ltb (t.session.last_received_packet + 600) now
                then (lift (create_empty Datatypes.p2p_alive) >>= λ pkt. send pkt)
                else pure tt)
              _
              (Keeps-if P (Anything P) (ltb (t.session.last_received_packet + 600) now) _ _
                (send_other-Keeps Holds (create_empty Datatypes.p2p_alive)
                  (0xE0, _, refl, λ e. omega arith))
                (Keeps-pure P tt))
              (λ _ u.
                Keeps-if P (Anything P)
                  (ltb (t.session.last_received_packet + u.session.timeout_ms) now) _ (pure false)
                  (Keeps-bind P (Anything P) (emit callbacks disconnect) (λ _. pure true)
                    (disconnect-Keeps Holds drops callbacks listens logs_in)
                    (λ _. Keeps-pure P true))
                  (Keeps-pure P false) u)
              t))
          (Keeps-pure P false) s

    step-Keeps : {s t : State App} → Step callbacks s t → P s → P t
    step-Keeps (receives msg s) q = receives-Keeps msg s q
    step-Keeps (watches s) q = Post-state P (Anything P) (sess_tick callbacks s) (watches-Keeps s q)
    step-Keeps (resends s) q = Post-state P (Anything P) (resend_tick s) (resends-Keeps s q)
    step-Keeps (opens s) q = Post-state P (Anything P) (connection_made s) (opens-Keeps s q)

    -- Take anything that may hold of a connection and of the program, that the end of a connection does not
    -- break, and listeners and a login callback that keep a session in order: each packet that waits for an
    -- acknowledgement is a command that names the id it waits under, that id was handed out, and what is asked
    -- holds. Then whatever comes to the session, datagrams with any content, the rounds of both
    -- timers and the opening of the socket, in any order and number, keeps it in order.
    pub Reach-IsQueued : {s t : State App} → Reach callbacks s t → P s → P t
    Reach-IsQueued here q = q
    Reach-IsQueued (next r st) q = step-Keeps st (Reach-IsQueued r q)
