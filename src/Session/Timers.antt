-- ===== src/Session/Timers.antt =====
-- The two timers: packets that stay without acknowledgement are sent again under fresh numbers, and
-- a session without packets from the camera ends.
use cam_reverse_py.Base.{
  ℕ, zero, suc, ◌+◌, ◌^◌, ◌≤◌, ◌<◌, ◌≡◌, refl, sym, ap, ◌∙◌, List, [], ◌∷◌, ◌++◌, arith, length,
  append_assoc, append-nil, subst, ==_refl, lt→ltb, ok,
}
use cam_reverse_py.DataView.{Bytes}
use cam_reverse_py.State.{
  State, Pending, Unacked, open_transport, pop_pending, put_pending, for_each,
}
use cam_reverse_py.State.Runs.{for_each_step}
use cam_reverse_py.Link.Sending.{command, send-command}
use cam_reverse_py.Session.{resend_one, resend_tick}

module _ {App : Type 0} (s : State App) (up : s.session.transport ≡ open_transport) where
  -- One entry that is old enough goes out under the next command id and is pending under it.
  resend_one_due :
      (now key sent_ts l l' channel id : ℕ) (rest : Bytes)
      → sent_ts + 100 < now
      → s.session.outgoing_command_id < 2 ^ 16
      → let packet = command l l' channel s.session.outgoing_command_id rest in
        resend_one now (key, record { sent_ts = sent_ts; packet = command l l' channel id rest }) s
        ≡ (
          ok tt,
          record s {
            session = record s.session {
              outgoing_command_id = s.session.outgoing_command_id + 1;
              unacked_drw =
                  put_pending s.session.outgoing_command_id
                    (record { sent_ts = s.clock 0; packet = packet })
                    (pop_pending key s.session.unacked_drw);
            };
            wire = s.wire ++ packet ∷ [];
            clock = λ k. s.clock (suc k);
          },
        )
  unfolding resend_one
  resend_one_due now key sent_ts l l' channel id rest due fit =
      let t = record s {
        session = record s.session {
          outgoing_command_id = s.session.outgoing_command_id + 1;
          unacked_drw = pop_pending key s.session.unacked_drw;
        };
      } in
      rw (lt→ltb (sent_ts + 100) now due)
        (send-command t up l l' channel s.session.outgoing_command_id rest fit)

-- A pending command: its id, when it was sent, and the bytes around the id.
pub record Sent : Type 0 where
  pub id : ℕ
  pub sent_ts : ℕ
  pub l : ℕ
  pub l' : ℕ
  pub channel : ℕ
  pub rest : Bytes

abbrev pub bytes_of : Sent → Bytes
bytes_of c = command c.l c.l' c.channel c.id c.rest

-- The dictionary of pending commands, each under its id.
abbrev pub pending : List Sent → Pending
pending [] = []
pending (c ∷ cs) = (c.id, record { sent_ts = c.sent_ts; packet = bytes_of c }) ∷ pending cs

abbrev pub datagrams : List Sent → List Bytes
datagrams [] = []
datagrams (c ∷ cs) = bytes_of c ∷ datagrams cs

-- The commands under the ids from `o` on, sent at the coming readings of the clock.
abbrev pub renumbered : ℕ → (ℕ → ℕ) → List Sent → List Sent
renumbered o clock [] = []
renumbered o clock (c ∷ cs) =
    record c { id = o; sent_ts = clock 0 } ∷ renumbered (o + 1) (λ k. clock (suc k)) cs

-- The clock after some readings.
abbrev pub advanced : ℕ → (ℕ → ℕ) → ℕ → ℕ
advanced zero clock = clock
advanced (suc n) clock = advanced n (λ k. clock (suc k))

-- All ids are below a bound, and all entries are old enough.
abbrev pub IsBelow : ℕ → Pending → Type 0
IsBelow o [] = Unit {0}
IsBelow o ((k, u) ∷ m) = (k < o) × IsBelow o m

abbrev pub AreDue : ℕ → List Sent → Type 0
AreDue now [] = Unit {0}
AreDue now (c ∷ cs) = (c.sent_ts + 100 < now) × AreDue now cs

put_pending-fresh :
    (k : ℕ) (u : Unacked) (m : Pending) → IsBelow k m → put_pending k u m ≡ m ++ (k, u) ∷ []
put_pending-fresh k u [] h = refl
put_pending-fresh k u ((j, w) ∷ m) h = ground (arith, put_pending-fresh k u m h.1)

pop_pending-head : (k : ℕ) (u : Unacked) (m : Pending) → pop_pending k ((k, u) ∷ m) ≡ m
pop_pending-head k u m = rw ==_refl

IsBelow-add : (o : ℕ) (m : Pending) (u : Unacked) → IsBelow o m → IsBelow (o + 1) (m ++ (o, u) ∷ [])
IsBelow-add o [] u h = (omega arith, tt)
IsBelow-add o ((k, w) ∷ m) u h = (omega arith, IsBelow-add o m u h.1)

-- The parts of the state that a round of `_resend_timer` changes.
abbrev pub resent : {App : Type 0} → State App → ℕ → Pending → List Bytes → (ℕ → ℕ) → State App
resent s o m w clock = record s {
  session = record s.session { outgoing_command_id = o; unacked_drw = m };
  wire = w;
  clock = clock;
}

module _ {App : Type 0} (s : State App) (up : s.session.transport ≡ open_transport) where
  resend_loop :
      (now : ℕ) (cs : List Sent) (o : ℕ) (new : Pending) (w : List Bytes) (clock : ℕ → ℕ)
      → IsBelow o (pending cs ++ new)
      → AreDue now cs
      → o + length cs < 2 ^ 16 + 1
      → for_each (pending cs) (resend_one now) (resent s o (pending cs ++ new) w clock) ≡ (
        ok tt,
        resent s
            (o + length cs)
            (new ++ pending (renumbered o clock cs))
            (w ++ datagrams (renumbered o clock cs))
            (advanced (length cs) clock),
      )
  resend_loop now [] o new w clock below due fit =
      let o' : o ≡ o + 0 = omega arith in
      ap (λ k. (ok tt, resent s k new w clock)) o'
      ∙ ap (λ m. (ok tt, resent s (o + 0) m w clock)) (sym (append-nil new))
      ∙ ap (λ v. (ok tt, resent s (o + 0) (new ++ []) v clock)) (sym (append-nil w))
  resend_loop now (c ∷ cs) o new w clock below due fit =
      let u : Unacked = record { sent_ts = clock 0; packet = bytes_of (record c { id = o }) } in
      let step =
        resend_one_due (resent s o (pending (c ∷ cs) ++ new) w clock) up now c.id c.sent_ts c.l c.l'
          c.channel c.id c.rest due.0 (omega arith) in
      let table =
        ap (put_pending o u) (
          pop_pending-head c.id (record { sent_ts = c.sent_ts; packet = bytes_of c })
            (pending cs ++ new))
        ∙ put_pending-fresh o u (pending cs ++ new) below.1
        ∙ append_assoc (pending cs) new ((o, u) ∷ []) in
      let counted : (o + 1) + length cs ≡ o + suc (length cs) = omega arith in
      for_each_step (c.id, record { sent_ts = c.sent_ts; packet = bytes_of c }) (pending cs)
        (resend_one now) (resent s o (pending (c ∷ cs) ++ new) w clock)
        (step
          ∙ ap
              (λ m. (
                ok tt,
                resent s (o + 1) m (w ++ bytes_of (record c { id = o }) ∷ []) (λ k. clock (suc k)),
              ))
              table)
      ∙ resend_loop now cs (o + 1) (new ++ (o, u) ∷ []) (w ++ bytes_of (record c { id = o }) ∷ [])
          (λ k. clock (suc k))
          (subst (IsBelow (o + 1)) (append_assoc (pending cs) new ((o, u) ∷ []))
            (IsBelow-add o (pending cs ++ new) u below.1))
          due.1 (omega arith)
      ∙ ap
          (λ k. (
            ok tt,
            resent s k
                ((new ++ (o, u) ∷ []) ++ pending (renumbered (o + 1) (λ k. clock (suc k)) cs))
                ((w ++ bytes_of (record c { id = o }) ∷ [])
                  ++ datagrams (renumbered (o + 1) (λ k. clock (suc k)) cs))
                (advanced (length cs) (λ k. clock (suc k))),
          ))
          counted
      ∙ ap
          (λ m. (
            ok tt,
            resent s (o + suc (length cs)) m
                ((w ++ bytes_of (record c { id = o }) ∷ [])
                  ++ datagrams (renumbered (o + 1) (λ k. clock (suc k)) cs))
                (advanced (length cs) (λ k. clock (suc k))),
          ))
          (append_assoc new ((o, u) ∷ []) (pending (renumbered (o + 1) (λ k. clock (suc k)) cs)))
      ∙ ap
          (λ v. (
            ok tt,
            resent s (o + suc (length cs)) (new ++ pending (renumbered o clock (c ∷ cs))) v
                (advanced (length cs) (λ k. clock (suc k))),
          ))
          (append_assoc w (bytes_of (record c { id = o }) ∷ [])
            (datagrams (renumbered (o + 1) (λ k. clock (suc k)) cs)))

  -- One round of the retransmission timer, over an open socket, with pending commands that are all
  -- more than 100 ms old, that are pending under ids below the next command id, and whose number
  -- keeps the ids within 16 bits: every command goes out once more, in the order in which they
  -- became pending, each under the next free id; exactly these are pending afterwards, each under its new id with
  -- the time of its sending, and the next command id has moved on by their number.
  pub resend_tick_lem :
      (cs : List Sent) (o : ℕ) (w : List Bytes) (clock : ℕ → ℕ)
      → IsBelow o (pending cs)
      → AreDue (clock 0) cs
      → o + length cs ≤ 2 ^ 16
      → let again = renumbered o (λ k. clock (suc k)) cs in
        resend_tick (resent s o (pending cs) w clock) ≡ (
          ok tt,
          resent s
              (o + length cs)
              (pending again)
              (w ++ datagrams again)
              (advanced (suc (length cs)) clock),
        )
  unfolding resend_tick
  resend_tick_lem cs o w clock below due fit =
      ap (λ m. for_each (pending cs) (resend_one (clock 0)) (resent s o m w (λ k. clock (suc k))))
        (sym (append-nil (pending cs)))
      ∙ resend_loop (clock 0) cs o [] w (λ k. clock (suc k))
          (subst (IsBelow o) (sym (append-nil (pending cs))) below) due (omega arith)
