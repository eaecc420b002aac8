-- ===== src/Link/Sending.antt =====
-- What `send` does over an open socket: every packet goes out as it is, and a Drw command is also
-- kept for retransmission.
use cam_reverse_py.Base.{
  ℕ, suc, ◌+◌, ◌*◌, ◌/◌, ◌%◌, ◌^◌, ◌<◌, ◌≡◌, ap, ◌∙◌, [], ◌∷◌, ◌++◌, arith, ok,
}
use cam_reverse_py.DataView.{Bytes}
use cam_reverse_py.State.{State, open_transport, put_pending}
use cam_reverse_py.Link.{send, send_to, transmit}

-- A command: it begins with f1 d0, a length and d1, and has its id at byte 6.
abbrev pub command : ℕ → ℕ → ℕ → ℕ → Bytes → Bytes
command l l' channel id rest =
    0xF1 ∷ 0xD0 ∷ l ∷ l' ∷ 0xD1 ∷ channel ∷ (id % 2 ^ 16 / 256 % 256) ∷ (id % 2 ^ 16 % 256) ∷ rest

-- The state once a datagram is handed to the socket.
abbrev pub with_wire : {App : Type 0} → Bytes → State App → State App
with_wire msg s = record s { wire = s.wire ++ (msg ∷ []) }

-- The state once a command is noted for retransmission.
abbrev pub noted : {App : Type 0} → ℕ → Bytes → State App → State App
noted id msg s = record s {
  session = record s.session {
    unacked_drw =
        put_pending id (record { sent_ts = s.clock 0; packet = msg }) s.session.unacked_drw;
  };
  clock = λ k. s.clock (suc k);
}

module _ {App : Type 0} (s : State App) (up : s.session.transport ≡ open_transport) where
  pub transmit_open : (msg : Bytes) → transmit msg s ≡ (ok tt, with_wire msg s)
  unfolding transmit
  transmit_open msg = ap (λ t. send_to t msg s) up

  -- A command below 2 ^ 16 is noted under its id.
  pub send-command :
      (l l' channel id : ℕ) (rest : Bytes)
      → id < 2 ^ 16
      → send (command l l' channel id rest) s ≡ (
        ok tt,
        with_wire (command l l' channel id rest) (noted id (command l l' channel id rest) s),
      )
  unfolding send
  send-command l l' channel id rest fit =
      let msg = command l l' channel id rest in
      let e : id % 2 ^ 16 % 256 + 256 * (id % 2 ^ 16 / 256 % 256 + 256 * 0) ≡ id = omega arith in
      ap
        (λ t.
          send_to t msg
            (noted (id % 2 ^ 16 % 256 + 256 * (id % 2 ^ 16 / 256 % 256 + 256 * 0)) msg s))
        up
      ∙ ap (λ k. (ok tt, with_wire msg (noted k msg s))) e
