-- ===== src/Link/Queued.antt =====
-- The packets that wait for an acknowledgement: each is a command under the id in its bytes, and
-- all ids were handed out before.
use cam_reverse_py.Base.{
  ℕ, ◌+◌, ◌*◌, ◌/◌, ◌%◌, ◌^◌, ◌≤◌, ◌<◌, ◌≡◌, ◌≢◌, sym, ap₂, subst, Bool, false, Bool-cases, inl,
  inr, ◌⊎◌, [], ◌∷◌, arith, ◌==◌, ==_iff, if◌then◌else◌,
}
use cam_reverse_py.DataView.{Bytes}
use cam_reverse_py.State.{
  State, Pending, Unacked, Transport, no_transport, open_transport, closed_transport, put_pending,
  pop_pending, pure, ◌>>◌,
}
use cam_reverse_py.State.Keeps.{Post, Keeps, Anything}
use cam_reverse_py.Link.{send, send_to, transmit, remember}
use cam_reverse_py.Link.Sending.{command, noted}

≢→==-false : (a b : ℕ) → a ≢ b → (a == b) ≡ false
≢→==-false a b h = elim (Bool-cases (a == b)) [ inl e ↦ absurd (h ((==_iff a b).0 e)) | inr e ↦ e ]

-- A packet that is a command under an id of 16 bits.
abbrev pub IsCommand : ℕ → Bytes → Type 0
IsCommand id packet =
    (l : ℕ) × (l' : ℕ) × (channel : ℕ) × (rest : Bytes) × (packet ≡ command l l' channel id rest)

abbrev pub AllQueued : ℕ → Pending → Type 0
AllQueued o [] = Unit {0}
AllQueued o ((id, u) ∷ m) = IsCommand id u.packet × (id < o) × AllQueued o m

-- A session in order, in a program of which something holds: `Holds` is asked of the connection and of the
-- state of the program.
abbrev pub IsQueued : {App : Type 0} → (Bool → App → Type 0) → State App → Type 0
IsQueued Holds s =
    AllQueued s.session.outgoing_command_id s.session.unacked_drw × Holds s.session.connected s.app

pub AllQueued-mono : (o o' : ℕ) (m : Pending) → o ≤ o' → AllQueued o m → AllQueued o' m
AllQueued-mono o o' [] h q = tt
AllQueued-mono o o' ((id, u) ∷ m) h q = (q.0, omega arith, AllQueued-mono o o' m h q.2)

pub AllQueued-pop : (o id : ℕ) (m : Pending) → AllQueued o m → AllQueued o (pop_pending id m)
AllQueued-pop o id [] q = tt
AllQueued-pop o id ((j, u) ∷ m) q = elim (Bool-cases (j == id)) [
  | inl e ↦ rw e q.2
  | inr e ↦ rw e (q.0, q.1, AllQueued-pop o id m q.2)
]

pub AllQueued-put :
    (o id : ℕ) (u : Unacked) (m : Pending)
    → IsCommand id u.packet
    → id < o
    → AllQueued o m
    → AllQueued o (put_pending id u m)
AllQueued-put o id u [] c h q = (c, h, tt)
AllQueued-put o id u ((j, w) ∷ m) c h q = elim (Bool-cases (j == id)) [
  | inl e ↦ rw e (c, h, q.2)
  | inr e ↦ rw e (q.0, q.1, AllQueued-put o id u m c h q.2)
]

-- What may be sent: a command under an id that was handed out, or a packet of another kind.
abbrev pub IsSendable : ℕ → Bytes → Type 0
IsSendable o packet =
    ((kind : ℕ) × (rest : Bytes) × (packet ≡ 0xF1 ∷ kind ∷ rest) × (kind ≢ 0xD0))
    ⊎ ((id : ℕ) × IsCommand id packet × (id % 2 ^ 16 < o))

module _ {App : Type 0} (Holds : Bool → App → Type 0) where
  send_to-Keeps : (t : Transport) (msg : Bytes) → Keeps (IsQueued Holds) (send_to t msg)
  send_to-Keeps no_transport msg s q = (q, tt)
  send_to-Keeps open_transport msg s q = (q, tt)
  send_to-Keeps closed_transport msg s q = (q, tt)

  transmit-Keeps : (msg : Bytes) → Keeps (IsQueued Holds) (transmit msg)
  unfolding transmit
  transmit-Keeps msg s = send_to-Keeps s.session.transport msg s

  send-other :
      (kind : ℕ) (rest : Bytes) → kind ≢ 0xD0 → Keeps (IsQueued Holds) (send (0xF1 ∷ kind ∷ rest))
  unfolding send
  send-other kind rest h s q =
      let msg : Bytes = 0xF1 ∷ kind ∷ rest in
      subst
        (λ b.
          Post (IsQueued Holds) (Anything (IsQueued Holds))
            (((if b then remember msg else pure tt) >> transmit msg) s))
        (sym (≢→==-false (kind + 0xF100) 0xF1D0 (λ e. h (omega arith)))) (transmit-Keeps msg s q)

  send-known :
      (l l' channel id : ℕ) (rest : Bytes) (s : State App)
      → IsQueued Holds s
      → id % 2 ^ 16 < s.session.outgoing_command_id
      → Post (IsQueued Holds) (Anything (IsQueued Holds)) (send (command l l' channel id rest) s)
  unfolding send
  send-known l l' channel id rest s q h =
      let k = id % 2 ^ 16 % 256 + 256 * (id % 2 ^ 16 / 256 % 256 + 256 * 0) in
      let same : k ≡ id % 2 ^ 16 = omega arith in
      let msg = command l l' channel id rest in
      transmit-Keeps msg (noted k msg s) (
        AllQueued-put s.session.outgoing_command_id k (record { sent_ts = s.clock 0; packet = msg })
            s.session.unacked_drw
            (
              l,
              l',
              channel,
              rest,
              ap₂ (λ x y. 0xF1 ∷ 0xD0 ∷ l ∷ l' ∷ 0xD1 ∷ channel ∷ x ∷ y ∷ rest)
                  {x = id % 2 ^ 16 / 256 % 256} {y = k % 2 ^ 16 / 256 % 256} {u = id % 2 ^ 16 % 256}
                  {v = k % 2 ^ 16 % 256} (omega arith) (omega arith),
            )
            (omega arith) q.0,
        q.1,
      )

  -- Sending keeps the queue in order, and hands out no id.
  pub send-Keeps :
      (packet : Bytes) (s : State App)
      → IsQueued Holds s
      → IsSendable s.session.outgoing_command_id packet
      → Post (IsQueued Holds) (Anything (IsQueued Holds)) (send packet s)
  send-Keeps packet s q (inl (kind, rest, e, other)) =
      subst (λ p. Post (IsQueued Holds) (Anything (IsQueued Holds)) (send p s)) (sym e)
        (send-other kind rest other s q)
  send-Keeps packet s q (inr (id, (l, l', channel, rest, e), h)) =
      subst (λ p. Post (IsQueued Holds) (Anything (IsQueued Holds)) (send p s)) (sym e)
        (send-known l l' channel id rest s q h)
