-- ===== src/Link/Ending.antt =====
-- The end of a session comes once.
use cam_reverse_py.Base.{
  ◌≡◌, refl, sym, ap, subst, ◌∙◌, Bool, false, Bool-cases, inl, inr, if◌then◌else◌, ok,
}
use cam_reverse_py.State.{State, Session}
use cam_reverse_py.Settings.{codes}
use cam_reverse_py.Link.{Callbacks, disconnect, disconnected, close_transport, emit, close}

abbrev pub disconnected_if : Bool → Session → Session
disconnected_if b s =
    if b
    then record s {
      dst_ip = codes "0.0.0.0";
      connected = false;
      timers = false;
      transport = close_transport s.transport;
    }
    else s

disconnected_twice : (s : Session) → disconnected (disconnected s) ≡ disconnected s
disconnected_twice s = elim (Bool-cases s.connected) [
  | inl e ↦ subst (λ b. disconnected (disconnected_if b s) ≡ disconnected_if b s) (sym e) refl
  | inr e ↦
      subst (λ b. disconnected (disconnected_if b s) ≡ disconnected_if b s) (sym e)
        (ap (λ b. disconnected_if b s) e)
]

not_connected : (s : Session) → (disconnected s).connected ≡ false
not_connected s = elim (Bool-cases s.connected) [
  | inl e ↦ ap (λ b. (disconnected_if b s).connected) e
  | inr e ↦ ap (λ b. (disconnected_if b s).connected) e ∙ e
]

-- Where the listeners of `disconnect` leave the state alone, `close` disconnects the session and raises
-- nothing, and a second `close` changes nothing at all.
pub close_twice :
    {App : Type 0} (callbacks : Callbacks App) (s : State App)
    → ((t : State App) → callbacks.listener disconnect t ≡ (ok tt, t))
    → let s' = record s { session = disconnected s.session } in
      (close callbacks s ≡ (ok tt, s'))
      × (s'.session.connected ≡ false)
      × (close callbacks s' ≡ (ok tt, s'))
unfolding close emit
close_twice callbacks s quiet =
    let s' = record s { session = disconnected s.session } in
    (
      quiet s',
      not_connected s.session,
      quiet (record s' { session = disconnected s'.session })
          ∙ ap (λ t. (ok tt, record s { session = t })) (disconnected_twice s.session),
    )
