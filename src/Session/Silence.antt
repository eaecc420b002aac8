-- ===== src/Session/Silence.antt =====
-- The loop of `_sess_timer` (cam_reverse/session.py) for a camera that has fallen silent.
use cam_reverse_py.Base.{
  ℕ, zero, suc, ◌+◌, ◌≤◌, ◌<◌, ◌≡◌, refl, sym, ap, ◌∙◌, subst, subst₂, Bool, true, false,
  Bool-cases, inl, inr, List, [], ◌∷◌, ◌++◌, arith, ltb, ltb-false, if◌then◌else◌, Result, ok,
}
use cam_reverse_py.DataView.{Bytes}
use cam_reverse_py.State.{State, open_transport, closed_transport, pure, continue_with, ◌>>◌}
use cam_reverse_py.Link.{Callbacks, disconnect, emit, send, send_to}
use cam_reverse_py.Impl.{create_empty}
use cam_reverse_py.Session.{sess_tick, sess_tick_started, sess_timer}
use cam_reverse_py.Session.Expiry.{gone_from, ticked, keep_alive, rest_of_round, sess_tick_expired}

module _ {App : Type 0} (callbacks : Callbacks App) where
  -- A round before the timeout is over: at most a keep-alive goes out.
  sess_tick_waits :
      (s : State App)
      → s.session.started ≡ true
      → s.session.transport ≡ open_transport
      → s.clock 0 ≤ s.session.last_received_packet + s.session.timeout_ms
      → (wire : List Bytes) × (sess_tick callbacks s
          ≡ (ok false, record s { wire = wire; clock = λ k. s.clock (suc k) }))
  unfolding sess_tick send create_empty
  sess_tick_waits s started open_ early =
      elim (Bool-cases (ltb (s.session.last_received_packet + 600) (s.clock 0))) [
        | inl e ↦ (
          s.wire ++ (0xF1 ∷ 0xE0 ∷ 0 ∷ 0 ∷ []) ∷ [],
          ap (λ b. (if b then sess_tick_started callbacks else pure false) s) started
              ∙ ap
                  (λ b.
                    continue_with ((if b then keep_alive callbacks s else pure tt) (ticked s))
                      (λ _. rest_of_round callbacks s))
                  e
              ∙ ap
                  (λ t.
                    continue_with (send_to t (0xF1 ∷ 0xE0 ∷ 0 ∷ 0 ∷ []) (ticked s))
                      (λ _. rest_of_round callbacks s))
                  open_
              ∙ ap
                  (λ b.
                    (if b then emit callbacks disconnect >> pure true else pure false) (record s {
                      wire = s.wire ++ (0xF1 ∷ 0xE0 ∷ 0 ∷ 0 ∷ []) ∷ [];
                      clock = λ k. s.clock (suc k);
                    }))
                  (ltb-false (s.session.last_received_packet + s.session.timeout_ms) (s.clock 0)
                    early),
        )
        | inr e ↦ (
          s.wire,
          ap (λ b. (if b then sess_tick_started callbacks else pure false) s) started
              ∙ ap
                  (λ b.
                    continue_with ((if b then keep_alive callbacks s else pure tt) (ticked s))
                      (λ _. rest_of_round callbacks s))
                  e
              ∙ ap
                  (λ b.
                    (if b then emit callbacks disconnect >> pure true else pure false) (ticked s))
                  (ltb-false (s.session.last_received_packet + s.session.timeout_ms) (s.clock 0)
                    early),
        )
      ]

-- The first reading of a clock behind a time.
abbrev pub IsFirstAfter : ℕ → (ℕ → ℕ) → ℕ → Type 0
IsFirstAfter time clock n = ((j : ℕ) → j < n → clock j ≤ time) × (time < clock n)

first_after :
    (k time : ℕ) (clock : ℕ → ℕ) → time < clock k → (n : ℕ) × (n ≤ k) × IsFirstAfter time clock n
first_after zero time clock h = (0, omega arith, ((λ j less. absurd (omega (arith, less))), h))
first_after (suc k) time clock h = elim (Bool-cases (ltb time (clock 0))) [
  | inl e ↦ (0, omega arith, ((λ j less. absurd (omega (arith, less))), ground (arith, e)))
  | inr e ↦
      (let (n, within, first) = first_after k time (λ j. clock (suc j)) h in
        (suc n, omega (arith, within), (early first.0 (ground (arith, e)), first.1)))
]
  where
    early :
        {n : ℕ}
        → ((j : ℕ) → j < n → clock (suc j) ≤ time)
        → clock 0 ≤ time
        → (j : ℕ) → j < suc n
        → clock j ≤ time
    early f z zero less = z
    early f z (suc j) less = f j (omega arith)

goes_past : (clock : ℕ → ℕ) → ((k : ℕ) → clock k < clock (suc k)) → (k : ℕ) → k ≤ clock k
goes_past clock up zero = omega arith
goes_past clock up (suc k) = omega (arith, goes_past clock up k, up k)

module _ {App : Type 0} (callbacks : Callbacks App) (f : App → App)
    (told : (u : State App)
      → callbacks.listener disconnect u ≡ (ok tt, record u { app = f u.app })) where
  -- The loop was still running, and has then ended.
  abbrev Ends : Result Bool × State App → Result Bool × State App → State App → Type 0
  Ends (before, t) (after, u) s =
      (before ≡ ok false)
      × (t.session ≡ s.session)
      × (t.app ≡ s.app)
      × (after ≡ ok true)
      × (u.session ≡ gone_from s.session closed_transport)
      × (u.app ≡ f s.app)

  goes_on :
      (n : ℕ) (s s' : State App)
      → sess_tick callbacks s ≡ (ok false, s')
      → sess_timer callbacks (suc n) s ≡ sess_timer callbacks n s'
  unfolding sess_timer
  goes_on n s s' e =
      ap (λ p. continue_with p (λ ended. if ended then pure true else sess_timer callbacks n)) e

  -- The last round.
  ends :
      (s s' : State App)
      → sess_tick callbacks s ≡ (callbacks.listener disconnect >> pure true) s'
      → sess_timer callbacks 1 s ≡ (ok true, record s' { app = f s'.app })
  unfolding sess_timer
  ends s s' e =
      ap (λ p. continue_with p (λ ended. if ended then pure true else sess_timer callbacks 0))
        (e ∙ ap (λ p. continue_with p (λ _. pure true)) (told s'))

  sess_timer-Ends :
      (n : ℕ) (s : State App)
      → s.session.started ≡ true
      → s.session.connected ≡ true
      → s.session.transport ≡ open_transport
      → 600 ≤ s.session.timeout_ms
      → IsFirstAfter (s.session.last_received_packet + s.session.timeout_ms) s.clock n
      → Ends (sess_timer callbacks n s) (sess_timer callbacks (suc n) s) s
  unfolding sess_timer
  sess_timer-Ends zero s started up open_ long late =
      subst (λ p. Ends (ok false, s) p s)
        (sym (
          ends s _
            (sess_tick_expired callbacks s started up open_ (omega (arith, late.1, long)) late.1)))
        (refl, refl, refl, refl, refl, refl)
  sess_timer-Ends (suc n) s started up open_ long late =
      let (wire, e) = sess_tick_waits callbacks s started open_ (late.0 0 (omega arith)) in
      let s' : State App = record s { wire = wire; clock = λ k. s.clock (suc k) } in
      subst₂ (λ p q. Ends p q s) (sym (goes_on n s s' e)) (sym (goes_on (suc n) s s' e))
        (sess_timer-Ends n s' started up open_ long
          ((λ j less. late.0 (suc j) (omega (arith, less))), late.1))

  -- A started, connected session over an open socket, with a timeout of at least 600 ms, whose camera says no more,
  -- under a clock that goes on from reading to reading: there is a first reading past the timeout, among
  -- the first last_received_packet + timeout_ms + 2. Until then `_sess_timer` runs on and leaves the session and the
  -- program as they are; in that round it ends, with the session given up, its socket closed and the listeners of
  -- `disconnect` called, once. What the listeners do is any change of the program's own state.
  pub sess_timer_lem :
      (s : State App)
      → s.session.started ≡ true
      → s.session.connected ≡ true
      → s.session.transport ≡ open_transport
      → 600 ≤ s.session.timeout_ms
      → ((k : ℕ) → s.clock k < s.clock (suc k))
      → let late = s.session.last_received_packet + s.session.timeout_ms in
        (n : ℕ) × (n ≤ suc late)
        × IsFirstAfter late s.clock n
        × (let (before, t) = sess_timer callbacks n s in
            (before ≡ ok false) × (t.session ≡ s.session) × (t.app ≡ s.app))
        × (let (after, u) = sess_timer callbacks (suc n) s in
            (after ≡ ok true)
            × (u.session ≡ gone_from s.session closed_transport)
            × (u.app ≡ f s.app))
  sess_timer_lem s started up open_ long forward =
      let late = s.session.last_received_packet + s.session.timeout_ms in
      let (n, within, first) =
        first_after (suc late) late s.clock (omega (arith, goes_past s.clock forward (suc late))) in
      let all = sess_timer-Ends n s started up open_ long first in
      (n, within, first, (all.0, all.1, all.2), (all.3, all.4, all.5))
