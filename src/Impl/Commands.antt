-- ===== src/Impl/Commands.antt =====
-- Every packet that the session's builders make is a command under an id that they hand out.
use cam_reverse_py.Base.{
  ℕ, ◌+◌, ◌≡◌, refl, sym, subst, Bool, inr, List, [], ◌∷◌, Option, none, some, arith, ok, key_error,
  Text,
}
use cam_reverse_py.DataView.{Bytes, Dv, view}
use cam_reverse_py.Datatypes.{ControlCommand, connect_user, video_param_set, control_value}
use cam_reverse_py.State.{
  State, Action, lift, modify, pure, raise, for_each, continue_with, ◌>>=◌, ◌>>◌,
}
use cam_reverse_py.State.Keeps.{
  Post, Yields, Keeps, Anything, Keeps-lift, Keeps-bind, yields-then, Post-continue,
}
use cam_reverse_py.Link.{send}
use cam_reverse_py.Link.Queued.{IsCommand, IsSendable, IsQueued, AllQueued-mono, send-Keeps}
use cam_reverse_py.Impl.{build_packet, encode_payload, payload_size, user_body, resolution_payload}
use cam_reverse_py.Impl.Requests.{
  make_data_read_write, send_command, send_usr_chk, send_video_resolution,
}
use cam_reverse_py.Impl.Layout.{twenty}

-- The builder's packet, for a buffer of zeros of the given length.
build_shape :
    (command_id : ℕ) (ticket : Bytes) (command : ℕ) (payload : Option Bytes) (n : ℕ)
    → 20 + payload_size payload ≡ n
    → n ≡ twenty (payload_size payload)
    → (packet : Bytes) × (build_packet command_id ticket command payload ≡ ok packet)
      × IsCommand command_id packet
unfolding build_packet
build_shape command_id ticket command none n e e' = (_, refl, (_, _, _, _, refl))
build_shape command_id ticket command (some buf) n e e' = rw (e, e') (_, refl, (_, _, _, _, refl))

-- A packet that the session in this state may send.
abbrev pub CanSend : {App : Type 0} → Bytes → State App → Type 0
CanSend packet s = IsSendable s.session.outgoing_command_id packet

-- No packet, or one that the session may send.
abbrev pub CanSendAll : {App : Type 0} → List Bytes → State App → Type 0
CanSendAll [] s = Unit {0}
CanSendAll (p ∷ []) s = CanSend p s
CanSendAll (p ∷ q ∷ ps) s = ⊥

module _ {App : Type 0} (Holds : Bool → App → Type 0) where
  abbrev P : State App → Type 0
  P = IsQueued Holds

  pub make-yields :
      (command : ℕ) (payload : Option Dv)
      → Yields (IsQueued Holds) (make_data_read_write command payload) CanSend
  unfolding make_data_read_write
  make-yields command payload =
      Keeps-bind P CanSend (lift (encode_payload payload)) _ (Keeps-lift P (encode_payload payload))
        (λ encoded s q.
          let o = s.session.outgoing_command_id in
          let (packet, e, shape) =
            build_shape o s.session.ticket command encoded (20 + payload_size encoded) refl
              (omega arith) in
          subst
            (λ r. Post P CanSend (
              continue_with (r, s)
                (λ ret.
                  modify (λ t. record t { outgoing_command_id = t.outgoing_command_id + 1 })
                  >> pure ret)))
            (sym e)
            (
              (AllQueued-mono o (o + 1) s.session.unacked_drw (omega arith) q.0, q.1),
              inr (o, shape, omega arith),
            ))

  pub send_all-Keeps :
      (packets : List Bytes) (s : State App)
      → IsQueued Holds s
      → CanSendAll packets s
      → Post (IsQueued Holds) (Anything (IsQueued Holds)) (for_each packets send s)
  send_all-Keeps [] s q h = (q, tt)
  send_all-Keeps (p ∷ []) s q h =
      Post-continue P (Anything P) (Anything P) (send p s) (λ _. for_each [] send)
        (send-Keeps Holds p s q h) (λ a t k _. (k, tt))
  send_all-Keeps (p ∷ r ∷ ps) s q h = absurd h

  -- A builder and then the sending of what it built.
  pub build_send-Keeps :
      (build : Action App Bytes)
      → Yields (IsQueued Holds) build CanSend
      → Keeps (IsQueued Holds) (build >>= send)
  build_send-Keeps build h =
      yields-then P CanSend (Anything P) build send h (λ p s q c. send-Keeps Holds p s q c)

  pub command-yields : (c : ControlCommand) → Yields (IsQueued Holds) (send_command c) CanSend
  unfolding send_command
  command-yields c = make-yields (control_value c) none

  pub usr_chk-yields :
      (username password : Text) → Yields (IsQueued Holds) (send_usr_chk username password) CanSend
  unfolding send_usr_chk
  usr_chk-yields username password =
      Keeps-bind P CanSend (lift (user_body username password)) _ (Keeps-lift P _)
        (λ body. make-yields (control_value connect_user) (some (view body 0)))

  resolution-branch :
      (payload : Option Bytes)
      → Yields P
          (elim payload [
            | none ↦ raise key_error
            | some bytes ↦ (do
              pkt ← make_data_read_write (control_value video_param_set) (some (view bytes 0))
              pure (pkt ∷ []))
          ])
          CanSendAll
  resolution-branch none s q = q
  resolution-branch (some bytes) s q =
      yields-then P CanSend CanSendAll
        (make_data_read_write (control_value video_param_set) (some (view bytes 0)))
        (λ pkt. pure (pkt ∷ [])) (make-yields (control_value video_param_set) (some (view bytes 0)))
        (λ pkt t r c. (r, c)) s q

  pub resolution-yields :
      (resol : ℕ) → Yields (IsQueued Holds) (send_video_resolution resol) CanSendAll
  unfolding send_video_resolution
  resolution-yields resol = resolution-branch (resolution_payload resol)
