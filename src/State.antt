-- ===== src/State.antt =====
-- The state that the code of one camera works on: the `Session` object of cam_reverse/session.py,
-- the datagrams that it handed to its socket, the readings of the clock that are still to come, the
-- configuration, and `App`, the state of the program around it.
-- An action is a call: the state comes back after a raise too, since what was written stays.
pub mod Keeps
pub mod Runs
use cam_reverse_py.Base.{
  ℕ, zero, suc, Bool, true, false, Text, List, [], ◌∷◌, ◌++◌, Option, none, some, Result, ok, err,
  Error, ◌==◌, if◌then◌else◌,
}
use cam_reverse_py.DataView.{Bytes}
use cam_reverse_py.Settings.{Fields}

-- `DevSerial` of cam_reverse/impl.py.
pub record DevSerial : Type 0 where
  pub prefix : Text
  pub serial : Text
  pub suffix : Text
  pub serial_u64 : ℕ
  pub dev_id : Text

-- An entry of `unacked_drw`: when the packet was sent, and its bytes.
pub record Unacked : Type 0 where
  pub sent_ts : ℕ
  pub packet : Bytes

-- A dictionary keyed by packet ids, in the order of insertion.
abbrev pub Pending : Type 0
Pending = List (ℕ × Unacked)

abbrev pub put_pending : ℕ → Unacked → Pending → Pending
put_pending k v [] = (k, v) ∷ []
put_pending k v ((j, w) ∷ m) = if j == k then (k, v) ∷ m else (j, w) ∷ put_pending k v m

abbrev pub pop_pending : ℕ → Pending → Pending
pop_pending k [] = []
pop_pending k ((j, w) ∷ m) = if j == k then m else (j, w) ∷ pop_pending k m

pub data Transport : Type 0 where
  no_transport open_transport closed_transport : Transport

pub record Session : Type 0 where
  pub dev : DevSerial
  pub dst_ip : Text
  pub port : ℕ
  pub timeout_ms : ℕ
  pub outgoing_command_id : ℕ
  pub ticket : Bytes
  pub last_received_packet : ℕ
  pub connected : Bool
  pub dev_name : Text
  pub started : Bool
  pub unacked_drw : Pending
  pub cur_image : List Bytes
  pub rcv_seq_id : ℕ
  pub frame_is_bad : Bool
  pub frame_was_fixed : Bool
  pub transport : Transport
  pub timers : Bool

pub record State (App : Type 0) : Type 0 where
  pub session : Session
  pub wire : List Bytes
  pub clock : ℕ → ℕ
  pub config : Fields
  pub app : App

abbrev pub Action : Type 0 → Type 0 → Type 0
Action App A = State App → Result A × State App

abbrev pub Done : Type 0
Done = Unit {0}

module _ {App : Type 0} where
  abbrev pub pure : {A : Type 0} → A → Action App A
  pure a s = (ok a, s)

  abbrev pub raise : {A : Type 0} → Error → Action App A
  raise e s = (err e, s)

  -- A step that does not touch the state.
  abbrev pub lift : {A : Type 0} → Result A → Action App A
  lift r s = (r, s)

  abbrev pub gets : {A : Type 0} → (Session → A) → Action App A
  gets f s = (ok (f s.session), s)

  abbrev pub modify : (Session → Session) → Action App Done
  modify f s = (ok tt, record s { session = f s.session })

  -- What a call that has ended as it did is followed by.
  abbrev pub continue_with :
      {A B : Type 0} → Result A × State App → (A → Action App B) → Result B × State App
  continue_with (ok a, s) f = f a s
  continue_with (err e, s) f = (err e, s)

  infixl 5 ◌>>=◌ ◌>>◌
  abbrev pub ◌>>=◌ : {A B : Type 0} → Action App A → (A → Action App B) → Action App B
  ◌>>=◌ m f s = continue_with (m s) f

  abbrev pub ◌>>◌ : {B : Type 0} → Action App Done → Action App B → Action App B
  m >> k = m >>= λ _. k

  -- A loop over a list.
  abbrev pub for_each : {A : Type 0} → List A → (A → Action App Done) → Action App Done
  for_each [] f s = (ok tt, s)
  for_each (x ∷ xs) f s = (f x >> for_each xs f) s

  -- `_now_ms()`: the next reading of the clock.
  abbrev pub now_ms : Action App ℕ
  now_ms s = (ok (s.clock 0), record s { clock = λ k. s.clock (suc k) })

-- `Session.__init__`.
abbrev pub new_session : DevSerial → Text → ℕ → ℕ → Session
new_session dev ip port timeout_ms = record {
  dev = dev;
  dst_ip = ip;
  port = port;
  timeout_ms = timeout_ms;
  outgoing_command_id = 0;
  ticket = 0 ∷ 0 ∷ 0 ∷ 0 ∷ [];
  last_received_packet = 0;
  connected = true;
  dev_name = dev.dev_id;
  started = false;
  unacked_drw = [];
  cur_image = [];
  rcv_seq_id = 0;
  frame_is_bad = false;
  frame_was_fixed = false;
  transport = no_transport;
  timers = false;
}
