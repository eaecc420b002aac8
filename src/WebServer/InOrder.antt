-- ===== src/WebServer/InOrder.antt =====
-- The sessions of the server with their waiting packets (cam_reverse/session.py) in order.
use cam_reverse_py.Base.{
  ◌≡◌, ap, subst, arith, Bool-cases, inl, inr, [], ◌∷◌, ◌++◌, Text, Option, none, some,
  if◌then◌else◌, text_eq,
}
use cam_reverse_py.Base.Tables.{Table, find, insert, remove}
use cam_reverse_py.Link.Queued.{AllQueued}
use cam_reverse_py.WebServer.{Camera}

-- Every session of the table has its waiting packets in order.
abbrev pub AllInOrder : Table Camera → Type 0
AllInOrder [] = Unit {0}
AllInOrder ((key, c) ∷ m) =
    AllQueued c.session.outgoing_command_id c.session.unacked_drw × AllInOrder m

pub AllInOrder-insert :
    (key : Text) (c : Camera) (m : Table Camera)
    → AllQueued c.session.outgoing_command_id c.session.unacked_drw
    → AllInOrder m
    → AllInOrder (insert key c m)
AllInOrder-insert key c [] q a = (q, tt)
AllInOrder-insert key c ((k, d) ∷ m) q a = elim (Bool-cases (text_eq k key)) [
  | inl e ↦ rw e (q, a.1)
  | inr e ↦ rw e (a.0, AllInOrder-insert key c m q a.1)
]

pub AllInOrder-remove : (key : Text) (m : Table Camera) → AllInOrder m → AllInOrder (remove key m)
AllInOrder-remove key [] a = tt
AllInOrder-remove key ((k, d) ∷ m) a = elim (Bool-cases (text_eq k key)) [
  | inl e ↦ rw e a.1
  | inr e ↦ rw e (a.0, AllInOrder-remove key m a.1)
]

abbrev camera_or : Camera → Option Camera → Camera
camera_or d none = d
camera_or d (some c) = c

pub AllInOrder-find :
    (key : Text) (c : Camera) (m : Table Camera)
    → find key m ≡ some c
    → AllInOrder m
    → AllQueued c.session.outgoing_command_id c.session.unacked_drw
AllInOrder-find key c [] h a = absurd (ground arith)
AllInOrder-find key c ((k, d) ∷ m) h a = elim (Bool-cases (text_eq k key)) [
  | inl e ↦
      (let same : d ≡ c =
          ap (camera_or c) (subst (λ b. (if b then some d else find key m) ≡ some c) e h) in
        subst (λ x. AllQueued x.session.outgoing_command_id x.session.unacked_drw) same a.0)
  | inr e ↦
      AllInOrder-find key c m (subst (λ b. (if b then some d else find key m) ≡ some c) e h) a.1
]

-- A session in the midst of others.
pub AllInOrder-amid :
    (before : Table Camera) (key : Text) (c : Camera) (after : Table Camera)
    → AllInOrder (before ++ (key, c) ∷ after)
    → AllQueued c.session.outgoing_command_id c.session.unacked_drw
AllInOrder-amid [] key c after a = a.0
AllInOrder-amid ((k, d) ∷ m) key c after a = AllInOrder-amid m key c after a.1

pub AllInOrder-replace :
    (before : Table Camera) (key : Text) (c d : Camera) (after : Table Camera)
    → AllQueued d.session.outgoing_command_id d.session.unacked_drw
    → AllInOrder (before ++ (key, c) ∷ after)
    → AllInOrder (before ++ (key, d) ∷ after)
AllInOrder-replace [] key c d after q a = (q, a.1)
AllInOrder-replace ((k, e) ∷ m) key c d after q a = (a.0, AllInOrder-replace m key c d after q a.1)
