-- ===== src/WebServer/Ownership.antt =====
-- Every queue stands in one list of one camera, once, and holds no more than its size.
use cam_reverse_py.Base.{
  ℕ, suc, ◌≤◌, ◌<◌, ◌≡◌, refl, sym, ap, ◌∙◌, subst, arith, Bool, true, false, Bool-cases, inl, inr,
  List, [], ◌∷◌, ◌++◌, Text, Option, none, some, ◌==◌, ◌||◌, length, if◌then◌else◌, Result, ok, err,
  bind, text_eq, text_eq→eq,
}
use cam_reverse_py.Base.Tables.{Table, find, insert, find-insert, find-insert_other}
use cam_reverse_py.DataView.{Bytes}
use cam_reverse_py.WebServer.{set_queue, put_all, video_size, audio_size}
use cam_reverse_py.WebServer.Streams.{take_out}
use cam_reverse_py.WebServer.Queues.{is_listed, NoneTwice, offered, put_all-offered, put_all_lem}

-- The kind of a queue, `true` for video, and its camera.
abbrev pub Owner : Type 0
Owner = ℕ → Bool × Text

abbrev pub size_of : Bool → ℕ
size_of true = video_size
size_of false = audio_size

abbrev held_by : Option (List ℕ) → List ℕ
held_by none = []
held_by (some qs) = qs

abbrev IsWithin : List ℕ → List ℕ → Type 0
IsWithin qs rest = NoneTwice rest × ((k : ℕ) → is_listed k rest ≡ true → is_listed k qs ≡ true)

take_out-NoneTwice :
    (q : ℕ) (qs rest : List ℕ) → take_out q qs ≡ ok rest → NoneTwice qs → IsWithin qs rest
take_out-NoneTwice q [] rest e d = absurd (ground arith)
take_out-NoneTwice q (x ∷ xs) rest e d = elim (Bool-cases (x == q)) [
  | inl f ↦
      first
        (subst (λ b. (if b then ok xs else bind (λ r. ok (x ∷ r)) (take_out q xs)) ≡ ok rest) f e)
  | inr f ↦
      later (take_out q xs) (λ r g. take_out-NoneTwice q xs r g d.1)
        (subst (λ b. (if b then ok xs else bind (λ r. ok (x ∷ r)) (take_out q xs)) ≡ ok rest) f e)
]
  where
    from : Result (List ℕ) → List ℕ
    from (ok r) = r
    from (err e) = []

    first : ok xs ≡ ok rest → IsWithin (x ∷ xs) rest
    first h = subst (IsWithin (x ∷ xs)) (ap from h) (d.1, λ k l. ground (arith, l))

    later :
        (r : Result (List ℕ))
        → ((l : List ℕ) → r ≡ ok l → IsWithin xs l)
        → bind (λ l. ok (x ∷ l)) r ≡ ok rest
        → IsWithin (x ∷ xs) rest
    later (err e) f h = absurd (ground arith)
    later (ok r) f h =
        let (once, within) = f r refl in
        subst (IsWithin (x ∷ xs)) (ap from h) (
          (
            elim (Bool-cases (is_listed x r)) [
              | inl g ↦ absurd (let there = within x g in ground (arith, there, d.0))
              | inr g ↦ g
            ],
            once,
          ),
          λ k l. elim (Bool-cases (is_listed k r)) [
            | inl g ↦ (let there = within k g in ground (arith, there))
            | inr g ↦ ground (arith, l, g)
          ],
        )

is_listed-append : (k q : ℕ) (qs : List ℕ) → is_listed k (qs ++ q ∷ []) ≡ is_listed k qs || q == k
is_listed-append k q [] = ground arith
is_listed-append k q (x ∷ qs) = ground (arith, is_listed-append k q qs)

NoneTwice-append :
    (q : ℕ) (qs : List ℕ) → is_listed q qs ≡ false → NoneTwice qs → NoneTwice (qs ++ q ∷ [])
NoneTwice-append q [] h d = (refl, tt)
NoneTwice-append q (x ∷ qs) h d =
    (ground (arith, is_listed-append x q qs, d.0, h), NoneTwice-append q qs (ground (arith, h)) d.1)

module _ (owner : Owner) (kind : Bool) (next : ℕ) (queue : ℕ → List Bytes) where
  -- The list of queues of a camera.
  abbrev pub Owns : Text → List ℕ → Type 0
  Owns dev_id qs =
      NoneTwice qs
      × ((k : ℕ)
          → is_listed k qs ≡ true
          → (owner k ≡ (kind, dev_id)) × (k < next) × (length (queue k) ≤ size_of kind))

  abbrev pub AllOwn : Table (List ℕ) → Type 0
  AllOwn table = (dev_id : Text) (qs : List ℕ) → find dev_id table ≡ some qs → Owns dev_id qs

  pub Owns-nil : (dev_id : Text) → Owns dev_id []
  Owns-nil dev_id = (tt, λ k h. absurd (ground arith))

  pub AllOwn-insert :
      (dev_id : Text) (qs : List ℕ) (table : Table (List ℕ))
      → Owns dev_id qs
      → AllOwn table
      → AllOwn (insert dev_id qs table)
  AllOwn-insert dev_id qs table o a key rs h = elim (Bool-cases (text_eq dev_id key)) [
    | inl e ↦
        (let same : dev_id ≡ key = text_eq→eq dev_id key e in
          let list : qs ≡ rs = ap held_by (
            sym (find-insert dev_id qs table)
            ∙ subst (λ k. find k (insert dev_id qs table) ≡ some rs) (sym same) h) in
          subst (λ k. Owns k rs) same (subst (Owns dev_id) list o))
    | inr e ↦ a key rs (sym (find-insert_other key dev_id qs table e) ∙ h)
  ]

  pub Owns-take_out :
      (q : ℕ) (dev_id : Text) (qs rest : List ℕ)
      → take_out q qs ≡ ok rest
      → Owns dev_id qs
      → Owns dev_id rest
  Owns-take_out q dev_id qs rest e o =
      let (once, within) = take_out-NoneTwice q qs rest e o.0 in (once, λ k l. o.1 k (within k l))

-- What the queues of another owner hold is of no account to a list.
pub AllOwn-put :
    (owner : Owner) (kind kind' : Bool) (next : ℕ) (queue : ℕ → List Bytes) (dev_id : Text)
    (qs : List ℕ) (chunk : Bytes) (table : Table (List ℕ))
    → Owns owner kind next queue dev_id qs
    → AllOwn owner kind' next queue table
    → AllOwn owner kind' next (put_all (size_of kind) chunk qs queue) table
AllOwn-put owner kind kind' next queue dev_id qs chunk table o a key rs h = (
  (a key rs h).0,
  λ k l.
      let (mine, below, fits) = (a key rs h).1 k l in
      (
        mine,
        below,
        elim (Bool-cases (is_listed k qs)) [
          | inl e ↦
              (let same : kind ≡ kind' = ap (λ p. p.0) (sym ((o.1 k e).0) ∙ mine) in
                subst (λ b. length (put_all (size_of kind) chunk qs queue k) ≤ size_of b) same
                  (put_all-offered (size_of kind) chunk qs queue k o.0 (o.1 k e).2).1)
          | inr e ↦
              subst (λ l. length l ≤ size_of kind')
                (sym (
                  put_all_lem (size_of kind) chunk qs queue k o.0
                  ∙ ap (λ b. if b then offered (size_of kind) chunk (queue k) else queue k) e))
                fits
        ],
      ),
)

-- A queue that loses chunks stays within its size.
pub AllOwn-shrink :
    (owner : Owner) (kind : Bool) (next : ℕ) (queue queue' : ℕ → List Bytes)
    (table : Table (List ℕ))
    → ((k : ℕ) → length (queue' k) ≤ length (queue k))
    → AllOwn owner kind next queue table
    → AllOwn owner kind next queue' table
AllOwn-shrink owner kind next queue queue' table s a key rs h = (
  (a key rs h).0,
  λ k l. let (mine, below, fits) = (a key rs h).1 k l in (mine, below, omega (arith, s k)),
)

-- A new queue gets its owner.
abbrev pub with_owner : Owner → ℕ → Bool → Text → Owner
with_owner owner q kind dev_id k = if k == q then (kind, dev_id) else owner k

pub Owns-new :
    (owner : Owner) (kind : Bool) (next : ℕ) (queue : ℕ → List Bytes) (dev_id : Text) (qs : List ℕ)
    → Owns owner kind next queue dev_id qs
    → Owns
        (with_owner owner next kind dev_id)
        kind
        (suc next)
        (set_queue next [] queue)
        dev_id
        (qs ++ next ∷ [])
Owns-new owner kind next queue dev_id qs o = (
  NoneTwice-append next qs
      (elim (Bool-cases (is_listed next qs)) [
        | inl e ↦ absurd (omega (arith, (o.1 next e).1))
        | inr e ↦ e
      ])
      o.0,
  λ k l. elim (Bool-cases (k == next)) [
    | inl e ↦ rw e (refl, ground (arith, e), omega arith)
    | inr e ↦
        (let (mine, below, fits) = o.1 k (ground (arith, is_listed-append k next qs, l, e)) in
          rw e (mine, omega (arith, below), fits))
  ],
)

pub AllOwn-new :
    (owner : Owner) (kind kind' : Bool) (next : ℕ) (queue : ℕ → List Bytes) (dev_id : Text)
    (table : Table (List ℕ))
    → AllOwn owner kind' next queue table
    → AllOwn (with_owner owner next kind dev_id) kind' (suc next) (set_queue next [] queue) table
AllOwn-new owner kind kind' next queue dev_id table a key rs h = (
  (a key rs h).0,
  λ k l.
      let (mine, below, fits) = (a key rs h).1 k l in
      let other : (k == next) ≡ false = ground (arith, below) in
      rw other (mine, omega (arith, below), fits),
)
