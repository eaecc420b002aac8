-- ===== src/WebServer/Queues.antt =====
-- What the queues of the clients hold.
use cam_reverse_py.Base.{
  ℕ, ◌≤◌, ◌≡◌, refl, sym, ◌∙◌, subst, Bool, false, Bool-cases, inl, inr, List, [], ◌∷◌, ◌++◌, ◌==◌,
  ltb, length, arith, if◌then◌else◌, ◌||◌, ==_refl, ==_iff, length-append,
}
use cam_reverse_py.DataView.{Bytes}
use cam_reverse_py.WebServer.{put_nowait, put_all}

-- Whether a queue is among those of a camera.
abbrev pub is_listed : ℕ → List ℕ → Bool
is_listed q [] = false
is_listed q (x ∷ xs) = x == q || is_listed q xs

-- No queue is listed twice.
abbrev pub NoneTwice : List ℕ → Type 0
NoneTwice [] = Unit {0}
NoneTwice (q ∷ qs) = (is_listed q qs ≡ false) × NoneTwice qs

-- What a queue of a size holds after a chunk was offered to it.
abbrev pub offered : ℕ → Bytes → List Bytes → List Bytes
offered maxsize chunk held = if ltb (length held) maxsize then held ++ chunk ∷ [] else held

put_nowait_same :
    (maxsize : ℕ) (chunk : Bytes) (queue : ℕ → List Bytes) (q : ℕ)
    → put_nowait maxsize chunk queue q q ≡ offered maxsize chunk (queue q)
unfolding put_nowait
put_nowait_same maxsize chunk queue q = elim (Bool-cases (ltb (length (queue q)) maxsize)) [
  | inl e ↦ rw (e, ==_refl q) refl
  | inr e ↦ rw e refl
]

put_nowait_other :
    (maxsize : ℕ) (chunk : Bytes) (queue : ℕ → List Bytes) (q k : ℕ)
    → (q == k) ≡ false
    → put_nowait maxsize chunk queue q k ≡ queue k
unfolding put_nowait
put_nowait_other maxsize chunk queue q k h =
    let other : (k == q) ≡ false = ground (arith, h) in
    elim (Bool-cases (ltb (length (queue q)) maxsize)) [
      | inl e ↦ rw (e, other) refl
      | inr e ↦ rw e refl
    ]

pub put_all_lem :
    (maxsize : ℕ) (chunk : Bytes) (qs : List ℕ) (queue : ℕ → List Bytes) (k : ℕ)
    → NoneTwice qs
    → put_all maxsize chunk qs queue k
      ≡ (if is_listed k qs then offered maxsize chunk (queue k) else queue k)
unfolding put_all
put_all_lem maxsize chunk [] queue k d = refl
put_all_lem maxsize chunk (q ∷ qs) queue k d =
    put_all_lem maxsize chunk qs (put_nowait maxsize chunk queue q) k d.1
    ∙ elim (Bool-cases (q == k)) [
      | inl e ↦
          (let same : q ≡ k = (==_iff q k).0 e in
            subst
              (λ j.
                (if is_listed j qs
                  then offered maxsize chunk (put_nowait maxsize chunk queue q j)
                  else put_nowait maxsize chunk queue q j)
                ≡ (if q == j || is_listed j qs then offered maxsize chunk (queue j) else queue j))
              same (rw (d.0, ==_refl q) (put_nowait_same maxsize chunk queue q)))
      | inr e ↦ rw (e, put_nowait_other maxsize chunk queue q k e) refl
    ]

length-offered :
    (maxsize : ℕ) (chunk : Bytes) (held : List Bytes)
    → length held ≤ maxsize
    → length (offered maxsize chunk held) ≤ maxsize
length-offered maxsize chunk held h = ground (arith, length-append held (chunk ∷ []))

-- A chunk that is put into the queues of a camera, listed once each, goes to the end of every one of them that is not
-- full; the full ones and all other queues keep what they hold. Where every queue is within the size before,
-- every queue is within it after.
pub put_all-offered :
    (maxsize : ℕ) (chunk : Bytes) (qs : List ℕ) (queue : ℕ → List Bytes) (k : ℕ)
    → NoneTwice qs
    → length (queue k) ≤ maxsize
    → (put_all maxsize chunk qs queue k
        ≡ (if is_listed k qs then offered maxsize chunk (queue k) else queue k))
      × (length (put_all maxsize chunk qs queue k) ≤ maxsize)
put_all-offered maxsize chunk qs queue k d h =
    let held = put_all_lem maxsize chunk qs queue k d in
    (
      held,
      subst (λ l. length l ≤ maxsize) (sym held)
          (elim (Bool-cases (is_listed k qs)) [
            | inl e ↦ rw e (length-offered maxsize chunk (queue k) h)
            | inr e ↦ rw e h
          ]),
    )
