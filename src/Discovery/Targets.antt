-- ===== src/Discovery/Targets.antt =====
-- Which addresses are searched, and whose answers are heard.
use cam_reverse_py.Base.{
  ◌≡◌, refl, ap, ◌∙◌, subst, Bool, true, false, Bool-cases, inl, inr, ◌||◌, List, [], ◌∷◌, ◌++◌,
  Text, text_eq, none, some, arith, length, ◌≤◌, text_eq_comm, text_eq→eq, ◌>>=◌, if◌then◌else◌, ok,
  bind_ok,
}
use cam_reverse_py.DataView.{Bytes, view}
use cam_reverse_py.DataView.Words.{IsBytes}
use cam_reverse_py.Settings.{Fields, Items, nil, cons, str, arr, codes, get}
use cam_reverse_py.State.{DevSerial}
use cam_reverse_py.Parsers.Serial.{IsName, padded, device, make_p2p_rdy-parse_punch_pkt}
use cam_reverse_py.Impl.{parse_punch_pkt}
use cam_reverse_py.Discovery.{
  Search, is_item, is_active, add_target, add_targets, is_blacklisted, handle_incoming_punch,
}

-- No address is listed twice.
abbrev pub AreDistinct : List Text → Type 0
AreDistinct [] = Unit {0}
AreDistinct (x ∷ xs) = (is_active x xs ≡ false) × AreDistinct xs

is_active-append :
    (ip x : Text) (xs : List Text) → is_active ip (xs ++ x ∷ []) ≡ is_active ip xs || text_eq x ip
is_active-append ip x [] = ground arith
is_active-append ip x (y ∷ ys) = ground (arith, is_active-append ip x ys)

AreDistinct-append :
    (x : Text) (xs : List Text)
    → is_active x xs ≡ false
    → AreDistinct xs
    → AreDistinct (xs ++ x ∷ [])
AreDistinct-append x [] h d = (refl, tt)
AreDistinct-append x (y ∷ ys) h d =
    let other : text_eq x y ≡ false = ground (arith, h, text_eq_comm x y) in
    let apart : is_active y (ys ++ x ∷ []) ≡ false =
      ground (arith, d.0, other, is_active-append y x ys) in
    let later : is_active x ys ≡ false = ground (arith, h) in
    (apart, AreDistinct-append x ys later d.1)

-- A search in order: one task for every active address.
abbrev pub IsSearch : Search → Type 0
IsSearch d = (d.tasks ≡ d.active) × AreDistinct d.active

absorbed :
    (x ip : Text) (xs : List Text)
    → is_active x xs ≡ true
    → is_active ip xs ≡ is_active ip xs || text_eq x ip
absorbed x ip xs h = elim (Bool-cases (text_eq x ip)) [
  | inl e ↦
      (let listed = subst (λ t. is_active t xs ≡ true) (text_eq→eq x ip e) h in
        ground (arith, e, listed))
  | inr e ↦ ground (arith, e)
]

or_false : (b : Bool) → b ≡ b || false
or_false true = refl
or_false false = refl

or_assoc : (a b c : Bool) → (a || b) || c ≡ a || (b || c)
or_assoc true b c = refl
or_assoc false b c = refl

add_target-IsSearch :
    (x ip : Text) (d : Search)
    → IsSearch d
    → IsSearch (add_target x d)
      × (is_active ip (add_target x d).active ≡ is_active ip d.active || text_eq x ip)
unfolding add_target
add_target-IsSearch x ip d h = elim (Bool-cases (is_active x d.active)) [
  | inl e ↦ rw e (h, absorbed x ip d.active e)
  | inr e ↦ rw e (
    (ap (λ l. l ++ x ∷ []) h.0, AreDistinct-append x d.active e h.1),
    is_active-append ip x d.active,
  )
]

-- Whatever addresses are added to a search in order, repeated ones included, it stays in order: there is exactly
-- one task for each active address, every added address is active, and the ones from before are too.
pub add_targets-IsSearch :
    (ips : List Text) (ip : Text) (d : Search)
    → IsSearch d
    → IsSearch (add_targets ips d)
      × (is_active ip (add_targets ips d).active ≡ is_active ip d.active || is_active ip ips)
unfolding add_targets add_target
add_targets-IsSearch [] ip d h = (h, or_false (is_active ip d.active))
add_targets-IsSearch (x ∷ ips) ip d h =
    let first = add_target-IsSearch x ip d h in
    let others = add_targets-IsSearch ips ip (add_target x d) first.0 in
    (
      others.0,
      others.1
          ∙ ap (λ b. b || is_active ip ips) first.1
          ∙ or_assoc (is_active ip d.active) (text_eq x ip) (is_active ip ips),
    )

answer_of :
    (packet : Bytes) (dev : DevSerial) (dropped : Bool)
    → parse_punch_pkt (view packet 0) ≡ ok dev
    → (if dropped then ok none else (parse_punch_pkt (view packet 0) >>= λ d. ok (some d)))
      ≡ ok (if dropped then none else some dev)
answer_of packet dev true e = refl
answer_of packet dev false e = bind_ok _ e refl

-- A configuration whose blacklist is this list of addresses.
abbrev pub texts : List Text → Items
texts [] = nil
texts (ip ∷ ips) = cons (str ip) (texts ips)

abbrev pub HasBlacklist : Fields → List Text → Type 0
HasBlacklist config ips = get (codes "blacklisted_ips") config ≡ some (arr (texts ips))

is_item-texts : (ip : Text) (ips : List Text) → is_item ip (texts ips) ≡ is_active ip ips
is_item-texts ip [] = refl
is_item-texts ip (x ∷ ips) = ap (λ b. text_eq x ip || b) (is_item-texts ip ips)

is_blacklisted_lem :
    (config : Fields) (sender : Text) (ips : List Text)
    → HasBlacklist config ips
    → is_blacklisted config sender ≡ ok (is_active sender ips)
unfolding is_blacklisted
is_blacklisted_lem config sender ips h = rw h (ap ok (is_item-texts sender ips))

-- A camera's answer to discovery is told to the listeners, with the prefix, serial and suffix that it holds,
-- exactly where its sender is none of the addresses that the configuration lists under "blacklisted_ips".
pub handle_incoming_punch_lem :
    (config : Fields) (sender : Text) (prefix serial suffix : Bytes) (ips : List Text)
    → HasBlacklist config ips
    → IsName prefix
    → IsName suffix
    → length prefix ≤ 4
    → length suffix ≤ 8
    → IsBytes serial
    → length serial ≡ 8
    → handle_incoming_punch config
        (0xF1 ∷ 0x41 ∷ 0 ∷ 0x14 ∷ (padded 4 prefix ++ (serial ++ padded 8 suffix)))
        sender
      ≡ ok (if is_active sender ips then none else some (device prefix serial suffix))
unfolding handle_incoming_punch
handle_incoming_punch_lem config sender prefix serial suffix ips h n n' s s' b eight =
    bind_ok _ (is_blacklisted_lem config sender ips h) (
      answer_of (241 ∷ 65 ∷ 0 ∷ 20 ∷ (padded 4 prefix ++ (serial ++ padded 8 suffix)))
        (device prefix serial suffix) (is_active sender ips)
        (make_p2p_rdy-parse_punch_pkt prefix serial suffix n n' s s' b eight).0)
