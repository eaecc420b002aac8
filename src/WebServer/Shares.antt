-- ===== src/WebServer/Shares.antt =====
-- What a camera has of the server: its session, and its clients with what waits for them; and what the calls of
-- another camera's session leave of it (cam_reverse/http_server.py and session.py).
use cam_reverse_py.Base.{
  ℕ, ◌≡◌, refl, sym, ap, ◌∙◌, subst, ◌<◌, ◌⊎◌, inl, inr, arith, Bool, true, false, Bool-cases, List,
  [], ◌∷◌, Text, Option, none, some, text_eq, text_eq_refl, ==_refl,
}
use cam_reverse_py.Base.Tables.{find, find-insert_other, find-remove_other}
use cam_reverse_py.DataView.{Bytes}
use cam_reverse_py.State.{State}
use cam_reverse_py.Link.Queued.{AllQueued}
use cam_reverse_py.WebServer.{Camera, Server, put_all}
use cam_reverse_py.WebServer.Cameras.{run_on, keep_session}
use cam_reverse_py.WebServer.Queues.{is_listed, put_all_lem}
use cam_reverse_py.WebServer.Ownership.{Owner, Owns, size_of}
use cam_reverse_py.WebServer.InOrder.{AllInOrder-find}
use cam_reverse_py.WebServer.Sound.{IsSound}
use cam_reverse_py.WebServer.Calls.{Call, run_call, called, run_on-Keeps}

-- The queues of a list, each with what waits in it.
abbrev pub held : (ℕ → List Bytes) → List ℕ → List (ℕ × List Bytes)
held queue [] = []
held queue (q ∷ qs) = (q, queue q) ∷ held queue qs

abbrev pub listed : Option (List ℕ) → List ℕ
listed none = []
listed (some qs) = qs

abbrev pub Share : Type 0
Share = Option Camera × List (ℕ × List Bytes) × List (ℕ × List Bytes)

abbrev pub share : Text → Server → Share
share dev_id w = (
  find dev_id w.sessions,
  held w.queue (listed (find dev_id w.video_queues)),
  held w.queue (listed (find dev_id w.audio_queues)),
)

-- A queue of a camera.
abbrev pub IsOf : Text → Server → ℕ → Type 0
IsOf dev_id w k =
    (is_listed k (listed (find dev_id w.video_queues)) ≡ true)
    ⊎ (is_listed k (listed (find dev_id w.audio_queues)) ≡ true)

held_same :
    (queue queue' : ℕ → List Bytes) (qs : List ℕ)
    → ((k : ℕ) → is_listed k qs ≡ true → queue' k ≡ queue k)
    → held queue' qs ≡ held queue qs
held_same queue queue' [] h = refl
held_same queue queue' (q ∷ qs) h =
    ap (λ l. (q, l) ∷ held queue' qs) (h q (ground (arith, ==_refl q)))
    ∙ ap (λ l. (q, queue q) ∷ l) (held_same queue queue' qs (λ k l. h k (ground (arith, l))))

-- The entries of the camera are the same, and what waits in its queues.
pub share_same :
    (dev_id : Text) (w v : Server)
    → find dev_id v.sessions ≡ find dev_id w.sessions
    → find dev_id v.video_queues ≡ find dev_id w.video_queues
    → find dev_id v.audio_queues ≡ find dev_id w.audio_queues
    → ((k : ℕ) → IsOf dev_id w k → v.queue k ≡ w.queue k)
    → share dev_id v ≡ share dev_id w
share_same dev_id w v sessions videos audios same =
    ap
      (λ c. (
        c,
        held v.queue (listed (find dev_id v.video_queues)),
        held v.queue (listed (find dev_id v.audio_queues)),
      ))
      sessions
    ∙ ap
        (λ o. (
          find dev_id w.sessions,
          held v.queue (listed o),
          held v.queue (listed (find dev_id v.audio_queues)),
        ))
        videos
    ∙ ap
        (λ o. (
          find dev_id w.sessions,
          held v.queue (listed (find dev_id w.video_queues)),
          held v.queue (listed o),
        ))
        audios
    ∙ ap (λ l. (find dev_id w.sessions, l, held v.queue (listed (find dev_id w.audio_queues))))
        (held_same w.queue v.queue (listed (find dev_id w.video_queues)) (λ k l. same k (inl l)))
    ∙ ap (λ l. (find dev_id w.sessions, held w.queue (listed (find dev_id w.video_queues)), l))
        (held_same w.queue v.queue (listed (find dev_id w.audio_queues)) (λ k l. same k (inr l)))

owned :
    (owner : Owner) (kind : Bool) (next k : ℕ) (queue : ℕ → List Bytes) (dev_id : Text)
    (o : Option (List ℕ))
    → ((qs : List ℕ) → o ≡ some qs → Owns owner kind next queue dev_id qs)
    → is_listed k (listed o) ≡ true
    → (owner k ≡ (kind, dev_id)) × (k < next)
owned owner kind next k queue dev_id none a l = absurd (ground arith)
owned owner kind next k queue dev_id (some qs) a l =
    let (mine, below, fits) = (a qs refl).1 k l in (mine, below)

-- A queue of a camera has it as its owner, and a number that was given.
pub IsOf-owner :
    (owner : Owner) (dev_id : Text) (w : Server) (k : ℕ)
    → IsSound owner w
    → IsOf dev_id w k
    → ((owner k).1 ≡ dev_id) × (k < w.next_queue)
IsOf-owner owner dev_id w k s (inl l) =
    let (mine, below) =
      owned owner true w.next_queue k w.queue dev_id (find dev_id w.video_queues) (s.2 dev_id) l in
    (ap (λ p. p.1) mine, below)
IsOf-owner owner dev_id w k s (inr l) =
    let (mine, below) =
      owned owner false w.next_queue k w.queue dev_id (find dev_id w.audio_queues) (s.3 dev_id) l in
    (ap (λ p. p.1) mine, below)

text_differs : (a b : Text) → text_eq a b ≡ false → (T : Type 0) → a ≡ b → T
text_differs a b h T e =
    let same : true ≡ false = sym (text_eq_refl a) ∙ subst (λ t. text_eq a t ≡ false) (sym e) h in
    absurd (ground (arith, same))

-- A chunk for the clients of one camera does not reach those of another.
put_all_elsewhere :
    (owner : Owner) (kind : Bool) (next : ℕ) (queue queue' : ℕ → List Bytes) (dev_id : Text)
    (qs : List ℕ) (chunk : Bytes) (k : ℕ)
    → Owns owner kind next queue' dev_id qs
    → text_eq dev_id (owner k).1 ≡ false
    → put_all (size_of kind) chunk qs queue k ≡ queue k
put_all_elsewhere owner kind next queue queue' dev_id qs chunk k o h =
    put_all_lem (size_of kind) chunk qs queue k o.0 ∙ elim (Bool-cases (is_listed k qs)) [
      | inl e ↦ text_differs dev_id (owner k).1 h _ (sym (ap (λ p. p.1) (o.1 k e).0))
      | inr e ↦ rw e refl
    ]

abbrev IsElsewhere : Text → Server → Server → Type 0
IsElsewhere other w v =
    (find other v.sessions ≡ find other w.sessions)
    × (v.video_queues ≡ w.video_queues)
    × (v.audio_queues ≡ w.audio_queues)
    × ((k : ℕ) → IsOf other w k → v.queue k ≡ w.queue k)

-- A call on a session, in the table or not, leaves the tables of queues, the session of any other camera and the
-- queues of its clients.
run_on-IsElsewhere :
    (owner : Owner) (dev_id other : Text) (clock : ℕ → ℕ) (call : Call) (c : Camera) (w : Server)
    → AllQueued c.session.outgoing_command_id c.session.unacked_drw
    → IsSound owner w
    → text_eq dev_id other ≡ false
    → IsElsewhere other w (run_on dev_id c clock (run_call call) w).1.app
run_on-IsElsewhere owner dev_id other clock call c w a s d =
    (run_on-Keeps (IsElsewhere other w) dev_id
      (λ v chunk qs h i. (
        i.0,
        i.1,
        i.2,
        λ k mine.
            put_all_elsewhere owner true w.next_queue v.queue w.queue dev_id qs chunk k
              (s.2 dev_id qs (subst (λ m. find dev_id m ≡ some qs) i.1 h)) (apart k mine)
            ∙ i.3 k mine,
      ))
      (λ v chunk qs h i. (
        i.0,
        i.1,
        i.2,
        λ k mine.
            put_all_elsewhere owner false w.next_queue v.queue w.queue dev_id qs chunk k
              (s.3 dev_id qs (subst (λ m. find dev_id m ≡ some qs) i.2 h)) (apart k mine)
            ∙ i.3 k mine,
      ))
      (λ v i. (find-remove_other other dev_id v.sessions d ∙ i.0, i.1, i.2, i.3)) clock call c w a
      (refl, refl, refl, λ k mine. refl)).1
  where
    apart : (k : ℕ) → IsOf other w k → text_eq dev_id (owner k).1 ≡ false
    apart k mine =
        subst (λ t. text_eq dev_id t ≡ false) (sym (IsOf-owner owner other w k s mine).0) d

pub run_on-elsewhere :
    (owner : Owner) (dev_id other : Text) (clock : ℕ → ℕ) (call : Call) (c : Camera) (w : Server)
    → AllQueued c.session.outgoing_command_id c.session.unacked_drw
    → IsSound owner w
    → text_eq dev_id other ≡ false
    → share other (run_on dev_id c clock (run_call call) w).1.app ≡ share other w
run_on-elsewhere owner dev_id other clock call c w a s d =
    let i = run_on-IsElsewhere owner dev_id other clock call c w a s d in
    share_same other w (run_on dev_id c clock (run_call call) w).1.app i.0 (ap (find other) i.1)
      (ap (find other) i.2) i.3

pub called-elsewhere :
    (owner : Owner) (dev_id other : Text) (clock : ℕ → ℕ) (call : Call) (w : Server)
    (o : Option Camera)
    → find dev_id w.sessions ≡ o
    → IsSound owner w
    → text_eq dev_id other ≡ false
    → share other (called dev_id clock call w o).1 ≡ share other w
called-elsewhere owner dev_id other clock call w none e s d = refl
called-elsewhere owner dev_id other clock call w (some c) e s d =
    let t = (run_on dev_id c clock (run_call call) w).1 in
    let i =
      kept t
        (run_on-IsElsewhere owner dev_id other clock call c w
          (AllInOrder-find dev_id c w.sessions e s.1) s d)
        (find dev_id t.app.sessions) in
    share_same other w (keep_session dev_id t.session (find dev_id t.app.sessions) t.app) i.0
      (ap (find other) i.1) (ap (find other) i.2) i.3
  where
    kept :
        (t : State Server)
        → IsElsewhere other w t.app
        → (o : Option Camera) → IsElsewhere other w (keep_session dev_id t.session o t.app)
    kept t i none = i
    kept t i (some b) = (
      find-insert_other other dev_id (record b { session = t.session }) t.app.sessions d ∙ i.0,
      i.1,
      i.2,
      i.3,
    )
