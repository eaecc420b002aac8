-- ===== src/WebServer/Sound.antt =====
-- What holds of the server's tables at any time, and how the sessions and the search keep it
-- (cam_reverse/http_server.py).
use cam_reverse_py.Base.{
  ℕ, ◌≡◌, refl, Bool, true, false, [], Text, Option, none, some, Result, ok, err,
}
use cam_reverse_py.Base.Tables.{find}
use cam_reverse_py.Settings.{Fields}
use cam_reverse_py.State.{State, DevSerial}
use cam_reverse_py.Link.Queued.{AllQueued}
use cam_reverse_py.WebServer.{Camera, Server}
use cam_reverse_py.WebServer.Cameras.{
  discover_unless, finish_discover, registered, run_on, keep_session,
}
use cam_reverse_py.WebServer.Keeps.{IsServed, discover-IsServed, changes-IsServed}
use cam_reverse_py.WebServer.Tables.{Covers-remove}
use cam_reverse_py.WebServer.Ownership.{Owner, AllOwn, Owns-nil, AllOwn-insert, AllOwn-put}
use cam_reverse_py.WebServer.Calls.{
  Call, Loose, run_call, called, dropped, after_call, taken, run_on-Keeps,
}
use cam_reverse_py.WebServer.InOrder.{
  AllInOrder, AllInOrder-insert, AllInOrder-remove, AllInOrder-find,
}

-- The tables of the server, for queues with these owners.
abbrev pub IsSound : Owner → Server → Type 0
IsSound owner w =
    IsServed w
    × AllInOrder w.sessions
    × AllOwn owner true w.next_queue w.queue w.video_queues
    × AllOwn owner false w.next_queue w.queue w.audio_queues

abbrev Ended : Owner → State Server → Type 0
Ended owner t = AllQueued t.session.outgoing_command_id t.session.unacked_drw × IsSound owner t.app

-- A session in order is called, in the table or not.
pub run_on-IsSound :
    (owner : Owner) (dev_id : Text) (clock : ℕ → ℕ) (call : Call) (c : Camera) (w : Server)
    → AllQueued c.session.outgoing_command_id c.session.unacked_drw
    → IsSound owner w
    → Ended owner (run_on dev_id c clock (run_call call) w).1
run_on-IsSound owner dev_id clock call c w =
    run_on-Keeps (IsSound owner) dev_id
      (λ v chunk qs h i. (
        i.0,
        i.1,
        AllOwn-put owner true true v.next_queue v.queue dev_id qs chunk v.video_queues
            (i.2 dev_id qs h) i.2,
        AllOwn-put owner true false v.next_queue v.queue dev_id qs chunk v.audio_queues
            (i.2 dev_id qs h) i.3,
      ))
      (λ v chunk qs h i. (
        i.0,
        i.1,
        AllOwn-put owner false true v.next_queue v.queue dev_id qs chunk v.video_queues
            (i.3 dev_id qs h) i.2,
        AllOwn-put owner false false v.next_queue v.queue dev_id qs chunk v.audio_queues
            (i.3 dev_id qs h) i.3,
      ))
      (λ v i. (
        (
          Covers-remove dev_id v.sessions v.video_queues i.0.0,
          Covers-remove dev_id v.sessions v.audio_queues i.0.1,
        ),
        AllInOrder-remove dev_id v.sessions i.1,
        i.2,
        i.3,
      ))
      clock call c w

-- A session in the table is called, and goes back into the table where the camera is still in it.
pub called-IsSound :
    (owner : Owner) (dev_id : Text) (clock : ℕ → ℕ) (call : Call) (w : Server) (o : Option Camera)
    → find dev_id w.sessions ≡ o
    → IsSound owner w
    → IsSound owner (called dev_id clock call w o).1
called-IsSound owner dev_id clock call w none e s = s
called-IsSound owner dev_id clock call w (some c) e s =
    let t = (run_on dev_id c clock (run_call call) w).1 in
    kept t
      (run_on-IsSound owner dev_id clock call c w (AllInOrder-find dev_id c w.sessions e s.1) s)
      (find dev_id t.app.sessions) refl
  where
    kept :
        (t : State Server)
        → Ended owner t
        → (o : Option Camera) → find dev_id t.app.sessions ≡ o
        → IsSound owner (keep_session dev_id t.session o t.app)
    kept t q none h = q.1
    kept t q (some d) h = (
      changes-IsServed dev_id t.session (some d) t.app h q.1.0,
      AllInOrder-insert dev_id (record d { session = t.session }) t.app.sessions q.0 q.1.1,
      q.1.2,
      q.1.3,
    )

-- The loose sessions stay in order.
pub after_call-AllInOrder :
    (owner : Owner) (dev_id : Text) (clock : ℕ → ℕ) (call : Call) (w : Server) (loose : Loose)
    (o : Option Camera)
    → find dev_id w.sessions ≡ o
    → IsSound owner w
    → AllInOrder loose
    → AllInOrder (after_call dev_id clock call w o loose)
after_call-AllInOrder owner dev_id clock call w loose none e s a = a
after_call-AllInOrder owner dev_id clock call w loose (some c) e s a =
    let t = (run_on dev_id c clock (run_call call) w).1 in
    fallen t
      (run_on-IsSound owner dev_id clock call c w (AllInOrder-find dev_id c w.sessions e s.1) s)
      (find dev_id t.app.sessions)
  where
    fallen :
        (t : State Server)
        → Ended owner t
        → (o : Option Camera)
        → AllInOrder (dropped dev_id (record c { session = t.session }) o loose)
    fallen t q none = (q.0, a)
    fallen t q (some d) = a

pub taken-AllInOrder :
    (dev_id : Text) (w : Server) (o o' : Option Camera) (loose : Loose)
    → find dev_id w.sessions ≡ o
    → AllInOrder w.sessions
    → AllInOrder loose
    → AllInOrder (taken dev_id o o' loose)
taken-AllInOrder dev_id w (some d) none loose e a b = (AllInOrder-find dev_id d w.sessions e a, b)
taken-AllInOrder dev_id w (some d) (some d') loose e a b = b
taken-AllInOrder dev_id w none none loose e a b = b
taken-AllInOrder dev_id w none (some d') loose e a b = b

registered-IsSound :
    (owner : Owner) (dev : DevSerial) (ip : Text) (port : ℕ) (w : Server)
    → IsSound owner w
    → let v = registered dev ip port w in
      AllInOrder v.sessions
      × AllOwn owner true v.next_queue v.queue v.video_queues
      × AllOwn owner false v.next_queue v.queue v.audio_queues
registered-IsSound owner dev ip port w s = (
  AllInOrder-insert dev.dev_id _ w.sessions tt s.1,
  AllOwn-insert owner true w.next_queue w.queue dev.dev_id [] w.video_queues
      (Owns-nil owner true w.next_queue w.queue dev.dev_id) s.2,
  AllOwn-insert owner false w.next_queue w.queue dev.dev_id [] w.audio_queues
      (Owns-nil owner false w.next_queue w.queue dev.dev_id) s.3,
)

finish-IsSound :
    (owner : Owner) (dev : DevSerial) (ip : Text) (port : ℕ) (w : Server)
    (r : Result (Fields × Bool))
    → IsSound owner w
    → let v = (finish_discover dev ip port (registered dev ip port w) r).1 in
      AllInOrder v.sessions
      × AllOwn owner true v.next_queue v.queue v.video_queues
      × AllOwn owner false v.next_queue v.queue v.audio_queues
finish-IsSound owner dev ip port w (err e) s = registered-IsSound owner dev ip port w s
finish-IsSound owner dev ip port w (ok (config, sound)) s =
    let (sessions, videos, audios) = registered-IsSound owner dev ip port w s in
    (AllInOrder-insert dev.dev_id _ _ tt sessions, videos, audios)

pub discover-IsSound :
    (owner : Owner) (o : Option Camera) (dev : DevSerial) (ip : Text) (port : ℕ) (w : Server)
    → IsSound owner w
    → IsSound owner (discover_unless o dev ip port w).1
discover-IsSound owner (some c) dev ip port w s = s
discover-IsSound owner none dev ip port w s =
    let (sessions, videos, audios) = finish-IsSound owner dev ip port w _ s in
    (discover-IsServed none dev ip port w s.0, sessions, videos, audios)
