-- ===== src/WebServer/Invariant.antt =====
-- What holds of the server and of its sessions, in its table or not, at any time (cam_reverse/http_server.py and
-- session.py).
use cam_reverse_py.Base.{
  ℕ, List, arith, refl, [], ◌∷◌, ◌++◌, Text, Option, none, some, Result, ok, err, true,
}
use cam_reverse_py.Base.Tables.{find}
use cam_reverse_py.State.{DevSerial}
use cam_reverse_py.Discovery.{handle_incoming_punch}
use cam_reverse_py.Settings.Files.{Store}
use cam_reverse_py.WebServer.{Camera, Server}
use cam_reverse_py.WebServer.Streams.{
  enter_video, enter_audio, close_video, close_audio, next_chunk, remove_queue,
}
use cam_reverse_py.WebServer.Cameras.{on_discover}
use cam_reverse_py.WebServer.Calls.{Call, Loose, on_camera, close_session, on_loose}
use cam_reverse_py.WebServer.Steps.{
  System, Reach, Reached, here, next, Step, hears, calls, calls_loose, requests, enters_video,
  enters_audio, gets, closes_video, closes_audio, serve_http, hear, told_of, after_loose,
  loose_after_request,
}
use cam_reverse_py.WebServer.Requests.{Request, camera_reconnect, handle-keeps}
use cam_reverse_py.WebServer.Ownership.{Owner}
use cam_reverse_py.WebServer.Sound.{
  IsSound, run_on-IsSound, called-IsSound, after_call-AllInOrder, taken-AllInOrder,
  discover-IsSound,
}
use cam_reverse_py.WebServer.InOrder.{AllInOrder, AllInOrder-amid, AllInOrder-replace}
use cam_reverse_py.WebServer.Clients.{
  open_video-IsSound, open_audio-IsSound, gets-IsSound, close_video-IsSound, close_audio-IsSound,
}

-- A server whose queues have owners.
abbrev pub HasOwners : Server → Type 0
HasOwners w = (owner : Owner) × IsSound owner w

abbrev pub IsSystem : System → Type 0
IsSystem (w, loose) = HasOwners w × AllInOrder loose

new-HasOwners : (ips : List Text) (store : Store) → HasOwners (serve_http ips store)
unfolding serve_http
new-HasOwners ips store = (
  λ k. (true, []),
  (
    ((λ key (c, h). absurd (ground arith)), (λ key (c, h). absurd (ground arith))),
    tt,
    (λ dev_id qs h. absurd (ground arith)),
    (λ dev_id qs h. absurd (ground arith)),
  ),
)

call-HasOwners :
    (dev_id : Text) (clock : ℕ → ℕ) (call : Call) (w : Server)
    → HasOwners w
    → HasOwners (on_camera dev_id clock call w).1
unfolding on_camera
call-HasOwners dev_id clock call w (owner, s) =
    (owner, called-IsSound owner dev_id clock call w (find dev_id w.sessions) refl s)

hear-HasOwners :
    (ip : Text) (port : ℕ) (r : Result (Option DevSerial)) (w : Server)
    → HasOwners w
    → HasOwners (told_of ip port r w)
unfolding on_discover
hear-HasOwners ip port (err e) w s = s
hear-HasOwners ip port (ok none) w s = s
hear-HasOwners ip port (ok (some dev)) w (owner, s) =
    (owner, discover-IsSound owner (find dev.dev_id w.sessions) dev ip port w s)

call_loose-IsSystem :
    (dev_id : Text) (c : Camera) (clock : ℕ → ℕ) (call : Call) (w : Server) (before after : Loose)
    → IsSystem (w, before ++ (dev_id, c) ∷ after)
    → IsSystem (after_loose dev_id c (on_loose dev_id c clock call w) w before after)
call_loose-IsSystem dev_id c clock call w before after ((owner, s), a) =
    let t = on_loose dev_id c clock call w in
    let ended =
      run_on-IsSound owner dev_id clock call c w (AllInOrder-amid before dev_id c after a) s in
    (
      (owner, ended.1),
      taken-AllInOrder dev_id w (find dev_id w.sessions) (find dev_id t.app.sessions)
          (before ++ (dev_id, record c { session = t.session }) ∷ after) refl s.1
          (AllInOrder-replace before dev_id c (record c { session = t.session }) after ended.0 a),
    )

request-AllInOrder :
    (clock : ℕ → ℕ) (r : Request) (w : Server) (loose : Loose)
    → IsSystem (w, loose)
    → AllInOrder (loose_after_request clock r w loose)
request-AllInOrder clock (camera_reconnect dev_id) w loose ((owner, s), a) =
    after_call-AllInOrder owner dev_id clock close_session w loose (find dev_id w.sessions) refl s a
request-AllInOrder clock _ w loose h = h.1

step-IsSystem : {w v : System} → Step w v → IsSystem w → IsSystem v
unfolding hear enter_video enter_audio close_video close_audio next_chunk remove_queue
step-IsSystem (hears ip port msg w loose) (s, a) =
    (hear-HasOwners ip port (handle_incoming_punch w.store.config msg ip) w s, a)
step-IsSystem (calls dev_id clock call w loose) ((owner, s), a) = (
  call-HasOwners dev_id clock call w (owner, s),
  after_call-AllInOrder owner dev_id clock call w loose (find dev_id w.sessions) refl s a,
)
step-IsSystem (calls_loose dev_id c clock call w before after) h =
    call_loose-IsSystem dev_id c clock call w before after h
step-IsSystem (requests e clock r w loose) (s, a) = (
  handle-keeps HasOwners e clock r w (λ v store search h. h)
      (λ dev_id h. call-HasOwners dev_id clock close_session w s) s,
  request-AllInOrder clock r w loose (s, a),
)
step-IsSystem (enters_video dev_id w loose) ((owner, s), a) =
    (open_video-IsSound owner none dev_id (find dev_id w.video_queues) w refl s, a)
step-IsSystem (enters_audio dev_id w loose) ((owner, s), a) =
    (open_audio-IsSound owner none dev_id (find dev_id w.audio_queues) w refl s, a)
step-IsSystem (gets q w loose chunk v e) ((owner, s), a) =
    ((owner, gets-IsSound owner q (w.queue q) w v chunk refl e s), a)
step-IsSystem (closes_video dev_id q w loose) ((owner, s), a) =
    ((owner, close_video-IsSound owner dev_id q (find dev_id w.video_queues) w refl s), a)
step-IsSystem (closes_audio dev_id q w loose) ((owner, s), a) =
    ((owner, close_audio-IsSound owner dev_id q (find dev_id w.audio_queues) w refl s), a)

-- Whatever happens to a server, from its start on, the calls that sessions get which are out of its table included:
-- every camera with a session has its list of video and its list of audio queues, the packets that wait in every
-- session, in the table or out of it, are commands under ids that were handed out, and every queue stands at
-- most once in the lists, in those of one camera and one kind, and never holds more than the 10 or 200 chunks
-- of its kind.
pub Reach-IsSystem :
    (ips : List Text) (store : Store) {v : System} → Reach (serve_http ips store, []) v → IsSystem v
Reach-IsSystem ips store here = (new-HasOwners ips store, tt)
Reach-IsSystem ips store (next r st) = step-IsSystem st (Reach-IsSystem ips store r)

pub Reached-HasOwners :
    (ips : List Text) (store : Store) (w : Server) → Reached ips store w → HasOwners w
Reached-HasOwners ips store w (loose, r) = (Reach-IsSystem ips store r).0
