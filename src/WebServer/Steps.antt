-- ===== src/WebServer/Steps.antt =====
-- What can happen to the server, one event after another: cam_reverse/http_server.py with its discovery and the
-- sessions of its cameras.
use cam_reverse_py.Base.{ℕ, List, ◌≡◌, [], ◌∷◌, ◌++◌, Text, Option, none, some, Result, ok, err}
use cam_reverse_py.Base.Tables.{find}
use cam_reverse_py.DataView.{Bytes}
use cam_reverse_py.State.{State, DevSerial}
use cam_reverse_py.Discovery.{add_targets, no_search, handle_incoming_punch}
use cam_reverse_py.Settings.Files.{Store}
use cam_reverse_py.WebServer.{Camera, Server}
use cam_reverse_py.WebServer.Streams.{
  enter_video, enter_audio, close_video, close_audio, next_chunk,
}
use cam_reverse_py.WebServer.Cameras.{on_discover}
use cam_reverse_py.WebServer.Calls.{
  Call, Loose, on_camera, close_session, loose_after, on_loose, taken,
}
use cam_reverse_py.WebServer.Requests.{World, Request, camera_reconnect, handle}

-- A datagram of the search: only a camera that may be used is told to the server.
abbrev pub told_of : Text → ℕ → Result (Option DevSerial) → Server → Server
told_of ip port (err e) w = w
told_of ip port (ok none) w = w
told_of ip port (ok (some dev)) w = (on_discover ip port dev w).1

unfoldable pub hear : Text → ℕ → Bytes → Server → Server
unfolding handle_incoming_punch on_discover
hear ip port msg w = told_of ip port (handle_incoming_punch w.store.config msg ip) w

-- The server, and the sessions that are out of its table.
abbrev pub System : Type 0
System = Server × Loose

-- Only the closing of a session by a request can make one loose.
abbrev pub loose_after_request : (ℕ → ℕ) → Request → Server → Loose → Loose
loose_after_request clock (camera_reconnect dev_id) w loose =
    loose_after dev_id clock close_session w loose
loose_after_request clock _ w loose = loose

-- The system after a call on a loose session, which ended in this state.
abbrev pub after_loose : Text → Camera → State Server → Server → Loose → Loose → System
after_loose dev_id c t w before after = (
  t.app,
  taken dev_id (find dev_id w.sessions) (find dev_id t.app.sessions)
      (before ++ (dev_id, record c { session = t.session }) ∷ after),
)

-- A datagram comes in from the search, a session in the table or a loose one is called, a request is handled, the
-- answer to a client of a stream is prepared, it gets a chunk or goes.
pub data Step : System → System → Type 0 where
  hears :
      (ip : Text) (port : ℕ) (msg : Bytes) (w : Server) (loose : Loose)
      → Step (w, loose) (hear ip port msg w, loose)
  calls :
      (dev_id : Text) (clock : ℕ → ℕ) (call : Call) (w : Server) (loose : Loose)
      → Step (w, loose) ((on_camera dev_id clock call w).1, loose_after dev_id clock call w loose)
  calls_loose :
      (dev_id : Text) (c : Camera) (clock : ℕ → ℕ) (call : Call) (w : Server) (before after : Loose)
      → Step
          (w, before ++ (dev_id, c) ∷ after)
          (after_loose dev_id c (on_loose dev_id c clock call w) w before after)
  requests :
      (e : World) (clock : ℕ → ℕ) (r : Request) (w : Server) (loose : Loose)
      → Step (w, loose) ((handle e clock r w).1, loose_after_request clock r w loose)
  enters_video :
      (dev_id : Text) (w : Server) (loose : Loose)
      → Step (w, loose) ((enter_video dev_id w).1, loose)
  enters_audio :
      (dev_id : Text) (w : Server) (loose : Loose)
      → Step (w, loose) ((enter_audio dev_id w).1, loose)
  gets :
      (q : ℕ) (w : Server) (loose : Loose) (chunk : Bytes) (v : Server)
      → next_chunk q w ≡ some (chunk, v)
      → Step (w, loose) (v, loose)
  closes_video :
      (dev_id : Text) (q : ℕ) (w : Server) (loose : Loose)
      → Step (w, loose) ((close_video dev_id q w).1, loose)
  closes_audio :
      (dev_id : Text) (q : ℕ) (w : Server) (loose : Loose)
      → Step (w, loose) ((close_audio dev_id q w).1, loose)

pub data Reach (w : System) : System → Type 0 where
  here : Reach w w
  next : {u v : System} → Reach w u → Step u v → Reach w v

-- The server that `serve_http` starts, with the addresses to search that its settings list.
unfoldable pub serve_http : List Text → Store → Server
unfolding add_targets
serve_http ips store = record {
  sessions = [];
  video_queues = [];
  audio_queues = [];
  camera_ips = [];
  queue = λ k. [];
  next_queue = 1;
  search = some (add_targets ips no_search);
  store = store;
}

-- A server at any time since its start, whatever sessions are out of its table then.
abbrev pub Reached : List Text → Store → Server → Type 0
Reached ips store w = (loose : Loose) × Reach (serve_http ips store, []) (w, loose)
