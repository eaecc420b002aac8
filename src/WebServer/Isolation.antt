-- ===== src/WebServer/Isolation.antt =====
-- That a camera and its clients do not notice what happens to the other cameras (cam_reverse/http_server.py).
use cam_reverse_py.Base.{
  ℕ, ◌≡◌, refl, ◌∙◌, false, List, [], ◌∷◌, ◌++◌, Text, none, some, ok, text_eq,
}
use cam_reverse_py.Base.Tables.{find}
use cam_reverse_py.DataView.{Bytes}
use cam_reverse_py.State.{DevSerial}
use cam_reverse_py.Discovery.{handle_incoming_punch}
use cam_reverse_py.WebServer.Steps
use cam_reverse_py.Settings.Files.{Store}
use cam_reverse_py.WebServer.{Camera, Server}
use cam_reverse_py.WebServer.Streams.{
  enter_video, enter_audio, close_video, close_audio, next_chunk, remove_queue,
}
use cam_reverse_py.WebServer.Cameras.{on_discover}
use cam_reverse_py.WebServer.Queues.{is_listed}
use cam_reverse_py.WebServer.Calls.{Call, Loose, on_camera, close_session, loose_after, on_loose}
use cam_reverse_py.WebServer.Requests.{
  World, Request, handle, handle-keeps, reconnects, reconnects-apart,
}
use cam_reverse_py.WebServer.Shares.{share, listed}
use cam_reverse_py.WebServer.Steps.{
  System, Step, told_of, hear, Reach, Reached, here, next, serve_http, after_loose,
  loose_after_request,
}
use cam_reverse_py.WebServer.Invariant.{IsSystem, Reach-IsSystem}
use cam_reverse_py.WebServer.Elsewhere.{
  call-share, call_loose-share, hear-share, open_video-share, open_audio-share, gets-share,
  close_video-share, close_audio-share,
}

-- A step that concerns another camera than the given one: a session of its id is called, in the table or out of it, it
-- is found, a client of it comes, gets a chunk or goes; a datagram of the search that is not the given camera's; or a
-- request that does not reconnect the given one.
pub data Elsewhere (dev_id : Text) : System → System → Type 0 where
  calls :
      (other : Text) (clock : ℕ → ℕ) (call : Call) (w : Server) (loose : Loose)
      → text_eq other dev_id ≡ false
      → Elsewhere dev_id
          (w, loose)
          ((on_camera other clock call w).1, loose_after other clock call w loose)
  calls_loose :
      (other : Text) (c : Camera) (clock : ℕ → ℕ) (call : Call) (w : Server) (before after : Loose)
      → text_eq other dev_id ≡ false
      → Elsewhere dev_id
          (w, before ++ (other, c) ∷ after)
          (after_loose other c (on_loose other c clock call w) w before after)
  hears :
      (ip : Text) (port : ℕ) (msg : Bytes) (w : Server) (loose : Loose)
      → ((dev : DevSerial)
          → handle_incoming_punch w.store.config msg ip ≡ ok (some dev)
          → text_eq dev.dev_id dev_id ≡ false)
      → Elsewhere dev_id (w, loose) (hear ip port msg w, loose)
  requests :
      (e : World) (clock : ℕ → ℕ) (r : Request) (w : Server) (loose : Loose)
      → reconnects dev_id r ≡ false
      → Elsewhere dev_id (w, loose) ((handle e clock r w).1, loose_after_request clock r w loose)
  enters_video :
      (other : Text) (w : Server) (loose : Loose)
      → text_eq other dev_id ≡ false
      → Elsewhere dev_id (w, loose) ((enter_video other w).1, loose)
  enters_audio :
      (other : Text) (w : Server) (loose : Loose)
      → text_eq other dev_id ≡ false
      → Elsewhere dev_id (w, loose) ((enter_audio other w).1, loose)
  gets :
      (q : ℕ) (w : Server) (loose : Loose) (chunk : Bytes) (v : Server)
      → next_chunk q w ≡ some (chunk, v)
      → is_listed q (listed (find dev_id w.video_queues)) ≡ false
      → is_listed q (listed (find dev_id w.audio_queues)) ≡ false
      → Elsewhere dev_id (w, loose) (v, loose)
  closes_video :
      (other : Text) (q : ℕ) (w : Server) (loose : Loose)
      → text_eq other dev_id ≡ false
      → Elsewhere dev_id (w, loose) ((close_video other q w).1, loose)
  closes_audio :
      (other : Text) (q : ℕ) (w : Server) (loose : Loose)
      → text_eq other dev_id ≡ false
      → Elsewhere dev_id (w, loose) ((close_audio other q w).1, loose)

abbrev Same : Text → Server → Server → Type 0
Same dev_id w v = share dev_id v ≡ share dev_id w

elsewhere-share :
    {w v : System} (dev_id : Text)
    → Elsewhere dev_id w v
    → IsSystem w
    → share dev_id v.0 ≡ share dev_id w.0
unfolding hear on_discover enter_video enter_audio close_video close_audio next_chunk remove_queue
elsewhere-share dev_id (calls other clock call w loose d) h =
    call-share dev_id other clock call w d h.0
elsewhere-share dev_id (calls_loose other c clock call w before after d) h =
    call_loose-share dev_id other c clock call w before after d h
elsewhere-share dev_id (hears ip port msg w loose d) h =
    hear-share dev_id ip port w (handle_incoming_punch w.store.config msg ip) d
elsewhere-share dev_id (requests e clock r w loose d) h =
    handle-keeps (Same dev_id w) e clock r w (λ v store search same. same)
      (λ other asked.
        call-share dev_id other clock close_session w (reconnects-apart other dev_id r asked d) h.0)
      refl
elsewhere-share dev_id (enters_video other w loose d) h =
    open_video-share dev_id other w none (find other w.video_queues) d h.0
elsewhere-share dev_id (enters_audio other w loose d) h =
    open_audio-share dev_id other w none (find other w.audio_queues) d h.0
elsewhere-share dev_id (gets q w loose chunk v e a b) h =
    gets-share dev_id q (w.queue q) w v chunk e a b
elsewhere-share dev_id (closes_video other q w loose d) h =
    close_video-share dev_id other q w (find other w.video_queues) d
elsewhere-share dev_id (closes_audio other q w loose d) h =
    close_audio-share dev_id other q w (find other w.audio_queues) d

elsewhere-Step : {w v : System} (dev_id : Text) → Elsewhere dev_id w v → Step w v
elsewhere-Step dev_id (calls other clock call w loose d) = Steps.calls other clock call w loose
elsewhere-Step dev_id (calls_loose other c clock call w before after d) =
    Steps.calls_loose other c clock call w before after
elsewhere-Step dev_id (hears ip port msg w loose d) = Steps.hears ip port msg w loose
elsewhere-Step dev_id (requests e clock r w loose d) = Steps.requests e clock r w loose
elsewhere-Step dev_id (enters_video other w loose d) = Steps.enters_video other w loose
elsewhere-Step dev_id (enters_audio other w loose d) = Steps.enters_audio other w loose
elsewhere-Step dev_id (gets q w loose chunk v e a b) = Steps.gets q w loose chunk v e
elsewhere-Step dev_id (closes_video other q w loose d) = Steps.closes_video other q w loose
elsewhere-Step dev_id (closes_audio other q w loose d) = Steps.closes_audio other q w loose

-- Any number of such steps.
pub data AllElsewhere (dev_id : Text) (w : System) : System → Type 0 where
  nothing : AllElsewhere dev_id w w
  more : {u v : System} → AllElsewhere dev_id w u → Elsewhere dev_id u v → AllElsewhere dev_id w v

elsewhere-Reach : (dev_id : Text) {u w v : System} → Reach u w → AllElsewhere dev_id w v → Reach u v
elsewhere-Reach dev_id r nothing = r
elsewhere-Reach dev_id r (more es e) = next (elsewhere-Reach dev_id r es) (elsewhere-Step dev_id e)

-- Whatever has happened to a server since its start: whatever then goes on for the other cameras, their
-- malformed packets, timeouts, clients and settings included, and the calls that sessions of theirs get which
-- are out of the table, a camera keeps its session, and its clients keep their queues and the chunks that
-- wait in them.
pub AllElsewhere-share :
    (ips : List Text) (store : Store) (dev_id : Text) {w v : System}
    → Reach (serve_http ips store, []) w
    → AllElsewhere dev_id w v
    → share dev_id v.0 ≡ share dev_id w.0
AllElsewhere-share ips store dev_id r nothing = refl
AllElsewhere-share ips store dev_id r (more es e) =
    elsewhere-share dev_id e (Reach-IsSystem ips store (elsewhere-Reach dev_id r es))
    ∙ AllElsewhere-share ips store dev_id r es
