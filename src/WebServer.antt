-- ===== src/WebServer.antt =====
-- cam_reverse/http_server.py: the cameras that are served and the queues of their clients. A queue
-- is an object, so it stands in a store under a number, and the tables hold numbers.
pub mod Frame
pub mod Streams
pub mod Cameras
pub mod Api
pub mod Queues
pub mod Turning
pub mod Tables
pub mod Keeps
pub mod Calls
pub mod Ownership
pub mod InOrder
pub mod Sound
pub mod Clients
pub mod Requests
pub mod Shares
pub mod Steps
pub mod Invariant
pub mod Elsewhere
pub mod Isolation
pub mod Answers
pub mod Delivery
pub mod Datagrams
pub mod Watching
pub mod Listening
pub mod Reconnect
pub mod Pages
pub mod Snapshot
pub mod Assets
pub mod Base64
use cam_reverse_py.Base.{
  ℕ, suc, ◌+◌, Bool, true, false, List, [], ◌∷◌, ◌++◌, Text, Option, none, some, ◌==◌, ltb, length,
  if◌then◌else◌, Result, ok, err,
}
use cam_reverse_py.Base.Tables.{Table}
use cam_reverse_py.DataView.{Bytes}
use cam_reverse_py.Settings.Files.{Store}
use cam_reverse_py.State.{Session}
use cam_reverse_py.Discovery.{Search}

-- A session with the listeners that `_on_discover` has put on it.
pub record Camera : Type 0 where
  pub session : Session
  pub hears_frames : Bool
  pub hears_audio : Bool

-- The globals of the module, with the settings; `search` is `_discovery_ev`. What a queue holds
-- stands under its number.
pub record Server : Type 0 where
  pub sessions : Table Camera
  pub video_queues : Table (List ℕ)
  pub audio_queues : Table (List ℕ)
  pub camera_ips : Table Text
  pub queue : ℕ → List Bytes
  pub next_queue : ℕ
  pub search : Option Search
  pub store : Store

abbrev pub set_queue : ℕ → List Bytes → (ℕ → List Bytes) → ℕ → List Bytes
set_queue q new queue k = if k == q then new else queue k

-- `q.put_nowait(chunk)` on a queue of the given size; a full one refuses, and that is passed over.
unfoldable pub put_nowait : ℕ → Bytes → (ℕ → List Bytes) → ℕ → ℕ → List Bytes
put_nowait maxsize chunk queue q =
    if ltb (length (queue q)) maxsize then set_queue q (queue q ++ chunk ∷ []) queue else queue

-- The loop over the queues of a camera.
unfoldable pub put_all : ℕ → Bytes → List ℕ → (ℕ → List Bytes) → ℕ → List Bytes
unfolding put_nowait
put_all maxsize chunk [] queue = queue
put_all maxsize chunk (q ∷ qs) queue = put_all maxsize chunk qs (put_nowait maxsize chunk queue q)

-- The sizes of the queues of a video and an audio client.
abbrev pub video_size : ℕ
video_size = 10

abbrev pub audio_size : ℕ
audio_size = 200
