-- ===== src/Lib.antt =====
-- cam-reverse.py: a client for the UDP protocol of A9-style Wi-Fi cameras. It finds cameras, logs in
-- to them, and puts JPEG frames together from their datagrams.
--
-- The parts, and the files that model them:
-- DataView (cam_reverse/dataview.py): the class `DV`, a window on a buffer, as the record `Dv` of a
--   buffer and an offset. A write returns the buffer; all windows on it share that one.
-- Crypto (cam_reverse/crypto.py): `xq_bytes_dec` and `xq_bytes_enc`, loop by loop, with Python's
--   negative indices. Utils (cam_reverse/utils.py): the swaps. Exif (cam_reverse/exif.py).
-- Datatypes (cam_reverse/datatypes.py): the commands as data types, with their numbers.
-- Settings (cam_reverse/settings.py): the configuration, as what YAML and JSON can hold, the merge of
--   `apply_config` and the defaults of `load_config`.
-- State: the object `Session` of cam_reverse/session.py, with the datagrams sent so far, the clock
--   readings to come, the configuration, and the state of the program around the session. An action is
--   a call; the state comes back after a raise too.
-- Link (cam_reverse/session.py): `send`, `ack_drw`, `close` and the events. What else listens to an
--   event is the record `Callbacks`, a parameter of everything that may emit.
-- Impl (cam_reverse/impl.py): the packet builders and `parse_PunchPkt`; Impl.Requests holds those
--   that take the session.
-- Parsers, Frames, Control, Handlers (cam_reverse/handlers.py): the parsers and replies, the frame
--   assembly `_deal_with_data`, `create_response_for_control_command`, and the handlers with their table.
-- Session (cam_reverse/session.py): `connection_made`, `_handle_incoming`, the loop of `_sess_timer`, and one
--   round of `_resend_timer`.
-- Discovery (cam_reverse/discovery.py): the answers that make a camera known, and the addresses that are
--   searched. Settings.Files (cam_reverse/settings.py): loading, saving and reloading the file.
-- WebServer (cam_reverse/http_server.py): the server's tables as the record `Server`; WebServer.Frame the
--   picture and the chunks of the streams, WebServer.Streams the listeners of a session and the streams of its
--   clients, WebServer.Cameras the finding of cameras, WebServer.Api the handlers that read and change cameras
--   and settings, WebServer.Pages the snapshot (WebServer.Snapshot: the frame that it shows) and the page of a
--   camera, WebServer.Assets the static pages, WebServer.Requests the routes of `build_app`, and WebServer.Calls
--   what asyncio calls on the session of a camera. WebServer.Steps is the server with its search, sessions,
--   requests and clients as one system, with the sessions that are out of the table but still have a socket and
--   tasks; WebServer.Invariant is what holds of it, WebServer.Watching and WebServer.Listening a frame and sound
--   on their way from the datagrams to a client. A snapshot's timeout is the end of the list of the frames that
--   came in time. A queue is a number, and what it holds stands in a store, since a queue is held by a table and
--   by the handler of its client. That handler looks at the camera before it prepares its answer and enters the queue
--   after it; what happens in between is in any order, so that WebServer.Steps has the entering as a step of its own.
-- Pair (cam_reverse/pair.py) and CaptureSingle (cam_reverse/capture_single.py): the listeners of these
--   programs, over the same session. Logger (cam_reverse/logger.py): the levels and the buffer.
-- Cli (cam_reverse/cli.py): `main`, up to the loop that runs a program. Scripts (scripts/dec.py, scripts/dec_svr.py).
-- Mock (cam_reverse/mock_server.py): the replies of the fake camera. Version (cam_reverse/version.py).
-- EventEmitter (cam_reverse/event_emitter.py): `on`, `off` and `emit` over a table of listeners.
-- Base: the shared names, lists and slices over the native numbers, exceptions and bits.
-- Examples: the theorems with hypotheses, applied at concrete inputs.
--
-- A packet comes in through Session.handle_incoming, which looks its handler up in Handlers; that one
-- acknowledges it through Link and passes data to Frames and control packets to Control, which emit events
-- and answer with packets of Impl.
--
-- Bytes are natural numbers; a write keeps its reduction modulo 2 ^ 8, 2 ^ 16, 2 ^ 32 or 2 ^ 64. Text is a list
-- of code points. Times are whole milliseconds. Loops run on the count that the source's range gives. There are
-- two fuels. `decimal` stands for Python's `str` of a number; its fuel is n: n divisions by ten, each of which
-- makes the number smaller, are enough for the digits of n. That of `sess_timer` is a number of rounds: for a
-- camera that says no more, last_received_packet + timeout_ms + 2 are enough, since the clock goes on by at
-- least a millisecond from round to round.
--
-- The listeners of WebServer, Pair and CaptureSingle fill the record `Callbacks`, so that a step of
-- Session runs them in the state of the program around it. Session.Steps and WebServer.Steps are the
-- relations of everything that can happen to a session and to the server, in any order.
--
-- Not modelled: asyncio's scheduling, the endless loops around the rounds of `_resend_timer` and around the
-- probes, the sockets, argparse, aiohttp, which takes requests apart and runs the handlers, and the colours of
-- the log. The files (what they hold, which can be opened, what of some data gets into one where a write fails),
-- the functions of YAML, what git prints, and what the tests let the fake camera answer are parameters.
pub mod Base
pub mod DataView
pub mod Crypto
pub mod Utils
pub mod Exif
pub mod Datatypes
pub mod Settings
pub mod State
pub mod Link
pub mod Impl
pub mod Parsers
pub mod Frames
pub mod Control
pub mod Handlers
pub mod Session
pub mod EventEmitter
pub mod Discovery
pub mod Logger
pub mod Version
pub mod WebServer
pub mod Mock
pub mod Pair
pub mod CaptureSingle
pub mod Scripts
pub mod Cli
pub mod Examples
