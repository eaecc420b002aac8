-- ===== src/WebServer/Answers.antt =====
-- What the clients of a stream are told.
use cam_reverse_py.Base.{ℕ, Bool, true, false, Option, none, some}
use cam_reverse_py.WebServer.Streams.{Answer, Refusal, refused, streaming}

-- What a client is told: why it gets no stream, or the queue of its stream.
abbrev pub told : ℕ → Option Refusal → Answer
told q none = streaming q
told q (some r) = refused r

-- Whether a client is let in.
abbrev pub is_let_in : Option Refusal → Bool
is_let_in none = true
is_let_in (some r) = false
