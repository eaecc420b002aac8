-- ===== src/Logger.antt =====
-- cam_reverse/logger.py: the levels, and the buffer of records that the web page reads. Formatting,
-- colours and the console are the logging library's and the terminal's.
pub mod Buffer
use cam_reverse_py.Base.{
  ℕ, suc, ◌+◌, Bool, true, false, ◌&&◌, List, [], ◌∷◌, ◌++◌, Text, text_eq, leb, ltb, if◌then◌else◌,
  length, drop, ◌-◌,
}
use cam_reverse_py.Settings.{codes}
use cam_reverse_py.Base.Tables.{Table, find}
use cam_reverse_py.Base.{Option, none, some}

abbrev pub trace : ℕ
trace = 5

-- `_LEVELS`, with the numbers of the logging library.
abbrev pub levels : Table ℕ
levels =
    (codes "trace", trace)
    ∷ (codes "debug", 10)
    ∷ (codes "info", 20)
    ∷ (codes "notice", 20)
    ∷ (codes "warning", 30)
    ∷ (codes "error", 40)
    ∷ []

abbrev level_or : ℕ → Option ℕ → ℕ
level_or default none = default
level_or default (some n) = n

-- `_LEVELS.get(name, TRACE)`, and the level that `log` and `configure` take for a name.
unfoldable pub level_no : Text → ℕ
level_no name = level_or trace (find name levels)

unfoldable pub level_or_info : Text → ℕ
level_or_info name = level_or 20 (find name levels)

-- An entry of `LOG_BUFFER`: the time and the level's name are the logging library's.
pub record Entry : Type 0 where
  pub seq : ℕ
  pub time : Text
  pub level : Text
  pub levelno : ℕ
  pub message : Text

-- The buffer, its length at most, and the next number of the counter `_seq`.
pub record LogBuffer : Type 0 where
  pub entries : List Entry
  pub next_seq : ℕ

abbrev pub maxlen : ℕ
maxlen = 2000

abbrev pub empty_buffer : LogBuffer
empty_buffer = record { entries = []; next_seq = 1 }

-- `deque.append`: the oldest entries make room.
abbrev pub push_bounded {ℓ} : {A : Type ℓ} → ℕ → List A → A → List A
push_bounded n xs x = drop (suc (length xs) - n) (xs ++ x ∷ [])

-- A record of the logging library, as `_BufferHandler.emit` gets it.
pub record LogRecord : Type 0 where
  pub time : Text
  pub levelname : Text
  pub levelno : ℕ
  pub message : Text

-- `_BufferHandler.emit`.
unfoldable pub emit : LogRecord → LogBuffer → LogBuffer
emit r b = record {
  entries = push_bounded maxlen b.entries (record {
    seq = b.next_seq;
    time = r.time;
    level = r.levelname;
    levelno = r.levelno;
    message = r.message;
  });
  next_seq = b.next_seq + 1;
}

-- A record goes to the buffer if its level reaches TRACE, and to the console if it reaches the
-- configured level: the levels that `configure` gives the logger and its two handlers.
pub record Console : Type 0 where
  pub level : ℕ
  pub printed : List LogRecord
  pub buffer : LogBuffer

unfoldable pub configure : Text → Console → Console
unfolding level_or_info
configure name c = record c { level = level_or_info name }

unfoldable pub log : LogRecord → Console → Console
unfolding emit
log r c = if ltb r.levelno trace then c else record c {
  printed = if leb c.level r.levelno then c.printed ++ r ∷ [] else c.printed;
  buffer = emit r c.buffer;
}

-- `_handle_logs_api` of cam_reverse/http_server.py: the entries from a level on, behind a number.
abbrev pub select_entries : ℕ → ℕ → List Entry → List Entry
select_entries minno after [] = []
select_entries minno after (e ∷ es) =
    let rest = select_entries minno after es in
    if leb minno e.levelno && ltb after e.seq then e ∷ rest else rest

unfoldable pub logs_since : Text → ℕ → LogBuffer → List Entry
unfolding level_no
logs_since level after b = select_entries (level_no level) after b.entries
