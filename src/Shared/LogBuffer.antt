-- ===== src/Shared/LogBuffer.antt =====
-- shared/src/log_buffer.rs: the bounded buffer of log entries, the channel to the log file, and the
-- formatter that feeds them. A text is the list of its characters' codes.
pub mod History
pub mod Message
mod Tests
use npt.Prelude.{
  ℕ, ◌+◌, ◌-◌, List, [], ◌∷◌, ◌++◌, Option, none, some, length, take, drop, leb, Bool, true, false,
  ◌&&◌, ◌==◌, is_some, if◌then◌else◌, reverse,
}

-- `tracing::Level`
pub data Level : Type 0 where
  error warn info debug trace : Level

pub record LogEntry : Type 0 where
  pub timestamp : ℕ
  pub level : Level
  pub target : List ℕ
  pub message : List ℕ

-- `LogEntry::level_color`
unfoldable pub level_color : Level → ℕ × ℕ × ℕ
level_color error = (255, 0, 0)
level_color warn = (255, 165, 0)
level_color info = (0, 255, 0)
level_color debug = (173, 216, 230)
level_color trace = (128, 128, 128)

-- The channel to the task that writes the log file: what was sent to it, and whether that task still
-- receives (it returns at once if the file cannot be opened).
pub record FileSender : Type 0 where
  pub sent : List LogEntry
  pub receiving : Bool

-- `entries` stands oldest first; clones of a buffer share the deque, so one value stands for all.
pub record LogBuffer : Type 0 where
  pub entries : List LogEntry
  pub max_size : ℕ
  pub file_sender : Option FileSender

unfoldable pub new : ℕ → LogBuffer
new max_size = record { entries = []; max_size = max_size; file_sender = none }

-- `new_with_file`, once the directory of the file is there; `opened` says whether the writing task
-- can open the file.
unfoldable pub new_with_file : ℕ → Bool → LogBuffer
new_with_file max_size opened = record {
  entries = [];
  max_size = max_size;
  file_sender = some (record { sent = []; receiving = opened });
}

-- `let _ = sender.send(entry.clone())`
abbrev pub send : LogEntry → Option FileSender → Option FileSender
send e none = none
send e (some s) = some (if s.receiving then record s { sent = s.sent ++ e ∷ [] } else s)

unfoldable pub add_entry : LogEntry → LogBuffer → LogBuffer
add_entry e b =
    let kept = if leb b.max_size (length b.entries) then drop 1 b.entries else b.entries in
    record b { entries = kept ++ e ∷ []; file_sender = send e b.file_sender }

unfoldable pub get_entries : LogBuffer → List LogEntry
get_entries b = b.entries

-- `iter().rev().take(count).rev()`
unfoldable pub get_latest : ℕ → LogBuffer → List LogEntry
get_latest n b = reverse (take n (reverse b.entries))

unfoldable pub clear : LogBuffer → LogBuffer
clear b = record b { entries = [] }

unfoldable pub len : LogBuffer → ℕ
len b = length b.entries

unfoldable pub is_empty : LogBuffer → Bool
is_empty b = length b.entries == 0

-- `TuiLogFormatter`
pub record Formatter : Type 0 where
  pub buffer : LogBuffer
  pub suppress_writer_output : Bool

abbrev pub newline : ℕ
newline = 10

-- `format_event` at the time `now`, for an event of which the visitor has taken the message: the
-- formatter with its buffer, and what goes to the writer.
unfoldable pub format_event : ℕ → Level → List ℕ → List ℕ → Formatter → Formatter × List ℕ
format_event now level target message f =
    let entry : LogEntry = record {
      timestamp = now;
      level = level;
      target = target;
      message = message;
    } in
    (
      record f { buffer = add_entry entry f.buffer },
      if f.suppress_writer_output then [] else message ++ newline ∷ [],
    )
