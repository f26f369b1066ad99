-- ===== src/LogQueue/Writer.antt =====
-- include/server/logger.hpp: `LogEntry` and the thread of `Logger` that writes the entries.
--
-- An entry is the texts that its arguments print as. The file is opened anew by `setOutputFile`, so
-- what is written to it starts empty.
use spot_exchange.Prelude.{
  ℕ, zero, suc, Bool, true, false, Option, none, some, List, [], ◌∷◌, ◌++◌, if◌then◌else◌,
}
use spot_exchange.ClientInput.{Str, codes, is_nil}
use spot_exchange.LogQueue.{Queue, front, pop}

pub data LogType : Type 0 where
  debug : LogType
  info : LogType
  warning : LogType
  error : LogType

abbrev pub type_text : LogType → Str
type_text info = codes "[INFO]"
type_text debug = codes "[DEBUG]"
type_text warning = codes "[WARNING]"
type_text error = codes "[ERROR]"

pub record LogEntry : Type 0 where
  pub arguments : List Str

-- The entry that `Log` emplaces.
abbrev pub log_entry : LogType → List Str → LogEntry
log_entry type arguments = record { arguments = type_text type ∷ arguments }

-- `format`: each argument and a space, then the end of the line.
abbrev pub format : List Str → Str
format [] = 10 ∷ []
format (t ∷ arguments) = t ++ 32 ∷ format arguments

-- `output_` and `use_std_out_`, with what has been written to the file and to the standard output.
pub record Outputs : Type 0 where
  pub output : Option Str
  pub use_std_out : Bool
  pub file : Str
  pub std_out : Str

abbrev pub new_outputs : Outputs
new_outputs = record { output = none; use_std_out = true; file = []; std_out = [] }

unfoldable pub set_output_file : Str → Outputs → Outputs
set_output_file filename o =
    if is_nil filename
    then o
    else record o { use_std_out = false; output = some filename; file = [] }

-- The choice of `writeFromQueue`.
unfoldable pub write_text : Str → Outputs → Outputs
write_text text o = elim o.output [
  | some filename ↦ record o { file = o.file ++ text }
  | none ↦ if o.use_std_out then record o { std_out = o.std_out ++ text } else o
]

abbrev pub format_log_entry : LogEntry → Outputs → Outputs
format_log_entry entry o = write_text (format entry.arguments) o

-- The rounds of `writeFromQueue` that start while `active_` holds.
unfoldable pub write_from_queue : ℕ → Queue LogEntry → Outputs → Queue LogEntry × Outputs
write_from_queue zero q o = (q, o)
write_from_queue (suc rounds) q o = elim (front q) [
  | none ↦ write_from_queue rounds q o
  | some entry ↦ write_from_queue rounds (pop q) (format_log_entry entry o)
]
