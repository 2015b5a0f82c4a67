-- ===== src/Import.antt =====
-- internal/store/export.go, importFromDump: the lines of a backup are read one by one, and their
-- rows handed to a pool of workers in batches of one table each. Before another table's rows are
-- handed over, the import waits for those that are not yet committed.
--
-- What the workers and the database do is outside the model: `pool_error` says which error, if any,
-- the pool knows after what the import has asked of it so far. The reading of numbers, the cleaning
-- of UTF-8, the version's number, the columns that are boolean and the
-- database's other errors are parameters too.
pub mod Scan
pub mod Outcomes
pub mod Insert
pub mod Workers
pub mod Pool
pub mod Counts
pub mod Tally
pub mod Waited
pub mod Progress
pub mod Barriers
pub mod Rows
pub mod Restore
pub mod Printed
pub mod Readiness
pub mod RoundTrip
use glitchgate.Prelude.{
  ℕ, zero, suc, ◌+◌, ◌≤◌, ℤ, pos, negsuc, is_zero, Bool, true, false, not, ◌&&◌, ◌||◌, Option, none,
  some, List, [], ◌∷◌, ◌++◌, map, nat_eq, leb, if◌then◌else◌, length, bytes, same_bytes, is_empty,
  trim_space,
}
use glitchgate.Export.{
  Value, null, int, float, boolean, text, blob, Parsed, parsed, refused, panics, starts_with,
  parse_sql_literal_to_go,
}
use glitchgate.Export.Lines.{LineError, InsertLine, statement, malformed, parse_insert_line}
use glitchgate.Import.Scan.{scan_lines}
use glitchgate.Import.Outcomes.{
  ImportError, unsupported_version, bad_line, bad_value, worker_failed, pragma_refused,
  no_bool_columns, sequence_failed, line_too_long, Outcome, done, failed, crashes, and_then,
}

-- What the import does, besides keeping its own variables: pool.submit, barrier.Wait and progress.
pub data Event (Float : Type 0) : Type 0 where
  submitted : List ℕ → List (List ℕ) → List (List (Value Float)) → Event Float
  waited : Event Float
  reported : List ℕ → ℕ → Event Float

-- The variables that importFromDump's functions share, and what was done, the newest first.
pub record ImportState (Float : Type 0) : Type 0 where
  pub batch_table : List ℕ
  pub batch_cols : List (List ℕ)
  pub pending_rows : List (List (Value Float))
  pub current_table : List ℕ
  pub current_count : ℕ
  pub events : List (Event Float)

abbrev pub initial_state : {Float : Type 0} → ImportState Float
initial_state = record {
  batch_table = [];
  batch_cols = [];
  pending_rows = [];
  current_table = [];
  current_count = 0;
  events = [];
}

-- strings.ReplaceAll(s, "\x00", "")
unfoldable pub without_null : List ℕ → List ℕ
without_null [] = []
without_null (c ∷ s) = let rest = without_null s in if nat_eq c 0 then rest else c ∷ rest

abbrev pub import_pragmas : List (List ℕ)
import_pragmas = map bytes (
    "PRAGMA foreign_keys=OFF"
    ∷ ("PRAGMA synchronous=NORMAL"
        ∷ ("PRAGMA journal_mode=WAL"
            ∷ ("PRAGMA cache_size=-65536" ∷ ("PRAGMA temp_store=MEMORY" ∷ [])))))

-- What the import is given: the dialect, the columns that are boolean there, and the packages and
-- workers that it uses.
pub record ImportContext (Float Error : Type 0) : Type 0 where
  pub parse_int : List ℕ → Option ℤ
  pub parse_float : List ℕ → Option Float
  pub scan_version : List ℕ → Option ℕ
  pub postgres : Bool
  pub is_bool : List ℕ → List ℕ → Bool
  pub to_valid_utf8 : List ℕ → List ℕ
  pub pool_error : List (Event Float) → Option Error
  pub pragma_error : List ℕ → Option Error
  pub bool_columns_error : Option Error
  pub sequence_error : Option Error

module _ {Float Error : Type 0} (ctx : ImportContext Float Error) where
  -- if tableBools[cols[i]], with n != 0 for an int64
  abbrev pub as_bool : Bool → Value Float → Value Float
  as_bool true (int n) = boolean (not (is_zero n))
  as_bool b v = v

  abbrev pub clean_text : Value Float → Value Float
  clean_text (text s) = text (if ctx.postgres then without_null (ctx.to_valid_utf8 s) else s)
  clean_text v = v

  abbrev pub convert_value : List ℕ → List ℕ → Value Float → Value Float
  convert_value table col v = clean_text (as_bool (ctx.postgres && ctx.is_bool table col) v)

  -- cols[i], in the text of an error
  abbrev pub value_error : {A : Type 0} → List (List ℕ) → Outcome Error A
  value_error [] = crashes
  value_error (col ∷ cols) = failed (bad_value col)

  -- The values of a row. Where there are more of them than columns, cols[i] is out of range.
  unfoldable pub convert_row :
      List ℕ → List (List ℕ) → List (List ℕ) → Outcome Error (List (Value Float))
  convert_row table cols [] = done []
  convert_row table [] (raw ∷ raws) = crashes
  convert_row table (col ∷ cols) (raw ∷ raws) =
      let rest = convert_row table cols raws in
      elim (parse_sql_literal_to_go ctx.parse_int ctx.parse_float raw) [
        | panics ↦ crashes
        | refused ↦ value_error (col ∷ cols)
        | parsed v ↦ and_then rest (λ vs. done (convert_value table col v ∷ vs))
      ]

  -- pool.submit: nothing is handed over once a worker has failed.
  unfoldable pub pool_submit : ImportState Float → Outcome Error (ImportState Float)
  pool_submit st = elim (ctx.pool_error st.events) [
    | some e ↦ failed (worker_failed e)
    | none ↦ done (record st {
      pending_rows = [];
      events = submitted st.batch_table st.batch_cols st.pending_rows ∷ st.events;
    })
  ]

  unfoldable pub submit_rows :
      List (List (Value Float)) → ImportState Float → Outcome Error (ImportState Float)
  unfolding pool_submit
  submit_rows [] st = done st
  submit_rows (row ∷ rows) st = pool_submit st

  abbrev pub submit_pending : ImportState Float → Outcome Error (ImportState Float)
  unfolding submit_rows
  submit_pending st = submit_rows st.pending_rows st

  abbrev pub wait : ImportState Float → ImportState Float
  wait st = record st { events = waited ∷ st.events }

  -- pool.firstErr
  unfoldable pub first_err : ImportState Float → Outcome Error (ImportState Float)
  first_err st = elim (ctx.pool_error st.events) [
    | some e ↦ failed (worker_failed e)
    | none ↦ done st
  ]

  unfoldable pub report_progress : ImportState Float → ImportState Float
  report_progress st = record st {
    events =
        if is_empty st.current_table
        then st.events
        else reported st.current_table st.current_count ∷ st.events;
  }

  -- if table != currentTable
  unfoldable pub start_count : List ℕ → ImportState Float → ImportState Float
  unfolding same_bytes report_progress
  start_count table st =
      if same_bytes table st.current_table
      then st
      else record (report_progress st) { current_table = table; current_count = 0 }

  -- if table != batchTable
  unfoldable pub change_table :
      List ℕ → List (List ℕ) → ImportState Float → Outcome Error (ImportState Float)
  unfolding same_bytes submit_pending first_err start_count
  change_table table cols st =
      if same_bytes table st.batch_table
      then done st
      else and_then (submit_pending st) (λ s.
        and_then (first_err (wait s))
          (λ t. done (record (start_count table t) { batch_table = table; batch_cols = cols })))

  -- The row is kept, and 100 rows are handed over.
  unfoldable pub add_row :
      List (Value Float) → ImportState Float → Outcome Error (ImportState Float)
  unfolding submit_pending report_progress
  add_row row st =
      let kept = record st {
        pending_rows = st.pending_rows ++ row ∷ [];
        current_count = st.current_count + 1;
      } in
      if leb 100 (length kept.pending_rows)
      then and_then (submit_pending kept) (λ s. done (report_progress s))
      else done kept

  unfoldable pub process_statement :
      InsertLine → ImportState Float → Outcome Error (ImportState Float)
  unfolding change_table convert_row add_row
  process_statement (malformed table e) st = failed (bad_line e)
  process_statement (statement table cols raws) st =
      and_then (change_table table cols st)
        (λ s. and_then (convert_row table cols raws) (λ row. add_row row s))

  unfoldable pub process_line : List ℕ → ImportState Float → Outcome Error (ImportState Float)
  unfolding trim_space starts_with parse_insert_line process_statement
  process_line line st =
      let trimmed = trim_space line in
      if is_empty trimmed || starts_with trimmed (bytes "--")
      then done st
      else process_statement (parse_insert_line trimmed) st

  unfoldable pub process_lines :
      List (List ℕ) → ImportState Float → Outcome Error (ImportState Float)
  unfolding process_line
  process_lines [] st = done st
  process_lines (line ∷ lines) st = and_then (process_line line st) (process_lines lines)

  -- The end of importFromDump: the last batch, and pool.stop.
  unfoldable pub finish : ImportState Float → Outcome Error (ImportState Float)
  unfolding submit_pending first_err report_progress
  finish st =
      and_then (submit_pending st)
        (λ s. and_then (first_err (wait s)) (λ t. done (report_progress t)))

  -- The loop over the header: the version, and the lines from the first that is data.
  unfoldable pub read_header : ℕ → List (List ℕ) → ℕ × List (List ℕ)
  unfolding starts_with trim_space
  read_header version [] = (version, [])
  read_header version (line ∷ lines) =
      let scanned : ℕ = elim (ctx.scan_version line) [ none ↦ version | some v ↦ v ] in
      let now = if starts_with line (bytes "-- version: ") then scanned else version in
      let rest = read_header now lines in
      if not (starts_with line (bytes "--")) && not (is_empty (trim_space line))
      then (now, line ∷ lines)
      else rest

  unfoldable pub set_pragmas : List (List ℕ) → Outcome Error (Unit {0})
  set_pragmas [] = done tt
  set_pragmas (p ∷ ps) =
      let rest = set_pragmas ps in
      elim (ctx.pragma_error p) [ some e ↦ failed (pragma_refused e) | none ↦ rest ]

  -- What the database is asked for before the first row: SQLite's settings, or the columns that are
  -- boolean in PostgreSQL. The settings that are restored at the end cannot fail the import.
  unfoldable pub prepare : Outcome Error (Unit {0})
  unfolding set_pragmas
  prepare =
      if ctx.postgres
      then elim ctx.bool_columns_error [ some e ↦ failed (no_bool_columns e) | none ↦ done tt ]
      else set_pragmas import_pragmas

  -- scanner.Err()
  unfoldable pub check_scan : Bool → ImportState Float → Outcome Error (ImportState Float)
  check_scan too_long st = if too_long then failed line_too_long else done st

  -- syncAuditEventsSequence, in PostgreSQL only
  unfoldable pub sync_sequence : ImportState Float → Outcome Error (ImportState Float)
  sync_sequence st =
      if ctx.postgres
      then elim ctx.sequence_error [ some e ↦ failed (sequence_failed e) | none ↦ done st ]
      else done st

  -- From the check of the version on.
  unfoldable pub import_lines : ℕ → List (List ℕ) → Bool → Outcome Error (ImportState Float)
  unfolding prepare process_lines check_scan finish sync_sequence
  import_lines version lines too_long =
      if nat_eq version 1
      then and_then prepare (λ u.
        and_then (process_lines lines initial_state)
          (λ s. and_then (check_scan too_long s) (λ t. and_then (finish t) sync_sequence)))
      else failed (unsupported_version version)

  -- Of the text of a backup, after it is decompressed.
  unfoldable pub import_from_dump : List ℕ → Outcome Error (ImportState Float)
  unfolding scan_lines read_header import_lines
  import_from_dump s =
      let scanned = scan_lines s in
      let header = read_header 0 scanned.0 in import_lines header.0 header.1 scanned.1
