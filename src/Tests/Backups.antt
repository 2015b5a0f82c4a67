-- ===== src/Tests/Backups.antt =====
-- Runs of internal/store/export.go.
use glitchgate.Prelude.{
  ℕ, ◌<◌, length, ◌+◌, ◌-◌, ℤ, pos, negsuc, Bool, true, ◌≡◌, refl, List, [], ◌∷◌, map, Option, some,
  none, arith, bytes, same_bytes, if◌then◌else◌, is_space, leb, ltb, ◌&&◌, All,
}
use glitchgate.Export.{
  Value, quote_sql, has_control, double_quotes, null, int, boolean, text, blob, parsed, refused,
  panics, sql_literal, parse_sql_literal_to_go, split_sql_values, join_literals,
}
use glitchgate.Export.Hex.{IsByte, hex_encode}
use glitchgate.Export.Literals.{Readable, stored, IsNumeral, is_numeral_byte}
use glitchgate.Export.Rows.{parse-split-join_literals}
use glitchgate.Export.Lines.{lacks, insert_line}
use glitchgate.Export.OneLine.{one_line}
use glitchgate.Import.Scan.{max_token}
use glitchgate.Export.Dump.{
  TableData, export_tables, header_lines, write_rows, write_table_sql, write_tables, backup_lines,
  export_from_db,
}
use glitchgate.Import.{ImportContext, import_from_dump}
use glitchgate.Import.Outcomes.{Gives, Allows}
use glitchgate.Import.Rows.{rows_sent}
use glitchgate.Import.Barriers.{IsSettled, import_from_dump-Barriered}
use glitchgate.Import.Restore.{restored_rows, IsRestorable}
use glitchgate.Import.RoundTrip.{import-export_from_db}

-- Numbers of one digit, and no floats.
abbrev write_digit : ℤ → List ℕ
write_digit (pos n) = (b'0' + n) ∷ []
write_digit (negsuc n) = bytes "-"

abbrev read_digit : List ℕ → Option ℤ
read_digit [] = none
read_digit (c ∷ []) = if leb b'0' c && leb c b'9' then some (pos (c - b'0')) else none
read_digit (c ∷ (d ∷ s)) = none

abbrev write_float : Bool → List ℕ
write_float f = []

abbrev read_float : List ℕ → Option Bool
read_float s = none

abbrev are_bytes : List ℕ → Bool
are_bytes [] = true
are_bytes (c ∷ s) = ltb c 256 && are_bytes s

are_bytes_lem : (s : List ℕ) → are_bytes s ≡ true → All IsByte s
are_bytes_lem [] e = tt
are_bytes_lem (c ∷ s) e = (ground (arith, e), are_bytes_lem s (ground (arith, e)))

abbrev row : List (Value Bool)
row =
    text (bytes "it's, a (row")
    ∷ (int (pos 7) ∷ (boolean true ∷ (null ∷ (blob (0 ∷ (255 ∷ [])) ∷ []))))

abbrev ctx : ImportContext Bool Bool
ctx = record {
  parse_int = read_digit;
  parse_float = read_float;
  scan_version = λ s. some 1;
  postgres = true;
  is_bool = λ table col. same_bytes col (bytes "admin");
  to_valid_utf8 = λ s. s;
  pool_error = λ h. none;
  pragma_error = λ p. none;
  bool_columns_error = none;
  sequence_error = none;
}

abbrev team_rows : List (List (Value Bool))
team_rows = (int (pos 7) ∷ (text (bytes "it's") ∷ [])) ∷ []

abbrev db : List ℕ → TableData Bool
db table =
    if same_bytes table (bytes "teams")
    then record { columns = bytes "admin" ∷ (bytes "name" ∷ []); rows = team_rows }
    else record { columns = bytes "id" ∷ []; rows = [] }

text_bytes : All IsByte (bytes "it's, a (row")
text_bytes = are_bytes_lem (bytes "it's, a (row") refl

blob_bytes : All IsByte (0 ∷ (255 ∷ []))
blob_bytes = are_bytes_lem (0 ∷ (255 ∷ [])) refl

digit-IsNumeral : IsNumeral (write_digit (pos 7))
unfolding is_numeral_byte
digit-IsNumeral = ((λ e. ground (arith, e)), (refl, tt))

no_rows : IsRestorable ctx write_digit write_float (record { columns = bytes "id" ∷ []; rows = [] })
unfolding lacks is_space one_line
no_rows = ((λ e. ground (arith, e)), ((refl, refl, refl, refl), tt), (refl, tt), tt)

with_rows :
    IsRestorable ctx write_digit write_float
      (record { columns = bytes "admin" ∷ (bytes "name" ∷ []); rows = team_rows })
unfolding lacks is_space one_line Readable
with_rows = (
  (λ e. ground (arith, e)),
  ((refl, refl, refl, refl), ((refl, refl, refl, refl), tt)),
  (refl, (refl, tt)),
  ((refl, ((digit-IsNumeral, refl), (are_bytes_lem (bytes "it's") refl, tt))), tt),
)

parse-split-join_literals_example :
    map
      (parse_sql_literal_to_go read_digit read_float)
      (split_sql_values (join_literals (map (sql_literal write_digit write_float) row)))
    ≡ map (λ w. parsed (stored w)) row
unfolding Readable
parse-split-join_literals_example =
    parse-split-join_literals write_digit write_float read_digit read_float
      (text (bytes "it's, a (row"))
      (int (pos 7) ∷ (boolean true ∷ (null ∷ (blob (0 ∷ (255 ∷ [])) ∷ []))))
      (
        text_bytes,
        (
          (digit-IsNumeral, refl),
          ((refl, refl), (tt, (((λ e. ground (arith, e)), blob_bytes), tt))),
        ),
      )

import_from_dump-Barriered_example :
    Allows
      (IsSettled ctx)
      (import_from_dump ctx (export_from_db write_digit write_float db (bytes "now")))
import_from_dump-Barriered_example =
    import_from_dump-Barriered ctx (export_from_db write_digit write_float db (bytes "now"))

short : All (λ l. length l < max_token) (backup_lines write_digit write_float db (bytes "now"))
unfolding backup_lines header_lines write_tables write_table_sql write_rows insert_line sql_literal
    quote_sql join_literals has_control double_quotes same_bytes
short = (omega arith, (omega arith, (omega arith, (omega arith, (omega arith, (omega arith, tt))))))

import-export_from_db_example :
    Gives
      (λ st. rows_sent st.events ≡ restored_rows ctx db export_tables)
      (import_from_dump ctx (export_from_db write_digit write_float db (bytes "now")))
unfolding same_bytes one_line
import-export_from_db_example =
    import-export_from_db ctx write_digit write_float (λ h. refl) db (bytes "now")
      ((λ p. refl), refl, refl) refl refl
      (no_rows, (with_rows, (no_rows, (no_rows, (no_rows, (no_rows, tt)))))) short

-- An empty blob is written as X'', and refused.
empty_blob_refused :
    parse_sql_literal_to_go read_digit read_float (sql_literal write_digit write_float (blob []))
    ≡ refused
unfolding parse_sql_literal_to_go sql_literal hex_encode
empty_blob_refused = refl

-- A literal whose prefix and suffix overlap makes the slice's bounds cross.
overlap_panics : parse_sql_literal_to_go read_digit read_float (bytes "CAST(X' AS TEXT)") ≡ panics
unfolding parse_sql_literal_to_go
overlap_panics = refl
