-- ===== src/Import/Restore.antt =====
-- internal/store/export.go: what exportFromDB writes and importFromDump hands to its workers.
use glitchgate.Prelude.{
  ℕ, ℤ, true, false, some, List, [], ◌∷◌, ◌++◌, map, length, bytes, is_empty, trim_space,
  trim_space_solid, ends_solid-append, is_space, ◌≡◌, ◌≢◌, refl, arith, All,
}
use glitchgate.Export.{Value, starts_with, sql_literal, join_literals}
use glitchgate.Export.Literals.{Readable, stored, parse-sql_literal}
use glitchgate.Export.Rows.{literals_lem}
use glitchgate.Export.Lines.{statement, parse_insert_line, insert_line, lacks, IsName}
use glitchgate.Export.Lines.Reading.{parse-insert_line}
use glitchgate.Export.OneLine.{one_line}
use glitchgate.Export.Dump.{TableData, header_lines, write_rows, write_table_sql, write_tables}
use glitchgate.Import.{
  ImportContext, ImportState, convert_value, convert_row, process_statement, process_line,
  read_header,
}
use glitchgate.Import.Outcomes.{done}
use glitchgate.Import.Rows.{Row}

-- The line of a row, as a line of the file: it has no space at its ends, and is no comment.
insert_line_solid :
    (table : List ℕ) (cols literals : List (List ℕ))
    → trim_space (insert_line table cols literals) ≡ insert_line table cols literals
unfolding insert_line is_space
insert_line_solid table cols literals =
    let last = join_literals literals ++ bytes ");" in
    let names = join_literals cols ++ (bytes ") VALUES (" ++ last) in
    trim_space_solid (insert_line table cols literals) refl (
      ends_solid-append (bytes "INSERT OR IGNORE INTO ") (table ++ (bytes " (" ++ names)) (
        ends_solid-append table (bytes " (" ++ names) (
          ends_solid-append (bytes " (") names (
            ends_solid-append (join_literals cols) (bytes ") VALUES (" ++ last) (
              ends_solid-append (bytes ") VALUES (") last
                (ends_solid-append (join_literals literals) (bytes ");") refl))))))

-- A line that the import takes for a statement.
abbrev IsData : List ℕ → Type 0
IsData line =
    (trim_space line ≡ line)
    × (is_empty line ≡ false)
    × (starts_with line (bytes "--") ≡ false)
    × (starts_with line (bytes "-- version: ") ≡ false)

pub insert_line-IsData :
    (table : List ℕ) (cols literals : List (List ℕ)) → IsData (insert_line table cols literals)
unfolding insert_line starts_with
insert_line-IsData table cols literals = (insert_line_solid table cols literals, refl, refl, refl)

module _ {Float Error : Type 0} (ctx : ImportContext Float Error) where
  pub read_header_data :
      (version : ℕ) (line : List ℕ) (lines : List (List ℕ))
      → IsData line
      → read_header ctx version (line ∷ lines) ≡ (version, line ∷ lines)
  unfolding read_header
  read_header_data version line lines (t, e, f, g) = rw (read_header, f, g, t, e) refl

  pub header_lem :
      (exported_at : List ℕ) (lines : List (List ℕ))
      → ctx.scan_version (bytes "-- version: 1") ≡ some 1
      → read_header ctx 0 (header_lines exported_at ++ lines) ≡ read_header ctx 1 lines
  unfolding header_lines read_header starts_with is_space
  header_lem exported_at lines v = rw (v) refl

  pub process_line_data :
      (line : List ℕ) (st : ImportState Float)
      → IsData line
      → process_line ctx line st ≡ process_statement ctx (parse_insert_line line) st
  unfolding process_line
  process_line_data line st (t, e, f, g) = rw (process_line, t, e, f) refl

  -- What becomes of a row's values.
  unfoldable pub restored : List ℕ → List (List ℕ) → List (Value Float) → List (Value Float)
  restored table cols [] = []
  restored table [] (v ∷ vs) = []
  restored table (col ∷ cols) (v ∷ vs) =
      convert_value ctx table col (stored v) ∷ restored table cols vs

  unfoldable pub restored_rows : (List ℕ → TableData Float) → List (List ℕ) → List (Row Float)
  unfolding restored
  restored_rows db [] = []
  restored_rows db (table ∷ tables) =
      map (λ row. (table, restored table (db table).columns row)) (db table).rows
      ++ restored_rows db tables

  module _ (format_int : ℤ → List ℕ) (format_float : Float → List ℕ) where
    abbrev pub CanRead : Value Float → Type 0
    CanRead v = Readable format_int format_float ctx.parse_int ctx.parse_float v

    pub convert_row_lem :
        (table : List ℕ) (cols : List (List ℕ)) (vs : List (Value Float))
        → length cols ≡ length vs
        → All CanRead vs
        → convert_row ctx table cols (map (sql_literal format_int format_float) vs)
          ≡ done (restored table cols vs)
    unfolding convert_row restored
    convert_row_lem table cols [] n a = refl
    convert_row_lem table [] (v ∷ vs) n a = ground (arith, n)
    convert_row_lem table (col ∷ cols) (v ∷ vs) n (r, a) =
        rw
          (
            convert_row,
            parse-sql_literal format_int format_float ctx.parse_int ctx.parse_float v r,
            convert_row_lem table cols vs (omega (arith, n)) a,
          )
          refl

    -- A table as a database has it: it has columns, and each row has a value for each of them.
    abbrev pub IsRestorable : TableData Float → Type 0
    IsRestorable t =
        (t.columns ≢ [])
        × All IsName t.columns
        × All (λ c. one_line c ≡ true) t.columns
        × All (λ row. (length t.columns ≡ length row) × All CanRead row) t.rows

    pub statement_read :
        (table : List ℕ) (cols : List (List ℕ)) (vs : List (Value Float))
        → lacks b' ' table ≡ true
        → cols ≢ []
        → All IsName cols
        → length cols ≡ length vs
        → All CanRead vs
        → parse_insert_line (insert_line table cols (map (sql_literal format_int format_float) vs))
          ≡ statement table cols (map (sql_literal format_int format_float) vs)
    statement_read table [] vs e n a l r = absurd (n refl)
    statement_read table (c ∷ cols) [] e n a l r = ground (arith, l)
    statement_read table (c ∷ cols) (v ∷ vs) e n a l r =
        parse-insert_line table c cols (sql_literal format_int format_float v)
          (map (sql_literal format_int format_float) vs) e a
          (literals_lem format_int format_float ctx.parse_int ctx.parse_float (v ∷ vs) r)

    pub header_stops :
        (db : List ℕ → TableData Float) (version : ℕ) (tables : List (List ℕ))
        → read_header ctx version (write_tables format_int format_float db tables)
          ≡ (version, write_tables format_int format_float db tables)
    unfolding read_header write_tables write_table_sql write_rows
    header_stops db version [] = refl
    header_stops db version (table ∷ tables) =
        with_rows (db table).columns (db table).rows (header_stops db version tables)
      where
        with_rows :
            (cols : List (List ℕ)) (rows : List (List (Value Float)))
            → read_header ctx version (write_tables format_int format_float db tables)
              ≡ (version, write_tables format_int format_float db tables)
            → read_header ctx version (
                write_rows format_int format_float table cols rows
                ++ write_tables format_int format_float db tables)
              ≡ (
                version,
                write_rows format_int format_float table cols rows
                    ++ write_tables format_int format_float db tables,
              )
        with_rows cols [] h = h
        with_rows cols (row ∷ rows) h =
            let literals = map (sql_literal format_int format_float) row in
            read_header_data version (insert_line table cols literals)
              (write_rows format_int format_float table cols rows
                ++ write_tables format_int format_float db tables)
              (insert_line-IsData table cols literals)
