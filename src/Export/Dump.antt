-- ===== src/Export/Dump.antt =====
-- internal/store/export.go, exportFromDB: the text of a backup, before it is compressed. The database
-- is a parameter, and so are the time's text and the numbers' texts; its errors are left out.
use glitchgate.Prelude.{ℕ, ℤ, List, [], ◌∷◌, ◌++◌, map, bytes}
use glitchgate.Export.{Value, sql_literal, join_literals}
use glitchgate.Export.Lines.{insert_line}

-- What SELECT * gives.
pub record TableData (Float : Type 0) : Type 0 where
  pub columns : List (List ℕ)
  pub rows : List (List (Value Float))

abbrev pub export_tables : List (List ℕ)
export_tables = map bytes (
    "oidc_users"
    ∷ ("teams" ∷ ("team_memberships" ∷ ("proxy_keys" ∷ ("request_logs" ∷ ("audit_events" ∷ []))))))

unfoldable pub header_lines : List ℕ → List (List ℕ)
unfolding join_literals
header_lines exported_at =
    bytes "-- glitchgate database export"
    ∷ (bytes "-- version: 1"
        ∷ ((bytes "-- exported_at: " ++ exported_at)
            ∷ ((bytes "-- tables: " ++ join_literals export_tables) ∷ ([] ∷ []))))

-- What is written: a line feed ends each line.
unfoldable pub print_lines : List (List ℕ) → List ℕ
print_lines [] = []
print_lines (l ∷ ls) = l ++ 10 ∷ print_lines ls

module _ {Float : Type 0} (format_int : ℤ → List ℕ) (format_float : Float → List ℕ) where
  -- writeTableSQL: the lines of one table's rows.
  unfoldable pub write_rows : List ℕ → List (List ℕ) → List (List (Value Float)) → List (List ℕ)
  unfolding insert_line sql_literal
  write_rows table cols [] = []
  write_rows table cols (row ∷ rows) =
      insert_line table cols (map (sql_literal format_int format_float) row)
      ∷ write_rows table cols rows

  unfoldable pub write_table_sql : List ℕ → TableData Float → List (List ℕ)
  unfolding write_rows
  write_table_sql table t = write_rows table t.columns t.rows

  unfoldable pub write_tables : (List ℕ → TableData Float) → List (List ℕ) → List (List ℕ)
  unfolding write_table_sql
  write_tables db [] = []
  write_tables db (table ∷ tables) = write_table_sql table (db table) ++ write_tables db tables

  unfoldable pub backup_lines : (List ℕ → TableData Float) → List ℕ → List (List ℕ)
  unfolding header_lines write_tables
  backup_lines db exported_at = header_lines exported_at ++ write_tables db export_tables

  unfoldable pub export_from_db : (List ℕ → TableData Float) → List ℕ → List ℕ
  unfolding backup_lines print_lines
  export_from_db db exported_at = print_lines (backup_lines db exported_at)
