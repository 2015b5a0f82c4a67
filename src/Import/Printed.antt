-- ===== src/Import/Printed.antt =====
-- internal/store/export.go: the lines of a backup are lines.
use glitchgate.Prelude.{ℕ, ℤ, true, All-append, List, [], ◌∷◌, length, ◌≡◌, refl, All}
use glitchgate.Export.{Value}
use glitchgate.Export.Dump.{
  TableData, export_tables, header_lines, write_rows, write_table_sql, write_tables, backup_lines,
}
use glitchgate.Export.OneLine.{one_line, insert_line-one_line}
use glitchgate.Import.{ImportContext}
use glitchgate.Import.Restore.{CanRead, IsRestorable}

module _ {Float Error : Type 0} (ctx : ImportContext Float Error) (format_int : ℤ → List ℕ)
    (format_float : Float → List ℕ) where
  -- Each table's rows are printed on lines of their own.
  rows-one_line :
      (table : List ℕ) (cols : List (List ℕ)) (rows : List (List (Value Float)))
      → one_line table ≡ true
      → All (λ c. one_line c ≡ true) cols
      → All (λ row. (length cols ≡ length row) × All (CanRead ctx format_int format_float) row) rows
      → All (λ l. one_line l ≡ true) (write_rows format_int format_float table cols rows)
  unfolding write_rows
  rows-one_line table cols [] t c a = tt
  rows-one_line table cols (row ∷ rows) t c ((n, r), a) = (
    insert_line-one_line format_int format_float ctx.parse_int ctx.parse_float table cols row t c r,
    rows-one_line table cols rows t c a,
  )

  tables-one_line :
      (db : List ℕ → TableData Float) (tables : List (List ℕ))
      → All (λ table. one_line table ≡ true) tables
      → All (λ table. IsRestorable ctx format_int format_float (db table)) tables
      → All (λ l. one_line l ≡ true) (write_tables format_int format_float db tables)
  unfolding write_tables write_table_sql
  tables-one_line db [] t a = tt
  tables-one_line db (table ∷ tables) (t, ts) ((n, c, o, r), a) =
      All-append (λ l. one_line l ≡ true)
        (write_rows format_int format_float table (db table).columns (db table).rows)
        (write_tables format_int format_float db tables)
        (rows-one_line table (db table).columns (db table).rows t o r)
        (tables-one_line db tables ts a)

  pub backup-one_line :
      (db : List ℕ → TableData Float) (exported_at : List ℕ)
      → one_line exported_at ≡ true
      → All (λ table. IsRestorable ctx format_int format_float (db table)) export_tables
      → All (λ l. one_line l ≡ true) (backup_lines format_int format_float db exported_at)
  unfolding backup_lines header_lines one_line
  backup-one_line db exported_at e a =
      All-append (λ l. one_line l ≡ true) (header_lines exported_at)
        (write_tables format_int format_float db export_tables)
        (refl, (refl, (e, (refl, (refl, tt)))))
        (tables-one_line db export_tables (refl, (refl, (refl, (refl, (refl, (refl, tt)))))) a)
