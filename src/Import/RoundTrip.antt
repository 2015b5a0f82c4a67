-- ===== src/Import/RoundTrip.antt =====
-- internal/store/export.go: a backup is imported whole, where no worker fails.
use mathlib.Core.List.{append_assoc, append-nil}
use glitchgate.Prelude.{
  ℕ, ◌<◌, ℤ, true, false, All-both, none, some, List, [], ◌∷◌, ◌++◌, map, length, bytes, ◌≡◌, ◌≢◌,
  refl, ap, ap₂, sym, subst, ◌∙◌, All,
}
use glitchgate.Export.{Value, sql_literal}
use glitchgate.Export.Lines.{insert_line, lacks, IsName}
use glitchgate.Export.Dump.{
  TableData, export_tables, write_rows, write_table_sql, write_tables, backup_lines, print_lines,
  export_from_db,
}
use glitchgate.Export.OneLine.{one_line}
use glitchgate.Import.Scan.{max_token, scan_lines, scan-print_lines}
use glitchgate.Import.{
  Event, ImportContext, ImportState, initial_state, add_row, change_table, process_statement,
  process_line, process_lines, first_err, wait, submit_pending, finish, read_header, check_scan,
  sync_sequence, import_lines, import_from_dump,
}
use glitchgate.Import.Outcomes.{Gives, Gives-and_then}
use glitchgate.Import.Rows.{
  Row, rows_sent, rows_taken, IsFlushed, submit_pending-IsFlushed, first_err-IsFlushed,
  report_progress-IsFlushed, change_table_lem, add_row_lem,
}
use glitchgate.Import.Restore.{
  restored, restored_rows, CanRead, IsRestorable, insert_line-IsData, process_line_data, header_lem,
  convert_row_lem, statement_read, header_stops,
}
use glitchgate.Import.Printed.{backup-one_line}
use glitchgate.Import.Readiness.{IsReady, prepare_ready, sync_ready}

module _ {Float Error : Type 0} (ctx : ImportContext Float Error) (format_int : ℤ → List ℕ)
    (format_float : Float → List ℕ)
    (none_fails : (h : List (Event Float)) → ctx.pool_error h ≡ none) where
  process_line_lem :
      (table : List ℕ) (cols : List (List ℕ)) (vs : List (Value Float)) (st : ImportState Float)
      → lacks b' ' table ≡ true
      → cols ≢ []
      → All IsName cols
      → length cols ≡ length vs
      → All (CanRead ctx format_int format_float) vs
      → Gives
          (λ s. rows_taken s ≡ rows_taken st ++ (table, restored ctx table cols vs) ∷ [])
          (process_line ctx
            (insert_line table cols (map (sql_literal format_int format_float) vs))
            st)
  unfolding process_statement
  process_line_lem table cols vs st e n a l r =
      let literals = map (sql_literal format_int format_float) vs in
      rw
        (
          process_line_data ctx (insert_line table cols literals) st
              (insert_line-IsData table cols literals),
          statement_read ctx format_int format_float table cols vs e n a l r,
          convert_row_lem ctx format_int format_float table cols vs l r,
        )
        (Gives-and_then (λ s. (rows_taken s ≡ rows_taken st) × (s.batch_table ≡ table)) _
          (change_table ctx table cols st) _ (change_table_lem ctx none_fails table cols st)
          (λ s (t, b).
            subst
              (λ rows.
                Gives (λ x. rows_taken x ≡ rows) (add_row ctx (restored ctx table cols vs) s))
              (ap₂ (λ rows name. rows ++ (name, restored ctx table cols vs) ∷ []) t b)
              (add_row_lem ctx none_fails (restored ctx table cols vs) s)))

  -- After these lines, these rows were taken too.
  abbrev Takes : List (Row Float) → List (List ℕ) → Type 0
  Takes rows lines =
      (st : ImportState Float)
      → Gives (λ s. rows_taken s ≡ rows_taken st ++ rows) (process_lines ctx lines st)

  rows_lem :
      (table : List ℕ) (cols : List (List ℕ)) (rows : List (List (Value Float)))
      (later : List (Row Float)) (more : List (List ℕ))
      → lacks b' ' table ≡ true
      → cols ≢ []
      → All IsName cols
      → All (λ row. (length cols ≡ length row) × All (CanRead ctx format_int format_float) row) rows
      → Takes later more
      → Takes
          (map (λ row. (table, restored ctx table cols row)) rows ++ later)
          (write_rows format_int format_float table cols rows ++ more)
  unfolding process_lines write_rows
  rows_lem table cols [] later more e n a r next st = next st
  rows_lem table cols (row ∷ rows) later more e n a ((l, p), r) next st =
      Gives-and_then _ _
        (process_line ctx (insert_line table cols (map (sql_literal format_int format_float) row))
          st)
        _ (process_line_lem table cols row st e n a l p)
        (λ s t.
          subst
            (λ x.
              Gives (λ z. rows_taken z ≡ x)
                (process_lines ctx (write_rows format_int format_float table cols rows ++ more) s))
            (ap (λ x. x ++ (map (λ q. (table, restored ctx table cols q)) rows ++ later)) t
              ∙ append_assoc (rows_taken st) ((table, restored ctx table cols row) ∷ [])
                  (map (λ q. (table, restored ctx table cols q)) rows ++ later))
            (rows_lem table cols rows later more e n a r next s))

  tables_lem :
      (db : List ℕ → TableData Float) (tables : List (List ℕ))
      → All
          (λ table. (lacks b' ' table ≡ true) × IsRestorable ctx format_int format_float (db table))
          tables
      → Takes (restored_rows ctx db tables) (write_tables format_int format_float db tables)
  unfolding process_lines restored_rows write_tables write_table_sql
  tables_lem db [] a st = sym (append-nil (rows_taken st))
  tables_lem db (table ∷ tables) ((e, (n, c, o, r)), a) st =
      rows_lem table (db table).columns (db table).rows (restored_rows ctx db tables)
        (write_tables format_int format_float db tables) e n c r (tables_lem db tables a) st

  finish_lem :
      (st : ImportState Float) → Gives (λ s. rows_sent s.events ≡ rows_taken st) (finish ctx st)
  unfolding finish
  finish_lem st =
      Gives-and_then (IsFlushed ctx none_fails (rows_taken st)) _ (submit_pending ctx st) _
        (submit_pending-IsFlushed ctx none_fails st)
        (λ s p.
          Gives-and_then (IsFlushed ctx none_fails (rows_taken st)) _ (first_err ctx (wait ctx s)) _
            (first_err-IsFlushed ctx none_fails (rows_taken st) s p)
            (λ t q. (report_progress-IsFlushed ctx none_fails (rows_taken st) t q).0))

  named :
      (db : List ℕ → TableData Float)
      → All (λ table. IsRestorable ctx format_int format_float (db table)) export_tables
      → All
          (λ table. (lacks b' ' table ≡ true) × IsRestorable ctx format_int format_float (db table))
          export_tables
  unfolding lacks
  named db (a, (b, (c, (d, (e, (f, t)))))) =
      ((refl, a), ((refl, b), ((refl, c), ((refl, d), ((refl, e), ((refl, f), tt))))))

  lines_lem :
      (db : List ℕ → TableData Float)
      → IsReady ctx
      → All (λ table. IsRestorable ctx format_int format_float (db table)) export_tables
      → Gives
          (λ st. rows_sent st.events ≡ restored_rows ctx db export_tables)
          (import_lines ctx 1 (write_tables format_int format_float db export_tables) false)
  unfolding import_lines check_scan rows_taken rows_sent
  lines_lem db ready a =
      let lines = write_tables format_int format_float db export_tables in
      let rows = restored_rows ctx db export_tables in
      rw (import_lines, prepare_ready ctx ready)
        (Gives-and_then (λ s. rows_taken s ≡ rows) _ (process_lines ctx lines initial_state) _
          (tables_lem db export_tables (named db a) initial_state)
          (λ s t.
            Gives-and_then (λ z. rows_sent z.events ≡ rows) _ (finish ctx s) (sync_sequence ctx)
              (subst (λ x. Gives (λ z. rows_sent z.events ≡ x) (finish ctx s)) t (finish_lem s))
              (λ z q. rw (sync_ready ctx ready z) q)))

  imported :
      (s : List ℕ) (lines rest : List (List ℕ))
      → scan_lines s ≡ (lines, false)
      → read_header ctx 0 lines ≡ (1, rest)
      → import_from_dump ctx s ≡ import_lines ctx 1 rest false
  unfolding import_from_dump
  imported s lines rest e h =
      ap (λ r. let top = read_header ctx 0 r.0 in import_lines ctx top.0 top.1 r.1) e
      ∙ ap (λ top. import_lines ctx top.0 top.1 false) h

  -- What a backup restores: the import of its text ends without an error, and the rows that it has
  -- handed to the workers are the database's, table by table, as `restored` converts them. The
  -- conditions are that no worker fails, that the database refuses nothing else, that the version's
  -- number is read, that the time's text is one line, that each table has columns with plain names,
  -- that each row has a readable value for each column, and that no line has 10 MB or more.
  pub import-export_from_db :
      (db : List ℕ → TableData Float) (exported_at : List ℕ)
      → IsReady ctx
      → ctx.scan_version (bytes "-- version: 1") ≡ some 1
      → one_line exported_at ≡ true
      → All (λ table. IsRestorable ctx format_int format_float (db table)) export_tables
      → All (λ l. length l < max_token) (backup_lines format_int format_float db exported_at)
      → Gives
          (λ st. rows_sent st.events ≡ restored_rows ctx db export_tables)
          (import_from_dump ctx (export_from_db format_int format_float db exported_at))
  unfolding export_from_db backup_lines
  import-export_from_db db exported_at ready v e a short =
      let printed = backup_lines format_int format_float db exported_at in
      let lines = write_tables format_int format_float db export_tables in
      let scanned = scan-print_lines printed (
        All-both (λ l o n. (o, n)) printed
          (backup-one_line ctx format_int format_float db exported_at e a) short) in
      let top =
        header_lem ctx exported_at lines v
        ∙ header_stops ctx format_int format_float db 1 export_tables in
      subst (Gives (λ st. rows_sent st.events ≡ restored_rows ctx db export_tables))
        (sym (imported (print_lines printed) printed lines scanned top)) (lines_lem db ready a)
