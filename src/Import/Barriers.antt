-- ===== src/Import/Barriers.antt =====
-- internal/store/export.go, importFromDump: the order in which rows are handed to the workers.
use glitchgate.Prelude.{
  ℕ, ◌+◌, ◌≤◌, ◌||◌, Bool, true, false, Option, none, some, List, [], ◌∷◌, ◌++◌, nat_eq, leb,
  Bool-cases, inl, inr, Option-cases, length, length-append, bytes, same_bytes, is_empty,
  trim_space, ◌≡◌, refl, arith,
}
use glitchgate.Export.{Value, starts_with}
use glitchgate.Export.Lines.{InsertLine, statement, malformed, parse_insert_line}
use glitchgate.Import.{
  Event, submitted, waited, reported, ImportContext, ImportState, initial_state, convert_row,
  pool_submit, submit_rows, submit_pending, wait, first_err, report_progress, start_count,
  change_table, add_row, process_statement, process_line, process_lines, finish, read_header,
  prepare, check_scan, sync_sequence, import_lines, import_from_dump,
}
use glitchgate.Import.Outcomes.{
  Outcome, done, failed, crashes, and_then, Allows, Allows-any, Allows-and_then,
}
use glitchgate.Import.Scan.{scan_lines}

abbrev pub IsOpenFor : List ℕ → Option (List ℕ) → Type 0
IsOpenFor table none = Unit
IsOpenFor table (some t) = t ≡ table

module _ {Float : Type 0} where
  -- The table of the batches that may not be committed yet: that of the last batch, unless the
  -- import has waited since.
  unfoldable pub open_table : List (Event Float) → Option (List ℕ)
  open_table [] = none
  open_table (submitted table cols rows ∷ es) = some table
  open_table (waited ∷ es) = none
  open_table (reported table n ∷ es) = open_table es

  -- Each batch has from 1 to 100 rows, and no other table is open where it is handed over.
  unfoldable pub Barriered : List (Event Float) → Type 0
  unfolding open_table
  Barriered [] = Unit
  Barriered (submitted table cols rows ∷ es) =
      IsOpenFor table (open_table es) × (1 ≤ length rows) × (length rows ≤ 100) × Barriered es
  Barriered (waited ∷ es) = Barriered es
  Barriered (reported table n ∷ es) = Barriered es

  -- The state's own part, with a bound on the rows that are kept.
  abbrev Ordered : ℕ → ImportState Float → Type 0
  Ordered n st =
      Barriered st.events
      × IsOpenFor st.batch_table (open_table st.events)
      × (length st.pending_rows ≤ n)

module _ {Float Error : Type 0} (ctx : ImportContext Float Error) where
  pool_submit-Ordered :
      (st : ImportState Float)
      → Ordered 100 st
      → 1 ≤ length st.pending_rows
      → Allows (Ordered 0) (pool_submit ctx st)
  unfolding pool_submit Barriered open_table
  pool_submit-Ordered st (b, f, n) l = elim (Option-cases (ctx.pool_error st.events)) [
    | inl e ↦ rw (pool_submit, e) ((f, l, n, b), refl, omega arith)
    | inr (x, e) ↦ rw (pool_submit, e) tt
  ]

  submit_rows-Ordered :
      (rows : List (List (Value Float))) (st : ImportState Float)
      → st.pending_rows ≡ rows
      → Ordered 100 st
      → Allows (Ordered 0) (submit_rows ctx rows st)
  unfolding submit_rows
  submit_rows-Ordered [] st e (b, f, n) = (b, f, rw (e) (omega arith))
  submit_rows-Ordered (row ∷ rows) st e o = pool_submit-Ordered st o (rw (e) (omega arith))

  submit_pending-Ordered :
      (st : ImportState Float) → Ordered 100 st → Allows (Ordered 0) (submit_pending ctx st)
  unfolding submit_pending submit_rows
  submit_pending-Ordered st o = submit_rows-Ordered st.pending_rows st refl o

  -- Nothing is open, and nothing is kept.
  abbrev pub IsSettled : ImportState Float → Type 0
  IsSettled st = Barriered st.events × (open_table st.events ≡ none) × (length st.pending_rows ≤ 0)

  settle : (st : ImportState Float) → Ordered 0 st → Allows IsSettled (first_err ctx (wait ctx st))
  unfolding first_err Barriered open_table
  settle st (b, f, n) = elim (Option-cases (ctx.pool_error (wait ctx st).events)) [
    | inl e ↦ rw (first_err, e) (b, refl, n)
    | inr (x, e) ↦ rw (first_err, e) tt
  ]

  report_progress-Settled :
      (st : ImportState Float) → IsSettled st → IsSettled (report_progress ctx st)
  unfolding report_progress Barriered open_table
  report_progress-Settled st (b, o, l) = elim (Bool-cases (is_empty st.current_table)) [
    | inl e ↦ rw (report_progress, e) (b, o, l)
    | inr e ↦ rw (report_progress, e) (b, o, l)
  ]

  report_progress-Ordered :
      (n : ℕ) (st : ImportState Float) → Ordered n st → Ordered n (report_progress ctx st)
  unfolding report_progress Barriered open_table
  report_progress-Ordered n st (b, o, l) = elim (Bool-cases (is_empty st.current_table)) [
    | inl e ↦ rw (report_progress, e) (b, o, l)
    | inr e ↦ rw (report_progress, e) (b, o, l)
  ]

  start_count-Settled :
      (table : List ℕ) (st : ImportState Float)
      → IsSettled st
      → IsSettled (start_count ctx table st)
  unfolding start_count
  start_count-Settled table st s = elim (Bool-cases (same_bytes table st.current_table)) [
    | inl e ↦ rw (start_count, e) s
    | inr e ↦ rw (start_count, e) (report_progress-Settled st s)
  ]

  change_table-Ordered :
      (table : List ℕ) (cols : List (List ℕ)) (st : ImportState Float)
      → Ordered 99 st
      → Allows (Ordered 99) (change_table ctx table cols st)
  unfolding change_table
  change_table-Ordered table cols st (b, f, n) =
      elim (Bool-cases (same_bytes table st.batch_table)) [
        | inl e ↦ rw (change_table, e) (b, f, n)
        | inr e ↦
            rw (change_table, e)
              (Allows-and_then (Ordered 0) (Ordered 99) (submit_pending ctx st) _
                (submit_pending-Ordered st (b, f, omega (arith, n)))
                (λ s o.
                  Allows-and_then IsSettled (Ordered 99) (first_err ctx (wait ctx s)) _ (settle s o)
                    (λ t p.
                      let (c, q, m) = start_count-Settled table t p in
                      (c, rw (q) tt, omega (arith, m)))))
      ]

  add_row-Ordered :
      (row : List (Value Float)) (st : ImportState Float)
      → Ordered 99 st
      → Allows (Ordered 99) (add_row ctx row st)
  unfolding add_row
  add_row-Ordered row st (b, f, n) =
      elim (Bool-cases (leb 100 (length (st.pending_rows ++ row ∷ [])))) [
        | inl e ↦
            rw (add_row, e)
              (Allows-and_then (Ordered 0) (Ordered 99)
                (submit_pending ctx (record st {
                  pending_rows = st.pending_rows ++ row ∷ [];
                  current_count = st.current_count + 1;
                }))
                _
                (submit_pending-Ordered
                  (record st {
                    pending_rows = st.pending_rows ++ row ∷ [];
                    current_count = st.current_count + 1;
                  })
                  (b, f, omega (arith, n, length-append st.pending_rows (row ∷ []))))
                (λ s (c, g, m). report_progress-Ordered 99 s (c, g, omega (arith, m))))
        | inr e ↦ rw (add_row, e) (b, f, ground (arith, e))
      ]

  process_statement-Ordered :
      (line : InsertLine) (st : ImportState Float)
      → Ordered 99 st
      → Allows (Ordered 99) (process_statement ctx line st)
  unfolding process_statement
  process_statement-Ordered (malformed table e) st o = tt
  process_statement-Ordered (statement table cols raws) st o =
      Allows-and_then (Ordered 99) (Ordered 99) (change_table ctx table cols st) _
        (change_table-Ordered table cols st o)
        (λ s p. converted (convert_row ctx table cols raws) s p)
    where
      converted :
          (row : Outcome Error (List (Value Float))) (s : ImportState Float)
          → Ordered 99 s
          → Allows (Ordered 99) (and_then row (λ r. add_row ctx r s))
      converted (done r) s p = add_row-Ordered r s p
      converted (failed e) s p = tt
      converted crashes s p = tt

  process_line-Ordered :
      (line : List ℕ) (st : ImportState Float)
      → Ordered 99 st
      → Allows (Ordered 99) (process_line ctx line st)
  unfolding process_line
  process_line-Ordered line st o =
      elim (Bool-cases (is_empty (trim_space line) || starts_with (trim_space line) (bytes "--"))) [
        | inl e ↦ rw (process_line, e) o
        | inr e ↦
            rw (process_line, e)
              (process_statement-Ordered (parse_insert_line (trim_space line)) st o)
      ]

  process_lines-Ordered :
      (lines : List (List ℕ)) (st : ImportState Float)
      → Ordered 99 st
      → Allows (Ordered 99) (process_lines ctx lines st)
  unfolding process_lines
  process_lines-Ordered [] st o = o
  process_lines-Ordered (line ∷ lines) st o =
      Allows-and_then (Ordered 99) (Ordered 99) (process_line ctx line st) (process_lines ctx lines)
        (process_line-Ordered line st o) (process_lines-Ordered lines)

  finish-Ordered : (st : ImportState Float) → Ordered 99 st → Allows IsSettled (finish ctx st)
  unfolding finish
  finish-Ordered st (b, f, n) =
      Allows-and_then (Ordered 0) IsSettled (submit_pending ctx st) _
        (submit_pending-Ordered st (b, f, omega (arith, n)))
        (λ s o.
          Allows-and_then IsSettled IsSettled (first_err ctx (wait ctx s)) _ (settle s o)
            report_progress-Settled)

  check_scan-Ordered :
      (too_long : Bool) (st : ImportState Float)
      → Ordered 99 st
      → Allows (Ordered 99) (check_scan ctx too_long st)
  unfolding check_scan
  check_scan-Ordered true st o = tt
  check_scan-Ordered false st o = o

  sync-Settled : (st : ImportState Float) → IsSettled st → Allows IsSettled (sync_sequence ctx st)
  unfolding sync_sequence
  sync-Settled st p = elim (Bool-cases ctx.postgres) [
    | inr e ↦ rw (sync_sequence, e) p
    | inl e ↦ elim (Option-cases ctx.sequence_error) [
      | inl n ↦ rw (sync_sequence, e, n) p
      | inr (x, n) ↦ rw (sync_sequence, e, n) tt
    ]
  ]

  import_lines-Settled :
      (version : ℕ) (lines : List (List ℕ)) (too_long : Bool)
      → Allows IsSettled (import_lines ctx version lines too_long)
  unfolding import_lines Barriered open_table
  import_lines-Settled version lines too_long = elim (Bool-cases (nat_eq version 1)) [
    | inr e ↦ rw (import_lines, e) tt
    | inl e ↦
        rw (import_lines, e)
          (Allows-and_then (λ u. Unit {0}) IsSettled (prepare ctx) _ (Allows-any (prepare ctx))
            (λ u q.
              Allows-and_then (Ordered 99) IsSettled (process_lines ctx lines initial_state) _
                (process_lines-Ordered lines initial_state (tt, tt, omega arith))
                (λ s o.
                  Allows-and_then (Ordered 99) IsSettled (check_scan ctx too_long s) _
                    (check_scan-Ordered too_long s o)
                    (λ t r.
                      Allows-and_then IsSettled IsSettled (finish ctx t) (sync_sequence ctx)
                        (finish-Ordered t r) sync-Settled))))
  ]

  -- What an import that ends without an error has done: each batch had from 1 to 100 rows, the
  -- batches of other tables were committed before it was handed over, and all are at the end.
  pub import_from_dump-Barriered : (s : List ℕ) → Allows IsSettled (import_from_dump ctx s)
  unfolding import_from_dump
  import_from_dump-Barriered s =
      let header = read_header ctx 0 (scan_lines s).0 in
      import_lines-Settled header.0 header.1 (scan_lines s).1
