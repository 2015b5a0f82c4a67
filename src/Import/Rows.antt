-- ===== src/Import/Rows.antt =====
-- internal/store/export.go, importFromDump: which rows reach the workers, where none of them fails.
use mathlib.Core.List.{append_assoc, append-nil}
use glitchgate.Prelude.{
  ℕ, ◌+◌, true, none, List, [], ◌∷◌, ◌++◌, map, leb, Bool-cases, inl, inr, length, same_bytes,
  is_empty, ◌≡◌, refl, ap, sym, ◌∙◌, arith,
}
use glitchgate.Export.{Value}
use glitchgate.Import.{
  Event, submitted, waited, reported, ImportContext, ImportState, pool_submit, submit_rows,
  submit_pending, wait, first_err, report_progress, start_count, change_table, add_row,
}
use glitchgate.Import.Outcomes.{Gives, Gives-and_then}

-- A row, and the table that it is for.
abbrev pub Row : Type 0 → Type 0
Row Float = List ℕ × List (Value Float)

abbrev pub for_table : {Float : Type 0} → List ℕ → List (List (Value Float)) → List (Row Float)
for_table table rows = map (λ r. (table, r)) rows

-- The rows that were handed over, the oldest first.
unfoldable pub rows_sent : {Float : Type 0} → List (Event Float) → List (Row Float)
rows_sent [] = []
rows_sent (submitted table cols rows ∷ es) = rows_sent es ++ for_table table rows
rows_sent (waited ∷ es) = rows_sent es
rows_sent (reported table n ∷ es) = rows_sent es

-- Those and the rows that are kept.
unfoldable pub rows_taken : {Float : Type 0} → ImportState Float → List (Row Float)
unfolding rows_sent
rows_taken st = rows_sent st.events ++ for_table st.batch_table st.pending_rows

pub same_bytes→≡ : (s t : List ℕ) → same_bytes s t ≡ true → s ≡ t
unfolding same_bytes
same_bytes→≡ [] [] e = refl
same_bytes→≡ [] (d ∷ t) e = ground (arith, e)
same_bytes→≡ (c ∷ s) [] e = ground (arith, e)
same_bytes→≡ (c ∷ s) (d ∷ t) e = ground (arith, e, same_bytes→≡ s t)

for_table-append :
    {Float : Type 0} (table : List ℕ) (rows : List (List (Value Float))) (row : List (Value Float))
    → for_table table (rows ++ row ∷ []) ≡ for_table table rows ++ (table, row) ∷ []
for_table-append table [] row = refl
for_table-append table (r ∷ rows) row = ap (λ t. (table, r) ∷ t) (for_table-append table rows row)

module _ {Float Error : Type 0} (ctx : ImportContext Float Error)
    (none_fails : (h : List (Event Float)) → ctx.pool_error h ≡ none) where
  -- All of these rows were handed over.
  abbrev pub IsFlushed : List (Row Float) → ImportState Float → Type 0
  IsFlushed rows st = (rows_sent st.events ≡ rows) × (st.pending_rows ≡ [])

  submit_rows-IsFlushed :
      (rows : List (List (Value Float))) (st : ImportState Float)
      → st.pending_rows ≡ rows
      → Gives (IsFlushed (rows_taken st)) (submit_rows ctx rows st)
  unfolding submit_rows pool_submit rows_taken rows_sent
  submit_rows-IsFlushed [] st e = (rw (e) (sym (append-nil (rows_sent st.events))), e)
  submit_rows-IsFlushed (row ∷ rows) st e = rw (pool_submit, none_fails st.events) (refl, refl)

  pub submit_pending-IsFlushed :
      (st : ImportState Float) → Gives (IsFlushed (rows_taken st)) (submit_pending ctx st)
  unfolding submit_pending submit_rows
  submit_pending-IsFlushed st = submit_rows-IsFlushed st.pending_rows st refl

  pub first_err-IsFlushed :
      (rows : List (Row Float)) (st : ImportState Float)
      → IsFlushed rows st
      → Gives (IsFlushed rows) (first_err ctx (wait ctx st))
  unfolding first_err rows_sent
  first_err-IsFlushed rows st p = rw (first_err, none_fails (wait ctx st).events) p

  pub report_progress-IsFlushed :
      (rows : List (Row Float)) (st : ImportState Float)
      → IsFlushed rows st
      → IsFlushed rows (report_progress ctx st)
  unfolding report_progress rows_sent
  report_progress-IsFlushed rows st p = elim (Bool-cases (is_empty st.current_table)) [
    | inl e ↦ rw (report_progress, e) p
    | inr e ↦ rw (report_progress, e) p
  ]

  start_count-IsFlushed :
      (rows : List (Row Float)) (table : List ℕ) (st : ImportState Float)
      → IsFlushed rows st
      → IsFlushed rows (start_count ctx table st)
  unfolding start_count
  start_count-IsFlushed rows table st p = elim (Bool-cases (same_bytes table st.current_table)) [
    | inl e ↦ rw (start_count, e) p
    | inr e ↦ rw (start_count, e) (report_progress-IsFlushed rows st p)
  ]

  flushed_lem :
      (rows : List (Row Float)) (st : ImportState Float) → IsFlushed rows st → rows_taken st ≡ rows
  unfolding rows_taken
  flushed_lem rows st (e, f) = rw (f) (append-nil (rows_sent st.events) ∙ e)

  pub change_table_lem :
      (table : List ℕ) (cols : List (List ℕ)) (st : ImportState Float)
      → Gives
          (λ s. (rows_taken s ≡ rows_taken st) × (s.batch_table ≡ table))
          (change_table ctx table cols st)
  unfolding change_table rows_taken
  change_table_lem table cols st = elim (Bool-cases (same_bytes table st.batch_table)) [
    | inl e ↦ rw (change_table, e) (refl, sym (same_bytes→≡ table st.batch_table e))
    | inr e ↦
        rw (change_table, e)
          (Gives-and_then (IsFlushed (rows_taken st)) _ (submit_pending ctx st) _
            (submit_pending-IsFlushed st)
            (λ s p.
              Gives-and_then (IsFlushed (rows_taken st)) _ (first_err ctx (wait ctx s)) _
                (first_err-IsFlushed (rows_taken st) s p)
                (λ t q.
                  let (f, n) = start_count-IsFlushed (rows_taken st) table t q in
                  (
                    flushed_lem (rows_taken st)
                        (record (start_count ctx table t) {
                          batch_table = table;
                          batch_cols = cols;
                        })
                        (f, n),
                    refl,
                  ))))
  ]

  kept_lem :
      (row : List (Value Float)) (st : ImportState Float)
      → rows_taken (record st {
        pending_rows = st.pending_rows ++ row ∷ [];
        current_count = st.current_count + 1;
      })
        ≡ rows_taken st ++ (st.batch_table, row) ∷ []
  unfolding rows_taken
  kept_lem row st =
      ap (λ t. rows_sent st.events ++ t) (for_table-append st.batch_table st.pending_rows row)
      ∙ sym (
          append_assoc (rows_sent st.events) (for_table st.batch_table st.pending_rows)
            ((st.batch_table, row) ∷ []))

  pub add_row_lem :
      (row : List (Value Float)) (st : ImportState Float)
      → Gives (λ s. rows_taken s ≡ rows_taken st ++ (st.batch_table, row) ∷ []) (add_row ctx row st)
  unfolding add_row
  add_row_lem row st =
      let kept : ImportState Float = record st {
        pending_rows = st.pending_rows ++ row ∷ [];
        current_count = st.current_count + 1;
      } in
      elim (Bool-cases (leb 100 (length (st.pending_rows ++ row ∷ [])))) [
        | inl e ↦
            rw (add_row, e)
              (Gives-and_then (IsFlushed (rows_taken kept)) _ (submit_pending ctx kept) _
                (submit_pending-IsFlushed kept)
                (λ s p.
                  flushed_lem (rows_taken kept) (report_progress ctx s)
                    (report_progress-IsFlushed (rows_taken kept) s p)
                  ∙ kept_lem row st))
        | inr e ↦ rw (add_row, e) (kept_lem row st)
      ]
