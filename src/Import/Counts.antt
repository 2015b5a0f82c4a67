-- ===== src/Import/Counts.antt =====
-- internal/store/export.go: what a job adds to the statistics of the import.
use glitchgate.Prelude.{
  ℕ, zero, suc, ◌+◌, Bool, Bool-cases, Option-cases, Option, none, some, List, [], ◌∷◌, ◌⊎◌, inl,
  inr, ◌≡◌, arith, same_bytes, if◌then◌else◌, sum_by,
}
use glitchgate.Export.{Value}
use glitchgate.Import.Rows.{same_bytes→≡}
use glitchgate.Import.Workers.{
  ImportStats, bump_table, add_stats, Job, Database, count_inserted, flush_rows, flush, batch_of,
  exec_flushed, exec_job,
}
use glitchgate.Import.Insert.{insert_statement}

-- A number where the table is the one in question.
abbrev pub if_table : List ℕ → List ℕ → ℕ → ℕ
unfolding same_bytes
if_table table t n = if same_bytes t table then n else 0

-- The rows that the statistics count for a table.
unfoldable pub rows_of : List ℕ → ImportStats → ℕ
unfolding if_table
rows_of table stats = sum_by (λ s. if_table table s.0 s.1) stats

rows_of-bump_table :
    (table t : List ℕ) (n : ℕ) (stats : ImportStats)
    → rows_of table (bump_table t n stats) ≡ rows_of table stats + if_table table t n
unfolding rows_of bump_table
rows_of-bump_table table t n [] = omega arith
rows_of-bump_table table t n ((u, m) ∷ stats) = elim (Bool-cases (same_bytes u t)) [
  | inl e ↦
      rw (bump_table, e, same_bytes→≡ u t e) (ground (arith, rows_of-bump_table table t n stats))
  | inr e ↦ rw (bump_table, e) (omega (arith, rows_of-bump_table table t n stats))
]

rows_of-add_stats :
    (table t : List ℕ) (n : ℕ) (stats : ImportStats)
    → rows_of table (add_stats t n stats) ≡ rows_of table stats + if_table table t n
unfolding add_stats
rows_of-add_stats table t zero stats = ground arith
rows_of-add_stats table t (suc n) stats = rows_of-bump_table table t (suc n) stats

abbrev pub inserted_count : {Error : Type 0} → Error ⊎ ℕ → ℕ
inserted_count (inl e) = 0
inserted_count (inr n) = n

module _ {Float Error : Type 0} (format_nat : ℕ → List ℕ) (postgres : Bool) where
  abbrev pub inserted_rows : Database Float Error → Job Float → List (List (Value Float)) → ℕ
  inserted_rows db job [] = 0
  inserted_rows db job (row ∷ rows) =
      let s = insert_statement format_nat (batch_of postgres job) in
      inserted_count (db.exec_context s.0 s.1)

  -- The rows that the database says it has inserted for a job: none where the transaction does not
  -- begin.
  unfoldable pub affected : Database Float Error → Job Float → ℕ
  affected db job = elim db.begin_tx [ some e ↦ 0 | none ↦ inserted_rows db job job.rows ]

  count_inserted_lem :
      (table : List ℕ) (commit : Option Error) (job : Job Float) (stats : ImportStats)
      (o : Error ⊎ ℕ)
      → rows_of table (exec_flushed commit stats (count_inserted (batch_of postgres job) stats o)).1
        ≡ rows_of table stats + if_table table job.table (inserted_count o)
  unfolding exec_flushed count_inserted
  count_inserted_lem table commit job stats (inl e) = ground arith
  count_inserted_lem table commit job stats (inr n) = rows_of-add_stats table job.table n stats

  flush_rows_lem :
      (table : List ℕ) (db : Database Float Error) (job : Job Float) (stats : ImportStats)
      (rows : List (List (Value Float)))
      → rows_of table
          (exec_flushed db.commit stats
            (flush_rows format_nat postgres db (batch_of postgres job) stats rows)).1
        ≡ rows_of table stats + if_table table job.table (inserted_rows db job rows)
  unfolding exec_flushed flush_rows
  flush_rows_lem table db job stats [] = ground arith
  flush_rows_lem table db job stats (row ∷ rows) =
      let s = insert_statement format_nat (batch_of postgres job) in
      count_inserted_lem table db.commit job stats (db.exec_context s.0 s.1)

  pub exec_job_lem :
      (table : List ℕ) (db : Database Float Error) (job : Job Float) (stats : ImportStats)
      → rows_of table (exec_job format_nat postgres db job stats).1
        ≡ rows_of table stats + if_table table job.table (affected db job)
  unfolding exec_job flush affected
  exec_job_lem table db job stats = elim (Option-cases db.begin_tx) [
    | inl e ↦ rw (exec_job, affected, e) (flush_rows_lem table db job stats job.rows)
    | inr (x, e) ↦ rw (exec_job, affected, e) (ground arith)
  ]
