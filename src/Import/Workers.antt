-- ===== src/Import/Workers.antt =====
-- internal/store/export.go, importWorkerPool.exec: one job in its own transaction, and the counts of
-- rows by table. What the database answers is a parameter.
use glitchgate.Prelude.{
  ℕ, zero, suc, ◌+◌, Bool, Option, none, some, List, [], ◌∷◌, ◌⊎◌, inl, inr, same_bytes,
  if◌then◌else◌,
}
use glitchgate.Export.{Value}
use glitchgate.Import.Insert.{ImportBatch, insert_statement}

-- ImportStats: the tables with their counts of rows, in the order in which they came.
abbrev pub ImportStats : Type 0
ImportStats = List (List ℕ × ℕ)

-- The loop of ImportStats.add.
unfoldable pub bump_table : List ℕ → ℕ → ImportStats → ImportStats
unfolding same_bytes
bump_table table rows [] = (table, rows) ∷ []
bump_table table rows ((t, n) ∷ stats) =
    let rest = bump_table table rows stats in
    if same_bytes t table then (t, n + rows) ∷ stats else (t, n) ∷ rest

unfoldable pub add_stats : List ℕ → ℕ → ImportStats → ImportStats
unfolding bump_table
add_stats table zero stats = stats
add_stats table (suc n) stats = bump_table table (suc n) stats

-- importPoolJob, without its barrier: the pool's jobs share one.
pub record Job (Float : Type 0) : Type 0 where
  pub table : List ℕ
  pub cols : List (List ℕ)
  pub rows : List (List (Value Float))

-- What the database answers to BeginTx, ExecContext and Commit.
pub record Database (Float Error : Type 0) : Type 0 where
  pub begin_tx : Option Error
  pub exec_context : List ℕ → List (Value Float) → Error ⊎ ℕ
  pub commit : Option Error

pub data WorkerError (Error : Type 0) : Type 0 where
  not_begun not_committed : Error → WorkerError Error
  not_inserted : List ℕ → Error → WorkerError Error

-- The end of flush: the batch without its rows, and the statistics.
unfoldable pub count_inserted :
    {Float Error : Type 0}
    → ImportBatch Float
    → ImportStats
    → Error ⊎ ℕ
    → WorkerError Error ⊎ (ImportBatch Float × ImportStats)
unfolding add_stats
count_inserted b stats (inl e) = inl (not_inserted b.table e)
count_inserted b stats (inr n) = inr (record b { rows = [] }, add_stats b.table n stats)

abbrev pub commit_error : {Error : Type 0} → Option Error → Option (WorkerError Error)
commit_error none = none
commit_error (some e) = some (not_committed e)

abbrev pub batch_of : {Float : Type 0} → Bool → Job Float → ImportBatch Float
batch_of postgres job = record {
  table = job.table;
  cols = job.cols;
  rows = job.rows;
  postgres = postgres;
}

-- The end of exec: the error, and the statistics.
unfoldable pub exec_flushed :
    {Float Error : Type 0}
    → Option Error
    → ImportStats
    → WorkerError Error ⊎ (ImportBatch Float × ImportStats)
    → Option (WorkerError Error) × ImportStats
exec_flushed commit stats (inl e) = (some e, stats)
exec_flushed commit stats (inr (b, counted)) = (commit_error commit, counted)

module _ {Float Error : Type 0} (format_nat : ℕ → List ℕ) (postgres : Bool) where
  unfoldable pub flush_rows :
      Database Float Error
      → ImportBatch Float
      → ImportStats
      → List (List (Value Float))
      → WorkerError Error ⊎ (ImportBatch Float × ImportStats)
  unfolding insert_statement count_inserted
  flush_rows db b stats [] = inr (b, stats)
  flush_rows db b stats (row ∷ rows) =
      let s = insert_statement format_nat b in count_inserted b stats (db.exec_context s.0 s.1)

  -- importBatch.flush
  unfoldable pub flush :
      Database Float Error
      → ImportBatch Float
      → ImportStats
      → WorkerError Error ⊎ (ImportBatch Float × ImportStats)
  unfolding flush_rows
  flush db b stats = flush_rows db b stats b.rows

  -- importWorkerPool.exec
  unfoldable pub exec_job :
      Database Float Error → Job Float → ImportStats → Option (WorkerError Error) × ImportStats
  unfolding flush exec_flushed
  exec_job db job stats = elim db.begin_tx [
    | some e ↦ (some (not_begun e), stats)
    | none ↦ exec_flushed db.commit stats (flush db (batch_of postgres job) stats)
  ]
