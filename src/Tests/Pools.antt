-- ===== src/Tests/Pools.antt =====
-- Runs of internal/store/export.go's workers.
use glitchgate.Prelude.{
  ℕ, ◌+◌, pos, Bool, true, false, ◌≡◌, ◌↔◌, refl, List, [], ◌∷◌, ◌++◌, Option, none, inr, arith,
  bytes, sum_by,
}
use glitchgate.Export.{Value, null, boolean, join_literals}
use glitchgate.Import.Insert.{
  ImportBatch, insert_statement, statement_head, statement_end, tuples, all_values,
  insert_statement_lem, write_tuples, write_cells, separator, placeholder,
}
use glitchgate.Import.Workers.{
  ImportStats, Job, Database, WorkerError, exec_job, flush, flush_rows, count_inserted,
  exec_flushed, add_stats, bump_table,
}
use glitchgate.Import.Counts.{rows_of}
use glitchgate.Import.Pool.{
  Pool, PoolEvent, accepted, ran, silent, new_import_worker_pool, accept, send, take_job,
  finish_exec, record_error, barrier_done, PoolRun, start, step, submit_accepts, submit_sends,
  worker_takes, worker_executes, worker_records, worker_finishes,
}
use glitchgate.Import.Tally.{accepted_weight, ran_weight, run_errors, inserted_into}
use glitchgate.Import.Waited.{waited_lem}
use glitchgate.Import.Progress.{Ends, wait-Ends}

-- Numbers of one digit.
abbrev write_digit : ℕ → List ℕ
write_digit n = (b'0' + n) ∷ []

abbrev two_rows : List (List (Value Bool))
two_rows = (null ∷ (boolean true ∷ [])) ∷ ((boolean false ∷ (null ∷ [])) ∷ [])

abbrev teams : Job Bool
teams = record { table = bytes "teams"; cols = bytes "id" ∷ (bytes "name" ∷ []); rows = two_rows }

abbrev team_batch : ImportBatch Bool
team_batch = record {
  table = bytes "teams";
  cols = bytes "id" ∷ (bytes "name" ∷ []);
  rows = two_rows;
  postgres = true;
}

-- A database that inserts two rows.
abbrev inserts : Database Bool Bool
inserts = record { begin_tx = none; exec_context = λ sql args. inr 2; commit = none }

abbrev new_pool : Pool Bool Bool
new_pool = new_import_worker_pool (pos 0)

abbrev outcome : Option (WorkerError Bool) × ImportStats
outcome = exec_job write_digit true inserts teams []

abbrev sent : Pool Bool Bool
sent = send teams (accept teams new_pool)

sent_run : PoolRun write_digit true new_pool (accepted teams ∷ (silent ∷ [])) sent
sent_run =
    step (step start (submit_accepts new_pool teams refl refl))
      (submit_sends (accept teams new_pool) teams refl (omega arith))

abbrev in_hand : Pool Bool Bool
in_hand = take_job teams [] sent

abbrev over : Pool Bool Bool
over =
    barrier_done [] (record_error [] teams [] outcome.0 (finish_exec [] teams [] outcome in_hand))

abbrev events : List (PoolEvent Bool Bool)
events =
    accepted teams ∷ (silent ∷ (silent ∷ (ran teams inserts outcome.0 ∷ (silent ∷ (silent ∷ [])))))

over_run : PoolRun write_digit true new_pool events over
over_run =
    step
      (step
        (step (step sent_run (worker_takes sent teams [] refl (omega arith)))
          (worker_executes in_hand [] [] teams inserts refl))
        (worker_records (finish_exec [] teams [] outcome in_hand) [] [] teams outcome.0 refl))
      (worker_finishes
        (record_error [] teams [] outcome.0 (finish_exec [] teams [] outcome in_hand)) [] [] teams
        refl)

-- The statistics after the run.
over_stats : over.stats ≡ (bytes "teams", 2) ∷ []
unfolding exec_job flush flush_rows count_inserted exec_flushed add_stats bump_table
over_stats = refl

insert_statement_lem_example : insert_statement write_digit team_batch ≡ (
  statement_head true (bytes "teams") team_batch.cols
      ++ (join_literals (tuples write_digit true 0 two_rows) ++ statement_end true),
  all_values two_rows,
)
insert_statement_lem_example = insert_statement_lem write_digit team_batch

-- Its text.
insert_text :
    (insert_statement write_digit team_batch).0
    ≡ bytes "INSERT INTO teams (id, name) VALUES ($1, $2), ($3, $4) ON CONFLICT DO NOTHING"
unfolding insert_statement statement_head statement_end write_tuples write_cells separator
    placeholder join_literals
insert_text = refl

waited_lem_example :
    (sum_by (accepted_weight (λ j. 1)) events ≡ sum_by (ran_weight (λ j. 1)) events)
    × ((over.pool_err ≡ none) ↔ (sum_by run_errors events ≡ 0))
    × (rows_of (bytes "teams") over.stats
        ≡ sum_by (inserted_into write_digit true (bytes "teams")) events)
waited_lem_example =
    waited_lem write_digit true (λ j. 1) (bytes "teams") (pos 0) events over over_run refl

wait-Ends_example : Ends write_digit true (λ job. inserts) sent
wait-Ends_example =
    wait-Ends write_digit true (λ job. inserts) (pos 0) (accepted teams ∷ (silent ∷ [])) sent
      sent_run
