-- ===== src/Import/Tally.antt =====
-- internal/store/export.go, importWorkerPool: an account of the jobs, the errors and the rows.
use glitchgate.Prelude.{
  ℕ, suc, ◌+◌, ◌*◌, ◌≤◌, Bool, Option, none, some, List, [], ◌∷◌, ◌++◌, ◌≡◌, arith, length,
  length-append, sum_by, sum_by-append,
}
use glitchgate.Import.Workers.{Job, WorkerError}
use glitchgate.Import.Counts.{if_table, rows_of, affected}
use glitchgate.Import.Pool.{
  Phase, taken, executed, recorded, Pool, keep_first, PoolEvent, accepted, ran, silent,
}

abbrev pub error_count : {Error : Type 0} → Option (WorkerError Error) → ℕ
error_count none = 0
error_count (some e) = 1

-- A measure of the jobs that were accepted, and of those that were executed.
abbrev pub accepted_weight : {Float Error : Type 0} → (Job Float → ℕ) → PoolEvent Float Error → ℕ
accepted_weight f (accepted job) = f job
accepted_weight f (ran job db err) = 0
accepted_weight f silent = 0

abbrev pub ran_weight : {Float Error : Type 0} → (Job Float → ℕ) → PoolEvent Float Error → ℕ
ran_weight f (accepted job) = 0
ran_weight f (ran job db err) = f job
ran_weight f silent = 0

-- The executions that ended in an error.
abbrev pub run_errors : {Float Error : Type 0} → PoolEvent Float Error → ℕ
run_errors (accepted job) = 0
run_errors (ran job db err) = error_count err
run_errors silent = 0

abbrev pub sending_weight : {Float : Type 0} → (Job Float → ℕ) → Option (Job Float) → ℕ
sending_weight f none = 0
sending_weight f (some job) = f job

-- The jobs in hand that are not executed, and the errors that are not recorded.
abbrev pub waiting_weight : {Float Error : Type 0} → (Job Float → ℕ) → Job Float × Phase Error → ℕ
waiting_weight f (job, taken) = f job
waiting_weight f (job, executed err) = 0
waiting_weight f (job, recorded) = 0

abbrev pub waiting_errors : {Float Error : Type 0} → Job Float × Phase Error → ℕ
waiting_errors (job, taken) = 0
waiting_errors (job, executed err) = error_count err
waiting_errors (job, recorded) = 0

-- The pool's error accounts for the errors of the executions.
abbrev pub Accounts : {Error : Type 0} → Option (WorkerError Error) → ℕ → ℕ → Type 0
Accounts none errors waiting = errors ≡ waiting
Accounts (some e) errors waiting = 1 ≤ errors

pub Accounts-add :
    {Error : Type 0} (o : Option (WorkerError Error)) (errors waiting more errors' waiting' : ℕ)
    → errors' ≡ errors + more
    → waiting' ≡ waiting + more
    → Accounts o errors waiting
    → Accounts o errors' waiting'
Accounts-add none errors waiting more errors' waiting' e w a = omega (arith, e, w, a)
Accounts-add (some x) errors waiting more errors' waiting' e w a = omega (arith, e, a)

pub Accounts-keep_first :
    {Error : Type 0} (o err : Option (WorkerError Error)) (errors waiting errors' waiting' : ℕ)
    → errors' ≡ errors
    → waiting ≡ waiting' + error_count err
    → Accounts o errors waiting
    → Accounts (keep_first o err) errors' waiting'
Accounts-keep_first none none errors waiting errors' waiting' e w a = omega (arith, e, w, a)
Accounts-keep_first none (some x) errors waiting errors' waiting' e w a = omega (arith, e, w, a)
Accounts-keep_first (some x) err errors waiting errors' waiting' e w a = omega (arith, e, a)

module _ {Float Error : Type 0} (format_nat : ℕ → List ℕ) (postgres : Bool) where
  -- The rows that the executions inserted into a table, by the database's answers.
  abbrev pub inserted_into : List ℕ → PoolEvent Float Error → ℕ
  inserted_into table (accepted job) = 0
  inserted_into table (ran job db err) =
      if_table table job.table (affected format_nat postgres db job)
  inserted_into table silent = 0

  module _ (f : Job Float → ℕ) (table : List ℕ) where
    -- The barrier counts the jobs that are not done, wherever they are; each accepted job is
    -- executed, in hand, in the channel or on its way to it; the room of the channel and the number
    -- of the workers are kept; and the statistics and the error account for the executions.
    unfoldable pub Tallied : Pool Float Error → List (PoolEvent Float Error) → Type 0
    unfolding rows_of
    Tallied p es =
        (p.barrier ≡ sending_weight (λ j. 1) p.sending + length p.jobs + length p.hands)
        × (sum_by (accepted_weight f) es
            ≡ sum_by (ran_weight f) es
              + sending_weight f p.sending
              + sum_by f p.jobs
              + sum_by (waiting_weight f) p.hands)
        × (length p.jobs ≤ 2 * p.worker_count)
        × (length p.hands ≤ p.worker_count)
        × (rows_of table p.stats ≡ sum_by (inserted_into table) es)
        × Accounts p.pool_err (sum_by run_errors es) (sum_by waiting_errors p.hands)

    -- The sums over the events, after one more.
    abbrev pub Sums : List (PoolEvent Float Error) → PoolEvent Float Error → Type 0
    Sums es e =
        (sum_by (accepted_weight f) (es ++ e ∷ [])
          ≡ sum_by (accepted_weight f) es + accepted_weight f e)
        × (sum_by (ran_weight f) (es ++ e ∷ []) ≡ sum_by (ran_weight f) es + ran_weight f e)
        × (sum_by (inserted_into table) (es ++ e ∷ [])
            ≡ sum_by (inserted_into table) es + inserted_into table e)
        × (sum_by run_errors (es ++ e ∷ []) ≡ sum_by run_errors es + run_errors e)

    pub sums_lem : (es : List (PoolEvent Float Error)) (e : PoolEvent Float Error) → Sums es e
    sums_lem es e = (
      omega (arith, sum_by-append (accepted_weight f) es (e ∷ [])),
      omega (arith, sum_by-append (ran_weight f) es (e ∷ [])),
      omega (arith, sum_by-append (inserted_into table) es (e ∷ [])),
      omega (arith, sum_by-append run_errors es (e ∷ [])),
    )

    -- The hands with one of them at this phase.
    abbrev pub HandSums :
        List (Job Float × Phase Error)
        → Job Float × Phase Error
        → List (Job Float × Phase Error)
        → Type 0
    HandSums before hand after =
        (length (before ++ hand ∷ after) ≡ length before + suc (length after))
        × (sum_by (waiting_weight f) (before ++ hand ∷ after)
            ≡ sum_by (waiting_weight f) before
              + (waiting_weight f hand + sum_by (waiting_weight f) after))
        × (sum_by waiting_errors (before ++ hand ∷ after)
            ≡ sum_by waiting_errors before + (waiting_errors hand + sum_by waiting_errors after))

    pub hand_lem :
        (before : List (Job Float × Phase Error)) (hand : Job Float × Phase Error)
        (after : List (Job Float × Phase Error))
        → HandSums before hand after
    hand_lem before hand after = (
      length-append before (hand ∷ after),
      sum_by-append (waiting_weight f) before (hand ∷ after),
      sum_by-append waiting_errors before (hand ∷ after),
    )
