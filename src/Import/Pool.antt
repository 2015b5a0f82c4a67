-- ===== src/Import/Pool.antt =====
-- internal/store/export.go, importWorkerPool: the producer's submit, the channel of jobs, the workers
-- and what they share (the first error, the statistics, the barrier's count) are one state; a step
-- is what one of them does under one lock or on the channel. That submit finds no error and adds to
-- the barrier is one step: only its own goroutine waits for the barrier.
use glitchgate.Prelude.{
  ℕ, zero, suc, ◌+◌, ◌-◌, ◌*◌, ◌<◌, ℤ, pos, negsuc, Bool, Option, none, some, List, [], ◌∷◌, ◌++◌,
  ◌≡◌, length,
}
use glitchgate.Import.Workers.{ImportStats, Job, Database, WorkerError, exec_job}

-- Where a worker is with its job: before exec, before the error is kept, before barrier.Done.
pub data Phase (Error : Type 0) : Type 0 where
  taken : Phase Error
  executed : Option (WorkerError Error) → Phase Error
  recorded : Phase Error

-- `sending` is the job with which submit is at the channel, whose room is twice the workers.
pub record Pool (Float Error : Type 0) : Type 0 where
  pub worker_count : ℕ
  pub sending : Option (Job Float)
  pub jobs : List (Job Float)
  pub hands : List (Job Float × Phase Error)
  pub pool_err : Option (WorkerError Error)
  pub stats : ImportStats
  pub barrier : ℕ

-- if n < 1 { n = 1 }
abbrev pub at_least_one : ℤ → ℕ
at_least_one (pos zero) = 1
at_least_one (pos (suc n)) = suc n
at_least_one (negsuc n) = 1

abbrev pub keep_first :
    {Error : Type 0}
    → Option (WorkerError Error)
    → Option (WorkerError Error)
    → Option (WorkerError Error)
keep_first none err = err
keep_first (some e) err = some e

-- What a step says of the jobs: accepted by submit, or executed with this database and error.
pub data PoolEvent (Float Error : Type 0) : Type 0 where
  accepted : Job Float → PoolEvent Float Error
  ran : Job Float → Database Float Error → Option (WorkerError Error) → PoolEvent Float Error
  silent : PoolEvent Float Error

module _ {Float Error : Type 0} where
  abbrev pub new_import_worker_pool : ℤ → Pool Float Error
  new_import_worker_pool n = record {
    worker_count = at_least_one n;
    sending = none;
    jobs = [];
    hands = [];
    pool_err = none;
    stats = [];
    barrier = 0;
  }

  -- barrier.Add(1), with the job on its way to the channel
  abbrev pub accept : Job Float → Pool Float Error → Pool Float Error
  accept job p = record p { sending = some job; barrier = p.barrier + 1 }

  -- p.jobs <- importPoolJob{...}
  abbrev pub send : Job Float → Pool Float Error → Pool Float Error
  send job p = record p { sending = none; jobs = p.jobs ++ job ∷ [] }

  abbrev pub take_job : Job Float → List (Job Float) → Pool Float Error → Pool Float Error
  take_job job rest p = record p { jobs = rest; hands = p.hands ++ (job, taken) ∷ [] }

  -- The three parts of the loop's body in run.
  abbrev pub finish_exec :
      List (Job Float × Phase Error)
      → Job Float
      → List (Job Float × Phase Error)
      → Option (WorkerError Error) × ImportStats
      → Pool Float Error
      → Pool Float Error
  finish_exec before job after r p = record p {
    hands = before ++ (job, executed r.0) ∷ after;
    stats = r.1;
  }

  abbrev pub record_error :
      List (Job Float × Phase Error)
      → Job Float
      → List (Job Float × Phase Error)
      → Option (WorkerError Error)
      → Pool Float Error
      → Pool Float Error
  record_error before job after err p = record p {
    hands = before ++ (job, recorded) ∷ after;
    pool_err = keep_first p.pool_err err;
  }

  abbrev pub barrier_done : List (Job Float × Phase Error) → Pool Float Error → Pool Float Error
  barrier_done rest p = record p { hands = rest; barrier = p.barrier - 1 }

-- The steps, with the workers' hands in any order.
pub data PoolStep {Float Error : Type 0} (format_nat : ℕ → List ℕ) (postgres : Bool)
    : Pool Float Error → PoolEvent Float Error → Pool Float Error → Type 0 where
  submit_accepts :
      (p : Pool Float Error) (job : Job Float)
      → p.pool_err ≡ none
      → p.sending ≡ none
      → PoolStep format_nat postgres p (accepted job) (accept job p)
  submit_refuses :
      (p : Pool Float Error) (e : WorkerError Error)
      → p.pool_err ≡ some e
      → PoolStep format_nat postgres p silent p
  submit_sends :
      (p : Pool Float Error) (job : Job Float)
      → p.sending ≡ some job
      → length p.jobs < 2 * p.worker_count
      → PoolStep format_nat postgres p silent (send job p)
  worker_takes :
      (p : Pool Float Error) (job : Job Float) (rest : List (Job Float))
      → p.jobs ≡ job ∷ rest
      → length p.hands < p.worker_count
      → PoolStep format_nat postgres p silent (take_job job rest p)
  worker_executes :
      (p : Pool Float Error) (before after : List (Job Float × Phase Error)) (job : Job Float)
      (db : Database Float Error)
      → p.hands ≡ before ++ (job, taken) ∷ after
      → PoolStep format_nat postgres p
          (ran job db (exec_job format_nat postgres db job p.stats).0)
          (finish_exec before job after (exec_job format_nat postgres db job p.stats) p)
  worker_records :
      (p : Pool Float Error) (before after : List (Job Float × Phase Error)) (job : Job Float)
      (err : Option (WorkerError Error))
      → p.hands ≡ before ++ (job, executed err) ∷ after
      → PoolStep format_nat postgres p silent (record_error before job after err p)
  worker_finishes :
      (p : Pool Float Error) (before after : List (Job Float × Phase Error)) (job : Job Float)
      → p.hands ≡ before ++ (job, recorded) ∷ after
      → PoolStep format_nat postgres p silent (barrier_done (before ++ after) p)

-- A run, with its events in order.
pub data PoolRun {Float Error : Type 0} (format_nat : ℕ → List ℕ) (postgres : Bool)
    (p : Pool Float Error) : List (PoolEvent Float Error) → Pool Float Error → Type 0 where
  start : PoolRun format_nat postgres p [] p
  step :
      {es : List (PoolEvent Float Error)} {q r : Pool Float Error} {e : PoolEvent Float Error}
      → PoolRun format_nat postgres p es q
      → PoolStep format_nat postgres q e r
      → PoolRun format_nat postgres p (es ++ e ∷ []) r
