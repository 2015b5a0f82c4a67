-- ===== src/Import/Waited.antt =====
-- internal/store/export.go, importWorkerPool: what the workers have done where the import has waited.
use glitchgate.Prelude.{
  ℕ, ℤ, Bool, Option, none, some, List, [], ◌∷◌, ◌++◌, ◌≡◌, ◌↔◌, refl, arith, length, length-append,
  sum_by, sum_by-append,
}
use glitchgate.Import.Workers.{Job, WorkerError, exec_job}
use glitchgate.Import.Counts.{rows_of, exec_job_lem}
use glitchgate.Import.Pool.{
  taken, executed, recorded, Pool, PoolEvent, accepted, ran, silent, new_import_worker_pool,
  PoolStep, submit_accepts, submit_refuses, submit_sends, worker_takes, worker_executes,
  worker_records, worker_finishes, PoolRun, start, step,
}
use glitchgate.Import.Tally.{
  error_count, accepted_weight, ran_weight, run_errors, sending_weight, waiting_weight,
  waiting_errors, Accounts, Accounts-add, Accounts-keep_first, inserted_into, Tallied, sums_lem,
  hand_lem,
}

empty_sum : {A : Type 0} (f : A → ℕ) (xs : List A) → length xs ≡ 0 → sum_by f xs ≡ 0
empty_sum f [] e = refl
empty_sum f (x ∷ xs) e = absurd (omega (arith, e))

no_sending :
    {Float : Type 0} (f : Job Float → ℕ) (o : Option (Job Float))
    → sending_weight (λ j. 1) o ≡ 0
    → sending_weight f o ≡ 0
no_sending f none e = refl
no_sending f (some job) e = absurd (omega (arith, e))

Accounts-iff :
    {Error : Type 0} (o : Option (WorkerError Error)) (errors : ℕ)
    → Accounts o errors 0
    → (o ≡ none) ↔ (errors ≡ 0)
Accounts-iff none errors a = ((λ e. a), (λ e. refl))
Accounts-iff (some x) errors a = ((λ e. ground (arith, e)), (λ e. absurd (omega (arith, e, a))))

module _ {Float Error : Type 0} (format_nat : ℕ → List ℕ) (postgres : Bool) where
  module _ (f : Job Float → ℕ) (table : List ℕ) where
    pub Step-Tallied :
        {p q : Pool Float Error} {e : PoolEvent Float Error} (es : List (PoolEvent Float Error))
        → PoolStep format_nat postgres p e q
        → Tallied format_nat postgres f table p es
        → Tallied format_nat postgres f table q (es ++ e ∷ [])
    unfolding Tallied
    Step-Tallied es (submit_accepts p job n s) (b, w, j, h, r, a) =
        let (sa, sr, si, se) = sums_lem format_nat postgres f table es (accepted job) in
        (
          omega (arith, rw s at b),
          omega (arith, sa, sr, rw s at w),
          j,
          h,
          omega (arith, si, r),
          Accounts-add p.pool_err _ _ 0 _ _ (omega (arith, se)) (omega arith) a,
        )
    Step-Tallied es (submit_refuses p e n) (b, w, j, h, r, a) =
        let (sa, sr, si, se) = sums_lem format_nat postgres f table es silent in
        (
          b,
          omega (arith, sa, sr, w),
          j,
          h,
          omega (arith, si, r),
          Accounts-add p.pool_err _ _ 0 _ _ (omega (arith, se)) (omega arith) a,
        )
    Step-Tallied es (submit_sends p job s n) (b, w, j, h, r, a) =
        let (sa, sr, si, se) = sums_lem format_nat postgres f table es silent in
        let l = length-append p.jobs (job ∷ []) in
        (
          omega (arith, l, rw s at b),
          omega (arith, sa, sr, sum_by-append f p.jobs (job ∷ []), rw s at w),
          omega (arith, l, n),
          h,
          omega (arith, si, r),
          Accounts-add p.pool_err _ _ 0 _ _ (omega (arith, se)) (omega arith) a,
        )
    Step-Tallied es (worker_takes p job rest s n) (b, w, j, h, r, a) =
        let (sa, sr, si, se) = sums_lem format_nat postgres f table es silent in
        let (hl, hw, he) = hand_lem format_nat postgres f table p.hands (job, taken) [] in
        (
          omega (arith, hl, rw s at b),
          omega (arith, sa, sr, hw, rw s at w),
          omega (arith, rw s at j),
          omega (arith, hl, n),
          omega (arith, si, r),
          Accounts-add p.pool_err _ _ 0 _ _ (omega (arith, se)) (omega (arith, he)) a,
        )
    Step-Tallied es (worker_executes p before after job db s) (b, w, j, h, r, a) =
        let x : Option (WorkerError Error) = (exec_job format_nat postgres db job p.stats).0 in
        let (sa, sr, si, se) = sums_lem format_nat postgres f table es (ran job db x) in
        let (hl, hw, he) = hand_lem format_nat postgres f table before (job, taken) after in
        let (kl, kw, ke) = hand_lem format_nat postgres f table before (job, executed x) after in
        (
          omega (arith, hl, kl, rw s at b),
          omega (arith, sa, sr, hw, kw, rw s at w),
          j,
          omega (arith, hl, kl, rw s at h),
          omega (arith, si, r, exec_job_lem format_nat postgres table db job p.stats),
          Accounts-add p.pool_err _ _ (error_count x) _ _ (omega (arith, se))
              (omega (arith, he, ke)) (rw s at a),
        )
    Step-Tallied es (worker_records p before after job err s) (b, w, j, h, r, a) =
        let (sa, sr, si, se) = sums_lem format_nat postgres f table es silent in
        let (hl, hw, he) = hand_lem format_nat postgres f table before (job, executed err) after in
        let (kl, kw, ke) = hand_lem format_nat postgres f table before (job, recorded) after in
        (
          omega (arith, hl, kl, rw s at b),
          omega (arith, sa, sr, hw, kw, rw s at w),
          j,
          omega (arith, hl, kl, rw s at h),
          omega (arith, si, r),
          Accounts-keep_first p.pool_err err _ _ _ _ (omega (arith, se)) (omega (arith, he, ke))
              (rw s at a),
        )
    Step-Tallied es (worker_finishes p before after job s) (b, w, j, h, r, a) =
        let (sa, sr, si, se) = sums_lem format_nat postgres f table es silent in
        let (hl, hw, he) = hand_lem format_nat postgres f table before (job, recorded) after in
        let l = length-append before after in
        (
          omega (arith, hl, l, rw s at b),
          omega (arith, sa, sr, hw, sum_by-append (waiting_weight f) before after, rw s at w),
          j,
          omega (arith, hl, l, rw s at h),
          omega (arith, si, r),
          Accounts-add p.pool_err _ _ 0 _ _ (omega (arith, se))
              (omega (arith, he, sum_by-append waiting_errors before after)) (rw s at a),
        )

    pub run-Tallied :
        {p q : Pool Float Error} {es : List (PoolEvent Float Error)}
        → Tallied format_nat postgres f table p []
        → PoolRun format_nat postgres p es q
        → Tallied format_nat postgres f table q es
    run-Tallied t start = t
    run-Tallied t (step {es = es} r s) = Step-Tallied es s (run-Tallied t r)

  -- Where the barrier's count is 0, as it is when the import has waited, in every interleaving of
  -- submit and the workers from a new pool on: the jobs that were accepted are those that were
  -- executed, by any measure of them; the pool's error is missing exactly if no execution ended in
  -- one; and the statistics count for a table the rows that the database says it has inserted.
  pub waited_lem :
      (f : Job Float → ℕ) (table : List ℕ) (workers : ℤ) (es : List (PoolEvent Float Error))
      (p : Pool Float Error)
      → PoolRun format_nat postgres (new_import_worker_pool workers) es p
      → p.barrier ≡ 0
      → (sum_by (accepted_weight f) es ≡ sum_by (ran_weight f) es)
        × ((p.pool_err ≡ none) ↔ (sum_by run_errors es ≡ 0))
        × (rows_of table p.stats ≡ sum_by (inserted_into format_nat postgres table) es)
  unfolding Tallied rows_of
  waited_lem f table workers es p run z =
      let (b, w, j, h, r, a) =
        run-Tallied f table {p = new_import_worker_pool workers}
          (refl, refl, omega arith, omega arith, refl, refl) run in
      let no_hands : length p.hands ≡ 0 = omega (arith, b, z) in
      let no_jobs : length p.jobs ≡ 0 = omega (arith, b, z) in
      let errors = empty_sum waiting_errors p.hands no_hands in
      (
        omega (
          arith,
          w,
          no_sending f p.sending (omega (arith, b, z)),
          empty_sum f p.jobs no_jobs,
          empty_sum (waiting_weight f) p.hands no_hands,
        ),
        Accounts-iff p.pool_err (sum_by run_errors es) (rw errors at a),
        r,
      )
