-- ===== src/Import/Progress.antt =====
-- internal/store/export.go, importWorkerPool: the wait for the workers ends.
use glitchgate.Prelude.{
  ℕ, zero, suc, ◌+◌, ◌≤◌, ◌<◌, ℤ, pos, negsuc, Bool, Option-cases, List, [], ◌∷◌, ◌++◌, ◌⊎◌, inl,
  inr, ◌≡◌, refl, ◌∙◌, arith, length, sum_by, All,
}
use glitchgate.Import.Workers.{Job, Database, exec_job}
use glitchgate.Import.Counts.{rows_of}
use glitchgate.Import.Pool.{
  Phase, taken, executed, recorded, Pool, at_least_one, PoolEvent, accepted, ran, silent,
  new_import_worker_pool, send, take_job, finish_exec, record_error, barrier_done, PoolStep,
  submit_accepts, submit_refuses, submit_sends, worker_takes, worker_executes, worker_records,
  worker_finishes, PoolRun, start, step,
}
use glitchgate.Import.Tally.{sending_weight, Tallied}
use glitchgate.Import.Waited.{Step-Tallied, run-Tallied}

list-cases : {A : Type 0} (xs : List A) → (xs ≡ []) ⊎ ((x : A) × (rest : List A) × (xs ≡ x ∷ rest))
list-cases [] = inl refl
list-cases (x ∷ rest) = inr (x, rest, refl)

zero-or-positive : (n : ℕ) → (n ≡ 0) ⊎ (0 < n)
zero-or-positive zero = inl refl
zero-or-positive (suc n) = inr (omega arith)

at_least_one_lem : (n : ℤ) → 1 ≤ at_least_one n
at_least_one_lem (pos zero) = omega arith
at_least_one_lem (pos (suc n)) = omega arith
at_least_one_lem (negsuc n) = omega arith

-- The steps that a job in hand still takes.
abbrev pub steps_left : {Float Error : Type 0} → Job Float × Phase Error → ℕ
steps_left (job, taken) = 3
steps_left (job, executed err) = 2
steps_left (job, recorded) = 1

-- The steps until every accepted job is done.
abbrev pub work : {Float Error : Type 0} → Pool Float Error → ℕ
work p = sending_weight (λ j. 5) p.sending + sum_by (λ j. 4) p.jobs + sum_by steps_left p.hands

module _ {Float Error : Type 0} (format_nat : ℕ → List ℕ) (postgres : Bool)
    (answers : Job Float → Database Float Error) where
  -- A step that accepts no job, and executes one with the answers to it.
  abbrev pub IsAnswer : PoolEvent Float Error → Type 0
  IsAnswer (accepted job) = ⊥
  IsAnswer (ran job db err) = db ≡ answers job
  IsAnswer silent = Unit

  -- Such a step leaves less to do.
  abbrev Advances : Pool Float Error → Type 0
  Advances p =
      (e : PoolEvent Float Error) × (q : Pool Float Error) × PoolStep format_nat postgres p e q
      × (work q < work p)
      × IsAnswer e

  worker-Advances :
      (p : Pool Float Error) (hand : Job Float × Phase Error)
      (rest : List (Job Float × Phase Error))
      → p.hands ≡ hand ∷ rest
      → Advances p
  worker-Advances p (job, taken) rest e = (
    ran job (answers job) (exec_job format_nat postgres (answers job) job p.stats).0,
    finish_exec [] job rest (exec_job format_nat postgres (answers job) job p.stats) p,
    worker_executes p [] rest job (answers job) e,
    rw e (omega arith),
    refl,
  )
  worker-Advances p (job, executed err) rest e = (
    silent,
    record_error [] job rest err p,
    worker_records p [] rest job err e,
    rw e (omega arith),
    tt,
  )
  worker-Advances p (job, recorded) rest e =
      (silent, barrier_done rest p, worker_finishes p [] rest job e, rw e (omega arith), tt)

  channel-Advances :
      (p : Pool Float Error)
      → 1 ≤ p.worker_count
      → p.hands ≡ []
      → 0 < sending_weight (λ j. 1) p.sending + length p.jobs
      → Advances p
  channel-Advances p n h b = elim (list-cases p.jobs) [
    | inr (job, rest, e) ↦ (
      silent,
      take_job job rest p,
      worker_takes p job rest e (rw h (omega (arith, n))),
      rw (e, h) (omega arith),
      tt,
    )
    | inl e ↦ elim (Option-cases p.sending) [
      | inl s ↦ absurd (omega (arith, rw (s, e) at b))
      | inr (job, s) ↦ (
        silent,
        send job p,
        submit_sends p job s (rw e (omega (arith, n))),
        rw (s, e) (omega arith),
        tt,
      )
    ]
  ]

  advances :
      (p : Pool Float Error) (es : List (PoolEvent Float Error))
      → 1 ≤ p.worker_count
      → Tallied format_nat postgres (λ j. 1) [] p es
      → 0 < p.barrier
      → Advances p
  unfolding Tallied
  advances p es n (b, w, j, h, r, a) z = elim (list-cases p.hands) [
    | inr (hand, rest, e) ↦ worker-Advances p hand rest e
    | inl e ↦ channel-Advances p n e (omega (arith, z, rw e at b))
  ]

  step-worker_count :
      {p q : Pool Float Error} {e : PoolEvent Float Error}
      → PoolStep format_nat postgres p e q
      → q.worker_count ≡ p.worker_count
  step-worker_count (submit_accepts p job n s) = refl
  step-worker_count (submit_refuses p e n) = refl
  step-worker_count (submit_sends p job s n) = refl
  step-worker_count (worker_takes p job rest s n) = refl
  step-worker_count (worker_executes p before after job db s) = refl
  step-worker_count (worker_records p before after job err s) = refl
  step-worker_count (worker_finishes p before after job s) = refl

  run-worker_count :
      {p q : Pool Float Error} {es : List (PoolEvent Float Error)}
      → PoolRun format_nat postgres p es q
      → q.worker_count ≡ p.worker_count
  run-worker_count start = refl
  run-worker_count (step r s) = step-worker_count s ∙ run-worker_count r

  run-cons :
      {p q r : Pool Float Error} {e : PoolEvent Float Error} {es : List (PoolEvent Float Error)}
      → PoolStep format_nat postgres p e q
      → PoolRun format_nat postgres q es r
      → PoolRun format_nat postgres p (e ∷ es) r
  run-cons s start = step start s
  run-cons s (step r t) = step (run-cons s r) t

  -- A run of such steps that ends with the barrier's count at 0.
  unfoldable pub Ends : Pool Float Error → Type 0
  Ends p =
      (es : List (PoolEvent Float Error)) × (q : Pool Float Error) × PoolRun format_nat postgres p
        es q
      × All IsAnswer es
      × (q.barrier ≡ 0)

  after_step :
      (p : Pool Float Error) (es : List (PoolEvent Float Error)) (a : Advances p)
      → ((fs : List (PoolEvent Float Error))
          → Tallied format_nat postgres (λ j. 1) [] a.1 fs
          → Ends a.1)
      → Tallied format_nat postgres (λ j. 1) [] p es
      → Ends p
  unfolding Ends
  after_step p es (e, q, s, l, n) k t =
      let (fs, r, run, m, z) =
        k (es ++ e ∷ []) (Step-Tallied format_nat postgres (λ j. 1) [] es s t) in
      (e ∷ fs, r, run-cons s run, (n, m), z)

  fuel-Ends :
      (fuel : ℕ) (p : Pool Float Error) (es : List (PoolEvent Float Error))
      → work p ≤ fuel
      → 1 ≤ p.worker_count
      → Tallied format_nat postgres (λ j. 1) [] p es
      → Ends p
  unfolding Ends
  fuel-Ends zero p es l n t = elim (zero-or-positive p.barrier) [
    | inl z ↦ ([], p, start, tt, z)
    | inr z ↦ absurd (omega (arith, l, (advances p es n t z).3))
  ]
  fuel-Ends (suc fuel) p es l n t = elim (zero-or-positive p.barrier) [
    | inl z ↦ ([], p, start, tt, z)
    | inr z ↦
        let a : Advances p = advances p es n t z in
        after_step p es a
          (λ fs u.
            fuel-Ends fuel a.1 fs (omega (arith, l, a.3)) (omega (arith, n, step-worker_count a.2))
              u)
          t
  ]

  -- Wherever a new pool and submit have come to, the wait for the workers ends, and never blocks for
  -- good: whatever the database answers to a job, there are steps with these answers that accept no
  -- further job, of the workers and of a submit that is at the channel, by which the barrier's count
  -- comes to 0.
  pub wait-Ends :
      (workers : ℤ) (es : List (PoolEvent Float Error)) (p : Pool Float Error)
      → PoolRun format_nat postgres (new_import_worker_pool workers) es p
      → Ends p
  unfolding Tallied rows_of
  wait-Ends workers es p run =
      fuel-Ends (work p) p es (omega arith)
        (omega (arith, run-worker_count run, at_least_one_lem workers))
        (run-Tallied format_nat postgres (λ j. 1) [] {p = new_import_worker_pool workers}
          (refl, refl, omega arith, omega arith, refl, refl) run)
