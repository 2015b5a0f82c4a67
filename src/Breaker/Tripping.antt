-- ===== src/Breaker/Tripping.antt =====
-- When failures in a row open a breaker.
use glitchgate.Prelude.{
  ℕ, suc, ◌+◌, ◌≤◌, ◌<◌, ◌≡◌, if◌then◌else◌, List, [], ◌∷◌, leb, length, map, arith, Bool-cases,
  inl, inr, le→leb, lt→leb, leb→le,
}
use glitchgate.Breaker.{
  Breaker, State, state_closed, state_open, record_success, record_failure, Call, call_failure,
  step, run,
}

abbrev pub failures : List ℕ → List Call
failures = map call_failure

abbrev pub state_after : ℕ → ℕ → State
state_after threshold n = if leb threshold n then state_open else state_closed

open_stays :
    (b : Breaker) (ts : List ℕ) → b.state ≡ state_open → (run b (failures ts)).state ≡ state_open
unfolding run step record_failure
open_stays b [] h = h
open_stays b (t ∷ ts) h = open_stays (record_failure t b) ts (ground arith)

trips_now :
    (b : Breaker) (t : ℕ)
    → b.state ≡ state_closed
    → b.failure_threshold ≤ b.consecutive_failures + 1
    → (record_failure t b).state ≡ state_open
unfolding record_failure
trips_now b t c h = ground arith

counts_up :
    (b : Breaker) (t : ℕ)
    → b.state ≡ state_closed
    → b.consecutive_failures + 1 < b.failure_threshold
    → ((record_failure t b).state ≡ state_closed)
      × ((record_failure t b).consecutive_failures ≡ b.consecutive_failures + 1)
      × ((record_failure t b).failure_threshold ≡ b.failure_threshold)
unfolding record_failure
counts_up b t c h = ground arith

pub state-failures :
    (b : Breaker) (ts : List ℕ)
    → b.state ≡ state_closed
    → b.consecutive_failures < b.failure_threshold
    → (run b (failures ts)).state
      ≡ state_after b.failure_threshold (b.consecutive_failures + length ts)
unfolding run step
state-failures b [] c h =
    rw (lt→leb b.failure_threshold (b.consecutive_failures + 0) (omega arith)) c
state-failures b (t ∷ ts) c h =
    elim (Bool-cases (leb b.failure_threshold (b.consecutive_failures + 1))) [
      | inl full ↦
          rw
            (le→leb b.failure_threshold (b.consecutive_failures + suc (length ts))
              (omega (arith, leb→le b.failure_threshold (b.consecutive_failures + 1) full)))
            (open_stays (record_failure t b) ts (trips_now b t c (leb→le _ _ full)))
      | inr room ↦
          let below : b.consecutive_failures + 1 < b.failure_threshold = ground arith in
          let up = counts_up b t c below in
          let ih = state-failures (record_failure t b) ts up.0 (omega arith) in ground (arith, ih)
    ]

success_restarts :
    (b : Breaker) (now : ℕ)
    → ((record_success now b).state ≡ state_closed)
      × ((record_success now b).consecutive_failures ≡ 0)
      × ((record_success now b).failure_threshold ≡ b.failure_threshold)
unfolding record_success
success_restarts b now = ground arith

-- After a success on any breaker with a positive threshold, in whatever state it was, a row of
-- failures leaves the breaker open if there are at least as many as the threshold, and closed if
-- there are fewer.
pub failures-record_success :
    (b : Breaker) (now : ℕ) (ts : List ℕ)
    → 0 < b.failure_threshold
    → (run (record_success now b) (failures ts)).state ≡ state_after b.failure_threshold (length ts)
failures-record_success b now ts h =
    let r = success_restarts b now in ground (arith, state-failures (record_success now b) ts)
