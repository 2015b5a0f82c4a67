-- ===== src/Breaker/Invariant.antt =====
-- What holds of a breaker between two calls.
use glitchgate.Prelude.{ℕ, ◌<◌, ◌≡◌, Bool, true, false, ℤ, List, [], ◌∷◌, arith}
use glitchgate.Breaker.{
  Breaker, State, state_closed, state_open, state_half_open, new_breaker, allow, record_success,
  record_failure, Call, call_allow, call_success, call_failure, step, run,
}

-- The state in which a probe is out.
abbrev pub is_half_open : State → Bool
is_half_open state_half_open = true
is_half_open _ = false

pub record IsValid (b : Breaker) : Type 0 where
  pub threshold_pos : 0 < b.failure_threshold
  pub cooldown_pos : 0 < b.cooldown
  pub closed_below : b.state ≡ state_closed → b.consecutive_failures < b.failure_threshold
  pub open_tripped : b.state ≡ state_open → 0 < b.total_trips
  pub probe_iff : b.probe_in_flight ≡ is_half_open b.state

pub new_breaker-IsValid :
    (threshold cooldown : ℤ) (now : ℕ) → IsValid (new_breaker threshold cooldown now)
unfolding new_breaker
new_breaker-IsValid threshold cooldown now = ground arith

allow-IsValid : (now : ℕ) (b : Breaker) → IsValid b → IsValid (allow now b).1
unfolding allow
allow-IsValid now b h = ground arith

record_success-IsValid : (now : ℕ) (b : Breaker) → IsValid b → IsValid (record_success now b)
unfolding record_success
record_success-IsValid now b h = ground arith

record_failure-IsValid : (now : ℕ) (b : Breaker) → IsValid b → IsValid (record_failure now b)
unfolding record_failure
record_failure-IsValid now b h = ground arith

pub step-IsValid : (b : Breaker) (c : Call) → IsValid b → IsValid (step b c)
unfolding step
step-IsValid b (call_allow now) h = allow-IsValid now b h
step-IsValid b (call_success now) h = record_success-IsValid now b h
step-IsValid b (call_failure now) h = record_failure-IsValid now b h

pub run-IsValid : (b : Breaker) (cs : List Call) → IsValid b → IsValid (run b cs)
unfolding run
run-IsValid b [] h = h
run-IsValid b (c ∷ cs) h = run-IsValid (step b c) cs (step-IsValid b c h)

-- After any sequence of Allow, RecordSuccess and RecordFailure calls on a new breaker, whatever the
-- configured threshold, cooldown and clock readings: the threshold and the cooldown are positive, a
-- closed breaker has fewer consecutive failures than its threshold, an open one has tripped, and a
-- probe is in flight exactly in the half-open state.
pub run_new-IsValid :
    (threshold cooldown : ℤ) (now : ℕ) (cs : List Call)
    → IsValid (run (new_breaker threshold cooldown now) cs)
run_new-IsValid threshold cooldown now cs =
    run-IsValid (new_breaker threshold cooldown now) cs (new_breaker-IsValid threshold cooldown now)
