-- ===== src/Breaker.antt =====
-- internal/circuitbreaker/breaker.go: the three-state circuit breaker of one provider.
-- A method runs under the breaker's mutex, so it is one atomic function of the record and of the
-- clock reading it takes. Times and durations are nanoseconds; `now.Sub(t) < d` is `now < t + d`.
pub mod Invariant
pub mod Diagram
pub mod Admission
pub mod Tripping
pub mod Registry
use glitchgate.Prelude.{
  ℕ, ◌+◌, ◌*◌, ◌^◌, String, Bool, true, false, Option, none, some, ltb, leb, if◌then◌else◌, ℤ,
  or_default, List, [], ◌∷◌,
}

pub data State : Type 0 where
  state_closed state_open state_half_open : State

unfoldable pub to_string : State → String
to_string state_closed = "closed"
to_string state_open = "open"
to_string state_half_open = "half-open"

pub record Breaker : Type 0 where
  pub state : State
  pub consecutive_failures : ℕ
  pub total_trips : ℕ
  pub failure_threshold : ℕ
  pub cooldown : ℕ
  pub last_failure : ℕ
  pub last_state_change : ℕ
  pub probe_in_flight : Bool

-- The zero time.Time.
abbrev pub zero_time : ℕ
zero_time = 0

-- NewBreaker, called at the time `now`.
unfoldable pub new_breaker : ℤ → ℤ → ℕ → Breaker
new_breaker threshold cooldown now = record {
  state = state_closed;
  consecutive_failures = 0;
  total_trips = 0;
  failure_threshold = or_default threshold 5;
  cooldown = or_default cooldown (30 * 10 ^ 9);
  last_failure = zero_time;
  last_state_change = now;
  probe_in_flight = false;
}

-- The `switch` of Allow.
allow_in : State → ℕ → Breaker → Bool × Breaker
allow_in state_closed now b = (true, b)
allow_in state_open now b = if ltb now (b.last_state_change + b.cooldown) then (false, b) else (
  true,
  record b { state = state_half_open; last_state_change = now; probe_in_flight = true },
)
allow_in state_half_open now b =
    if b.probe_in_flight then (false, b) else (true, record b { probe_in_flight = true })

unfoldable pub allow : ℕ → Breaker → Bool × Breaker
unfolding allow_in
allow now b = allow_in b.state now b

-- The guarded assignment at the end of RecordSuccess.
close_from : State → ℕ → Breaker → Breaker
close_from state_closed now b = b
close_from _ now b = record b { state = state_closed; last_state_change = now }

unfoldable pub record_success : ℕ → Breaker → Breaker
unfolding close_from
record_success now b =
    close_from b.state now (record b { consecutive_failures = 0; probe_in_flight = false })

trip : ℕ → Breaker → Breaker
trip now b = record b {
  state = state_open;
  last_state_change = now;
  total_trips = b.total_trips + 1;
}

-- The `switch` of RecordFailure, after the fields above it are set.
fail_from : State → ℕ → Breaker → Breaker
unfolding trip
fail_from state_closed now b =
    if leb b.failure_threshold b.consecutive_failures then trip now b else b
fail_from state_half_open now b = trip now b
fail_from state_open now b = b

unfoldable pub record_failure : ℕ → Breaker → Breaker
unfolding fail_from
record_failure now b = fail_from b.state now (record b {
  consecutive_failures = b.consecutive_failures + 1;
  last_failure = now;
  probe_in_flight = false;
})

abbrev pub current_state : Breaker → State
current_state b = b.state

pub record Stats : Type 0 where
  pub state : State
  pub consecutive_failures : ℕ
  pub total_trips : ℕ
  pub last_failure : ℕ
  pub last_state_change : ℕ
  pub cooldown_ends_at : ℕ

cooldown_end : State → Breaker → ℕ
cooldown_end state_open b = b.last_state_change + b.cooldown
cooldown_end _ b = zero_time

unfoldable pub stats : Breaker → Stats
unfolding cooldown_end
stats b = record {
  state = b.state;
  consecutive_failures = b.consecutive_failures;
  total_trips = b.total_trips;
  last_failure = b.last_failure;
  last_state_change = b.last_state_change;
  cooldown_ends_at = cooldown_end b.state b;
}

-- A call of a method, with the time that its clock reading gives.
pub data Call : Type 0 where
  call_allow : ℕ → Call
  call_success : ℕ → Call
  call_failure : ℕ → Call

unfoldable pub step : Breaker → Call → Breaker
step b (call_allow now) = (allow now b).1
step b (call_success now) = record_success now b
step b (call_failure now) = record_failure now b

-- Any interleaving of calls of any number of goroutines is a list of calls.
unfoldable pub run : Breaker → List Call → Breaker
run b [] = b
run b (c ∷ cs) = run (step b c) cs
