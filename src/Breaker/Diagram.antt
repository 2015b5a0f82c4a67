-- ===== src/Breaker/Diagram.antt =====
-- The trip counter of a breaker against the history of its states.
use glitchgate.Prelude.{
  ℕ, ◌+◌, ◌≡◌, Bool, true, false, not, ◌&&◌, if◌then◌else◌, List, [], ◌∷◌, arith,
}
use glitchgate.Breaker.{
  Breaker, State, state_open, allow, record_success, record_failure, Call, call_allow, call_success,
  call_failure, step, run,
}

abbrev pub is_open : State → Bool
is_open state_open = true
is_open _ = false

-- How often the state changes to open along the calls.
abbrev pub openings : Breaker → List Call → ℕ
openings b [] = 0
openings b (c ∷ cs) =
    (if not (is_open b.state) && is_open (step b c).state then 1 else 0) + openings (step b c) cs

total_trips-step :
    (b : Breaker) (c : Call)
    → (step b c).total_trips
      ≡ b.total_trips + (if not (is_open b.state) && is_open (step b c).state then 1 else 0)
unfolding step allow record_success record_failure
total_trips-step b (call_allow now) = ground arith
total_trips-step b (call_success now) = ground arith
total_trips-step b (call_failure now) = ground arith

-- From any breaker, over any calls, the trip counter grows by exactly the number of times that the
-- state changes to open from another state.
total_trips-run :
    (b : Breaker) (cs : List Call) → (run b cs).total_trips ≡ b.total_trips + openings b cs
unfolding run
total_trips-run b [] = omega arith
total_trips-run b (c ∷ cs) = omega (arith, total_trips-run (step b c) cs, total_trips-step b c)
