-- ===== src/Tests/Breakers.antt =====
-- Runs of internal/circuitbreaker.
use glitchgate.Prelude.{◌+◌, ◌≡◌, refl, List, [], ◌∷◌, arith, pos, if◌then◌else◌}
use glitchgate.Breaker.{
  Breaker, state_closed, state_open, state_half_open, new_breaker, allow, record_success,
  record_failure, call_allow, call_failure, step, run, Call, to_string, stats,
}
use glitchgate.Breaker.Invariant.{IsValid, run_new-IsValid}
use glitchgate.Breaker.Admission.{admitted, reaches, open_admits_one}
use glitchgate.Breaker.Tripping.{failures, state_after, failures-record_success}

abbrev start : Breaker
start = new_breaker (pos 2) (pos 100) 0

-- Two failures trip the breaker at 20; the probe goes out at 130.
abbrev tripping : List Call
tripping = call_failure 10 ∷ call_allow 15 ∷ call_failure 20 ∷ call_allow 110 ∷ call_allow 130 ∷ []

tripping_probes : (run start tripping).state ≡ state_half_open
unfolding run step new_breaker allow record_failure
tripping_probes = refl

open_label : to_string (run start (call_failure 10 ∷ call_failure 20 ∷ [])).state ≡ "open"
unfolding to_string run step new_breaker record_failure
open_label = refl

cooldown_label : (stats (run start (call_failure 10 ∷ call_failure 20 ∷ []))).cooldown_ends_at ≡ 120
unfolding stats run step new_breaker record_failure
cooldown_label = refl

run_new-IsValid_example : IsValid (run (new_breaker (pos 2) (pos 100) 0) tripping)
run_new-IsValid_example = run_new-IsValid (pos 2) (pos 100) 0 tripping

abbrev tripped : Breaker
tripped = record start {
  state = state_open;
  consecutive_failures = 2;
  total_trips = 1;
  last_failure = 20;
  last_state_change = 20;
  cooldown = 100;
}

open_admits_one_example :
    admitted tripped (110 ∷ 130 ∷ 125 ∷ [])
    ≡ (if reaches (20 + 100) (110 ∷ 130 ∷ 125 ∷ []) then 1 else 0)
open_admits_one_example = open_admits_one tripped (110 ∷ 130 ∷ 125 ∷ []) refl

abbrev closed : Breaker
closed = record tripped { state = state_closed; consecutive_failures = 1; failure_threshold = 2 }

closed_trips : (record_failure 50 closed).state ≡ state_open
unfolding record_failure
closed_trips = refl

failures-record_success_example :
    (run (record_success 5 closed) (failures (10 ∷ 20 ∷ []))).state ≡ state_after 2 2
failures-record_success_example = failures-record_success closed 5 (10 ∷ 20 ∷ []) (omega arith)
