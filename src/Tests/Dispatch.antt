-- ===== src/Tests/Dispatch.antt =====
-- Runs of internal/proxy/pipeline.go.
use glitchgate.Prelude.{
  ℕ, ◌+◌, ◌≤◌, ◌≡◌, refl, String, Bool, true, false, some, none, Option, List, [], ◌∷◌, arith, ◌==◌,
  if◌then◌else◌, empty_map, pos, nat_eq, Map,
}
use glitchgate.Breaker
use glitchgate.Breaker.{Breaker, state_closed, state_open}
use glitchgate.Breaker.Admission.{admitted}
use glitchgate.Breaker.Registry
use glitchgate.Config.Types.{DispatchTarget}
use glitchgate.Pipeline
use glitchgate.Pipeline.{
  Provider, Response, SendResult, send_failed, sent, HandlerResult, ChainAttempt, RoutePlan, Route,
  stopped, planned, Env, World, consult, handle_attempt, attempt_at, execute_proxy_pipeline, settle,
}
use glitchgate.Pipeline.Responses.{responses, entries}
use glitchgate.Pipeline.Fallback.{pipeline_at_most_one, pipeline_answers}
use glitchgate.Pipeline.Silence.{failure_is_silent}
use glitchgate.Pipeline.Probes.{probe_leaks}
use glitchgate.Pipeline.Choice.{chosen}

abbrev provider : String → Provider
provider name = record { name = name; api_format = "openai" }

abbrev target : String → DispatchTarget
target name = record { provider = name; upstream_model = "gpt"; metadata = none }

abbrev result : HandlerResult
result = record {
  input_tokens = 7;
  output_tokens = 5;
  cache_creation_input_tokens = 0;
  cache_read_input_tokens = 0;
  reasoning_tokens = 0;
  status = 200;
  body = 111 ∷ 107 ∷ [];
  err_details = none;
  is_streaming = false;
}

abbrev plan_of : ChainAttempt → RoutePlan
plan_of a = record { provider_request = []; request_body = []; handle_response = λ resp. result }

-- The first attempt is refused with a status, the others succeed.
abbrev upstream : ℕ → SendResult
upstream n =
    sent (record { status_code = if nat_eq n 1 then 503 else 200; body = []; stream = false })

abbrev env_of : Bool → (String → Option (ChainAttempt → Route)) → Env
env_of has_breakers routes = record {
  providers = λ name. if name == "gone" then none else some (provider name);
  routes = routes;
  send = λ n p plan. upstream n;
  readings = λ n. record { get_at = 1000; allow_at = 1000; record_at = 1001; latency_ms = 5 };
  has_breakers = has_breakers;
  spec = record {
    source_format = "openai";
    proxy_key_id = "key";
    key_prefix = "llmp_sk_abcd";
    model_request = "fast";
    is_streaming = false;
    calculator = none;
  };
  server_err_type = "api_error";
  lower = λ s. s;
  unmarshal = λ b. none;
  marshal = λ fs. none;
  body_max_bytes = pos 0;
  truncation_mark = λ n. [];
  exhausted_text = λ n s. [];
}

abbrev planned_routes : String → Option (ChainAttempt → Route)
planned_routes format = if format == "openai" then some (λ a. planned (plan_of a)) else none

abbrev open_at : ℕ → Breaker
open_at t = record {
  state = state_open;
  consecutive_failures = 5;
  total_trips = 1;
  failure_threshold = 5;
  cooldown = 100;
  last_failure = t;
  last_state_change = t;
  probe_in_flight = false;
}

abbrev world_of : Map Breaker → World
world_of breakers = record {
  registry = record { breakers = breakers; threshold = pos 5; cooldown = pos 100 };
  log = [];
  written = [];
}

abbrev quiet : World
quiet = world_of empty_map

abbrev two : List DispatchTarget
two = target "a" ∷ target "b" ∷ []

pipeline_at_most_one_example :
    (responses quiet ≤ responses (execute_proxy_pipeline (env_of true planned_routes) two quiet))
    × (responses (execute_proxy_pipeline (env_of true planned_routes) two quiet)
        ≤ responses quiet + 1)
    × (entries (execute_proxy_pipeline (env_of true planned_routes) two quiet) ≤ entries quiet + 1)
pipeline_at_most_one_example =
    pipeline_at_most_one (env_of true planned_routes) two quiet
      ((provider "a", refl), ((provider "b", refl), tt))

pipeline_answers_example :
    responses (execute_proxy_pipeline (env_of false planned_routes) two quiet) ≡ responses quiet + 1
pipeline_answers_example =
    pipeline_answers (env_of false planned_routes) (target "a") (target "b" ∷ []) quiet refl
      ((provider "a", refl), ((provider "b", refl), tt))

second_is_chosen :
    (chosen (env_of false planned_routes) provider plan_of 1 (target "a") (target "b" ∷ [])).0 ≡ 2
unfolding chosen
second_is_chosen = refl

-- Every breaker opened at 950: at 1000 the cooldown is not over.
abbrev all_open : World
all_open = world_of (λ name. some (open_at 950))

-- Only the breaker of "b" is open.
abbrev b_open : World
b_open = world_of (λ name. if name == "b" then some (open_at 950) else none)

failure_is_silent_example :
    (responses (execute_proxy_pipeline (env_of true planned_routes) two b_open) ≡ responses b_open)
    × (entries (execute_proxy_pipeline (env_of true planned_routes) two b_open) ≡ entries b_open)
unfolding consult handle_attempt Pipeline.follow_route settle Pipeline.on_breaker Registry.get
    Registry.write_back Breaker.allow Breaker.record_failure Breaker.new_breaker
failure_is_silent_example =
    failure_is_silent (env_of true planned_routes) (target "a") (target "b" ∷ []) b_open
      (provider "a") refl refl refl ((provider "b", refl), refl, tt)

abbrev stopping : ChainAttempt → Route
stopping a = stopped

abbrev expired : World
expired = world_of (λ name. some (open_at 800))

abbrev stopping_env : Env
stopping_env = env_of true (λ format. some stopping)

probe_leaks_example :
    (b' : Breaker) × ((execute_proxy_pipeline stopping_env two expired).registry.breakers "a"
      ≡ some b')
    × (admitted b' (2000 ∷ 1000000 ∷ []) ≡ 0)
probe_leaks_example =
    probe_leaks stopping_env (target "a") (target "b" ∷ []) expired (provider "a") (open_at 800)
      stopping (2000 ∷ 1000000 ∷ []) refl refl refl refl (omega arith) refl refl
