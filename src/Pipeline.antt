-- ===== src/Pipeline.antt =====
-- internal/proxy/pipeline.go and result.go: dispatch of one request over its fallback chain.
-- What a request does is a change of `World`: the breakers, the entries handed to the logger and
-- what was written to the client. What the request does not decide is the record `Env`: the
-- configured providers, the handlers' route builders, what each upstream call returns and the
-- clock readings at each position of the chain. Messages are kept as data, not as text.
pub mod Types
pub mod Chain
pub mod Responses
pub mod Fallback
pub mod Silence
pub mod Probes
pub mod Choice
pub use Types.*
use glitchgate.Prelude.{
  ℕ, ℤ, suc, ◌+◌, ◌-◌, String, Bool, true, false, not, ◌&&◌, ◌||◌, Option, none, some, Map, List,
  [], ◌∷◌, ◌++◌, ltb, leb, nat_eq, if◌then◌else◌, length, ◌==◌,
}
use glitchgate.Bodies.{Fields, redact_request_body, truncate_logged_body}
use glitchgate.Breaker
use glitchgate.Breaker.Registry
use glitchgate.Breaker.Registry.{Registry}
use glitchgate.Config.Types.{DispatchTarget}
use glitchgate.Pricing
use glitchgate.Pricing.{Calculator}

unfoldable pub write : Written → World → World
write m w = record w { written = w.written ++ m ∷ [] }

abbrev pub is_fallback_status : ℕ → Bool
is_fallback_status code = leb 500 code || nat_eq code 429

-- resolvedModelName, which every caller passes empty.
unfoldable pub resolved_model_name : ℕ → String → String → String
resolved_model_name attempts requested upstream =
    if ltb 1 attempts && not (upstream == "") then upstream else requested

unfoldable pub cost_of : Option Calculator → String → String → HandlerResult → Option ℕ
cost_of none provider model r = none
cost_of (some c) provider model r = Pricing.calculate c provider model (record {
  input_tokens = r.input_tokens;
  output_tokens = r.output_tokens;
  cache_creation_tokens = r.cache_creation_input_tokens;
  cache_read_tokens = r.cache_read_input_tokens;
  reasoning_tokens = r.reasoning_tokens;
})

-- The chainAttempt at the position `n`, with the targets that are left behind it.
abbrev pub attempt_at : ℕ → DispatchTarget → Provider → List DispatchTarget → ChainAttempt
attempt_at n t p ts = record {
  mapping = t;
  provider = p;
  attempt_count = n;
  has_more_fallbacks = ltb 0 (length ts);
}

module _ (env : Env) where
  -- The entry that AsyncLogger.logEntry makes.
  unfoldable pub new_entry : ChainAttempt → Provider → RoutePlan → HandlerResult → LogEntry
  unfolding resolved_model_name cost_of truncate_logged_body redact_request_body
  new_entry attempt prov plan r =
      let model = attempt.mapping.upstream_model in
      record {
        proxy_key_id = env.spec.proxy_key_id;
        source_format = env.spec.source_format;
        provider_name = prov.name;
        model_requested = env.spec.model_request;
        model_upstream = model;
        resolved_model_name =
            resolved_model_name attempt.attempt_count env.spec.model_request model;
        latency_ms = (env.readings attempt.attempt_count).latency_ms;
        request_body =
            truncate_logged_body env.truncation_mark
              (redact_request_body env.lower env.unmarshal env.marshal plan.request_body)
              env.body_max_bytes;
        response_body = truncate_logged_body env.truncation_mark r.body env.body_max_bytes;
        result = r;
        fallback_attempts = attempt.attempt_count;
        cost_usd = cost_of env.spec.calculator prov.name model r;
      }

  -- AsyncLogger.logEntry, up to the hand-over to Log.
  unfoldable pub log_entry : ChainAttempt → Provider → RoutePlan → HandlerResult → World → World
  unfolding new_entry
  log_entry attempt prov plan r w = record w { log = w.log ++ new_entry attempt prov plan r ∷ [] }

  -- The result that is logged for an attempt that failed.
  unfoldable pub failed_result : ℕ → List ℕ → HandlerResult
  failed_result status text = record {
    input_tokens = 0;
    output_tokens = 0;
    cache_creation_input_tokens = 0;
    cache_read_input_tokens = 0;
    reasoning_tokens = 0;
    status = status;
    body = text;
    err_details = some text;
    is_streaming = env.spec.is_streaming;
  }

  -- breakers.Get(name), if there are breakers, and a method of it.
  unfoldable pub on_breaker : ℕ → String → (Breaker.Breaker → Breaker.Breaker) → World → World
  on_breaker get_at name f w =
      if env.has_breakers
      then (let (b, r) = Registry.get get_at name w.registry in
          record w { registry = Registry.write_back name (f b) r })
      else w

  -- executeProviderAttempt once SendRequest has returned: whether the request is answered.
  unfoldable pub settle : ChainAttempt → RoutePlan → SendResult → World → Bool × World
  settle attempt plan (send_failed text) w =
      let at = env.readings attempt.attempt_count in
      let w' = on_breaker at.get_at attempt.provider.name (Breaker.record_failure at.record_at) w in
      if attempt.has_more_fallbacks then (false, w') else (
        true,
        write (wrote_error 502 env.server_err_type upstream_unreachable)
            (log_entry attempt attempt.provider plan (failed_result 502 text) w'),
      )
  settle attempt plan (sent resp) w =
      let at = env.readings attempt.attempt_count in
      let name = attempt.provider.name in
      let failed = on_breaker at.get_at name (Breaker.record_failure at.record_at) w in
      let succeeded = on_breaker at.get_at name (Breaker.record_success at.record_at) w in
      let text = env.exhausted_text attempt.attempt_count resp.status_code in
      if is_fallback_status resp.status_code
      then (if attempt.has_more_fallbacks then (false, failed) else (
        true,
        write (wrote_error resp.status_code env.server_err_type all_failed)
            (log_entry attempt attempt.provider plan (failed_result resp.status_code text) failed),
      ))
      else (
        true,
        log_entry attempt attempt.provider plan (plan.handle_response resp)
            (write (relayed resp) succeeded),
      )

  -- The plan of the route, if there is one.
  unfoldable pub follow_route : ChainAttempt → Route → World → Bool × World
  follow_route attempt stopped w = (true, write route_stopped w)
  follow_route attempt (planned p) w =
      settle attempt p (env.send attempt.attempt_count attempt.provider p) w

  -- The callback that executeProxyPipeline gives to executeFallbackChain.
  unfoldable pub handle_attempt : ChainAttempt → World → Bool × World
  handle_attempt attempt w = elim (env.routes attempt.provider.api_format) [
    | none ↦ (
      true,
      write
          (wrote_error 400 "invalid_request_error"
            (unsupported_format attempt.provider.api_format attempt.provider.name))
          w,
    )
    | some build ↦ follow_route attempt (build attempt) w
  ]

  -- Whether the breaker of a provider lets a request through.
  unfoldable pub consult : ℕ → String → World → Bool × World
  consult n name w =
      if env.has_breakers
      then (let at = env.readings n in
          let (b, r) = Registry.get at.get_at name w.registry in
          let (ok, b') = Breaker.allow at.allow_at b in
          (ok, record w { registry = Registry.write_back name b' r }))
      else (true, w)

  -- executeFallbackChain from the position `n` on, with anyAttempted.
  unfoldable pub fallback_chain : ℕ → List DispatchTarget → Bool → World → Bool × World
  fallback_chain n [] any w = (any, w)
  fallback_chain n (t ∷ ts) any w = elim (env.providers t.provider) [
    | none ↦ (
      any,
      write (wrote_error 400 "invalid_request_error" (provider_not_configured t.provider)) w,
    )
    | some p ↦
        let (ok, w') = consult n t.provider w in
        let skipped = fallback_chain (n + 1) ts any w' in
        let (answered, w'') = handle_attempt (attempt_at n t p ts) w' in
        let next = fallback_chain (n + 1) ts true w'' in
        if ok then (if answered then (true, w'') else next) else skipped
  ]

  -- executeProxyPipeline
  unfoldable pub execute_proxy_pipeline : List DispatchTarget → World → World
  execute_proxy_pipeline chain w =
      let (any, w') = fallback_chain 1 chain false w in
      if not any && ltb 0 (length chain)
      then write (wrote_error 503 env.server_err_type all_failed) w'
      else w'
