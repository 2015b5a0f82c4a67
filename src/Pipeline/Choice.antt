-- ===== src/Pipeline/Choice.antt =====
-- Which target of a chain answers a request when no breaker stands in the way.
use glitchgate.Prelude.{ℕ, ◌+◌, ◌≡◌, String, Bool, true, some, List, [], ◌∷◌, ◌++◌, if◌then◌else◌}
use glitchgate.Config.Types.{DispatchTarget}
use glitchgate.Pipeline.{
  Provider, SendResult, send_failed, sent, ChainAttempt, RoutePlan, Route, planned, LogEntry, Env,
  World, is_fallback_status, attempt_at,
}

-- A result after which the next target is tried.
abbrev pub is_retryable : SendResult → Bool
is_retryable (send_failed text) = true
is_retryable (sent resp) = is_fallback_status resp.status_code

-- One entry was logged, for the attempt `n` on the target `t` and the provider `p`.
abbrev pub Logs : World → World → ℕ → DispatchTarget → Provider → Type 0
Logs w w' n t p =
    (e : LogEntry) × (w'.log ≡ w.log ++ e ∷ [])
    × (e.fallback_attempts ≡ n)
    × (e.model_upstream ≡ t.upstream_model)
    × (e.provider_name ≡ p.name)

module _ (env : Env) where
  -- The routes have a builder for the attempt's provider, which gives this plan.
  abbrev pub HasPlan : ChainAttempt → RoutePlan → Type 0
  HasPlan a plan =
      (build : ChainAttempt → Route) × (env.routes a.provider.api_format ≡ some build)
      × (build a ≡ planned plan)

  -- The same of each attempt of a chain, from the attempt `n` on.
  abbrev pub IsRouted :
      (String → Provider) → (ChainAttempt → RoutePlan) → ℕ → List DispatchTarget → Type 0
  IsRouted prov plan_of n [] = Unit
  IsRouted prov plan_of n (t ∷ ts) =
      let a = attempt_at n t (prov t.provider) ts in
      HasPlan a (plan_of a) × IsRouted prov plan_of (n + 1) ts

  module _ (prov : String → Provider) (plan_of : ChainAttempt → RoutePlan) where
    -- The result of the attempt `n`.
    abbrev pub result_at : ℕ → DispatchTarget → List DispatchTarget → SendResult
    result_at n t ts = let p = prov t.provider in env.send n p (plan_of (attempt_at n t p ts))

    -- The position and the target that answer: the first with a final result, or else the last.
    unfoldable pub chosen : ℕ → DispatchTarget → List DispatchTarget → ℕ × DispatchTarget
    chosen n t [] = (n, t)
    chosen n t (u ∷ us) =
        let next = chosen (n + 1) u us in
        if is_retryable (result_at n t (u ∷ us)) then next else (n, t)
