-- ===== src/Pipeline/Probes.antt =====
-- A probe that is admitted and whose request ends before it reaches the provider.
use glitchgate.Prelude.{
  ℕ, ◌+◌, ◌≤◌, ◌≡◌, refl, ap, ◌∙◌, String, true, false, some, List, ◌∷◌, le→leb, put_self,
}
use glitchgate.Breaker.{Breaker, state_open}
use glitchgate.Breaker.Admission.{admitted, admitted_probing, open_late, probing}
use glitchgate.Breaker.Registry
use glitchgate.Breaker.Registry.{get-some}
use glitchgate.Config.Types.{DispatchTarget}
use glitchgate.Pipeline.{
  Provider, ChainAttempt, Route, stopped, Env, World, write, handle_attempt, follow_route, consult,
  attempt_at, execute_proxy_pipeline,
}
use glitchgate.Pipeline.Chain.{chain_answered}

module _ (env : Env) where
  -- The breaker of an open circuit whose cooldown has ended, once it is consulted.
  consult_probes :
      (n : ℕ) (name : String) (w : World) (b : Breaker)
      → env.has_breakers ≡ true
      → w.registry.breakers name ≡ some b
      → b.state ≡ state_open
      → b.last_state_change + b.cooldown ≤ (env.readings n).allow_at
      → ((consult env n name w).0 ≡ true)
        × ((consult env n name w).1.registry.breakers name
            ≡ some (probing b (env.readings n).allow_at))
  unfolding consult Registry.write_back
  consult_probes n name w b h found o late =
      let at = env.readings n in
      rw h (
        rw (get-some at.get_at name w.registry b found) (
          rw (open_late b at.allow_at o (le→leb _ _ late))
            (refl, put_self w.registry.breakers name (probing b at.allow_at))))

  -- An attempt that ends in the route.
  stops :
      (a : ChainAttempt) (build : ChainAttempt → Route) (w : World)
      → env.routes a.provider.api_format ≡ some build
      → build a ≡ stopped
      → (handle_attempt env a w).0 ≡ true
  unfolding handle_attempt follow_route
  stops a build w r s = rw (r, handle_attempt) (rw (s, follow_route))

  keeps_registry :
      (a : ChainAttempt) (build : ChainAttempt → Route) (w : World)
      → env.routes a.provider.api_format ≡ some build
      → build a ≡ stopped
      → (handle_attempt env a w).1.registry ≡ w.registry
  unfolding handle_attempt follow_route write
  keeps_registry a build w r s = rw (r, handle_attempt) (rw (s, follow_route))

  -- If the first target's breaker is open with its cooldown over, and the route builder stops the
  -- request, then the breaker that the pipeline leaves behind admits no request at any times: its
  -- probe is never settled.
  pub probe_leaks :
      (t : DispatchTarget) (ts : List DispatchTarget) (w : World) (p : Provider) (b : Breaker)
      (build : ChainAttempt → Route) (times : List ℕ)
      → env.has_breakers ≡ true
      → env.providers t.provider ≡ some p
      → w.registry.breakers t.provider ≡ some b
      → b.state ≡ state_open
      → b.last_state_change + b.cooldown ≤ (env.readings 1).allow_at
      → env.routes p.api_format ≡ some build
      → build (attempt_at 1 t p ts) ≡ stopped
      → (b' : Breaker) × ((execute_proxy_pipeline env (t ∷ ts) w).registry.breakers t.provider
          ≡ some b')
        × (admitted b' times ≡ 0)
  unfolding execute_proxy_pipeline
  probe_leaks t ts w p b build times h known found o late r s =
      let probe = consult_probes 1 t.provider w b h found o late in
      let w' = (consult env 1 t.provider w).1 in
      let a = attempt_at 1 t p ts in
      (
        probing b (env.readings 1).allow_at,
        rw (chain_answered env 1 t ts false w p known probe.0 (stops a build w' r s)) (
            ap (λ (g : Registry.Registry). g.breakers t.provider) (keeps_registry a build w' r s)
            ∙ probe.1),
        admitted_probing (probing b (env.readings 1).allow_at) times refl refl,
      )
