-- ===== src/Pipeline/Fallback.antt =====
-- How many responses a whole chain writes.
use glitchgate.Prelude.{
  ℕ, ◌+◌, ◌≤◌, ◌≡◌, ap, String, Bool, true, false, some, List, [], ◌∷◌, arith, Bool-cases, inl, inr,
}
use glitchgate.Config.Types.{DispatchTarget}
use glitchgate.Pipeline.{
  Provider, Written, Message, Env, World, handle_attempt, consult, attempt_at, fallback_chain,
  execute_proxy_pipeline,
}
use glitchgate.Pipeline.Responses.{
  responses, entries, responses-write, entries-write, handle_attempt-Answers, consult_counts,
}
use glitchgate.Pipeline.Chain.{chain_skip, chain_answered, chain_next}

-- Every target of the chain names a configured provider.
abbrev pub IsConfigured : Env → List DispatchTarget → Type 0
IsConfigured env [] = Unit
IsConfigured env (t ∷ ts) =
    ((p : Provider) × (env.providers t.provider ≡ some p)) × IsConfigured env ts

-- A run of the loop from `w` writes at most one response and logs at most one entry, and writes none
-- if nothing was attempted.
abbrev AtMostOne : Bool → World → Bool × World → Type 0
AtMostOne any w r =
    (responses w ≤ responses r.1)
    × (responses r.1 ≤ responses w + 1)
    × (entries r.1 ≤ entries w + 1)
    × (r.0 ≡ false → (responses r.1 ≡ responses w) × (entries r.1 ≡ entries w))
    × (any ≡ true → r.0 ≡ true)

module _ (env : Env) where
  chain_AtMostOne :
      (n : ℕ) (ts : List DispatchTarget) (any : Bool) (w : World)
      → IsConfigured env ts
      → AtMostOne any w (fallback_chain env n ts any w)
  unfolding fallback_chain
  chain_AtMostOne n [] any w c = ground arith
  chain_AtMostOne n (t ∷ ts) any w ((p, known), c) =
      let asked = consult env n t.provider w in
      let same = consult_counts env n t.provider w in
      let tried = handle_attempt env (attempt_at n t p ts) asked.1 in
      let counts = handle_attempt-Answers env (attempt_at n t p ts) asked.1 in
      elim (Bool-cases asked.0) [
        | inr skip ↦
            let ih = chain_AtMostOne (n + 1) ts any asked.1 c in
            rw (chain_skip env n t ts any w p known skip) (ground (arith, ih, same))
        | inl ok ↦ elim (Bool-cases tried.0) [
          | inl answered ↦
              rw (chain_answered env n t ts any w p known ok answered)
                (ground (arith, counts, same))
          | inr more ↦
              let ih = chain_AtMostOne (n + 1) ts true tried.1 c in
              rw (chain_next env n t ts any w p known ok more) (ground (arith, ih, counts, same))
        ]
      ]

  -- With every target configured, a request never writes two responses or logs two entries, and what
  -- was written and logged before stays counted.
  pub pipeline_at_most_one :
      (chain : List DispatchTarget) (w : World)
      → IsConfigured env chain
      → (responses w ≤ responses (execute_proxy_pipeline env chain w))
        × (responses (execute_proxy_pipeline env chain w) ≤ responses w + 1)
        × (entries (execute_proxy_pipeline env chain w) ≤ entries w + 1)
  unfolding execute_proxy_pipeline
  pipeline_at_most_one chain w c =
      let r = fallback_chain env 1 chain false w in
      let once = chain_AtMostOne 1 chain false w c in
      let refused : Written = Written.wrote_error 503 env.server_err_type Message.all_failed in
      ground (arith, once, responses-write refused r.1, entries-write refused r.1)

  pub consult_free :
      (n : ℕ) (name : String) (w : World)
      → env.has_breakers ≡ false
      → consult env n name w ≡ (true, w)
  unfolding consult
  consult_free n name w h = ground arith

  chain_answers :
      (n : ℕ) (t : DispatchTarget) (ts : List DispatchTarget) (any : Bool) (w : World)
      → env.has_breakers ≡ false
      → IsConfigured env (t ∷ ts)
      → (responses (fallback_chain env n (t ∷ ts) any w).1 ≡ responses w + 1)
        × ((fallback_chain env n (t ∷ ts) any w).0 ≡ true)
  chain_answers n t [] any w h ((p, known), c) =
      let free = consult_free n t.provider w h in
      let ok : (consult env n t.provider w).0 ≡ true = ap (λ r. r.0) free in
      let counts =
        handle_attempt-Answers env (attempt_at n t p []) (consult env n t.provider w).1 in
      let same = consult_counts env n t.provider w in
      let answered : (handle_attempt env (attempt_at n t p []) (consult env n t.provider w).1).0
          ≡ true =
        ground (arith, counts) in
      rw (chain_answered env n t [] any w p known ok answered) (ground (arith, counts, same))
  chain_answers n t (u ∷ us) any w h ((p, known), c) =
      let asked = consult env n t.provider w in
      let ok : asked.0 ≡ true = ap (λ r. r.0) (consult_free n t.provider w h) in
      let same = consult_counts env n t.provider w in
      let tried = handle_attempt env (attempt_at n t p (u ∷ us)) asked.1 in
      let counts = handle_attempt-Answers env (attempt_at n t p (u ∷ us)) asked.1 in
      elim (Bool-cases tried.0) [
        | inl answered ↦
            rw (chain_answered env n t (u ∷ us) any w p known ok answered)
              (ground (arith, counts, same))
        | inr more ↦
            let ih = chain_answers (n + 1) u us true tried.1 h c in
            rw (chain_next env n t (u ∷ us) any w p known ok more)
              (ground (arith, ih, counts, same))
      ]

  -- Without circuit breakers and with every target configured, a chain that is not empty is
  -- answered by exactly one response, whatever the upstreams return.
  pub pipeline_answers :
      (t : DispatchTarget) (ts : List DispatchTarget) (w : World)
      → env.has_breakers ≡ false
      → IsConfigured env (t ∷ ts)
      → responses (execute_proxy_pipeline env (t ∷ ts) w) ≡ responses w + 1
  unfolding execute_proxy_pipeline
  pipeline_answers t ts w h c = let one = chain_answers 1 t ts false w h c in rw (one.1) (one.0)
