-- ===== src/Pipeline/Silence.antt =====
-- Three classes of requests that the pipeline answers wrongly or that leave a breaker stuck.
use glitchgate.Prelude.{ℕ, ◌+◌, ◌≡◌, refl, Bool, true, false, none, some, List, [], ◌∷◌, arith}
use glitchgate.Config.Types.{DispatchTarget}
use glitchgate.Pipeline.{
  Provider, Written, Message, Env, World, write, handle_attempt, consult, attempt_at,
  fallback_chain, execute_proxy_pipeline,
}
use glitchgate.Pipeline.Responses.{
  responses, entries, responses-write, entries-write, handle_attempt-Answers, consult_counts,
}
use glitchgate.Pipeline.Chain.{chain_missing, chain_skip, chain_next}

-- The breakers deny every target in turn, from the position `n` on.
abbrev pub AllDenied : Env → ℕ → List DispatchTarget → World → Type 0
AllDenied env n [] w = Unit
AllDenied env n (t ∷ ts) w =
    ((p : Provider) × (env.providers t.provider ≡ some p))
    × ((consult env n t.provider w).0 ≡ false)
    × AllDenied env (n + 1) ts (consult env n t.provider w).1

module _ (env : Env) where
  denied_counts :
      (n : ℕ) (ts : List DispatchTarget) (any : Bool) (w : World)
      → AllDenied env n ts w
      → ((fallback_chain env n ts any w).0 ≡ any)
        × (responses (fallback_chain env n ts any w).1 ≡ responses w)
        × (entries (fallback_chain env n ts any w).1 ≡ entries w)
  unfolding fallback_chain
  denied_counts n [] any w d = (refl, refl, refl)
  denied_counts n (t ∷ ts) any w ((p, known), no', d) =
      let asked = consult env n t.provider w in
      let same = consult_counts env n t.provider w in
      let ih = denied_counts (n + 1) ts any asked.1 d in
      rw (chain_skip env n t ts any w p known no') (ground (arith, ih, same))

  -- If the breakers deny every target of a chain that is not empty, one response is written (503)
  -- and nothing is logged.
  denied_is_answered :
      (t : DispatchTarget) (ts : List DispatchTarget) (w : World)
      → AllDenied env 1 (t ∷ ts) w
      → (responses (execute_proxy_pipeline env (t ∷ ts) w) ≡ responses w + 1)
        × (entries (execute_proxy_pipeline env (t ∷ ts) w) ≡ entries w)
  unfolding execute_proxy_pipeline
  denied_is_answered t ts w d =
      let r = fallback_chain env 1 (t ∷ ts) false w in
      let same = denied_counts 1 (t ∷ ts) false w d in
      let refused : Written = Written.wrote_error 503 env.server_err_type Message.all_failed in
      ground (arith, same, responses-write refused r.1, entries-write refused r.1)

  -- If the first target is attempted and fails, with more targets behind it that the breakers then
  -- all deny, the request ends with no response written and nothing logged.
  pub failure_is_silent :
      (t : DispatchTarget) (ts : List DispatchTarget) (w : World) (p : Provider)
      → env.providers t.provider ≡ some p
      → (consult env 1 t.provider w).0 ≡ true
      → (handle_attempt env (attempt_at 1 t p ts) (consult env 1 t.provider w).1).0 ≡ false
      → AllDenied env 2 ts
          (handle_attempt env (attempt_at 1 t p ts) (consult env 1 t.provider w).1).1
      → (responses (execute_proxy_pipeline env (t ∷ ts) w) ≡ responses w)
        × (entries (execute_proxy_pipeline env (t ∷ ts) w) ≡ entries w)
  unfolding execute_proxy_pipeline
  failure_is_silent t ts w p known ok more d =
      let asked = consult env 1 t.provider w in
      let tried = handle_attempt env (attempt_at 1 t p ts) asked.1 in
      let same = consult_counts env 1 t.provider w in
      let counts = handle_attempt-Answers env (attempt_at 1 t p ts) asked.1 in
      let rest = denied_counts 2 ts true tried.1 d in
      rw (chain_next env 1 t ts false w p known ok more) (ground (arith, counts, same, rest))

  -- If the first target of the chain names a provider that is not configured, two responses are
  -- written: the 400 of the missing provider and the 503 of a chain with no attempt.
  missing_answers_twice :
      (t : DispatchTarget) (ts : List DispatchTarget) (w : World)
      → env.providers t.provider ≡ none
      → responses (execute_proxy_pipeline env (t ∷ ts) w) ≡ responses w + 2
  unfolding execute_proxy_pipeline
  missing_answers_twice t ts w e =
      let missing : Written =
        Written.wrote_error 400 "invalid_request_error"
          (Message.provider_not_configured t.provider) in
      let refused : Written = Written.wrote_error 503 env.server_err_type Message.all_failed in
      rw (chain_missing env 1 t ts false w e)
        (ground (arith, responses-write missing w, responses-write refused (write missing w)))
