-- ===== src/Pipeline/Chain.antt =====
-- The steps of the loop over a fallback chain, one equation for each way that it goes on.
use glitchgate.Prelude.{ℕ, ◌+◌, ◌≡◌, Bool, true, false, none, some, List, ◌∷◌}
use glitchgate.Config.Types.{DispatchTarget}
use glitchgate.Pipeline.{
  Provider, Env, World, wrote_error, provider_not_configured, write, handle_attempt, consult,
  attempt_at, fallback_chain,
}

module _ (env : Env) (n : ℕ) (t : DispatchTarget) (ts : List DispatchTarget) (any : Bool)
    (w : World) where
  pub chain_missing :
      env.providers t.provider ≡ none
      → fallback_chain env n (t ∷ ts) any w ≡ (
        any,
        write (wrote_error 400 "invalid_request_error" (provider_not_configured t.provider)) w,
      )
  unfolding fallback_chain
  chain_missing e = rw (e, fallback_chain)

  module _ (p : Provider) (configured : env.providers t.provider ≡ some p) where
    pub chain_skip :
        (consult env n t.provider w).0 ≡ false
        → fallback_chain env n (t ∷ ts) any w
          ≡ fallback_chain env (n + 1) ts any (consult env n t.provider w).1
    unfolding fallback_chain
    chain_skip e = rw (configured, fallback_chain) (rw e)

    pub chain_answered :
        (consult env n t.provider w).0 ≡ true
        → (handle_attempt env (attempt_at n t p ts) (consult env n t.provider w).1).0 ≡ true
        → fallback_chain env n (t ∷ ts) any w
          ≡ (true, (handle_attempt env (attempt_at n t p ts) (consult env n t.provider w).1).1)
    unfolding fallback_chain
    chain_answered e f = rw (configured, fallback_chain) (rw e (rw f))

    pub chain_next :
        (consult env n t.provider w).0 ≡ true
        → (handle_attempt env (attempt_at n t p ts) (consult env n t.provider w).1).0 ≡ false
        → fallback_chain env n (t ∷ ts) any w
          ≡ fallback_chain env
              (n + 1)
              ts
              true
              (handle_attempt env (attempt_at n t p ts) (consult env n t.provider w).1).1
    unfolding fallback_chain
    chain_next e f = rw (configured, fallback_chain) (rw e (rw f))
