-- ===== src/Pipeline/Responses.antt =====
-- How many responses one request writes.
use glitchgate.Prelude.{
  ℕ, ◌+◌, ◌≤◌, ◌≡◌, refl, String, Bool, true, false, [], ◌∷◌, length, length-append, arith,
  if◌then◌else◌, Bool-cases, Option-cases, inl, inr,
}
use glitchgate.Pipeline.{
  Provider, SendResult, send_failed, sent, HandlerResult, Written, ChainAttempt, RoutePlan, Route,
  stopped, planned, Env, World, write, is_fallback_status, log_entry, on_breaker, settle,
  follow_route, handle_attempt, consult,
}

-- The number of responses and of log entries.
abbrev pub responses : World → ℕ
responses w = length w.written

abbrev pub entries : World → ℕ
entries w = length w.log

pub responses-write : (m : Written) (w : World) → responses (write m w) ≡ responses w + 1
unfolding write
responses-write m w = length-append w.written (m ∷ [])

pub entries-write : (m : Written) (w : World) → entries (write m w) ≡ entries w
unfolding write
entries-write m w = refl

-- An attempt that answers writes one response; one that does not writes none, and has fallbacks
-- left. It logs at most one entry, and only with an answer.
abbrev pub Answers : ChainAttempt → World → Bool × World → Type 0
Answers a w r =
    (responses r.1 ≡ responses w + (if r.0 then 1 else 0))
    × (entries r.1 ≤ entries w + (if r.0 then 1 else 0))
    × (entries w ≤ entries r.1)
    × (r.0 ≡ false → a.has_more_fallbacks ≡ true)

-- A failure on a breaker that answers only when there is no fallback left.
fails :
    (a : ChainAttempt) (w w' w'' : World)
    → responses w' ≡ responses w
    → entries w' ≡ entries w
    → responses w'' ≡ responses w' + 1
    → entries w'' ≡ entries w' + 1
    → Answers a w (if a.has_more_fallbacks then (false, w') else (true, w''))
fails a w w' w'' p q r s = elim (Bool-cases a.has_more_fallbacks) [
  | inl more ↦ ground arith
  | inr last ↦ ground arith
]

module _ (env : Env) where
  log_entry_counts :
      (a : ChainAttempt) (p : Provider) (plan : RoutePlan) (r : HandlerResult) (w : World)
      → (responses (log_entry env a p plan r w) ≡ responses w)
        × (entries (log_entry env a p plan r w) ≡ entries w + 1)
  unfolding log_entry
  log_entry_counts a p plan r w = (refl, length-append w.log _)

  on_breaker_counts :
      (t : ℕ) (name : String) (f : _) (w : World)
      → (responses (on_breaker env t name f w) ≡ responses w)
        × (entries (on_breaker env t name f w) ≡ entries w)
  unfolding on_breaker
  on_breaker_counts t name f w = ground arith

  failure_counts :
      (a : ChainAttempt) (plan : RoutePlan) (m : Written) (r : HandlerResult) (w w' : World)
      → (responses w' ≡ responses w) × (entries w' ≡ entries w)
      → Answers a w (
          if a.has_more_fallbacks
          then (false, w')
          else (true, write m (log_entry env a a.provider plan r w')))
  failure_counts a plan m r w w' same =
      let logged = log_entry env a a.provider plan r w' in
      let counted = log_entry_counts a a.provider plan r w' in
      let wrote = responses-write m logged in
      let kept = entries-write m logged in
      fails a w w' (write m logged) same.0 same.1 (omega (arith, wrote, counted.0))
        (omega (arith, kept, counted.1))

  success_counts :
      (a : ChainAttempt) (plan : RoutePlan) (m : Written) (r : HandlerResult) (w w' : World)
      → (responses w' ≡ responses w) × (entries w' ≡ entries w)
      → Answers a w (true, log_entry env a a.provider plan r (write m w'))
  success_counts a plan m r w w' same =
      let counted = log_entry_counts a a.provider plan r (write m w') in
      let wrote = responses-write m w' in
      let kept = entries-write m w' in ground (arith, same, counted, wrote, kept)

  settle-Answers :
      (a : ChainAttempt) (plan : RoutePlan) (s : SendResult) (w : World)
      → Answers a w (settle env a plan s w)
  unfolding settle
  settle-Answers a plan (send_failed text) w =
      failure_counts a plan _ _ w _ (on_breaker_counts _ _ _ w)
  settle-Answers a plan (sent resp) w = elim (Bool-cases (is_fallback_status resp.status_code)) [
    | inl retry ↦ rw retry (failure_counts a plan _ _ w _ (on_breaker_counts _ _ _ w))
    | inr done ↦ rw done (success_counts a plan _ _ w _ (on_breaker_counts _ _ _ w))
  ]

  -- An attempt that only writes an error.
  error_counts : (a : ChainAttempt) (m : Written) (w : World) → Answers a w (true, write m w)
  error_counts a m w =
      let wrote = responses-write m w in let kept = entries-write m w in ground (arith, wrote, kept)

  follow_route-Answers :
      (a : ChainAttempt) (r : Route) (w : World) → Answers a w (follow_route env a r w)
  unfolding follow_route
  follow_route-Answers a stopped w = error_counts a _ w
  follow_route-Answers a (planned p) w = settle-Answers a p _ w

  pub handle_attempt-Answers : (a : ChainAttempt) (w : World) → Answers a w (handle_attempt env a w)
  unfolding handle_attempt
  handle_attempt-Answers a w = elim (Option-cases (env.routes a.provider.api_format)) [
    | inl e ↦ rw (e, handle_attempt) (error_counts a _ w)
    | inr (build, e) ↦ rw (e, handle_attempt) (follow_route-Answers a (build a) w)
  ]

  pub consult_counts :
      (n : ℕ) (name : String) (w : World)
      → (responses (consult env n name w).1 ≡ responses w)
        × (entries (consult env n name w).1 ≡ entries w)
  unfolding consult
  consult_counts n name w = ground arith
