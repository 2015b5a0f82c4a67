-- ===== src/Translate/Delegations/Budgets.antt =====
-- internal/translate/delegations.go: the thinking budget of a request that goes to Anthropic.
use glitchgate.Prelude.{
  ℕ, ◌≤◌, ◌<◌, ℤ, pos, negsuc, String, true, ◌==◌, Option, none, some, ◌≡◌, refl, sym, ap, ◌∙◌,
  arith, Bool-cases, ltb, inl, inr, subst,
}
use glitchgate.Translate.Values.{done, each, Json, done-bind, done-injective}
use glitchgate.Translate.Canonical.{CanonicalRequest}
use glitchgate.Translate.Effort.{effort_to_budget_tokens, effort_budget_bounds}
use glitchgate.Translate.Anthropic.Requests.{
  MessagesRequest, ThinkingConfig, or_default_limit, config_of, thinking_to_anthropic,
  checked_message, canonical_to_anthropic_request,
}
use glitchgate.Translate.Openai.Requests.{
  ChatCompletionRequest, effort_to_canonical, openai_request_to_canonical,
}
use glitchgate.Translate.Openai.Reading.{built-read}
use glitchgate.Translate.Delegations.{openai_to_anthropic}

-- A budget that Anthropic accepts beside a limit on the tokens.
unfoldable pub IsBudget : ℤ → Option ThinkingConfig → Type 0
IsBudget (negsuc n) t = ⊥
IsBudget (pos max) none = Unit
IsBudget (pos max) (some t) =
    (budget : ℕ) × (t.budget_tokens ≡ pos budget) × (1 ≤ budget) × (budget < max)

config_of-IsBudget : (b max : ℕ) → 1 ≤ b → b < max → IsBudget (pos max) (config_of (pos b))
unfolding IsBudget
config_of-IsBudget b max l k = rw (config_of, positive) (b, refl, l, k)
  where
    positive : ltb 0 b ≡ true
    positive = ground (arith, l)

effort-IsBudget :
    (effort : Option String) (max : ℕ)
    → 1 < max
    → IsBudget (pos max) (thinking_to_anthropic (pos max) (effort_to_canonical effort))
unfolding IsBudget thinking_to_anthropic effort_to_canonical
effort-IsBudget none max l = tt
effort-IsBudget (some effort) max l = elim (Bool-cases (effort == "")) [
  | inl e ↦ rw e tt
  | inr e ↦
      rw (e, e)
        (let (lower, below, _) = effort_budget_bounds effort max l in
          config_of-IsBudget (effort_to_budget_tokens effort (pos max)) max lower below)
]

-- No limit, or one above one.
unfoldable pub IsRoom : Option ℤ → Type 0
IsRoom none = Unit
IsRoom (some (pos n)) = 1 < n
IsRoom (some (negsuc n)) = ⊥

limit-IsBudget :
    (limit : Option ℤ) (effort : Option String)
    → IsRoom limit
    → IsBudget
        (or_default_limit limit)
        (thinking_to_anthropic (or_default_limit limit) (effort_to_canonical effort))
unfolding IsRoom
limit-IsBudget none effort l = effort-IsBudget effort 4096 (omega arith)
limit-IsBudget (some (pos n)) effort l = effort-IsBudget effort n l
limit-IsBudget (some (negsuc n)) effort l = elim l [ ]

written_limits :
    (canon : CanonicalRequest) (r : MessagesRequest)
    → canonical_to_anthropic_request (some canon) ≡ done r
    → (or_default_limit canon.max_tokens ≡ r.max_tokens)
      × (thinking_to_anthropic (or_default_limit canon.max_tokens) canon.thinking ≡ r.thinking)
unfolding canonical_to_anthropic_request
written_limits canon r e =
    let (ms, _, e') = done-bind (each checked_message canon.messages) _ r e in
    let same = done-injective _ r e' in (ap (λ q. q.max_tokens) same, ap (λ q. q.thinking) same)

-- A request of OpenAI's that is translated for Anthropic, with no limit on its tokens or one above
-- one, gets a limit, and thinks, if at all, on a positive budget below that limit.
pub openai_to_anthropic-IsBudget :
    (json : Json) (req : ChatCompletionRequest) (r : MessagesRequest)
    → openai_to_anthropic json (some req) ≡ done r
    → IsRoom req.max_tokens
    → (r.max_tokens ≡ or_default_limit req.max_tokens) × IsBudget r.max_tokens r.thinking
unfolding openai_to_anthropic
openai_to_anthropic-IsBudget json req r e room =
    let (canon, read, e') =
      done-bind (openai_request_to_canonical json (some req))
        (λ canon. canonical_to_anthropic_request (some canon)) r e in
    let (_, _, _, _, _, _, b) = built-read json req canon read in
    let (l, t) = written_limits canon r e' in
    let limit : or_default_limit req.max_tokens ≡ r.max_tokens =
      ap (λ c. or_default_limit c.max_tokens) b ∙ l in
    let thinking : thinking_to_anthropic (or_default_limit req.max_tokens)
          (effort_to_canonical req.reasoning_effort)
        ≡ r.thinking =
      ap (λ c. thinking_to_anthropic (or_default_limit c.max_tokens) c.thinking) b ∙ t in
    (
      sym limit,
      subst (λ m. IsBudget m r.thinking) limit
          (subst (λ u. IsBudget (or_default_limit req.max_tokens) u) thinking
            (limit-IsBudget req.max_tokens req.reasoning_effort room)),
    )
