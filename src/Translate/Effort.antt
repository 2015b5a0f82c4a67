-- ===== src/Translate/Effort.antt =====
-- internal/translate/helpers.go: reasoning effort and thinking budgets. Go's int is ℤ here: the
-- values compared are far from its bounds.
use glitchgate.Prelude.{
  ℕ, ◌-◌, ◌≤◌, ◌<◌, ℤ, pos, negsuc, String, ◌&&◌, ◌==◌, ◌≡◌, refl, arith, leb, ltb, if◌then◌else◌,
}

abbrev pub default_budget : String → ℕ
default_budget effort =
    if effort == "low"
    then 1024
    else if effort == "medium"
    then 5000
    else if effort == "high"
    then 10000
    else 5000

-- The cap below maxTokens, where it is positive.
abbrev pub capped : ℕ → ℤ → ℕ
capped budget (negsuc n) = budget
capped budget (pos n) = if ltb 0 n && leb n budget then n - 1 else budget

unfoldable pub effort_to_budget_tokens : String → ℤ → ℕ
effort_to_budget_tokens effort max_tokens =
    let budget = capped (default_budget effort) max_tokens in if ltb budget 1 then 1 else budget

unfoldable pub budget_tokens_to_effort : ℤ → String
budget_tokens_to_effort (negsuc n) = "low"
budget_tokens_to_effort (pos budget) =
    if leb budget 2000 then "low" else if leb budget 7000 then "medium" else "high"

-- Where the limit on tokens is above one, a budget is positive, below the limit and at most 10,000.
pub effort_budget_bounds :
    (effort : String) (max : ℕ)
    → 1 < max
    → (1 ≤ effort_to_budget_tokens effort (pos max))
      × (effort_to_budget_tokens effort (pos max) < max)
      × (effort_to_budget_tokens effort (pos max) ≤ 10000)
unfolding effort_to_budget_tokens
effort_budget_bounds effort max n = ground (arith, n)

default_budget_below :
    (effort : String) → (1 ≤ default_budget effort) × (default_budget effort ≤ 10000)
default_budget_below effort = ground arith

uncapped :
    (effort : String) (max : ℕ)
    → 10000 < max
    → effort_to_budget_tokens effort (pos max) ≡ default_budget effort
unfolding effort_to_budget_tokens
uncapped effort max n = go (default_budget effort) (default_budget_below effort)
  where
    go :
        (b : ℕ)
        → (1 ≤ b) × (b ≤ 10000)
        → (if ltb (capped b (pos max)) 1 then 1 else capped b (pos max)) ≡ b
    go b l = ground (arith, n, l)

-- An effort that the API documents comes back from its budget, if the limit on tokens is above
-- 10,000.
efforts_survive :
    (max : ℕ)
    → 10000 < max
    → (budget_tokens_to_effort (pos (effort_to_budget_tokens "low" (pos max))) ≡ "low")
      × (budget_tokens_to_effort (pos (effort_to_budget_tokens "medium" (pos max))) ≡ "medium")
      × (budget_tokens_to_effort (pos (effort_to_budget_tokens "high" (pos max))) ≡ "high")
unfolding effort_to_budget_tokens budget_tokens_to_effort
efforts_survive max n = (
  rw (uncapped "low" max n) refl,
  rw (uncapped "medium" max n) refl,
  rw (uncapped "high" max n) refl,
)
