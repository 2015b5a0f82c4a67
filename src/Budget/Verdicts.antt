-- ===== src/Budget/Verdicts.antt =====
-- internal/proxy/budget.go, Check: when a request is refused.
use glitchgate.Prelude.{
  ℕ, ℤ, ◌<◌, String, false, Option, none, some, List, [], ◌∷◌, ◌==◌, eq_iff, ◌≡◌, ◌≢◌, ◌↔◌, inl,
  inr, ◌⊎◌, arith, refl, All, Option-cases,
}
use glitchgate.Budget.{Budget, LocalDate, period_start, first_violation, check_budgets}

checked : (id : String) → id ≢ "" → (id == "") ≡ false
checked id n = ground (arith, n, eq_iff id "")

module _ {Time : Type 0} (date : ℕ → ℕ → ℤ → Time) where
  -- The spending of the period is unknown, or below the limit.
  unfoldable pub Within : (String → String → Time → Option ℕ) → LocalDate → Budget → Type 0
  Within spend now b =
      (spend b.scope b.scope_id (period_start date b.period now) ≡ none)
      ⊎ ((spent : ℕ) × (spend b.scope b.scope_id (period_start date b.period now) ≡ some spent)
          × (spent < b.limit_usd))

  passes→Within :
      (spend : String → String → Time → Option ℕ) (now : LocalDate) (budgets : List Budget)
      → first_violation date spend now budgets ≡ none
      → All (Within spend now) budgets
  unfolding first_violation Within
  passes→Within spend now [] h = tt
  passes→Within spend now (b ∷ bs) h =
      elim (Option-cases (spend b.scope b.scope_id (period_start date b.period now))) [
        | inl e ↦ (inl e, passes→Within spend now bs (ground (arith, e, h)))
        | inr (v, e) ↦
            (inr (v, e, ground (arith, e, h)), passes→Within spend now bs (ground (arith, e, h)))
      ]

  Within→passes :
      (spend : String → String → Time → Option ℕ) (now : LocalDate) (budgets : List Budget)
      → All (Within spend now) budgets
      → first_violation date spend now budgets ≡ none
  unfolding first_violation Within
  Within→passes spend now [] w = refl
  Within→passes spend now (b ∷ bs) (inl e, ws) =
      rw (first_violation, e) (Within→passes spend now bs ws)
  Within→passes spend now (b ∷ bs) (inr (v, e, l), ws) =
      ground (arith, e, l, Within→passes spend now bs ws)

  -- A request of a key with budgets passes the check if and only if every budget's spending in its
  -- period is below its limit or cannot be told by the store.
  pub check_budgets_lem :
      (applicable : String → Option (List Budget)) (spend : String → String → Time → Option ℕ)
      (now : LocalDate) (id : String) (budgets : List Budget)
      → id ≢ ""
      → applicable id ≡ some budgets
      → (check_budgets date applicable spend now id ≡ none) ↔ All (Within spend now) budgets
  unfolding check_budgets
  check_budgets_lem applicable spend now id budgets n e =
      rw (check_budgets, checked id n, e)
        (passes→Within spend now budgets, Within→passes spend now budgets)
