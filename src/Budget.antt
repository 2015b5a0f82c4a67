-- ===== src/Budget.antt =====
-- internal/proxy/budget.go: the check of the spending limits before a request is sent, and the
-- calendar periods that the limits count over. Amounts, float64 dollars in the source, are in the
-- units of Pricing; the store and package time are parameters.
pub mod Verdicts
pub mod Weeks
use glitchgate.Prelude.{
  ℕ, suc, ◌+◌, ◌-◌, ◌%◌, ℤ, pos, negsuc, String, Bool, true, false, Option, none, some, List, [],
  ◌∷◌, ◌==◌, if◌then◌else◌, leb, ltb, nat_eq,
}

-- store.ApplicableBudget and store.BudgetViolation; an instant of package time is of type `Time`.
pub record Budget : Type 0 where
  pub scope : String
  pub scope_id : String
  pub limit_usd : ℕ
  pub period : String

pub record BudgetViolation (Time : Type 0) : Type 0 where
  pub scope : String
  pub scope_id : String
  pub period : String
  pub limit_usd : ℕ
  pub spend_usd : ℕ
  pub reset_at : Time

-- a - b on Go's ints, for two numbers that are not negative.
abbrev pub minus : ℕ → ℕ → ℤ
minus a b = if leb b a then pos (a - b) else negsuc (b - a - 1)

-- The weekdays from Sunday, 0, to Saturday, 6: how far back the last Monday is, and how far ahead
-- the next.
abbrev pub days_back : ℕ → ℕ
days_back weekday = (weekday + 7 - 1) % 7

abbrev pub days_to_monday : ℕ → ℕ
days_to_monday weekday = let d = (1 + 7 - weekday) % 7 in if nat_eq d 0 then 7 else d

-- What of a local time the periods are made from.
pub record LocalDate : Type 0 where
  pub year : ℕ
  pub month : ℕ
  pub day : ℕ
  pub weekday : ℕ

-- time.Date at midnight in the configured zone, in UTC: year, month, and day, both out of range or not.
module _ {Time : Type 0} (date : ℕ → ℕ → ℤ → Time) where
  unfoldable pub period_start : String → LocalDate → Time
  period_start period l =
      if period == "daily"
      then date l.year l.month (pos l.day)
      else if period == "weekly"
      then date l.year l.month (minus l.day (days_back l.weekday))
      else if period == "monthly"
      then date l.year l.month (pos 1)
      else date l.year l.month (pos l.day)

  unfoldable pub period_reset_at : String → LocalDate → Time
  period_reset_at period l =
      if period == "daily"
      then date l.year l.month (pos (l.day + 1))
      else if period == "weekly"
      then date l.year l.month (pos (l.day + days_to_monday l.weekday))
      else if period == "monthly"
      then date l.year (l.month + 1) (pos 1)
      else date l.year l.month (pos (l.day + 1))

  -- The loop over the budgets; `spend` is GetSpendSince, `none` for its error.
  unfoldable pub first_violation :
      (String → String → Time → Option ℕ) → LocalDate → List Budget → Option (BudgetViolation Time)
  unfolding period_start period_reset_at
  first_violation spend now [] = none
  first_violation spend now (b ∷ bs) =
      let rest = first_violation spend now bs in
      elim (spend b.scope b.scope_id (period_start b.period now)) [
        | none ↦ rest
        | some spent ↦
            if leb b.limit_usd spent
            then some (record {
              scope = b.scope;
              scope_id = b.scope_id;
              period = b.period;
              limit_usd = b.limit_usd;
              spend_usd = spent;
              reset_at = period_reset_at b.period now;
            })
            else rest
      ]

  -- Check; `applicable` is GetApplicableBudgets.
  unfoldable pub check_budgets :
      (String → Option (List Budget))
      → (String → String → Time → Option ℕ)
      → LocalDate
      → String
      → Option (BudgetViolation Time)
  unfolding first_violation
  check_budgets applicable spend now proxy_key_id =
      if proxy_key_id == "" then none else elim (applicable proxy_key_id) [
        | none ↦ none
        | some budgets ↦ first_violation spend now budgets
      ]
