-- ===== src/Tests/Edges.antt =====
-- The theorems on logged bodies, budgets and access at concrete inputs.
use glitchgate.Prelude.{ℕ, ℤ, false, none, some, [], ◌∷◌, ◌≡◌, ◌↔◌, refl, eq_iff, arith, All}
use glitchgate.Bodies.Redaction.{value_at}
use glitchgate.Bodies.{
  text, array, item, no_items, object, Fields, field, no_fields, redacted, redact_map,
}
use glitchgate.Budget.{Budget, LocalDate, check_budgets}
use glitchgate.Budget.Verdicts.{Within, check_budgets_lem}
use glitchgate.Scope.Visibility.{Session}

abbrev daily : Budget
daily = record { scope = "key"; scope_id = "k"; limit_usd = 100; period = "daily" }

abbrev weekly : Budget
weekly = record { scope = "team"; scope_id = "t"; limit_usd = 500; period = "weekly" }

abbrev wednesday : LocalDate
wednesday = record { year = 2026; month = 4; day = 1; weekday = 3 }

-- The arguments of time.Date stand for the instant.
abbrev at_midnight : ℕ → ℕ → ℤ → ℕ × ℕ × ℤ
at_midnight y m d = (y, m, d)

check_budgets_lem_example :
    (check_budgets at_midnight (λ id. some (daily ∷ weekly ∷ [])) (λ s i t. some 99) wednesday "k"
      ≡ none)
    ↔ All (Within at_midnight (λ s i t. some 99) wednesday) (daily ∷ weekly ∷ [])
check_budgets_lem_example =
    check_budgets_lem at_midnight (λ id. some (daily ∷ weekly ∷ [])) (λ s i t. some 99) wednesday
      "k" (daily ∷ weekly ∷ []) (λ e. ground (arith, e, eq_iff "k" "")) refl

abbrev member : Session
member = record { is_master_key = false; role = "member"; user = some "u1"; team_id = some "t1" }

-- {"meta": {"api_key": "s"}, "list": [{"api_key": "s"}]}
abbrev secret : Fields
secret = field "api_key" (text "s") no_fields

abbrev body : Fields
body = field "meta" (object secret) (field "list" (array (item (object secret) no_items)) no_fields)

secret_redacted : value_at ("meta" ∷ []) "api_key" (redact_map (λ s. s) body) ≡ some redacted
unfolding value_at redact_map
secret_redacted = refl
