-- ===== src/Budget/Weeks.antt =====
-- internal/proxy/budget.go: the weekly period.
use glitchgate.Prelude.{ℕ, ◌+◌, ◌-◌, ◌%◌, ◌≤◌, ◌<◌, ◌≡◌, arith}
use glitchgate.Budget.{days_back, days_to_monday}

-- On every weekday the week that is counted began on a Monday, at most six days ago, and it ends
-- on the next Monday, seven days after its start and later than today.
week_is_seven_days :
    (weekday : ℕ)
    → weekday < 7
    → (days_back weekday + days_to_monday weekday ≡ 7)
      × (1 ≤ days_to_monday weekday)
      × ((weekday + 7 - days_back weekday) % 7 ≡ 1)
week_is_seven_days weekday l = ground (arith, l)
