-- ===== src/Pricing.antt =====
-- internal/pricing/calculator.go: the cost of a request from its token counts.
-- Rates are millionths of a USD for a million tokens, so a token at rate r costs r units of
-- 10^-12 USD and every sum is exact; the source rounds float64 dollars. Token counts are not
-- negative. `none` for the calculator is the nil pointer of its callers.
use Prim.Native.String.{◌++◌}
use glitchgate.Prelude.{
  ℕ, ◌+◌, ◌*◌, String, Bool, ◌&&◌, ◌||◌, Option, none, some, Map, ltb, nat_eq, if◌then◌else◌,
}

pub record Entry : Type 0 where
  pub input_per_million : ℕ
  pub output_per_million : ℕ
  pub cache_write_per_million : ℕ
  pub cache_read_per_million : ℕ
  pub context_window : ℕ
  pub standard_context_window : ℕ
  pub max_tokens : ℕ
  pub reasoning : Bool
  pub vision : Bool

pub record Calculator : Type 0 where
  pub entries : Map Entry

unfoldable pub new_calculator : Map Entry → Calculator
new_calculator entries = record { entries = entries }

unfoldable pub lookup : Calculator → String → String → Option Entry
lookup c provider_name upstream_model = c.entries (provider_name ++ "/" ++ upstream_model)

-- The token counts that Calculate takes; the reasoning tokens are part of the output tokens.
pub record Tokens : Type 0 where
  pub input_tokens : ℕ
  pub output_tokens : ℕ
  pub cache_creation_tokens : ℕ
  pub cache_read_tokens : ℕ
  pub reasoning_tokens : ℕ

-- Calculate, with the entry found.
unfoldable pub entry_cost : Entry → Tokens → ℕ
entry_cost e t =
    let cost = t.input_tokens * e.input_per_million + t.output_tokens * e.output_per_million in
    if ltb 0 t.cache_creation_tokens || ltb 0 t.cache_read_tokens
    then (if nat_eq e.cache_write_per_million 0 && nat_eq e.cache_read_per_million 0
        then cost
        else cost
          + (t.cache_creation_tokens * e.cache_write_per_million
              + t.cache_read_tokens * e.cache_read_per_million))
    else cost

unfoldable pub calculate : Calculator → String → String → Tokens → Option ℕ
unfolding entry_cost
calculate c provider_name upstream_model t =
    elim (c.entries (provider_name ++ "/" ++ upstream_model)) [
      | none ↦ none
      | some e ↦ some (entry_cost e t)
    ]
