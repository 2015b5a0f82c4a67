-- ===== src/Billing/Totals.antt =====
-- The costs that are shown against the costs that were stored, and totals against their parts.
use Prim.Native.String.{◌++◌}
use glitchgate.Prelude.{
  ℕ, ◌+◌, ◌*◌, ◌≡◌, ap, sym, String, Option, none, some, arith, Option-cases, inl, inr,
}
use glitchgate.Pricing
use glitchgate.Pricing.{Tokens, Calculator, entry_cost}
use glitchgate.Billing.{TokenUsage, price_usage, Priced, price_with, lookup_priced_usage}

-- The token counts of a usage as Calculate takes them.
abbrev pub tokens_of : TokenUsage → Tokens
tokens_of u = record {
  input_tokens = u.input_tokens;
  output_tokens = u.output_tokens;
  cache_creation_tokens = u.cache_write_tokens;
  cache_read_tokens = u.cache_read_tokens;
  reasoning_tokens = u.reasoning_tokens;
}

mul_none : (a b : ℕ) → a ≡ 0 → a * b ≡ 0
mul_none a b h = rw h (omega arith)

mul_free : (a b : ℕ) → b ≡ 0 → a * b ≡ 0
mul_free a b h = rw h (omega arith)

total-price_usage :
    (e : Pricing.Entry) (u : TokenUsage) → (price_usage e u).total_cost ≡ entry_cost e (tokens_of u)
unfolding price_usage entry_cost
total-price_usage e u = ground (
  arith,
  mul_none u.cache_write_tokens e.cache_write_per_million,
  mul_none u.cache_read_tokens e.cache_read_per_million,
  mul_free u.cache_write_tokens e.cache_write_per_million,
  mul_free u.cache_read_tokens e.cache_read_per_million,
)

abbrev pub total_of : Option Priced → Option ℕ
total_of none = none
total_of (some (p, e)) = some p.total_cost

-- The cost that Calculate stores for a request is the total of the breakdown that is shown for the
-- same provider, model and token counts, and is missing exactly if that is.
calculate-lookup_priced_usage :
    (c : Calculator) (provider model : String) (u : TokenUsage)
    → Pricing.calculate c provider model (tokens_of u)
      ≡ total_of (lookup_priced_usage (some c) provider model u)
unfolding Pricing.calculate Pricing.lookup lookup_priced_usage
calculate-lookup_priced_usage c provider model u =
    elim (Option-cases (c.entries (provider ++ "/" ++ model))) [
      | inl e ↦ rw (e, price_with, Pricing.calculate)
      | inr (x, e) ↦ rw (e, price_with, Pricing.calculate) (ap some (sym (total-price_usage x u)))
    ]

-- The usage of two requests together.
abbrev pub add_usage : TokenUsage → TokenUsage → TokenUsage
add_usage u v = record {
  input_tokens = u.input_tokens + v.input_tokens;
  cache_write_tokens = u.cache_write_tokens + v.cache_write_tokens;
  cache_read_tokens = u.cache_read_tokens + v.cache_read_tokens;
  output_tokens = u.output_tokens + v.output_tokens;
  reasoning_tokens = u.reasoning_tokens + v.reasoning_tokens;
}

-- Pricing the summed token counts of two requests at one entry gives the sum of their costs, the
-- total and each category: grouping by provider and model before pricing loses nothing.
price_usage-add :
    (e : Pricing.Entry) (u v : TokenUsage)
    → ((price_usage e (add_usage u v)).total_cost
        ≡ (price_usage e u).total_cost + (price_usage e v).total_cost)
      × ((price_usage e (add_usage u v)).total_input_cost
          ≡ (price_usage e u).total_input_cost + (price_usage e v).total_input_cost)
      × ((price_usage e (add_usage u v)).output_cost
          ≡ (price_usage e u).output_cost + (price_usage e v).output_cost)
      × ((price_usage e (add_usage u v)).reasoning_cost
          ≡ (price_usage e u).reasoning_cost + (price_usage e v).reasoning_cost)
unfolding price_usage
price_usage-add e u v = omega arith
