-- ===== src/Billing.antt =====
-- internal/web/billing/billing.go: cost breakdowns of logged requests, in the units of Pricing.
pub mod Totals
pub mod Aggregate
pub mod Breakdown
pub mod Summaries
pub mod Sorting
pub mod Derived
use glitchgate.Prelude.{
  ℕ, ◌+◌, ◌*◌, String, Bool, true, false, not, ◌&&◌, ◌||◌, Option, none, some, Map, empty_map, put,
  List, [], ◌∷◌, ltb, if◌then◌else◌, ◌==◌,
}
use glitchgate.Pricing
use glitchgate.Pricing.{Calculator}

pub record TokenUsage : Type 0 where
  pub input_tokens : ℕ
  pub cache_write_tokens : ℕ
  pub cache_read_tokens : ℕ
  pub output_tokens : ℕ
  pub reasoning_tokens : ℕ

pub record PricedUsage : Type 0 where
  pub input_cost : ℕ
  pub cache_write_cost : ℕ
  pub cache_read_cost : ℕ
  pub reasoning_cost : ℕ
  pub output_cost : ℕ
  pub total_input_cost : ℕ
  pub total_cost : ℕ

unfoldable pub price_usage : Pricing.Entry → TokenUsage → PricedUsage
price_usage e u =
    let input = u.input_tokens * e.input_per_million in
    let cache_write = u.cache_write_tokens * e.cache_write_per_million in
    let cache_read = u.cache_read_tokens * e.cache_read_per_million in
    let output = u.output_tokens * e.output_per_million in
    record {
      input_cost = input;
      cache_write_cost = cache_write;
      cache_read_cost = cache_read;
      reasoning_cost = u.reasoning_tokens * e.output_per_million;
      output_cost = output;
      total_input_cost = input + cache_write + cache_read;
      total_cost = input + cache_write + cache_read + output;
    }

-- A priced usage with the entry that priced it.
abbrev pub Priced : Type 0
Priced = PricedUsage × Pricing.Entry

price_with : TokenUsage → Option Pricing.Entry → Option Priced
price_with u none = none
price_with u (some e) = some (price_usage e u, e)

unfoldable pub lookup_priced_usage :
    Option Calculator → String → String → TokenUsage → Option Priced
unfolding price_with
lookup_priced_usage none provider model u = none
lookup_priced_usage (some c) provider model u = price_with u (Pricing.lookup c provider model)

-- providerNames; `none` is the nil map. The result is the name and whether it was mapped.
mapped_name : String → Option String → String × Bool
mapped_name raw_key none = (raw_key, false)
mapped_name raw_key (some name) = if name == "" then (raw_key, false) else (name, true)

unfoldable pub provider_display_name : String → Option (Map String) → String × Bool
unfolding mapped_name
provider_display_name raw_key none = (raw_key, false)
provider_display_name raw_key (some names) = mapped_name raw_key (names raw_key)

unfoldable pub lookup_by_alias :
    Option Calculator → String → String → TokenUsage → Option (Map String) → Option Priced
lookup_by_alias calc provider model u none = none
lookup_by_alias calc provider model u (some names) =
    let (display, mapped) = provider_display_name provider (some names) in
    if not mapped || display == provider then none else lookup_priced_usage calc display model u

unfoldable pub lookup_priced_usage_with_aliases :
    Option Calculator → String → String → TokenUsage → Option (Map String) → Option Priced
unfolding lookup_by_alias
lookup_priced_usage_with_aliases calc provider model u names =
    elim (lookup_priced_usage calc provider model u) [
      | some p ↦ some p
      | none ↦ lookup_by_alias calc provider model u names
    ]

-- store.CostPricingGroup
pub record CostPricingGroup : Type 0 where
  pub provider_name : String
  pub model_requested : String
  pub model_upstream : String
  pub proxy_key_prefix : String
  pub proxy_key_group : String
  pub input_tokens : ℕ
  pub output_tokens : ℕ
  pub cache_creation_tokens : ℕ
  pub cache_read_tokens : ℕ
  pub reasoning_tokens : ℕ
  pub requests : ℕ

abbrev pub group_usage : CostPricingGroup → TokenUsage
group_usage g = record {
  input_tokens = g.input_tokens;
  cache_write_tokens = g.cache_creation_tokens;
  cache_read_tokens = g.cache_read_tokens;
  output_tokens = g.output_tokens;
  reasoning_tokens = g.reasoning_tokens;
}

abbrev pub price_group : Option Calculator → Option (Map String) → CostPricingGroup → Option Priced
price_group calc names g =
    lookup_priced_usage_with_aliases calc g.provider_name g.model_upstream (group_usage g) names

pub record AggregateCostBreakdown : Type 0 where
  pub pricing_known : Bool
  pub partial_pricing : Bool
  pub has_any_pricing : Bool
  pub total_input_cost : ℕ
  pub input_cost : ℕ
  pub cache_write_cost : ℕ
  pub cache_read_cost : ℕ
  pub output_cost : ℕ
  pub total_cost : ℕ

abbrev pub no_breakdown : AggregateCostBreakdown
no_breakdown = record {
  pricing_known = false;
  partial_pricing = false;
  has_any_pricing = false;
  total_input_cost = 0;
  input_cost = 0;
  cache_write_cost = 0;
  cache_read_cost = 0;
  output_cost = 0;
  total_cost = 0;
}

abbrev pub has_usage : CostPricingGroup → Bool
has_usage g =
    ltb 0 g.input_tokens
    || ltb 0 g.output_tokens
    || ltb 0 g.cache_creation_tokens
    || ltb 0 g.cache_read_tokens

-- The body of the loop, on the breakdown and hasUnknownUsage.
unfoldable pub add_group :
    CostPricingGroup → Option Priced → AggregateCostBreakdown × Bool → AggregateCostBreakdown × Bool
add_group g none (cb, unknown) = (cb, has_usage g || unknown)
add_group g (some (p, e)) (cb, unknown) = (
  record cb {
    input_cost = cb.input_cost + p.input_cost;
    cache_write_cost = cb.cache_write_cost + p.cache_write_cost;
    cache_read_cost = cb.cache_read_cost + p.cache_read_cost;
    output_cost = cb.output_cost + p.output_cost;
    has_any_pricing = true;
  },
  unknown,
)

unfoldable pub add_groups :
    Option Calculator
    → Option (Map String)
    → List CostPricingGroup
    → AggregateCostBreakdown × Bool
    → AggregateCostBreakdown × Bool
add_groups calc names [] acc = acc
add_groups calc names (g ∷ gs) acc =
    add_groups calc names gs (add_group g (price_group calc names g) acc)

-- The totals and flags after the loop.
unfoldable pub finish_breakdown : AggregateCostBreakdown × Bool → AggregateCostBreakdown
finish_breakdown (cb, unknown) = record cb {
  total_input_cost = cb.input_cost + cb.cache_write_cost + cb.cache_read_cost;
  total_cost = cb.input_cost + cb.cache_write_cost + cb.cache_read_cost + cb.output_cost;
  pricing_known = cb.has_any_pricing && not unknown;
  partial_pricing = cb.has_any_pricing && unknown;
}

unfoldable pub compute_aggregate_cost_breakdown_with_aliases :
    List CostPricingGroup → Option Calculator → Option (Map String) → AggregateCostBreakdown
unfolding add_groups finish_breakdown
compute_aggregate_cost_breakdown_with_aliases groups none names = no_breakdown
compute_aggregate_cost_breakdown_with_aliases groups (some c) names =
    finish_breakdown (add_groups (some c) names groups (no_breakdown, false))
