-- ===== src/Tests/Costs.antt =====
-- Runs of internal/pricing and internal/web/billing.
use glitchgate.Prelude.{
  eq_iff, arith, ◌+◌, ◌≡◌, refl, String, true, not, ◌&&◌, some, none, List, [], ◌∷◌, ◌==◌, map,
  sum_by, ◌≤◌, if◌then◌else◌,
}
use glitchgate.Pricing
use glitchgate.Pricing.{Calculator}
use glitchgate.Billing.{TokenUsage, CostPricingGroup, compute_aggregate_cost_breakdown_with_aliases}
use glitchgate.Billing.Totals.{tokens_of}
use glitchgate.Billing.Breakdown.{
  breakdown_key, cost_at, or_nothing, build_breakdown_costs, costs_of, sum_amounts, breakdown_lem,
}
use glitchgate.Billing.Summaries.{
  derive_summary_from_pricing_groups, derive_breakdown_from_pricing_groups, derived_key,
  add_to_entry, entries_loop, compare_entries, is_after, insert_entry, sort_entries,
}
use glitchgate.Billing.Sorting.{IsOrdered}
use glitchgate.Billing.Derived.{entries_summary, entries_of, groups_where, derived_lem}
use glitchgate.Billing.Aggregate.{sum_costs, any_known, any_unknown, aggregate_lem}

-- 3 USD in, 15 USD out, 0.3 USD for cache reads.
abbrev sonnet : Pricing.Entry
sonnet = record {
  input_per_million = 3000000;
  output_per_million = 15000000;
  cache_write_per_million = 0;
  cache_read_per_million = 300000;
  context_window = 200000;
  standard_context_window = 0;
  max_tokens = 64000;
  reasoning = true;
  vision = true;
}

abbrev calculator : Calculator
calculator = record { entries = λ k. if k == "a/sonnet" then some sonnet else none }

abbrev usage : TokenUsage
usage = record {
  input_tokens = 1000;
  cache_write_tokens = 10;
  cache_read_tokens = 2000;
  output_tokens = 500;
  reasoning_tokens = 100;
}

usage_costs : Pricing.calculate calculator "a" "sonnet" (tokens_of usage) ≡ some 11100000000
unfolding Pricing.calculate
usage_costs = refl

abbrev group : String → CostPricingGroup
group provider = record {
  provider_name = provider;
  model_requested = "sonnet";
  model_upstream = "sonnet";
  proxy_key_prefix = "p";
  proxy_key_group = "";
  input_tokens = 1000;
  output_tokens = 500;
  cache_creation_tokens = 0;
  cache_read_tokens = 0;
  reasoning_tokens = 0;
  requests = 1;
}

abbrev groups : List CostPricingGroup
groups = group "a" ∷ group "b" ∷ []

aggregate_lem_example :
    let cb = compute_aggregate_cost_breakdown_with_aliases groups (some calculator) none in
    (cb.total_cost ≡ sum_costs (some calculator) none groups)
    × (cb.total_cost ≡ cb.total_input_cost + cb.output_cost)
    × (cb.pricing_known ≡ (
        any_known (some calculator) none groups && not (any_unknown (some calculator) none groups)))
    × (cb.partial_pricing
        ≡ (any_known (some calculator) none groups && any_unknown (some calculator) none groups))
aggregate_lem_example = aggregate_lem calculator none groups

breakdown_lem_example :
    (cost_at "p" (or_nothing (build_breakdown_costs groups (some calculator) "key" none))
      ≡ costs_of (some calculator) "key" none "p" groups)
    × (sum_amounts (or_nothing (build_breakdown_costs groups (some calculator) "key" none))
        ≡ (compute_aggregate_cost_breakdown_with_aliases groups (some calculator) none).total_cost)
unfolding breakdown_key
breakdown_lem_example =
    breakdown_lem calculator "key" none "p" groups (λ e. ground (arith, e, eq_iff "p" ""))
      ((λ e. ground (arith, e, eq_iff "p" "")), ((λ e. ground (arith, e, eq_iff "p" "")), tt))

-- Of two models with as many requests, the first by name comes first.
abbrev three_groups : List CostPricingGroup
three_groups =
    record (group "a") { model_requested = "sonnet" }
    ∷ (record (group "b") { model_requested = "haiku" }
        ∷ (record (group "c") { model_requested = "opus"; requests = 2 } ∷ []))

derived_names :
    map (λ e. e.group) (derive_breakdown_from_pricing_groups three_groups "model" none)
    ≡ "opus" ∷ ("haiku" ∷ ("sonnet" ∷ []))
unfolding derive_breakdown_from_pricing_groups derived_key add_to_entry entries_loop compare_entries
    is_after insert_entry sort_entries
derived_names = refl

derived_lem_example :
    (entries_summary (λ k. true) (derive_breakdown_from_pricing_groups three_groups "model" none)
      ≡ derive_summary_from_pricing_groups (groups_where (λ k. true) "model" none three_groups))
    × (sum_by (entries_of "opus") (derive_breakdown_from_pricing_groups three_groups "model" none)
        ≤ 1)
    × IsOrdered (derive_breakdown_from_pricing_groups three_groups "model" none)
derived_lem_example = derived_lem (λ k. true) "opus" "model" none three_groups
