-- ===== src/Billing/Aggregate.antt =====
-- The aggregate breakdown against the groups that it adds up.
use glitchgate.Prelude.{
  ℕ, ◌+◌, ◌≡◌, refl, ap, ap₂, ◌∙◌, String, Bool, true, false, not, ◌==◌, Bool-cases, ◌&&◌, ◌||◌,
  Option, none, some, List, [], ◌∷◌, arith, Map, Option-cases, inl, inr,
}
use glitchgate.Pricing
use glitchgate.Pricing.{Tokens, Calculator, entry_cost}
use glitchgate.Billing.{
  TokenUsage, price_usage, Priced, price_with, lookup_priced_usage, lookup_by_alias,
  lookup_priced_usage_with_aliases, provider_display_name, CostPricingGroup, group_usage,
  price_group, AggregateCostBreakdown, no_breakdown, has_usage, add_group, add_groups,
  compute_aggregate_cost_breakdown_with_aliases,
}

abbrev known : Option Priced → Bool
known none = false
known (some p) = true

abbrev pub cost_or_0 : Option Priced → ℕ
cost_or_0 none = 0
cost_or_0 (some (p, e)) = p.total_cost

-- The costs of the groups that have a price.
abbrev pub sum_costs : Option Calculator → Option (Map String) → List CostPricingGroup → ℕ
sum_costs calc names [] = 0
sum_costs calc names (g ∷ gs) = cost_or_0 (price_group calc names g) + sum_costs calc names gs

-- Some group has a price.
abbrev pub any_known : Option Calculator → Option (Map String) → List CostPricingGroup → Bool
any_known calc names [] = false
any_known calc names (g ∷ gs) = known (price_group calc names g) || any_known calc names gs

-- Some group has tokens and no price.
abbrev pub any_unknown : Option Calculator → Option (Map String) → List CostPricingGroup → Bool
any_unknown calc names [] = false
any_unknown calc names (g ∷ gs) =
    not (known (price_group calc names g)) && has_usage g || any_unknown calc names gs

abbrev parts : AggregateCostBreakdown → ℕ
parts cb = cb.input_cost + cb.cache_write_cost + cb.cache_read_cost + cb.output_cost

-- Every entry that a lookup prices has the total that its categories add up to.
abbrev IsSummed : Option Priced → Type 0
IsSummed none = Unit
IsSummed (some (p, e)) =
    p.total_cost ≡ p.input_cost + p.cache_write_cost + p.cache_read_cost + p.output_cost

price_with-IsSummed : (u : TokenUsage) (o : Option Pricing.Entry) → IsSummed (price_with u o)
unfolding price_with price_usage
price_with-IsSummed u none = tt
price_with-IsSummed u (some e) = refl

lookup-IsSummed :
    (calc : Option Calculator) (provider model : String) (u : TokenUsage)
    → IsSummed (lookup_priced_usage calc provider model u)
unfolding lookup_priced_usage
lookup-IsSummed none provider model u = tt
lookup-IsSummed (some c) provider model u = price_with-IsSummed u (Pricing.lookup c provider model)

alias-IsSummed :
    (calc : Option Calculator) (provider model : String) (u : TokenUsage)
    (names : Option (Map String))
    → IsSummed (lookup_by_alias calc provider model u names)
unfolding lookup_by_alias
alias-IsSummed calc provider model u none = tt
alias-IsSummed calc provider model u (some names) =
    let d = provider_display_name provider (some names) in
    elim (Bool-cases (not d.1 || d.0 == provider)) [
      | inl same ↦ rw same tt
      | inr other ↦ rw other (lookup-IsSummed calc d.0 model u)
    ]

pub price_group-IsSummed :
    (calc : Option Calculator) (names : Option (Map String)) (g : CostPricingGroup)
    → IsSummed (price_group calc names g)
unfolding lookup_priced_usage_with_aliases
price_group-IsSummed calc names g =
    let found = lookup_priced_usage calc g.provider_name g.model_upstream (group_usage g) in
    elim (Option-cases found) [
      | inl e ↦
          rw (e, lookup_priced_usage_with_aliases)
            (alias-IsSummed calc g.provider_name g.model_upstream (group_usage g) names)
      | inr (p, e) ↦
          rw (e, lookup_priced_usage_with_aliases)
            (rw e at (lookup-IsSummed calc g.provider_name g.model_upstream (group_usage g)))
    ]

-- What the loop adds to the state that it starts from.
abbrev Adds :
    Option Calculator
    → Option (Map String)
    → List CostPricingGroup
    → AggregateCostBreakdown × Bool
    → AggregateCostBreakdown × Bool
    → Type 0
Adds calc names gs s t =
    (parts t.0 ≡ parts s.0 + sum_costs calc names gs)
    × (t.0.has_any_pricing ≡ (s.0.has_any_pricing || any_known calc names gs))
    × (t.1 ≡ (s.1 || any_unknown calc names gs))

add_group-Adds :
    (g : CostPricingGroup) (o : Option Priced) (cb : AggregateCostBreakdown) (unknown : Bool)
    → IsSummed o
    → (parts (add_group g o (cb, unknown)).0 ≡ parts cb + cost_or_0 o)
      × ((add_group g o (cb, unknown)).0.has_any_pricing ≡ (cb.has_any_pricing || known o))
      × ((add_group g o (cb, unknown)).1 ≡ (unknown || (not (known o) && has_usage g)))
unfolding add_group
add_group-Adds g none cb unknown h = ground arith
add_group-Adds g (some (p, e)) cb unknown h = ground arith

or_assoc : (a b c : Bool) → ((a || b) || c) ≡ (a || (b || c))
or_assoc true b c = refl
or_assoc false b c = refl

add_groups-Adds :
    (calc : Option Calculator) (names : Option (Map String)) (gs : List CostPricingGroup)
    (cb : AggregateCostBreakdown) (unknown : Bool)
    → Adds calc names gs (cb, unknown) (add_groups calc names gs (cb, unknown))
unfolding add_groups
add_groups-Adds calc names [] cb unknown = ground arith
add_groups-Adds calc names (g ∷ gs) cb unknown =
    let o = price_group calc names g in
    let s = add_group g o (cb, unknown) in
    let now = add_group-Adds g o cb unknown (price_group-IsSummed calc names g) in
    let rest = add_groups-Adds calc names gs s.0 s.1 in
    (
      omega (arith, rest.0, now.0),
      rest.1
          ∙ ap (λ b. b || any_known calc names gs) now.1
          ∙ or_assoc cb.has_any_pricing (known o) (any_known calc names gs),
      rest.2
          ∙ ap (λ b. b || any_unknown calc names gs) now.2
          ∙ or_assoc unknown (not (known o) && has_usage g) (any_unknown calc names gs),
    )

-- The aggregate breakdown with a calculator: its total is the sum of the costs of the groups that
-- have a price and of its own input and output totals, pricing is known exactly if some group has a
-- price and no group without a price has tokens, and partial exactly if some group has a price and
-- another with tokens has none.
pub aggregate_lem :
    (c : Calculator) (names : Option (Map String)) (gs : List CostPricingGroup)
    → let cb = compute_aggregate_cost_breakdown_with_aliases gs (some c) names in
      (cb.total_cost ≡ sum_costs (some c) names gs)
      × (cb.total_cost ≡ cb.total_input_cost + cb.output_cost)
      × (cb.pricing_known ≡ (any_known (some c) names gs && not (any_unknown (some c) names gs)))
      × (cb.partial_pricing ≡ (any_known (some c) names gs && any_unknown (some c) names gs))
unfolding compute_aggregate_cost_breakdown_with_aliases
aggregate_lem c names gs =
    let adds = add_groups-Adds (some c) names gs no_breakdown false in
    (
      omega (arith, adds.0),
      refl,
      ap₂ (λ a b. a && not b) adds.1 adds.2,
      ap₂ (λ a b. a && b) adds.1 adds.2,
    )
