-- ===== src/Billing/Breakdown.antt =====
-- internal/web/billing/billing.go, BuildBreakdownCosts: the costs by model, provider or key.
use glitchgate.Prelude.{
  ℕ, ◌+◌, ◌≡◌, ◌≢◌, refl, ap, ◌∙◌, String, ◌==◌, eq_iff, Bool-cases, Option, none, some, List, [],
  ◌∷◌, arith, Map, inl, inr, All, if◌then◌else◌,
}
use glitchgate.Pricing.{Calculator}
use glitchgate.Billing.{
  Priced, CostPricingGroup, price_group, provider_display_name,
  compute_aggregate_cost_breakdown_with_aliases,
}
use glitchgate.Billing.Aggregate.{cost_or_0, sum_costs, aggregate_lem}

-- The group's key in a dimension: a name that maps to nothing stands for itself.
unfoldable pub breakdown_key : String → Option (Map String) → CostPricingGroup → String
unfolding provider_display_name
breakdown_key group_by names g =
    if group_by == "provider"
    then (provider_display_name g.provider_name names).0
    else if group_by == "key"
    then (if g.proxy_key_group == "" then g.proxy_key_prefix else g.proxy_key_group)
    else g.model_requested

-- A Go map of costs: each key once, in the order in which they came.
abbrev pub Costs : Type 0
Costs = List (String × ℕ)

-- costs[key] += amount
unfoldable pub add_cost : String → ℕ → Costs → Costs
add_cost key amount [] = (key, amount) ∷ []
add_cost key amount ((k, n) ∷ costs) =
    let rest = add_cost key amount costs in
    if k == key then (k, n + amount) ∷ costs else (k, n) ∷ rest

-- The body of the loop.
unfoldable pub add_breakdown : String → Option Priced → Costs → Costs
unfolding add_cost
add_breakdown key none costs = costs
add_breakdown key (some (p, e)) costs = if key == "" then costs else add_cost key p.total_cost costs

unfoldable pub breakdown_loop :
    Option Calculator → String → Option (Map String) → List CostPricingGroup → Costs → Costs
unfolding breakdown_key add_breakdown
breakdown_loop calc group_by names [] costs = costs
breakdown_loop calc group_by names (g ∷ gs) costs =
    breakdown_loop calc group_by names gs
      (add_breakdown (breakdown_key group_by names g) (price_group calc names g) costs)

abbrev not_empty : Costs → Option Costs
not_empty [] = none
not_empty (c ∷ costs) = some (c ∷ costs)

unfoldable pub build_breakdown_costs :
    List CostPricingGroup → Option Calculator → String → Option (Map String) → Option Costs
unfolding breakdown_loop
build_breakdown_costs groups none group_by names = none
build_breakdown_costs groups (some c) group_by names =
    not_empty (breakdown_loop (some c) group_by names groups [])

-- What a map has under a key, 0 where it has nothing.
abbrev pub cost_at : String → Costs → ℕ
cost_at key [] = 0
cost_at key ((k, n) ∷ costs) = let rest = cost_at key costs in if k == key then n else rest

abbrev pub sum_amounts : Costs → ℕ
sum_amounts [] = 0
sum_amounts ((k, n) ∷ costs) = n + sum_amounts costs

abbrev pub or_nothing : Option Costs → Costs
or_nothing none = []
or_nothing (some costs) = costs

-- The costs of the groups of one key.
abbrev pub costs_of :
    Option Calculator → String → Option (Map String) → String → List CostPricingGroup → ℕ
costs_of calc group_by names key [] = 0
costs_of calc group_by names key (g ∷ gs) =
    (if breakdown_key group_by names g == key then cost_or_0 (price_group calc names g) else 0)
    + costs_of calc group_by names key gs

sum-add_cost :
    (key : String) (n : ℕ) (costs : Costs)
    → sum_amounts (add_cost key n costs) ≡ sum_amounts costs + n
unfolding add_cost
sum-add_cost key n [] = omega arith
sum-add_cost key n ((k, m) ∷ costs) = elim (Bool-cases (k == key)) [
  | inl e ↦ rw (add_cost, e) (omega arith)
  | inr e ↦ rw (add_cost, e) (omega (arith, sum-add_cost key n costs))
]

cost_at-add_cost :
    (j key : String) (n : ℕ) (costs : Costs)
    → cost_at j (add_cost key n costs) ≡ cost_at j costs + (if key == j then n else 0)
unfolding add_cost
cost_at-add_cost j key n [] = ground arith
cost_at-add_cost j key n ((k, m) ∷ costs) =
    ground (arith, eq_iff k key, eq_iff key j, eq_iff k j, cost_at-add_cost j key n costs)

sum-add_breakdown :
    (key : String) (o : Option Priced) (costs : Costs)
    → key ≢ ""
    → sum_amounts (add_breakdown key o costs) ≡ sum_amounts costs + cost_or_0 o
unfolding add_breakdown
sum-add_breakdown key none costs n = omega arith
sum-add_breakdown key (some (p, e)) costs n = elim (Bool-cases (key == "")) [
  | inl q ↦ absurd (n (ground (arith, q, eq_iff key "")))
  | inr q ↦ rw (add_breakdown, q) (sum-add_cost key p.total_cost costs)
]

at-add_breakdown :
    (j key : String) (o : Option Priced) (costs : Costs)
    → j ≢ ""
    → cost_at j (add_breakdown key o costs)
      ≡ cost_at j costs + (if key == j then cost_or_0 o else 0)
unfolding add_breakdown
at-add_breakdown j key none costs n = ground arith
at-add_breakdown j key (some (p, e)) costs n = elim (Bool-cases (key == "")) [
  | inl q ↦ rw (add_breakdown, q) (ground (arith, n, q, eq_iff key "", eq_iff key j))
  | inr q ↦ rw (add_breakdown, q) (cost_at-add_cost j key p.total_cost costs)
]

sum-loop :
    (calc : Option Calculator) (group_by : String) (names : Option (Map String))
    (gs : List CostPricingGroup) (costs : Costs)
    → All (λ g. breakdown_key group_by names g ≢ "") gs
    → sum_amounts (breakdown_loop calc group_by names gs costs)
      ≡ sum_amounts costs + sum_costs calc names gs
unfolding breakdown_loop
sum-loop calc group_by names [] costs a = omega arith
sum-loop calc group_by names (g ∷ gs) costs (n, a) =
    let costs' = add_breakdown (breakdown_key group_by names g) (price_group calc names g) costs in
    omega (
      arith,
      sum-loop calc group_by names gs costs' a,
      sum-add_breakdown (breakdown_key group_by names g) (price_group calc names g) costs n,
    )

at-loop :
    (calc : Option Calculator) (group_by : String) (names : Option (Map String)) (key : String)
    (gs : List CostPricingGroup) (costs : Costs)
    → key ≢ ""
    → cost_at key (breakdown_loop calc group_by names gs costs)
      ≡ cost_at key costs + costs_of calc group_by names key gs
unfolding breakdown_loop
at-loop calc group_by names key [] costs n = omega arith
at-loop calc group_by names key (g ∷ gs) costs n =
    let costs' = add_breakdown (breakdown_key group_by names g) (price_group calc names g) costs in
    omega (
      arith,
      at-loop calc group_by names key gs costs' n,
      at-add_breakdown key (breakdown_key group_by names g) (price_group calc names g) costs n,
    )

or_nothing-not_empty : (costs : Costs) → or_nothing (not_empty costs) ≡ costs
or_nothing-not_empty [] = refl
or_nothing-not_empty (c ∷ costs) = refl

-- The costs of a breakdown, by any dimension: under a key that is not empty stands the sum of the
-- costs of the groups with that key, and where no group's key is empty the costs add up to the
-- total of the aggregate breakdown.
pub breakdown_lem :
    (c : Calculator) (group_by : String) (names : Option (Map String)) (key : String)
    (gs : List CostPricingGroup)
    → key ≢ ""
    → All (λ g. breakdown_key group_by names g ≢ "") gs
    → (cost_at key (or_nothing (build_breakdown_costs gs (some c) group_by names))
        ≡ costs_of (some c) group_by names key gs)
      × (sum_amounts (or_nothing (build_breakdown_costs gs (some c) group_by names))
          ≡ (compute_aggregate_cost_breakdown_with_aliases gs (some c) names).total_cost)
unfolding build_breakdown_costs
breakdown_lem c group_by names key gs n a =
    let costs = breakdown_loop (some c) group_by names gs [] in
    let at = at-loop (some c) group_by names key gs [] n in
    let total = sum-loop (some c) group_by names gs [] a in
    let whole = (aggregate_lem c names gs).0 in
    (
      ap (cost_at key) (or_nothing-not_empty costs) ∙ omega (arith, at),
      ap sum_amounts (or_nothing-not_empty costs) ∙ omega (arith, total, whole),
    )
