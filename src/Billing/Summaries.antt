-- ===== src/Billing/Summaries.antt =====
-- internal/web/billing/billing.go, DeriveSummaryFromPricingGroups and
-- DeriveBreakdownFromPricingGroups: the counts of tokens and requests, in all and by a dimension.
use Prim.Native.Nat.{Ordering}
use Prim.Native.String.{compare}
use glitchgate.Prelude.{
  ℕ, ◌+◌, String, Bool, true, false, Option, Map, List, [], ◌∷◌, nat_eq, ltb, if◌then◌else◌, ◌==◌,
}
use glitchgate.Billing.{CostPricingGroup, provider_display_name}

-- store.CostSummary
pub record CostSummary : Type 0 where
  pub total_input_tokens : ℕ
  pub total_output_tokens : ℕ
  pub total_cache_creation_tokens : ℕ
  pub total_cache_read_tokens : ℕ
  pub total_requests : ℕ

-- store.CostBreakdownEntry
pub record CostBreakdownEntry : Type 0 where
  pub group : String
  pub input_tokens : ℕ
  pub output_tokens : ℕ
  pub cache_creation_tokens : ℕ
  pub cache_read_tokens : ℕ
  pub requests : ℕ

abbrev pub no_tokens : CostSummary
no_tokens = record {
  total_input_tokens = 0;
  total_output_tokens = 0;
  total_cache_creation_tokens = 0;
  total_cache_read_tokens = 0;
  total_requests = 0;
}

-- The body of the loop.
abbrev pub add_summary : CostSummary → CostPricingGroup → CostSummary
add_summary s g = record {
  total_input_tokens = s.total_input_tokens + g.input_tokens;
  total_output_tokens = s.total_output_tokens + g.output_tokens;
  total_cache_creation_tokens = s.total_cache_creation_tokens + g.cache_creation_tokens;
  total_cache_read_tokens = s.total_cache_read_tokens + g.cache_read_tokens;
  total_requests = s.total_requests + g.requests;
}

unfoldable pub summary_loop : CostSummary → List CostPricingGroup → CostSummary
summary_loop s [] = s
summary_loop s (g ∷ gs) = summary_loop (add_summary s g) gs

unfoldable pub derive_summary_from_pricing_groups : List CostPricingGroup → CostSummary
unfolding summary_loop
derive_summary_from_pricing_groups gs = summary_loop no_tokens gs

-- The name of a group in a dimension: a provider without a name stands for itself.
unfoldable pub derived_key : String → Option (Map String) → CostPricingGroup → String
unfolding provider_display_name
derived_key group_by names g =
    if group_by == "key"
    then (if g.proxy_key_group == "" then g.proxy_key_prefix else g.proxy_key_group)
    else if group_by == "provider"
    then (let name = (provider_display_name g.provider_name names).0 in
        if name == "" then g.provider_name else name)
    else g.model_requested

abbrev pub new_entry : String → CostBreakdownEntry
new_entry key = record {
  group = key;
  input_tokens = 0;
  output_tokens = 0;
  cache_creation_tokens = 0;
  cache_read_tokens = 0;
  requests = 0;
}

abbrev pub add_tokens : CostPricingGroup → CostBreakdownEntry → CostBreakdownEntry
add_tokens g e = record e {
  input_tokens = e.input_tokens + g.input_tokens;
  output_tokens = e.output_tokens + g.output_tokens;
  cache_creation_tokens = e.cache_creation_tokens + g.cache_creation_tokens;
  cache_read_tokens = e.cache_read_tokens + g.cache_read_tokens;
  requests = e.requests + g.requests;
}

-- The map byGroup, in the order in which its keys came.
unfoldable pub add_to_entry :
    String → CostPricingGroup → List CostBreakdownEntry → List CostBreakdownEntry
add_to_entry key g [] = add_tokens g (new_entry key) ∷ []
add_to_entry key g (e ∷ es) =
    let rest = add_to_entry key g es in if e.group == key then add_tokens g e ∷ es else e ∷ rest

unfoldable pub entries_loop :
    String
    → Option (Map String)
    → List CostPricingGroup
    → List CostBreakdownEntry
    → List CostBreakdownEntry
unfolding derived_key add_to_entry
entries_loop group_by names [] es = es
entries_loop group_by names (g ∷ gs) es =
    let key = derived_key group_by names g in
    entries_loop group_by names gs (if key == "" then es else add_to_entry key g es)

-- The order of SortFunc: more requests first, then by name.
unfoldable pub compare_entries : CostBreakdownEntry → CostBreakdownEntry → Ordering
compare_entries a b =
    if nat_eq a.requests b.requests
    then compare a.group b.group
    else if ltb b.requests a.requests
    then Ordering.lt
    else Ordering.gt

-- cmp(a, b) > 0
unfoldable pub is_after : CostBreakdownEntry → CostBreakdownEntry → Bool
unfolding compare_entries
is_after a b = elim (compare_entries a b) [ Ordering.gt ↦ true | _ ↦ false ]

-- slices.SortFunc. No two entries have one name, so the order in which the map is walked does not
-- show.
unfoldable pub insert_entry : CostBreakdownEntry → List CostBreakdownEntry → List CostBreakdownEntry
unfolding is_after
insert_entry e [] = e ∷ []
insert_entry e (f ∷ es) =
    let rest = insert_entry e es in if is_after e f then f ∷ rest else e ∷ (f ∷ es)

unfoldable pub sort_entries : List CostBreakdownEntry → List CostBreakdownEntry
unfolding insert_entry
sort_entries [] = []
sort_entries (e ∷ es) = insert_entry e (sort_entries es)

unfoldable pub derive_breakdown_from_pricing_groups :
    List CostPricingGroup → String → Option (Map String) → List CostBreakdownEntry
unfolding entries_loop sort_entries
derive_breakdown_from_pricing_groups groups group_by names =
    sort_entries (entries_loop group_by names groups [])
