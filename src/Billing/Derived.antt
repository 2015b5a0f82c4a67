-- ===== src/Billing/Derived.antt =====
-- internal/web/billing/billing.go: the derived breakdown accounts for the derived summary.
use glitchgate.Prelude.{
  ℕ, ◌+◌, ◌≤◌, String, Bool, Bool-cases, false, not, ◌&&◌, Option, Map, List, [], ◌∷◌,
  if◌then◌else◌, ◌==◌, eq_iff, ◌≡◌, refl, ap, ◌∙◌, inl, inr, arith, sum_by,
}
use glitchgate.Billing.{CostPricingGroup}
use glitchgate.Billing.Summaries.{
  CostSummary, CostBreakdownEntry, no_tokens, add_summary, summary_loop,
  derive_summary_from_pricing_groups, derived_key, new_entry, add_tokens, add_to_entry,
  entries_loop, derive_breakdown_from_pricing_groups,
}
use glitchgate.Billing.Sorting.{IsOrdered, sort_entries-IsOrdered, sum-sort_entries}

-- A count of the entries whose names pass a test.
abbrev pub of_names : (String → Bool) → (CostBreakdownEntry → ℕ) → CostBreakdownEntry → ℕ
of_names test f e = if test e.group then f e else 0

-- The totals of these entries.
abbrev pub entries_summary : (String → Bool) → List CostBreakdownEntry → CostSummary
entries_summary test es = record {
  total_input_tokens = sum_by (of_names test (λ e. e.input_tokens)) es;
  total_output_tokens = sum_by (of_names test (λ e. e.output_tokens)) es;
  total_cache_creation_tokens = sum_by (of_names test (λ e. e.cache_creation_tokens)) es;
  total_cache_read_tokens = sum_by (of_names test (λ e. e.cache_read_tokens)) es;
  total_requests = sum_by (of_names test (λ e. e.requests)) es;
}

-- The entries of one name.
abbrev pub entries_of : String → CostBreakdownEntry → ℕ
entries_of key = of_names (λ k. k == key) (λ e. 1)

-- The groups whose name in the dimension is not empty and passes the test.
abbrev pub groups_where :
    (String → Bool) → String → Option (Map String) → List CostPricingGroup → List CostPricingGroup
groups_where test group_by names [] = []
groups_where test group_by names (g ∷ gs) =
    let key = derived_key group_by names g in
    let rest = groups_where test group_by names gs in
    if test key && not (key == "") then g ∷ rest else rest

-- One of the five counts, in a summary, an entry and a group.
module _ (fs : CostSummary → ℕ) (fe : CostBreakdownEntry → ℕ) (fg : CostPricingGroup → ℕ)
    (none_yet : (key : String) → fe (new_entry key) ≡ 0)
    (adds : (g : CostPricingGroup) (e : CostBreakdownEntry) → fe (add_tokens g e) ≡ fe e + fg g)
    (sums : (s : CostSummary) (g : CostPricingGroup) → fs (add_summary s g) ≡ fs s + fg g) where
  summary_loop_lem :
      (s : CostSummary) (gs : List CostPricingGroup) → fs (summary_loop s gs) ≡ fs s + sum_by fg gs
  unfolding summary_loop
  summary_loop_lem s [] = omega arith
  summary_loop_lem s (g ∷ gs) = omega (arith, sums s g, summary_loop_lem (add_summary s g) gs)

  add_to_entry_lem :
      (test : String → Bool) (key : String) (g : CostPricingGroup) (es : List CostBreakdownEntry)
      → sum_by (of_names test fe) (add_to_entry key g es)
        ≡ sum_by (of_names test fe) es + (if test key then fg g else 0)
  unfolding add_to_entry
  add_to_entry_lem test key g [] = elim (Bool-cases (test key)) [
    | inl t ↦ rw t (omega (arith, none_yet key, adds g (new_entry key)))
    | inr t ↦ rw t refl
  ]
  add_to_entry_lem test key g (e ∷ es) = elim (Bool-cases (e.group == key)) [
    | inr c ↦ rw (add_to_entry, c) (omega (arith, add_to_entry_lem test key g es))
    | inl c ↦
        let same : test e.group ≡ test key = ap test ((eq_iff e.group key).0 c) in
        elim (Bool-cases (test key)) [
          | inl t ↦ rw (add_to_entry, c, same ∙ t, t) (omega (arith, adds g e))
          | inr t ↦ rw (add_to_entry, c, same ∙ t, t) (omega arith)
        ]
  ]

  entries_loop_lem :
      (test : String → Bool) (group_by : String) (names : Option (Map String))
      (gs : List CostPricingGroup) (es : List CostBreakdownEntry)
      → sum_by (of_names test fe) (entries_loop group_by names gs es)
        ≡ sum_by (of_names test fe) es + sum_by fg (groups_where test group_by names gs)
  unfolding entries_loop
  entries_loop_lem test group_by names [] es = omega arith
  entries_loop_lem test group_by names (g ∷ gs) es =
      let key = derived_key group_by names g in
      elim (Bool-cases (key == "")) [
        | inl q ↦ elim (Bool-cases (test key)) [
          | inl t ↦ rw (entries_loop, q, t) (entries_loop_lem test group_by names gs es)
          | inr t ↦ rw (entries_loop, q, t) (entries_loop_lem test group_by names gs es)
        ]
        | inr q ↦
            let added = add_to_entry_lem test key g es in
            let rest = entries_loop_lem test group_by names gs (add_to_entry key g es) in
            elim (Bool-cases (test key)) [
              | inl t ↦ rw (entries_loop, q, t) (omega (arith, rest, rw t at added))
              | inr t ↦ rw (entries_loop, q, t) (omega (arith, rest, rw t at added))
            ]
      ]

  count_lem :
      (test : String → Bool) (group_by : String) (names : Option (Map String))
      (gs : List CostPricingGroup)
      → fs no_tokens ≡ 0
      → sum_by (of_names test fe) (derive_breakdown_from_pricing_groups gs group_by names)
        ≡ fs (derive_summary_from_pricing_groups (groups_where test group_by names gs))
  unfolding derive_breakdown_from_pricing_groups derive_summary_from_pricing_groups
  count_lem test group_by names gs z = omega (
    arith,
    z,
    sum-sort_entries (of_names test fe) (entries_loop group_by names gs []),
    entries_loop_lem test group_by names gs [],
    summary_loop_lem no_tokens (groups_where test group_by names gs),
  )

-- Each name has one entry.
other_name :
    (key name : String) (g : CostPricingGroup) (es : List CostBreakdownEntry)
    → (key == name) ≡ false
    → sum_by (entries_of name) (add_to_entry key g es) ≡ sum_by (entries_of name) es
unfolding add_to_entry
other_name key name g [] d = rw d refl
other_name key name g (e ∷ es) d = elim (Bool-cases (e.group == key)) [
  | inl c ↦ rw (add_to_entry, c) refl
  | inr c ↦ rw (add_to_entry, c) (omega (arith, other_name key name g es d))
]

one_entry :
    (key name : String) (g : CostPricingGroup) (es : List CostBreakdownEntry)
    → sum_by (entries_of name) es ≤ 1
    → sum_by (entries_of name) (add_to_entry key g es) ≤ 1
unfolding add_to_entry
one_entry key name g [] n = ground arith
one_entry key name g (e ∷ es) n = elim (Bool-cases (e.group == key)) [
  | inl c ↦ rw (add_to_entry, c) n
  | inr c ↦
      rw (add_to_entry, c)
        (elim (Bool-cases (e.group == name)) [
          | inl m ↦
              let d : (key == name) ≡ false =
                ground (arith, c, m, eq_iff e.group key, eq_iff e.group name, eq_iff key name) in
              omega (arith, n, other_name key name g es d)
          | inr m ↦ rw m (omega (arith, one_entry key name g es (omega (arith, rw m at n))))
        ])
]

loop_one_entry :
    (group_by : String) (names : Option (Map String)) (name : String) (gs : List CostPricingGroup)
    (es : List CostBreakdownEntry)
    → sum_by (entries_of name) es ≤ 1
    → sum_by (entries_of name) (entries_loop group_by names gs es) ≤ 1
unfolding entries_loop
loop_one_entry group_by names name [] es n = n
loop_one_entry group_by names name (g ∷ gs) es n =
    let key = derived_key group_by names g in
    elim (Bool-cases (key == "")) [
      | inl q ↦ rw (entries_loop, q) (loop_one_entry group_by names name gs es n)
      | inr q ↦
          rw (entries_loop, q)
            (loop_one_entry group_by names name gs (add_to_entry key g es)
              (one_entry key name g es n))
    ]

-- The breakdown derived from pricing groups, by any dimension, has at most one entry of each name,
-- in the order of more requests first and then of the names; and whichever names are picked, the
-- totals of their entries are the summary derived from the groups with these names, those whose
-- name is empty left aside.
pub derived_lem :
    (test : String → Bool) (name : String) (group_by : String) (names : Option (Map String))
    (gs : List CostPricingGroup)
    → (entries_summary test (derive_breakdown_from_pricing_groups gs group_by names)
        ≡ derive_summary_from_pricing_groups (groups_where test group_by names gs))
      × (sum_by (entries_of name) (derive_breakdown_from_pricing_groups gs group_by names) ≤ 1)
      × IsOrdered (derive_breakdown_from_pricing_groups gs group_by names)
unfolding derive_breakdown_from_pricing_groups
derived_lem test name group_by names gs =
    let es = entries_loop group_by names gs [] in
    (
      λ i. record {
        total_input_tokens =
            count_lem (λ s. s.total_input_tokens) (λ e. e.input_tokens) (λ g. g.input_tokens)
              (λ k. refl) (λ g e. refl) (λ s g. refl) test group_by names gs refl i;
        total_output_tokens =
            count_lem (λ s. s.total_output_tokens) (λ e. e.output_tokens) (λ g. g.output_tokens)
              (λ k. refl) (λ g e. refl) (λ s g. refl) test group_by names gs refl i;
        total_cache_creation_tokens =
            count_lem (λ s. s.total_cache_creation_tokens) (λ e. e.cache_creation_tokens)
              (λ g. g.cache_creation_tokens) (λ k. refl) (λ g e. refl) (λ s g. refl) test group_by
              names gs refl i;
        total_cache_read_tokens =
            count_lem (λ s. s.total_cache_read_tokens) (λ e. e.cache_read_tokens)
              (λ g. g.cache_read_tokens) (λ k. refl) (λ g e. refl) (λ s g. refl) test group_by names
              gs refl i;
        total_requests =
            count_lem (λ s. s.total_requests) (λ e. e.requests) (λ g. g.requests) (λ k. refl)
              (λ g e. refl) (λ s g. refl) test group_by names gs refl i;
      },
      omega (
        arith,
        sum-sort_entries (entries_of name) es,
        loop_one_entry group_by names name gs [] (omega arith),
      ),
      sort_entries-IsOrdered es,
    )
