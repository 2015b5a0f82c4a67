-- ===== src/Billing/Sorting.antt =====
-- internal/web/billing/billing.go: the order of a derived breakdown.
use Prim.Native.Nat.{Ordering}
use Prim.Native.String.{compare}
use Prim.Native.String.compare
use glitchgate.Prelude.{
  ℕ, ◌+◌, String, Bool-cases, true, false, List, [], ◌∷◌, ◌≡◌, refl, sym, ◌∙◌, ◌≢◌, ◌<◌, ◌⊎◌, inl,
  inr, arith, sum_by, nat_eq,
}
use glitchgate.Billing.Summaries.{
  CostBreakdownEntry, compare_entries, is_after, insert_entry, sort_entries,
}

-- A comparison is never greater both ways.
compare_asym : (s t : String) → compare s t ≡ Ordering.gt → compare t s ≢ Ordering.gt
compare_asym String.[] String.[] h k = ground (arith, h, compare.nil-nil)
compare_asym String.[] (String.◌∷◌ d t) h k = ground (arith, h, compare.nil-cons d t)
compare_asym (String.◌∷◌ c s) String.[] h k = ground (arith, k, compare.nil-cons c s)
compare_asym (String.◌∷◌ c s) (String.◌∷◌ d t) h k = ground (
  arith,
  sym (compare.cons-cons c d s t) ∙ h,
  sym (compare.cons-cons d c t s) ∙ k,
  compare_asym s t,
)

is_after_asym : (a b : CostBreakdownEntry) → is_after a b ≡ true → is_after b a ≡ false
unfolding is_after compare_entries
is_after_asym a b h = ground (arith, h, compare_asym a.group b.group)

abbrev IsBefore : CostBreakdownEntry → List CostBreakdownEntry → Type 0
IsBefore a [] = Unit
IsBefore a (b ∷ es) = is_after a b ≡ false

-- What the order should be: more requests first, and names of as many requests in their order.
abbrev pub Precedes : CostBreakdownEntry → CostBreakdownEntry → Type 0
Precedes a b =
    (b.requests < a.requests)
    ⊎ ((a.requests ≡ b.requests) × (compare a.group b.group ≢ Ordering.gt))

Precedes-after : (a b : CostBreakdownEntry) → is_after a b ≡ false → Precedes a b
unfolding is_after compare_entries
Precedes-after a b h = elim (Bool-cases (nat_eq a.requests b.requests)) [
  | inl e ↦ inr (ground (arith, e), λ g. ground (arith, e, g, h))
  | inr e ↦ inl (ground (arith, e, h))
]

abbrev pub Leads : CostBreakdownEntry → List CostBreakdownEntry → Type 0
Leads a [] = Unit
Leads a (b ∷ es) = Precedes a b

-- Each entry precedes the next.
abbrev pub IsOrdered : List CostBreakdownEntry → Type 0
IsOrdered [] = Unit
IsOrdered (e ∷ es) = Leads e es × IsOrdered es

-- No entry comes after one that it should come before.
abbrev IsSorted : List CostBreakdownEntry → Type 0
IsSorted [] = Unit
IsSorted (e ∷ es) = IsBefore e es × IsSorted es

insert_entry-IsBefore :
    (a e : CostBreakdownEntry) (es : List CostBreakdownEntry)
    → is_after a e ≡ false
    → IsBefore a es
    → IsBefore a (insert_entry e es)
unfolding insert_entry
insert_entry-IsBefore a e [] h b = h
insert_entry-IsBefore a e (f ∷ es) h b = elim (Bool-cases (is_after e f)) [
  | inl c ↦ rw (insert_entry, c) b
  | inr c ↦ rw (insert_entry, c) h
]

insert_entry-IsSorted :
    (e : CostBreakdownEntry) (es : List CostBreakdownEntry)
    → IsSorted es
    → IsSorted (insert_entry e es)
unfolding insert_entry
insert_entry-IsSorted e [] s = (tt, tt)
insert_entry-IsSorted e (f ∷ es) (b, s) = elim (Bool-cases (is_after e f)) [
  | inl c ↦
      rw (insert_entry, c)
        (insert_entry-IsBefore f e es (is_after_asym e f c) b, insert_entry-IsSorted e es s)
  | inr c ↦ rw (insert_entry, c) (c, (b, s))
]

sort_entries-IsSorted : (es : List CostBreakdownEntry) → IsSorted (sort_entries es)
unfolding sort_entries
sort_entries-IsSorted [] = tt
sort_entries-IsSorted (e ∷ es) =
    insert_entry-IsSorted e (sort_entries es) (sort_entries-IsSorted es)

sum-insert_entry :
    (f : CostBreakdownEntry → ℕ) (e : CostBreakdownEntry) (es : List CostBreakdownEntry)
    → sum_by f (insert_entry e es) ≡ f e + sum_by f es
unfolding insert_entry
sum-insert_entry f e [] = refl
sum-insert_entry f e (g ∷ es) = elim (Bool-cases (is_after e g)) [
  | inl c ↦ rw (insert_entry, c) (omega (arith, sum-insert_entry f e es))
  | inr c ↦ rw (insert_entry, c) refl
]

pub sum-sort_entries :
    (f : CostBreakdownEntry → ℕ) (es : List CostBreakdownEntry)
    → sum_by f (sort_entries es) ≡ sum_by f es
unfolding sort_entries
sum-sort_entries f [] = refl
sum-sort_entries f (e ∷ es) =
    omega (arith, sum-insert_entry f e (sort_entries es), sum-sort_entries f es)

Leads-before : (a : CostBreakdownEntry) (es : List CostBreakdownEntry) → IsBefore a es → Leads a es
Leads-before a [] b = tt
Leads-before a (e ∷ es) b = Precedes-after a e b

IsOrdered-sorted : (es : List CostBreakdownEntry) → IsSorted es → IsOrdered es
IsOrdered-sorted [] s = tt
IsOrdered-sorted (e ∷ es) (b, s) = (Leads-before e es b, IsOrdered-sorted es s)

pub sort_entries-IsOrdered : (es : List CostBreakdownEntry) → IsOrdered (sort_entries es)
sort_entries-IsOrdered es = IsOrdered-sorted (sort_entries es) (sort_entries-IsSorted es)
