-- ===== src/Config/Chains/Stored.antt =====
-- internal/config/config.go, buildResolvedChains: what is stored when it ends without an error.
use glitchgate.Prelude.{
  suc, String, none, some, List, [], ◌∷◌, eq_iff, ◌≡◌, ◌≢◌, subst, inl, inr, arith, length,
  Bool-cases, Option-cases, empty_map, All,
}
use glitchgate.Config.Types.{ModelMapping, DispatchTarget}
use glitchgate.Config.Names.{is_wildcard}
use glitchgate.Config.Chains.{
  Result, ok, err, ◌>>=◌, by_name, ChainMap, Flatten, flatten, flatten_all, each, plain_names,
  build_resolved_chains, check_all_exclusive, check_all_refs, detect_all,
}
use glitchgate.Config.Chains.Expansion.{
  Expands, Sound, Grows, Flat, Flattens, Grows-refl, flatten-Flattens,
}

-- What the loop over all names gives.
AllFlat : List ModelMapping → List String → ChainMap → Result ChainMap → Type 0
AllFlat ml names chains (err e) = Unit
AllFlat ml names chains (ok chains') =
    Sound ml chains' × Grows chains chains' × All (λ n. chains' n ≢ none) names

all-AllFlat :
    (ml : List ModelMapping) (next : Flatten)
    → Flattens ml next
    → (names : List String) (chains : ChainMap) → Sound ml chains
    → AllFlat ml names chains (each (λ r cs. next r cs >>= λ x. ok x.1) names chains)
unfolding each AllFlat Flattens Flat Grows
all-AllFlat ml next f [] chains s = (s, Grows-refl chains, tt)
all-AllFlat ml next f (n ∷ ns) chains s =
    go (next n chains) (f n chains s) (λ chains' s'. all-AllFlat ml next f ns chains' s')
  where
    more :
        (chains' : ChainMap) (r : Result ChainMap)
        → Grows chains chains'
        → chains' n ≢ none
        → AllFlat ml ns chains' r
        → AllFlat ml (n ∷ ns) chains r
    more chains' (err e) g k a = tt
    more chains' (ok chains'') g k (s', g', a) = (s', (λ x h. g' x (g x h)), (g' n k, a))

    go :
        (o : Result (List DispatchTarget × ChainMap))
        → Flat ml n chains o
        → ((chains' : ChainMap)
            → Sound ml chains'
            → AllFlat ml ns chains' (each (λ r cs. next r cs >>= λ x. ok x.1) ns chains'))
        → AllFlat ml
            (n ∷ ns)
            chains
            (o >>= (λ x. ok x.1) >>= each (λ r cs. next r cs >>= λ x. ok x.1) ns)
    go (err e) x rest = tt
    go (ok (c, chains')) (x, s', g, k) rest =
        more chains' (each (λ r cs. next r cs >>= λ x. ok x.1) ns chains') g k (rest chains' s')

passed :
    (ml : List ModelMapping) (names : List String) (chains : ChainMap) {A : Type 0} (r : Result A)
    (k : A → Result ChainMap)
    → ((a : A) → AllFlat ml names chains (k a))
    → AllFlat ml names chains (r >>= k)
unfolding AllFlat
passed ml names chains (err e) k f = tt
passed ml names chains (ok a) k f = f a

build-AllFlat :
    (ml : List ModelMapping) → AllFlat ml (plain_names ml) empty_map (build_resolved_chains ml)
unfolding build_resolved_chains flatten_all Sound
build-AllFlat ml = passed ml (plain_names ml) empty_map (check_all_exclusive ml) _ λ x.
    passed ml (plain_names ml) empty_map (check_all_refs ml ml) _ λ y.
      passed ml (plain_names ml) empty_map (detect_all ml) _ λ z.
        all-AllFlat ml (flatten ml (suc (length ml))) (flatten-Flattens ml (suc (length ml)))
          (plain_names ml) empty_map (λ name c h. ground (arith, h))

plain-stored :
    (ml : List ModelMapping) (name : String) (m : ModelMapping) (chains : ChainMap)
    → All (λ n. chains n ≢ none) (plain_names ml)
    → by_name ml name ≡ some m
    → chains name ≢ none
unfolding plain_names by_name
plain-stored [] name m chains a h = ground (arith, h)
plain-stored (x ∷ ml) name m chains a h = elim (Bool-cases (is_wildcard x)) [
  | inl w ↦ elim (Option-cases (by_name ml name)) [
    | inl q ↦ ground (arith, w, q, h)
    | inr (later, q) ↦ plain-stored ml name later chains (rw w at a) q
  ]
  | inr w ↦
      let both : (chains x.model_name ≢ none) × All (λ n. chains n ≢ none) (plain_names ml) =
        rw w at a in
      elim (Option-cases (by_name ml name)) [
        | inl q ↦
            subst (λ n. chains n ≢ none) ((eq_iff x.model_name name).0 (ground (arith, w, q, h)))
              both.0
        | inr (later, q) ↦ plain-stored ml name later chains both.1 q
      ]
]

-- The chain of every entry that is not a wildcard is stored by a run of buildResolvedChains that
-- ends without an error, and it is what the entry stands for: the entry's own target, or the
-- targets of its fallbacks in order, each expanded in the same way or resolved by a wildcard.
pub resolved_chains-Expands :
    (ml : List ModelMapping) (chains : ChainMap) (name : String) (m : ModelMapping)
    → build_resolved_chains ml ≡ ok chains
    → by_name ml name ≡ some m
    → (c : List DispatchTarget) × (chains name ≡ some c) × Expands ml (name ∷ []) c
unfolding AllFlat Sound
resolved_chains-Expands ml chains name m b h =
    let (s, g, a) = subst (AllFlat ml (plain_names ml) empty_map) b (build-AllFlat ml) in
    elim (Option-cases (chains name)) [
      | inl e ↦ ground (arith, e, plain-stored ml name m chains a h)
      | inr (c, e) ↦ (c, e, s name c e)
    ]
