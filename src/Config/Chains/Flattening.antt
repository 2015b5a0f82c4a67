-- ===== src/Config/Chains/Flattening.antt =====
-- internal/config/config.go, flatten: after the checks of the references and of cycles it has fuel
-- enough and finds every name.
use glitchgate.Prelude.{
  ℕ, zero, suc, ◌<◌, String, true, Option, none, some, List, [], ◌∷◌, ◌++◌, ◌≡◌, ◌≢◌, refl, inl,
  inr, ◌⊎◌, arith, Bool-cases, Option-cases, subst, All,
}
use glitchgate.Config.Types.{ModelMapping, DispatchTarget}
use glitchgate.Config.Names.{no_fallbacks}
use glitchgate.Config.Chains.{
  Result, ok, err, ◌>>=◌, by_name, resolve_wildcard, each, is_some, check_refs, check_all_refs,
  ChainMap, Flatten, store_chain, flatten_refs, flatten_entry, flatten_by, flatten,
}
use glitchgate.Config.Chains.Walks.{Grounded}

unfoldable pub Succeeds {ℓ} : {A : Type ℓ} → Result A → Type 0
Succeeds (ok a) = Unit
Succeeds (err e) = ⊥

-- The name has an entry or matches a wildcard.
unfoldable pub Resolves : List ModelMapping → String → Type 0
Resolves ml name = (by_name ml name ≢ none) ⊎ (resolve_wildcard ml name ≢ none)

some_known {ℓ} : {A : Type ℓ} (o : Option A) → is_some o ≡ true → o ≢ none
some_known none e = ground (arith, e)
some_known (some a) e = λ h. ground (arith, h)

refs-Resolves :
    (ml : List ModelMapping) (name : String) (refs : List String)
    → Succeeds (check_refs ml name refs)
    → All (Resolves ml) refs
unfolding check_refs Succeeds Resolves
refs-Resolves ml name [] s = tt
refs-Resolves ml name (ref ∷ refs) s = elim (Bool-cases (is_some (by_name ml ref))) [
  | inl e ↦ (inl (some_known (by_name ml ref) e), refs-Resolves ml name refs (rw e at s))
  | inr e ↦ elim (Bool-cases (is_some (resolve_wildcard ml ref))) [
    | inl f ↦
        (inr (some_known (resolve_wildcard ml ref) f), refs-Resolves ml name refs (rw (e, f) at s))
    | inr f ↦ absurd (rw (e, f) at s)
  ]
]

pub check_all_refs-Resolves :
    (ml ms : List ModelMapping)
    → Succeeds (check_all_refs ml ms)
    → All (λ m. All (Resolves ml) m.fallbacks) ms
unfolding check_all_refs Succeeds
check_all_refs-Resolves ml [] s = tt
check_all_refs-Resolves ml (m ∷ ms) s =
    go (check_refs ml m.model_name m.fallbacks) s (refs-Resolves ml m.model_name m.fallbacks)
      (λ s'. check_all_refs-Resolves ml ms s')
  where
    go :
        (o : Result (Unit {0}))
        → Succeeds (o >>= λ _. check_all_refs ml ms)
        → (Succeeds o → All (Resolves ml) m.fallbacks)
        → (Succeeds (check_all_refs ml ms) → All (λ m. All (Resolves ml) m.fallbacks) ms)
        → All (Resolves ml) m.fallbacks × All (λ m. All (Resolves ml) m.fallbacks) ms
    go (ok u) s f rest = (f tt, rest s)
    go (err e) s f rest = absurd s

by_name-All :
    (P : ModelMapping → Type 0) (ml : List ModelMapping) (name : String) (m : ModelMapping)
    → All P ml
    → by_name ml name ≡ some m
    → P m
unfolding by_name
by_name-All P [] name m a e = ground (arith, e)
by_name-All P (x ∷ ml) name m (p, a) e = elim (Option-cases (by_name ml name)) [
  | inl q ↦ subst P (ground (arith, e, q)) p
  | inr (later, q) ↦ by_name-All P ml name m a (ground (arith, e, q))
]

-- A step that succeeds on every name that resolves and expands within `h` levels.
abbrev pub WillFlatten : List ModelMapping → ℕ → Flatten → Type 0
WillFlatten ml h next =
    (name : String) (chains : ChainMap)
    → Grounded ml h name
    → Resolves ml name
    → Succeeds (next name chains)

Succeeds-bind {ℓ κ} :
    {A : Type ℓ} {B : Type κ} (o : Result A) (k : A → Result B)
    → Succeeds o
    → ((a : A) → Succeeds (k a))
    → Succeeds (o >>= k)
unfolding Succeeds
Succeeds-bind (ok a) k s f = f a
Succeeds-bind (err e) k s f = absurd s

refs-Succeeds :
    (ml : List ModelMapping) (h : ℕ) (next : Flatten)
    → WillFlatten ml h next
    → (refs : List String) (chain : List DispatchTarget) (chains : ChainMap)
    → All (Grounded ml h) refs
    → All (Resolves ml) refs
    → Succeeds (flatten_refs next refs chain chains)
unfolding flatten_refs Succeeds
refs-Succeeds ml h next w [] chain chains g r = tt
refs-Succeeds ml h next w (ref ∷ refs) chain chains (g, gs) (r, rs) =
    Succeeds-bind (next ref chains) _ (w ref chains g r)
      (λ x. refs-Succeeds ml h next w refs (chain ++ x.0) x.1 gs rs)

entry-Succeeds :
    (ml : List ModelMapping) (h : ℕ) (next : Flatten)
    → WillFlatten ml h next
    → (name : String) (m : ModelMapping) (chains : ChainMap) → All (Grounded ml h) m.fallbacks
    → All (Resolves ml) m.fallbacks
    → Succeeds (flatten_entry next name m chains)
unfolding flatten_entry Succeeds
entry-Succeeds ml h next w name m chains g r = elim (Bool-cases (no_fallbacks m.fallbacks)) [
  | inl q ↦ rw (flatten_entry, q) tt
  | inr q ↦
      rw (flatten_entry, q)
        (Succeeds-bind (flatten_refs next m.fallbacks [] chains) (store_chain name)
          (refs-Succeeds ml h next w m.fallbacks [] chains g r) (λ x. tt))
]

by-Succeeds :
    (ml : List ModelMapping) (h : ℕ) (next : Flatten)
    → All (λ m. All (Resolves ml) m.fallbacks) ml
    → ((g : ℕ) → h ≡ suc g → WillFlatten ml g next)
    → (name : String) (o wild : Option ModelMapping) (chains : ChainMap)
      (known : Option (List DispatchTarget))
    → by_name ml name ≡ o
    → resolve_wildcard ml name ≡ wild
    → Grounded ml h name
    → Resolves ml name
    → Succeeds (flatten_by next name o wild chains known)
unfolding Succeeds Resolves Grounded
by-Succeeds ml h next a w name o wild chains (some c) p q g r = tt
by-Succeeds ml h next a w name none (some m) chains none p q g r = tt
by-Succeeds ml h next a w name none none chains none p q g (inl r) = absurd (r p)
by-Succeeds ml h next a w name none none chains none p q g (inr r) = absurd (r q)
by-Succeeds ml zero next a w name (some m) wild chains none p q g r = ground (arith, g, p)
by-Succeeds ml (suc h) next a w name (some m) wild chains none p q (inl e) r = ground (arith, e, p)
by-Succeeds ml (suc h) next a w name (some m) wild chains none p q (inr (m', e, g)) r =
    entry-Succeeds ml h next (w h refl) name m chains
      (let same : m' ≡ m = ground (arith, e, p) in
        subst (λ (x : ModelMapping). All (Grounded ml h) x.fallbacks) same g)
      (by_name-All (λ m. All (Resolves ml) m.fallbacks) ml name m a p)

pub flatten-WillFlatten :
    (ml : List ModelMapping)
    → All (λ m. All (Resolves ml) m.fallbacks) ml
    → (fuel h : ℕ) → h < fuel
    → WillFlatten ml h (flatten ml fuel)
unfolding flatten
flatten-WillFlatten ml a zero h l name chains g r = ground (arith, l)
flatten-WillFlatten ml a (suc fuel) h l name chains g r =
    by-Succeeds ml h (flatten ml fuel) a
      (λ g e. flatten-WillFlatten ml a fuel g (omega (arith, l, e))) name (by_name ml name)
      (resolve_wildcard ml name) chains (chains name) refl refl g r

pub each-Succeeds :
    (ml : List ModelMapping) (h : ℕ) (next : Flatten)
    → WillFlatten ml h next
    → (names : List String) (chains : ChainMap) → All (Grounded ml h) names
    → All (Resolves ml) names
    → Succeeds (each (λ r cs. next r cs >>= λ x. ok x.1) names chains)
unfolding each Succeeds
each-Succeeds ml h next w [] chains g r = tt
each-Succeeds ml h next w (n ∷ ns) chains (g, gs) (r, rs) =
    Succeeds-bind (next n chains >>= λ x. ok x.1) _
      (Succeeds-bind (next n chains) _ (w n chains g r) (λ x. tt))
      (λ cs. each-Succeeds ml h next w ns cs gs rs)
