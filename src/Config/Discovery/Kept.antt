-- ===== src/Config/Discovery/Kept.antt =====
-- internal/config/discovery.go: what explicit entries stand for, after discovery.
use glitchgate.Prelude.{
  String, true, false, Bool, Option, none, some, List, [], ◌∷◌, ◌++◌, ◌≡◌, refl, sym, ap, ap₂, ◌∙◌,
  subst, inl, inr, arith, Option-cases,
}
use glitchgate.Config.Names.{no_fallbacks}
use glitchgate.Config.Types.{ModelMapping, ProviderConfig, DispatchTarget}
use glitchgate.Config.Chains.{Result, ok, ChainMap, by_name, build_resolved_chains, target_of}
use glitchgate.Config.Chains.Expansion.{Expands, nothing, direct, wild, virtual}
use glitchgate.Config.Discovery.{discover, explicit_names, inject_discovered_models}
use glitchgate.Config.Discovery.Filtering.{explicit_kept}
use glitchgate.Config.Lookup.{Config, find_model}
use glitchgate.Config.Routes.{find_model-Expands}

-- No name of the expansion was resolved by a wildcard.
abbrev pub IsNamed :
    {ml : List ModelMapping} {ns : List String} {ts : List DispatchTarget}
    → Expands ml ns ts
    → Type 0
IsNamed nothing = Unit
IsNamed (direct name m p q e) = IsNamed e
IsNamed (wild name m p q e) = ⊥
IsNamed (virtual name m p q d e) = IsNamed d × IsNamed e

some-injective : {A : Type 0} (a b : A) → some a ≡ some b → a ≡ b
some-injective a b e = ground (arith, e)

clash : {A B : Type 0} (o : Option A) (a : A) → o ≡ some a → o ≡ none → B
clash o a e f = ground (arith, e, f)

two_kinds :
    {B : Type 0} (m n : ModelMapping)
    → m ≡ n
    → no_fallbacks m.fallbacks ≡ true
    → no_fallbacks n.fallbacks ≡ false
    → B
two_kinds m n e q s = ground (arith, ap (λ x. no_fallbacks x.fallbacks) e, q, s)

-- A list of names stands for one list of targets.
Expands-unique :
    (ml : List ModelMapping) {ns : List String} {ts us : List DispatchTarget}
    → Expands ml ns ts
    → Expands ml ns us
    → ts ≡ us
Expands-unique ml nothing nothing = refl
Expands-unique ml (direct name m p q e) (direct _ n r s f) =
    let same : m ≡ n = some-injective m n (sym p ∙ r) in
    ap₂ (λ x xs. target_of x ∷ xs) same (Expands-unique ml e f)
Expands-unique ml (direct name m p q e) (wild _ n r s f) = clash (by_name ml name) m p r
Expands-unique ml (direct name m p q e) (virtual _ n r s d f) =
    two_kinds m n (some-injective m n (sym p ∙ r)) q s
Expands-unique ml (wild name m p q e) (direct _ n r s f) = clash (by_name ml name) n r p
Expands-unique ml (wild name m p q e) (wild _ n r s f) =
    let same : m ≡ n = some-injective m n (sym q ∙ s) in
    ap₂ (λ x xs. target_of x ∷ xs) same (Expands-unique ml e f)
Expands-unique ml (wild name m p q e) (virtual _ n r s d f) = clash (by_name ml name) n r p
Expands-unique ml (virtual name m p q d e) (direct _ n r s f) =
    two_kinds n m (some-injective n m (sym r ∙ p)) s q
Expands-unique ml (virtual name m p q d e) (wild _ n r s f) = clash (by_name ml name) m p r
Expands-unique ml (virtual name m p q d e) (virtual _ n {cs = cs} r s g f) =
    let same : m ≡ n = some-injective m n (sym p ∙ r) in
    ap₂ (λ x y. x ++ y) (Expands-unique ml d (subst (λ x. Expands ml x.fallbacks cs) (sym same) g))
      (Expands-unique ml e f)

-- The names of a list have the same entries in another.
abbrev KeepsNames : List ModelMapping → List ModelMapping → Type 0
KeepsNames ml ml' =
    (name : String) (m : ModelMapping) → by_name ml name ≡ some m → by_name ml' name ≡ some m

Expands-kept :
    (ml ml' : List ModelMapping) {ns : List String} {ts : List DispatchTarget}
    → KeepsNames ml ml'
    → (e : Expands ml ns ts) → IsNamed e
    → Expands ml' ns ts
Expands-kept ml ml' k nothing n = nothing
Expands-kept ml ml' k (direct name m p q e) n =
    direct name m (k name m p) q (Expands-kept ml ml' k e n)
Expands-kept ml ml' k (wild name m p q e) n = absurd n
Expands-kept ml ml' k (virtual name m p q d e) (n, o) =
    virtual name m (k name m p) q (Expands-kept ml ml' k d n) (Expands-kept ml ml' k e o)

module _ (glob : String → String → Option Bool) where
  rebuilt :
      (listed : String → Option (List String)) (pcs : List ProviderConfig)
      (ml ml' : List ModelMapping) (chains : Result ChainMap)
      → inject_discovered_models glob listed pcs ml ≡ some (ml', chains)
      → build_resolved_chains ml' ≡ chains
  unfolding inject_discovered_models
  rebuilt listed pcs ml ml' chains h =
      elim (Option-cases (discover glob listed pcs (explicit_names ml))) [
        | inl e ↦ ground (arith, e, h)
        | inr (added, e) ↦ ground (arith, e, h)
      ]

  -- Discovery does not change what FindModel returns for an explicit entry that stands for a chain
  -- by names alone, its own and those of its fallbacks: it is the same chain after any discovery
  -- that ends with chains, whatever the providers list. A fallback that a wildcard resolves is left
  -- aside, since a discovered entry of its name goes before the wildcard.
  pub find_model_kept :
      (listed : String → Option (List String)) (pcs : List ProviderConfig) (ml : List ModelMapping)
      (c : Config) (chains : ChainMap) (name : String) (m : ModelMapping) (ts : List DispatchTarget)
      → inject_discovered_models glob listed pcs ml ≡ some (c.model_list, ok chains)
      → c.resolved_chains ≡ some chains
      → by_name ml name ≡ some m
      → (e : Expands ml (name ∷ []) ts) → IsNamed e
      → find_model c name ≡ some ts
  find_model_kept listed pcs ml c chains name m ts h r b e n =
      let keeps : KeepsNames ml c.model_list = λ k x q.
        explicit_kept glob listed pcs ml c.model_list (ok chains) k h (λ z. ground (arith, q, z))
        ∙ q in
      let (chain, found, x) =
        find_model-Expands c chains name m (rebuilt listed pcs ml c.model_list (ok chains) h) r
          (keeps name m b) in
      found ∙ ap some (Expands-unique c.model_list x (Expands-kept ml c.model_list keeps e n))
