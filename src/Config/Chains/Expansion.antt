-- ===== src/Config/Chains/Expansion.antt =====
-- internal/config/config.go, flatten: what a dispatch chain is, said without the cache and the fuel.
use mathlib.Core.List.{append_assoc, append-nil}
use glitchgate.Prelude.{
  ℕ, zero, suc, String, true, false, Option, none, some, List, [], ◌∷◌, ◌++◌, ◌==◌, eq_iff, eq_refl,
  ◌≡◌, ◌≢◌, refl, sym, subst, ◌∙◌, inl, inr, arith, Bool-cases, put,
}
use glitchgate.Config.Types.{ModelMapping, DispatchTarget}
use glitchgate.Config.Names.{no_fallbacks}
use glitchgate.Config.Chains.{
  Result, ok, err, ◌>>=◌, by_name, resolve_wildcard, ChainMap, target_of, Flatten, flatten_refs,
  store_chain, flatten_entry, flatten_by, flatten,
}

-- The targets that a list of names stands for, in order: an entry's own target, a wildcard's, or
-- those of an entry's fallbacks.
pub data Expands (ml : List ModelMapping) : List String → List DispatchTarget → Type 0 where
  nothing : Expands ml [] []
  direct :
      (name : String) (m : ModelMapping) {ns : List String} {ts : List DispatchTarget}
      → by_name ml name ≡ some m
      → no_fallbacks m.fallbacks ≡ true
      → Expands ml ns ts
      → Expands ml (name ∷ ns) (target_of m ∷ ts)
  wild :
      (name : String) (m : ModelMapping) {ns : List String} {ts : List DispatchTarget}
      → by_name ml name ≡ none
      → resolve_wildcard ml name ≡ some m
      → Expands ml ns ts
      → Expands ml (name ∷ ns) (target_of m ∷ ts)
  virtual :
      (name : String) (m : ModelMapping) {ns : List String} {cs ts : List DispatchTarget}
      → by_name ml name ≡ some m
      → no_fallbacks m.fallbacks ≡ false
      → Expands ml m.fallbacks cs
      → Expands ml ns ts
      → Expands ml (name ∷ ns) (cs ++ ts)

Expands-append :
    (ml : List ModelMapping) {ns ms : List String} {ts us : List DispatchTarget}
    → Expands ml ns ts
    → Expands ml ms us
    → Expands ml (ns ++ ms) (ts ++ us)
Expands-append ml nothing f = f
Expands-append ml (direct name m p q e) f = direct name m p q (Expands-append ml e f)
Expands-append ml (wild name m p q e) f = wild name m p q (Expands-append ml e f)
Expands-append ml {ms = ms} {us = us} (virtual name m {ns = ns} {cs = cs} {ts = ts} p q d e) f =
    subst (Expands ml (name ∷ (ns ++ ms))) (sym (append_assoc cs ts us))
      (virtual name m p q d (Expands-append ml e f))

-- Every stored chain is its name's.
unfoldable pub Sound : List ModelMapping → ChainMap → Type 0
Sound ml chains =
    (name : String) (c : List DispatchTarget) → chains name ≡ some c → Expands ml (name ∷ []) c

-- Stored chains stay stored.
unfoldable pub Grows : ChainMap → ChainMap → Type 0
Grows chains chains' = (name : String) → chains name ≢ none → chains' name ≢ none

-- What a step gives for a name.
unfoldable pub Flat :
    List ModelMapping → String → ChainMap → Result (List DispatchTarget × ChainMap) → Type 0
Flat ml name chains (err e) = Unit
Flat ml name chains (ok (c, chains')) =
    Expands ml (name ∷ []) c × Sound ml chains' × Grows chains chains' × (chains' name ≢ none)

-- What the loop over the fallbacks gives, from a chain on.
FlatFrom :
    List ModelMapping
    → List String
    → List DispatchTarget
    → ChainMap
    → Result (List DispatchTarget × ChainMap)
    → Type 0
FlatFrom ml refs chain chains (err e) = Unit
FlatFrom ml refs chain chains (ok (c, chains')) =
    ((rest : List DispatchTarget) × (c ≡ chain ++ rest) × Expands ml refs rest)
    × Sound ml chains'
    × Grows chains chains'

-- A flattening step that is right for every name and sound cache.
unfoldable pub Flattens : List ModelMapping → Flatten → Type 0
Flattens ml next =
    (name : String) (chains : ChainMap) → Sound ml chains → Flat ml name chains (next name chains)

Sound-put :
    (ml : List ModelMapping) (chains : ChainMap) (name : String) (c : List DispatchTarget)
    → Sound ml chains
    → Expands ml (name ∷ []) c
    → Sound ml (put chains name c)
unfolding Sound
Sound-put ml chains name c s e k d h = elim (Bool-cases (name == k)) [
  | inl same ↦
      subst (λ n. Expands ml (n ∷ []) d) ((eq_iff name k).0 same)
        (subst (Expands ml (name ∷ [])) (ground (arith, h, same)) e)
  | inr other ↦ s k d (ground (arith, h, other))
]

Grows-put :
    (chains : ChainMap) (name : String) (c : List DispatchTarget) → Grows chains (put chains name c)
unfolding Grows
Grows-put chains name c k h = ground (arith, h)

pub Grows-refl : (chains : ChainMap) → Grows chains chains
unfolding Grows
Grows-refl chains k h = h

stored-Flat :
    (ml : List ModelMapping) (name : String) (c : List DispatchTarget) (before chains : ChainMap)
    → Sound ml chains
    → Grows before chains
    → Expands ml (name ∷ []) c
    → Flat ml name before (store_chain name (c, chains))
unfolding Flat Grows
stored-Flat ml name c before chains s g e = (
  e,
  Sound-put ml chains name c s e,
  (λ k h. Grows-put chains name c k (g k h)),
  ground (arith, eq_refl name),
)

prefix-FlatFrom :
    (ml : List ModelMapping) (ref : String) (refs : List String) (chain c : List DispatchTarget)
    (chains chains' : ChainMap) (r : Result (List DispatchTarget × ChainMap))
    → Expands ml (ref ∷ []) c
    → Grows chains chains'
    → FlatFrom ml refs (chain ++ c) chains' r
    → FlatFrom ml (ref ∷ refs) chain chains r
unfolding FlatFrom Grows
prefix-FlatFrom ml ref refs chain c chains chains' (err e) x g f = tt
prefix-FlatFrom ml ref refs chain c chains chains' (ok (d, chains'')) x g ((rest, p, y), s, g') =
    ((c ++ rest, p ∙ append_assoc chain c rest, Expands-append ml x y), s, λ k h. g' k (g k h))

flatten_refs-FlatFrom :
    (ml : List ModelMapping) (next : Flatten)
    → Flattens ml next
    → (refs : List String) (chain : List DispatchTarget) (chains : ChainMap) → Sound ml chains
    → FlatFrom ml refs chain chains (flatten_refs next refs chain chains)
unfolding flatten_refs FlatFrom Grows Flat Flattens
flatten_refs-FlatFrom ml next f [] chain chains s =
    (([], sym (append-nil chain), nothing), s, λ k h. h)
flatten_refs-FlatFrom ml next f (ref ∷ refs) chain chains s =
    go (next ref chains) (f ref chains s)
      (λ c chains' s'. flatten_refs-FlatFrom ml next f refs (chain ++ c) chains' s')
  where
    go :
        (o : Result (List DispatchTarget × ChainMap))
        → Flat ml ref chains o
        → ((c : List DispatchTarget) (chains' : ChainMap)
            → Sound ml chains'
            → FlatFrom ml refs (chain ++ c) chains' (flatten_refs next refs (chain ++ c) chains'))
        → FlatFrom ml
            (ref ∷ refs)
            chain
            chains
            (o >>= λ r. flatten_refs next refs (chain ++ r.0) r.1)
    go (err e) x rest = tt
    go (ok (c, chains')) (x, s', g, n) rest =
        prefix-FlatFrom ml ref refs chain c chains chains'
          (flatten_refs next refs (chain ++ c) chains') x g (rest c chains' s')

virtual-Flat :
    (ml : List ModelMapping) (name : String) (m : ModelMapping) (chains : ChainMap)
    (r : Result (List DispatchTarget × ChainMap))
    → by_name ml name ≡ some m
    → no_fallbacks m.fallbacks ≡ false
    → FlatFrom ml m.fallbacks [] chains r
    → Flat ml name chains (r >>= store_chain name)
unfolding FlatFrom Flat
virtual-Flat ml name m chains (err e) p q f = tt
virtual-Flat ml name m chains (ok (c, chains')) p q ((rest, eq, y), s, g) =
    stored-Flat ml name c chains chains' s g
      (subst (Expands ml (name ∷ [])) (append-nil rest ∙ sym eq) (virtual name m p q y nothing))

entry-Flat :
    (ml : List ModelMapping) (next : Flatten)
    → Flattens ml next
    → (name : String) (m : ModelMapping) (chains : ChainMap) → Sound ml chains
    → by_name ml name ≡ some m
    → Flat ml name chains (flatten_entry next name m chains)
unfolding flatten_entry
entry-Flat ml next f name m chains s p = elim (Bool-cases (no_fallbacks m.fallbacks)) [
  | inl q ↦
      rw (flatten_entry, q)
        (stored-Flat ml name (target_of m ∷ []) chains chains s (Grows-refl chains)
          (direct name m p q nothing))
  | inr q ↦
      rw (flatten_entry, q)
        (virtual-Flat ml name m chains (flatten_refs next m.fallbacks [] chains) p q
          (flatten_refs-FlatFrom ml next f m.fallbacks [] chains s))
]

by-Flat :
    (ml : List ModelMapping) (next : Flatten)
    → Flattens ml next
    → (name : String) (o wild' : Option ModelMapping) (chains : ChainMap)
      (known : Option (List DispatchTarget))
    → Sound ml chains
    → by_name ml name ≡ o
    → resolve_wildcard ml name ≡ wild'
    → chains name ≡ known
    → Flat ml name chains (flatten_by next name o wild' chains known)
unfolding Flat Sound
by-Flat ml next f name o w chains (some c) s p q k =
    (s name c k, s, Grows-refl chains, ground (arith, k))
by-Flat ml next f name none none chains none s p q k = tt
by-Flat ml next f name none (some m) chains none s p q k =
    stored-Flat ml name (target_of m ∷ []) chains chains s (Grows-refl chains)
      (wild name m p q nothing)
by-Flat ml next f name (some m) w chains none s p q k = entry-Flat ml next f name m chains s p

pub flatten-Flattens : (ml : List ModelMapping) (fuel : ℕ) → Flattens ml (flatten ml fuel)
unfolding flatten Flattens Flat
flatten-Flattens ml zero name chains s = tt
flatten-Flattens ml (suc fuel) name chains s =
    by-Flat ml (flatten ml fuel) (flatten-Flattens ml fuel) name (by_name ml name)
      (resolve_wildcard ml name) chains (chains name) s refl refl refl
