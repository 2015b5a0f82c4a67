-- ===== src/Config/Chains.antt =====
-- internal/config/config.go, buildResolvedChains: validation of the model list and its flattening
-- into dispatch chains. The two recursions, detectCycle and flatten, run on fuel; one more than
-- the number of models is enough, which Termination and Totality prove.
pub mod Termination
pub mod Walks
pub mod Acyclic
pub mod Expansion
pub mod Flattening
pub mod Totality
pub mod Stored
use glitchgate.Prelude.{
  ℕ, zero, suc, String, Bool, true, false, not, ◌&&◌, ◌||◌, Option, none, some, List, [], ◌∷◌, ◌++◌,
  ◌==◌, if◌then◌else◌, length, Map, empty_map, put,
}
use glitchgate.Config.Types.{ModelMapping, DispatchTarget}
use glitchgate.Config.Names.{is_wildcard, wildcard_prefix, matches_wildcard, no_fallbacks}

pub data ConfigError : Type 0 where
  both_set : String → ConfigError
  neither_set : String → ConfigError
  undefined_fallback : String → String → ConfigError
  cycle : List String → ConfigError
  cycle_involving : String → ConfigError
  not_found : String → ConfigError
  -- The model's own: the fuel ran out.
  out_of_fuel : ConfigError

pub data Result {ℓ} (A : Type ℓ) : Type ℓ where
  ok : A → Result A
  err : ConfigError → Result A

infixl 10 ◌>>=◌
abbrev pub ◌>>=◌ {ℓ κ} : {A : Type ℓ} {B : Type κ} → Result A → (A → Result B) → Result B
ok a >>= f = f a
err e >>= f = err e

-- c.ModelList[byName[name]]: of several entries of one name the last counts.
unfoldable pub by_name : List ModelMapping → String → Option ModelMapping
by_name [] name = none
by_name (m ∷ ms) name = elim (by_name ms name) [
  | some later ↦ some later
  | none ↦ if not (is_wildcard m) && m.model_name == name then some m else none
]

-- What a wildcard entry makes of a name that it matches: its metadata is not carried over.
abbrev pub derived : String → ModelMapping → String → ModelMapping
derived name m suffix = record {
  model_name = name;
  provider = m.provider;
  upstream_model = suffix;
  fallbacks = [];
  metadata = none;
  discovered = false;
}

unfoldable pub resolve_wildcard : List ModelMapping → String → Option ModelMapping
resolve_wildcard [] name = none
resolve_wildcard (m ∷ ms) name =
    let rest = resolve_wildcard ms name in
    if wildcard_prefix m == "" then rest else elim (matches_wildcard (wildcard_prefix m) name) [
      | some suffix ↦ some (derived name m suffix)
      | none ↦ rest
    ]

-- Pass 1, one entry.
unfoldable pub check_exclusive : ModelMapping → Result (Unit {0})
check_exclusive m =
    let direct = not (m.provider == "") || not (m.upstream_model == "") in
    let virtual = not (no_fallbacks m.fallbacks) in
    if is_wildcard m
    then ok tt
    else if direct && virtual
    then err (both_set m.model_name)
    else if not direct && not virtual
    then err (neither_set m.model_name)
    else ok tt

unfoldable pub check_all_exclusive : List ModelMapping → Result (Unit {0})
check_all_exclusive [] = ok tt
check_all_exclusive (m ∷ ms) = check_exclusive m >>= λ _. check_all_exclusive ms

abbrev pub is_some {ℓ} : {A : Type ℓ} → Option A → Bool
is_some none = false
is_some (some a) = true

-- Pass 2: the fallbacks of one entry, and of all.
unfoldable pub check_refs : List ModelMapping → String → List String → Result (Unit {0})
check_refs ml name [] = ok tt
check_refs ml name (ref ∷ refs) =
    let rest = check_refs ml name refs in
    if is_some (by_name ml ref) || is_some (resolve_wildcard ml ref)
    then rest
    else err (undefined_fallback name ref)

unfoldable pub check_all_refs : List ModelMapping → List ModelMapping → Result (Unit {0})
check_all_refs ml [] = ok tt
check_all_refs ml (m ∷ ms) = check_refs ml m.model_name m.fallbacks >>= λ _. check_all_refs ml ms

-- Pass 3.
pub data Visit : Type 0 where
  unvisited visiting visited : Visit

abbrev pub Visits : Type 0
Visits = String → Visit

abbrev pub mark : String → Visit → Visits → Visits
mark name v st k = if name == k then v else st k

-- The path from the first occurrence of the name on.
unfoldable pub from_first : String → List String → Option (List String)
from_first name [] = none
from_first name (n ∷ path) =
    let rest = from_first name path in if n == name then some (n ∷ path) else rest

unfoldable pub cycle_error : String → List String → ConfigError
unfolding from_first
cycle_error name path = elim (from_first name path) [
  | some part ↦ cycle (part ++ name ∷ [])
  | none ↦ cycle_involving name
]

-- A loop that threads a state and stops at an error.
unfoldable pub each {ℓ} : {S : Type ℓ} → (String → S → Result S) → List String → S → Result S
each f [] s = ok s
each f (r ∷ rs) s = f r s >>= each f rs

-- The rest of detectCycle for an entry of the list.
unfoldable pub visit_entry :
    (String → List String → Visits → Result Visits)
    → String
    → List String
    → ModelMapping
    → Visits
    → Result Visits
unfolding each
visit_entry next name path m st =
    if no_fallbacks m.fallbacks
    then ok (mark name visited st)
    else each (λ r s. next r (path ++ name ∷ []) s) m.fallbacks (mark name visiting st) >>= λ st'.
        ok (mark name visited st')

abbrev pub visit_known :
    (String → List String → Visits → Result Visits)
    → String
    → List String
    → Option ModelMapping
    → Visits
    → Result Visits
visit_known next name path none st = ok st
visit_known next name path (some m) st = visit_entry next name path m st

abbrev pub visit_by :
    (String → List String → Visits → Result Visits)
    → String
    → List String
    → Option ModelMapping
    → Visits
    → Visit
    → Result Visits
visit_by next name path o st visited = ok st
visit_by next name path o st visiting = err (cycle_error name path)
visit_by next name path o st unvisited = visit_known next name path o st

unfoldable pub detect_cycle : List ModelMapping → ℕ → String → List String → Visits → Result Visits
detect_cycle ml zero name path st = err out_of_fuel
detect_cycle ml (suc fuel) name path st =
    visit_by (λ r p s. detect_cycle ml fuel r p s) name path (by_name ml name) st (st name)

-- The names of the entries that are not wildcards.
unfoldable pub plain_names : List ModelMapping → List String
plain_names [] = []
plain_names (m ∷ ms) =
    let rest = plain_names ms in if is_wildcard m then rest else m.model_name ∷ rest

unfoldable pub detect_all : List ModelMapping → Result Visits
unfolding each
detect_all ml =
    each (λ r s. detect_cycle ml (suc (length ml)) r [] s) (plain_names ml) (λ k. unvisited)

-- Pass 4.
abbrev pub ChainMap : Type 0
ChainMap = Map (List DispatchTarget)

abbrev pub target_of : ModelMapping → DispatchTarget
target_of m = record {
  provider = m.provider;
  upstream_model = m.upstream_model;
  metadata = m.metadata;
}

-- A flattening step: the chain of a name, and the chains computed so far.
abbrev pub Flatten : Type 0
Flatten = String → ChainMap → Result (List DispatchTarget × ChainMap)

-- The loop over the fallbacks, appending to `chain`.
unfoldable pub flatten_refs :
    Flatten → List String → List DispatchTarget → ChainMap → Result (List DispatchTarget × ChainMap)
flatten_refs next [] chain chains = ok (chain, chains)
flatten_refs next (ref ∷ refs) chain chains =
    next ref chains >>= λ r. flatten_refs next refs (chain ++ r.0) r.1

-- chains[name] = chain
abbrev pub store_chain :
    String → List DispatchTarget × ChainMap → Result (List DispatchTarget × ChainMap)
store_chain name (chain, chains) = ok (chain, put chains name chain)

unfoldable pub flatten_entry :
    Flatten → String → ModelMapping → ChainMap → Result (List DispatchTarget × ChainMap)
unfolding flatten_refs
flatten_entry next name m chains =
    if no_fallbacks m.fallbacks
    then store_chain name (target_of m ∷ [], chains)
    else flatten_refs next m.fallbacks [] chains >>= store_chain name

abbrev pub flatten_wild :
    String → Option ModelMapping → ChainMap → Result (List DispatchTarget × ChainMap)
flatten_wild name none chains = err (not_found name)
flatten_wild name (some wm) chains = store_chain name (target_of wm ∷ [], chains)

abbrev pub flatten_new :
    Flatten
    → String
    → Option ModelMapping
    → Option ModelMapping
    → ChainMap
    → Result (List DispatchTarget × ChainMap)
flatten_new next name none wild chains = flatten_wild name wild chains
flatten_new next name (some m) wild chains = flatten_entry next name m chains

abbrev pub flatten_by :
    Flatten
    → String
    → Option ModelMapping
    → Option ModelMapping
    → ChainMap
    → Option (List DispatchTarget)
    → Result (List DispatchTarget × ChainMap)
flatten_by next name o wild chains (some chain) = ok (chain, chains)
flatten_by next name o wild chains none = flatten_new next name o wild chains

unfoldable pub flatten : List ModelMapping → ℕ → Flatten
flatten ml zero name chains = err out_of_fuel
flatten ml (suc fuel) name chains =
    flatten_by (λ r cs. flatten ml fuel r cs) name (by_name ml name) (resolve_wildcard ml name)
      chains (chains name)

unfoldable pub flatten_all : List ModelMapping → Result ChainMap
unfolding each
flatten_all ml =
    each (λ r cs. flatten ml (suc (length ml)) r cs >>= λ x. ok x.1) (plain_names ml) empty_map

unfoldable pub build_resolved_chains : List ModelMapping → Result ChainMap
build_resolved_chains ml = check_all_exclusive ml >>= λ _.
    check_all_refs ml ml >>= λ _. detect_all ml >>= λ _. flatten_all ml
