-- ===== src/Config/Lookup.antt =====
-- internal/config/config.go: a model name's dispatch chain, its entry, a provider's entry.
use glitchgate.Prelude.{
  ℕ, suc, String, Option, none, some, List, [], ◌∷◌, ◌==◌, if◌then◌else◌, Map, put,
}
use glitchgate.Config.Types.{ModelMapping, DispatchTarget, ProviderConfig}
use glitchgate.Config.Names.{wildcard_prefix, matches_wildcard}
use glitchgate.Config.Chains.{ChainMap, target_of}

-- The fields of Config that routing reads; `resolved_chains` is `none` where the map is nil.
pub record Config : Type 0 where
  pub providers : List ProviderConfig
  pub model_list : List ModelMapping
  pub resolved_chains : Option ChainMap

unfoldable pub find_named_provider : List ProviderConfig → String → Option ProviderConfig
find_named_provider [] name = none
find_named_provider (p ∷ ps) name =
    let rest = find_named_provider ps name in if p.name == name then some p else rest

unfoldable pub find_provider : Config → String → Option ProviderConfig
unfolding find_named_provider
find_provider c name = find_named_provider c.providers name

-- The linear scans of the model list.
unfoldable pub exact_entry : List ModelMapping → String → Option ModelMapping
exact_entry [] name = none
exact_entry (m ∷ ms) name =
    let rest = exact_entry ms name in if m.model_name == name then some m else rest

unfoldable pub wildcard_entry : List ModelMapping → String → Option (ModelMapping × String)
wildcard_entry [] name = none
wildcard_entry (m ∷ ms) name =
    let rest = wildcard_entry ms name in
    if wildcard_prefix m == "" then rest else elim (matches_wildcard (wildcard_prefix m) name) [
      | some suffix ↦ some (m, suffix)
      | none ↦ rest
    ]

-- Pass 1 of FindModel.
unfoldable pub known_chain : Config → String → Option (List DispatchTarget)
unfolding exact_entry
known_chain c name = elim c.resolved_chains [
  | some chains ↦ chains name
  | none ↦ elim (exact_entry c.model_list name) [ none ↦ none | some m ↦ some (target_of m ∷ []) ]
]

-- Pass 2 of FindModel: the wildcard entry's metadata is kept.
unfoldable pub wildcard_chain : Config → String → Option (List DispatchTarget)
unfolding wildcard_entry
wildcard_chain c name = elim (wildcard_entry c.model_list name) [
  | none ↦ none
  | some (m, suffix) ↦
      some (record { provider = m.provider; upstream_model = suffix; metadata = m.metadata } ∷ [])
]

unfoldable pub find_model : Config → String → Option (List DispatchTarget)
unfolding known_chain wildcard_chain
find_model c name = elim (known_chain c name) [
  | some chain ↦ some chain
  | none ↦ wildcard_chain c name
]

unfoldable pub resolve_model : Config → String → Option (ModelMapping × String)
unfolding exact_entry wildcard_entry
resolve_model c name = elim (exact_entry c.model_list name) [
  | some m ↦ some (m, m.upstream_model)
  | none ↦ wildcard_entry c.model_list name
]

-- WildcardPrefixes: the map from the list's index `i` on, over the map built so far.
unfoldable pub wildcard_prefixes : List ModelMapping → ℕ → Map ℕ → Map ℕ
wildcard_prefixes [] i built = built
wildcard_prefixes (m ∷ ms) i built =
    wildcard_prefixes ms (suc i)
      (if wildcard_prefix m == "" then built else put built (wildcard_prefix m) i)
