-- ===== src/Config/Discovery.antt =====
-- internal/config/discovery.go: the models that providers report, filtered and added to the list.
pub mod Filtering
pub mod Kept
use Prim.Native.String.{◌++◌}
use glitchgate.Prelude.{◌++◌ as append}
use glitchgate.Prelude.{
  ℕ, zero, suc, String, Bool, true, false, not, ◌&&◌, ◌||◌, Option, none, some, List, [], ◌∷◌, ◌==◌,
  if◌then◌else◌, Map, put, empty_map,
}
use glitchgate.Config.Types.{ModelMapping, ProviderConfig}
use glitchgate.Config.Names.{cut_prefix}
use glitchgate.Config.Chains.{ChainMap, ConfigError, Result, ok, err, build_resolved_chains}

unfoldable pub is_discovery_capable : String → Bool
is_discovery_capable type =
    type == "anthropic" || type == "openai" || type == "openai_responses" || type == "gemini"

-- validateDiscoveryProviders: the first provider refused.
unfoldable pub validate_discovery_providers : List ProviderConfig → Option String
unfolding is_discovery_capable
validate_discovery_providers [] = none
validate_discovery_providers (p ∷ ps) =
    let rest = validate_discovery_providers ps in
    if p.discover_models && not (is_discovery_capable p.type) then some p.name else rest

unfoldable pub has_discovery_providers : List ProviderConfig → Bool
has_discovery_providers [] = false
has_discovery_providers (p ∷ ps) =
    let rest = has_discovery_providers ps in if p.discover_models then true else rest

-- The new entry of one model.
abbrev pub discovered_entry : ProviderConfig → String → String → ModelMapping
discovered_entry pc name id = record {
  model_name = name;
  provider = pc.name;
  upstream_model = id;
  fallbacks = [];
  metadata = none;
  discovered = true;
}

abbrev pub prefix_of : ProviderConfig → String
prefix_of pc = elim pc.model_prefix [ none ↦ pc.name ++ "/" | some p ↦ p ]

unfoldable pub explicit_names : List ModelMapping → Map (Unit {0})
explicit_names [] = empty_map
explicit_names (m ∷ ms) = put (explicit_names ms) m.model_name tt

-- filepath.Match is the parameter `glob`: pattern, then name; `none` for a malformed pattern.
module _ (glob : String → String → Option Bool) where
  -- The loop over the patterns, with hasInclude and included; `none` for an error.
  unfoldable pub filter_from : String → List String → Bool → Bool → Option Bool
  filter_from id [] has_include included = some (if not has_include then true else included)
  filter_from id (pattern ∷ patterns) has_include included = elim (cut_prefix "!" pattern) [
    | some exclude ↦ elim (glob exclude id) [
      | none ↦ none
      | some true ↦ some false
      | some false ↦ filter_from id patterns has_include included
    ]
    | none ↦ elim (glob pattern id) [
      | none ↦ none
      | some matched ↦ filter_from id patterns true (included || matched)
    ]
  ]

  unfoldable pub match_discover_filter : String → List String → Option Bool
  unfolding filter_from
  match_discover_filter id [] = some true
  match_discover_filter id (f ∷ fs) = filter_from id (f ∷ fs) false false

  -- The loop over the models that one provider lists: the names taken, and the entries to append.
  unfoldable pub add_models :
      ProviderConfig → List String → Map (Unit {0}) → Option (List ModelMapping × Map (Unit {0}))
  unfolding match_discover_filter
  add_models pc [] explicit = some ([], explicit)
  add_models pc (id ∷ ids) explicit = elim (match_discover_filter id pc.discover_filter) [
    | none ↦ none
    | some false ↦ add_models pc ids explicit
    | some true ↦ elim (explicit (prefix_of pc ++ id)) [
      | some x ↦ add_models pc ids explicit
      | none ↦ elim (add_models pc ids (put explicit (prefix_of pc ++ id) tt)) [
        | none ↦ none
        | some (added, explicit') ↦
            some (discovered_entry pc (prefix_of pc ++ id) id ∷ added, explicit')
      ]
    ]
  ]

  -- The loop over the providers. What a provider lists is the parameter: `none` where it is not in
  -- the registry, cannot list models, or fails to.
  unfoldable pub discover :
      (String → Option (List String))
      → List ProviderConfig
      → Map (Unit {0})
      → Option (List ModelMapping)
  unfolding add_models
  discover listed [] explicit = some []
  discover listed (pc ∷ pcs) explicit = elim pc.discover_models [
    | false ↦ discover listed pcs explicit
    | true ↦ elim (listed pc.name) [
      | none ↦ discover listed pcs explicit
      | some ids ↦ elim (add_models pc ids explicit) [
        | none ↦ none
        | some (added, explicit') ↦ elim (discover listed pcs explicit') [
          | none ↦ none
          | some more ↦ some (append added more)
        ]
      ]
    ]
  ]

  -- The model list and the chains after a run; `none` for a malformed pattern, at which the caller
  -- (internal/app/providers.go) gives up, so that what was appended before it is not kept.
  unfoldable pub inject_discovered_models :
      (String → Option (List String))
      → List ProviderConfig
      → List ModelMapping
      → Option (List ModelMapping × Result ChainMap)
  unfolding discover explicit_names
  inject_discovered_models listed pcs ml = elim (discover listed pcs (explicit_names ml)) [
    | none ↦ none
    | some added ↦ some (append ml added, build_resolved_chains (append ml added))
  ]
