-- ===== src/Tests/Routing.antt =====
-- The routing theorems at concrete configurations.
use Prim.Native.String.{◌++◌ as join}
use glitchgate.Prelude.{
  put, empty_map, String, Bool, true, false, Option, none, some, List, [], ◌∷◌, ◌++◌, ◌≡◌, ◌≢◌, ◌↔◌,
  refl, ◌==◌,
}
use glitchgate.Config.Types.{ModelMapping, ProviderConfig, DispatchTarget}
use glitchgate.Config.Names.{is_wildcard, matches_wildcard, is_safe_model_suffix, cut_prefix}
use glitchgate.Config.Names.Matching.{matches_wildcard_iff}
use glitchgate.Config.Chains.{
  cycle, err, by_name, detect_all, plain_names, detect_cycle, visit_entry, cycle_error,
  build_resolved_chains,
}
use glitchgate.Config.Chains.Termination.{Reports}
use glitchgate.Config.Chains.Totality.{build_resolved_chains-Reports}
use glitchgate.Config.Chains.Expansion.{Expands, nothing, direct, virtual}
use glitchgate.Config.Routes.{find_model-Expands}
use glitchgate.Config.Chains.{
  ChainMap, check_all_exclusive, check_exclusive, check_all_refs, check_refs, resolve_wildcard,
  flatten_all, flatten, flatten_entry, flatten_refs,
}
use glitchgate.Config.Names.{wildcard_prefix}
use glitchgate.Config.Lookup.{Config, find_model}
use glitchgate.Config.Discovery.{inject_discovered_models}
use glitchgate.Config.Discovery.Kept.{find_model_kept}

abbrev entry : String → String → String → List String → ModelMapping
entry name p up refs = record {
  model_name = name;
  provider = p;
  upstream_model = up;
  fallbacks = refs;
  metadata = none;
  discovered = false;
}

-- Two virtual models that name each other.
abbrev looping : List ModelMapping
looping = entry "a" "" "" ("b" ∷ []) ∷ entry "b" "" "" ("a" ∷ []) ∷ []

abbrev routed : List ModelMapping
routed =
    entry "gc/*" "gc" "" []
    ∷ entry "fast" "p" "m1" []
    ∷ entry "best" "" "" ("gc/opus" ∷ "fast" ∷ [])
    ∷ []

abbrev provider : String → Bool → ProviderConfig
provider name discovers = record {
  name = name;
  type = "openai";
  base_url = "";
  auth_mode = "";
  api_key = "";
  token_dir = "";
  credentials_file = "";
  project = "";
  region = "";
  stream = none;
  discover_models = discovers;
  model_prefix = some "";
  discover_filter = "fast" ∷ "!old" ∷ "new" ∷ [];
}

abbrev two_providers : List ProviderConfig
two_providers = provider "gc" false ∷ provider "p" true ∷ []

-- A glob that knows plain patterns only.
abbrev plain_glob : String → String → Option Bool
plain_glob pattern name = some (pattern == name)

abbrev listing : String → Option (List String)
listing name = some ("fast" ∷ "new" ∷ "old" ∷ [])

matches_wildcard_iff_example : (matches_wildcard "gc" "gc/opus" ≡ some "opus") ↔ (
    ("gc/opus" ≡ join (join "gc" "/") "opus")
    × (◌≢◌ {A = String} "opus" "")
    × (is_safe_model_suffix "opus" ≡ true))
matches_wildcard_iff_example = matches_wildcard_iff "gc" "gc/opus" "opus"

looping_found : detect_all looping ≡ err (cycle ("a" ∷ "b" ∷ "a" ∷ []))
unfolding detect_all plain_names is_wildcard detect_cycle by_name visit_entry cycle_error
looping_found = refl

build_resolved_chains-Reports_example : Reports (build_resolved_chains looping)
build_resolved_chains-Reports_example = build_resolved_chains-Reports looping

known : by_name routed "fast" ≡ some (entry "fast" "p" "m1" [])
unfolding by_name is_wildcard
known = refl

abbrev target : String → String → DispatchTarget
target p up = record { provider = p; upstream_model = up; metadata = none }

abbrev routed_chains : ChainMap
routed_chains =
    put (put (put empty_map "fast" (target "p" "m1" ∷ [])) "gc/opus" (target "gc" "opus" ∷ []))
      "best" (target "gc" "opus" ∷ target "p" "m1" ∷ [])

abbrev config : Config
config = record {
  providers = two_providers;
  model_list = routed;
  resolved_chains = some routed_chains;
}

find_model-Expands_example :
    (chain : List DispatchTarget) × (find_model config "best" ≡ some chain)
    × Expands routed ("best" ∷ []) chain
unfolding build_resolved_chains check_all_exclusive check_exclusive check_all_refs check_refs
    resolve_wildcard detect_all detect_cycle visit_entry plain_names is_wildcard wildcard_prefix
    matches_wildcard is_safe_model_suffix cut_prefix by_name flatten_all flatten flatten_entry
    flatten_refs
find_model-Expands_example =
    find_model-Expands config routed_chains "best" (entry "best" "" "" ("gc/opus" ∷ "fast" ∷ []))
      refl refl refl

-- A model list by names alone, and what discovery makes of it.
abbrev named : List ModelMapping
named = entry "fast" "p" "m1" [] ∷ entry "both" "" "" ("fast" ∷ "fast" ∷ []) ∷ []

abbrev named_chains : ChainMap
named_chains =
    put
      (put (put empty_map "fast" (target "p" "m1" ∷ [])) "both"
        (target "p" "m1" ∷ target "p" "m1" ∷ []))
      "new" (target "p" "new" ∷ [])

abbrev after_discovery : Config
after_discovery = record {
  providers = two_providers;
  model_list = named ++ record (entry "new" "p" "new" []) { discovered = true } ∷ [];
  resolved_chains = some named_chains;
}

find_model_kept_example :
    find_model after_discovery "both" ≡ some (target "p" "m1" ∷ target "p" "m1" ∷ [])
unfolding inject_discovered_models cut_prefix build_resolved_chains check_all_exclusive
    check_exclusive check_all_refs check_refs resolve_wildcard detect_all detect_cycle visit_entry
    plain_names is_wildcard wildcard_prefix by_name flatten_all flatten flatten_entry
find_model_kept_example =
    find_model_kept plain_glob listing two_providers named after_discovery named_chains "both"
      (entry "both" "" "" ("fast" ∷ "fast" ∷ [])) (target "p" "m1" ∷ target "p" "m1" ∷ []) refl refl
      refl
      (virtual "both" _ refl refl
        (direct "fast" (entry "fast" "p" "m1" []) refl refl
          (direct "fast" (entry "fast" "p" "m1" []) refl refl nothing))
        nothing)
      (tt, tt)
