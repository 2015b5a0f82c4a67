-- ===== src/Config/Routes.antt =====
-- internal/config/config.go, FindModel after Load: what a request's model name is routed to.
use glitchgate.Prelude.{String, some, List, [], ◌∷◌, ◌≡◌, refl}
use glitchgate.Config.Types.{ModelMapping, DispatchTarget}
use glitchgate.Config.Chains.{ChainMap, ok, by_name, build_resolved_chains}
use glitchgate.Config.Chains.Expansion.{Expands}
use glitchgate.Config.Chains.Stored.{resolved_chains-Expands}
use glitchgate.Config.Lookup.{Config, known_chain, find_model}

-- With the chains that a run of buildResolvedChains without an error stores, FindModel finds the
-- name of every entry that is not a wildcard, and returns what the entry stands for: its own
-- target, or the targets of its fallbacks in order, each expanded in the same way or resolved by a
-- wildcard.
pub find_model-Expands :
    (c : Config) (chains : ChainMap) (name : String) (m : ModelMapping)
    → build_resolved_chains c.model_list ≡ ok chains
    → c.resolved_chains ≡ some chains
    → by_name c.model_list name ≡ some m
    → (chain : List DispatchTarget) × (find_model c name ≡ some chain)
      × Expands c.model_list (name ∷ []) chain
unfolding find_model known_chain
find_model-Expands c chains name m b r h =
    let (chain, e, x) = resolved_chains-Expands c.model_list chains name m b h in
    (chain, rw (find_model, known_chain, r, e) refl, x)
