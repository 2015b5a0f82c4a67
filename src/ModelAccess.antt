-- ===== src/ModelAccess.antt =====
-- internal/proxy/model_checker.go: the model allowlist of a proxy key, cached for a time.
-- The store is the function that GetKeyAllowedModels is at each time, and `glob` is
-- filepath.Match: `none` for a bad pattern, which the caller's `matched, _ :=` reads as no match.
-- A call is one atomic step; times are nanoseconds, and `now.Sub(t) < d` is `now < t + d`.
pub mod Coherence
pub mod Verdicts
use glitchgate.Prelude.{
  ℕ, ◌+◌, ◌*◌, ◌^◌, String, Bool, true, false, not, ◌||◌, Option, none, some, Map, empty_map, put,
  remove, retain, ltb, if◌then◌else◌, ℤ, or_default, List, [], ◌∷◌,
}

-- A result with an error.
pub data Fetch : Type 0 where
  fetched : List String → Fetch
  fetch_failed : String → Fetch

pub record AllowlistEntry : Type 0 where
  pub patterns : List String
  pub fetched_at : ℕ

pub record ModelChecker : Type 0 where
  pub ttl : ℕ
  pub cache : Map AllowlistEntry
  pub last_sweep : ℕ

unfoldable pub new_model_checker : ℤ → ModelChecker
new_model_checker ttl = record {
  ttl = or_default ttl (30 * 10 ^ 9);
  cache = empty_map;
  last_sweep = 0;
}

unfoldable pub evict_stale : ℕ → ModelChecker → ModelChecker
evict_stale now mc = if ltb now (mc.last_sweep + 5 * mc.ttl) then mc else record mc {
  last_sweep = now;
  cache = retain (λ e. not (ltb (e.fetched_at + 10 * mc.ttl) now)) mc.cache;
}

unfoldable pub invalidate_key : String → ModelChecker → ModelChecker
invalidate_key key mc = record mc { cache = remove mc.cache key }

-- The fetch after a cache miss.
unfoldable pub refresh : Fetch → ℕ → String → ModelChecker → Fetch × ModelChecker
refresh (fetch_failed e) now key mc = (fetch_failed e, mc)
refresh (fetched ps) now key mc = (
  fetched ps,
  record mc { cache = put mc.cache key (record { patterns = ps; fetched_at = now }) },
)

-- The entry that is served without a fetch.
unfoldable pub fresh_entry : ℕ → ℕ → Option AllowlistEntry → Option (List String)
fresh_entry ttl now none = none
fresh_entry ttl now (some e) = if ltb now (e.fetched_at + ttl) then some e.patterns else none

-- `store` is what the database answers at `now`. The call is one step, though the source asks the
-- database between two critical sections: calls that overlap there are taken one after another.
unfoldable pub get_patterns : (String → Fetch) → ℕ → String → ModelChecker → Fetch × ModelChecker
unfolding refresh fresh_entry evict_stale
get_patterns store now key mc = elim (fresh_entry mc.ttl now (mc.cache key)) [
  | some ps ↦ (fetched ps, mc)
  | none ↦ refresh (store key) now key (evict_stale now mc)
]

-- matched, _ := filepath.Match(...); matched
unfoldable pub matched : Option Bool → Bool
matched none = false
matched (some b) = b

unfoldable pub any_match : (String → String → Option Bool) → String → List String → Bool
unfolding matched
any_match glob model [] = false
any_match glob model (p ∷ ps) = matched (glob p model) || any_match glob model ps

pub data Verdict : Type 0 where
  verdict : Bool → Verdict
  check_failed : String → Verdict

-- IsModelAllowed once the patterns are known.
unfoldable pub judge : (String → String → Option Bool) → String → Fetch → Verdict
unfolding any_match
judge glob model (fetch_failed e) = check_failed e
judge glob model (fetched []) = verdict true
judge glob model (fetched (p ∷ ps)) = verdict (any_match glob model (p ∷ ps))

unfoldable pub is_model_allowed :
    (String → String → Option Bool)
    → (String → Fetch)
    → ℕ
    → String
    → String
    → ModelChecker
    → Verdict × ModelChecker
is_model_allowed glob store now key model mc =
    let (patterns, mc') = get_patterns store now key mc in (judge glob model patterns, mc')
