-- ===== src/Tests/Gates.antt =====
-- Runs of internal/proxy/request_security.go's chain.
use glitchgate.Prelude.{
  ℕ, ◌+◌, ◌*◌, ◌^◌, ◌≤◌, String, ◌==◌, Bool, true, Option, none, some, List, [], ◌∷◌, map, ◌≡◌, ◌↔◌,
  nat_eq, ◌&&◌, same_bytes, refl, arith, bytes, empty_map, if◌then◌else◌,
}
use glitchgate.KeyLimit.{not_found, allow_slot}
use glitchgate.RateLimit
use glitchgate.RateLimit.{Limiter, unit}
use glitchgate.RateLimit.Bound.{final}
use glitchgate.Scope.Keys.{Headers, authenticated, authenticate}
use glitchgate.Gate.{Arrival, Gate, reaches, or_unknown, allow_key_aware, admit, remote_addr_key}
use glitchgate.Gate.Bounded.{addressed, reached, reached_bounded}
use glitchgate.Gate.Reaching.{admit-Identifies}
use glitchgate.Scope.Presented.{Identifies, authenticate-Identifies}

-- Each address in the tests has one port.
abbrev split : String → Option String
split addr = if addr == "10.0.0.1:99" then some "10.0.0.1" else none

-- One key is stored, under its first twelve bytes.
abbrev found : List ℕ → Option ℕ
found prefix = if same_bytes prefix (bytes "llmp_sk_abcd") then some 7 else none

abbrev right : List ℕ → ℕ → Bool
right key stored = nat_eq stored 7 && same_bytes key (bytes "llmp_sk_abcdefgh")

abbrev id_of : ℕ → String
id_of stored = "k"

abbrev second : ℕ
second = 10 ^ 9

abbrev limiter : Limiter
limiter = record {
  entries = empty_map;
  per_minute = 60;
  burst = 2;
  idle_ttl = 900 * second;
  cleanup_every = 60 * second;
  last_cleanup_at = 0;
}

abbrev gate : Gate
gate = record { ip_limiter = some limiter; key_limiter = none }

abbrev arrival : ℕ → Arrival
arrival t = record {
  ip_at = t;
  key_at = record { global_at = t; cache_at = t; key_at = t };
  remote_addr = "10.0.0.1:99";
  path = bytes "/openai/v1/responses";
  headers = record {
    x_api_key = bytes "llmp_sk_abcdefgh";
    x_proxy_api_key = [];
    authorization = [];
  };
  key_limit = not_found;
}

abbrev arrivals : List Arrival
arrivals = arrival second ∷ (arrival second ∷ (arrival second ∷ (arrival (2 * second) ∷ [])))

reached_bounded_example :
    reached split found right id_of "10.0.0.1" gate arrivals * unit + 60 * second
    ≤ 2 * unit + 60 * final second (map (addressed split found right id_of) arrivals)
unfolding remote_addr_key
reached_bounded_example =
    reached_bounded split found right id_of second "10.0.0.1" gate limiter arrivals refl refl
      (omega arith) (omega arith)

abbrev bearer : Headers
bearer = record {
  x_api_key = [];
  x_proxy_api_key = [];
  authorization = bytes "Bearer llmp_sk_abcdefgh";
}

authenticate-Identifies_example :
    (authenticate found right bearer ≡ authenticated 7) ↔ Identifies found right bearer 7
authenticate-Identifies_example = authenticate-Identifies found right bearer 7

-- Both sides hold of it.
bearer_accepted : authenticate found right bearer ≡ authenticated 7
unfolding authenticate
bearer_accepted = refl

admit-Identifies_example : ((admit split found right id_of (arrival second) gate).0 ≡ reaches 7) ↔ (
    ((allow_slot second "10.0.0.1" (some limiter)).0 ≡ true)
    × Identifies found right (arrival second).headers 7
    × ((allow_key_aware (arrival second).key_at not_found (or_unknown "k") none).0 ≡ true))
unfolding remote_addr_key
admit-Identifies_example = admit-Identifies split found right id_of (arrival second) gate 7

arrival-reaches : (admit split found right id_of (arrival second) gate).0 ≡ reaches 7
unfolding admit RateLimit.allow RateLimit.touch RateLimit.swept RateLimit.fresh authenticate
arrival-reaches = refl
