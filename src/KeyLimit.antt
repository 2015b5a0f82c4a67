-- ===== src/KeyLimit.antt =====
-- internal/proxy/key_rate_limiter.go: the rate limit of a proxy key, over the global one.
-- The store's answer is a parameter. A limiter is reached only through the cache slot of its key,
-- so it is held by value and written back there. A call is one atomic step that takes three clock
-- readings: the global limiter's, the cache's and the key limiter's.
pub mod Windows
use glitchgate.Prelude.{
  ℕ, ◌+◌, ◌*◌, ◌^◌, String, Bool, true, false, not, Option, none, some, Map, empty_map, put, retain,
  ltb, if◌then◌else◌, ℤ, pos, or_default,
}
use glitchgate.RateLimit
use glitchgate.RateLimit.{Limiter}

-- What GetKeyRateLimit returns: an error, no limit, or a rate and a burst.
pub data KeyRateLimit : Type 0 where
  limit_failed : KeyRateLimit
  not_found : KeyRateLimit
  limit_found : ℤ → ℤ → KeyRateLimit

pub record KeyLimiterEntry : Type 0 where
  pub limiter : Option Limiter
  pub fetched_at : ℕ

pub record KeyAwareRateLimiter : Type 0 where
  pub global : Option Limiter
  pub ttl : ℕ
  pub per_key : Map KeyLimiterEntry
  pub last_sweep : ℕ

unfoldable pub new_key_aware : Option Limiter → ℤ → KeyAwareRateLimiter
new_key_aware global ttl = record {
  global = global;
  ttl = or_default ttl (30 * 10 ^ 9);
  per_key = empty_map;
  last_sweep = 0;
}

unfoldable pub evict_stale : ℕ → KeyAwareRateLimiter → KeyAwareRateLimiter
evict_stale now kl = if ltb now (kl.last_sweep + 5 * kl.ttl) then kl else record kl {
  last_sweep = now;
  per_key = retain (λ e. not (ltb (e.fetched_at + 10 * kl.ttl) now)) kl.per_key;
}

-- The limiter that an answer of the store makes; 15 minutes of idle time.
unfoldable pub limiter_of : KeyRateLimit → Option Limiter
limiter_of limit_failed = none
limiter_of not_found = none
limiter_of (limit_found per_minute burst) =
    some (RateLimit.new per_minute burst (pos (15 * 60 * 10 ^ 9)))

-- The entry that is served without a fetch.
unfoldable pub fresh_entry : ℕ → ℕ → Option KeyLimiterEntry → Option KeyLimiterEntry
fresh_entry ttl now none = none
fresh_entry ttl now (some e) = if ltb now (e.fetched_at + ttl) then some e else none

-- One step, though the source asks the database between two critical sections: calls that overlap
-- there are taken one after another.
unfoldable pub get_key_limiter :
    KeyRateLimit → ℕ → String → KeyAwareRateLimiter → KeyLimiterEntry × KeyAwareRateLimiter
unfolding fresh_entry evict_stale limiter_of
get_key_limiter answer now key kl = elim (fresh_entry kl.ttl now (kl.per_key key)) [
  | some e ↦ (e, kl)
  | none ↦
      let kl' = evict_stale now kl in
      let e : KeyLimiterEntry = record { limiter = limiter_of answer; fetched_at = now } in
      (e, record kl' { per_key = put kl'.per_key key e })
]

-- limiter == nil || limiter.Allow(keyID), with the limiter written back.
unfoldable pub allow_slot : ℕ → String → Option Limiter → Bool × Option Limiter
allow_slot now key none = (true, none)
allow_slot now key (some l) = let (ok, l') = RateLimit.allow now key l in (ok, some l')

-- The clock readings of one call.
pub record Readings : Type 0 where
  pub global_at : ℕ
  pub cache_at : ℕ
  pub key_at : ℕ

-- Allow from `getKeyLimiter` on.
unfoldable pub allow_key :
    Readings → KeyRateLimit → String → KeyAwareRateLimiter → Bool × KeyAwareRateLimiter
unfolding get_key_limiter allow_slot
allow_key at answer key kl =
    let (e, kl') = get_key_limiter answer at.cache_at key kl in
    let (ok, l) = allow_slot at.key_at key e.limiter in
    (ok, record kl' { per_key = put kl'.per_key key (record e { limiter = l }) })

unfoldable pub allow :
    Readings → KeyRateLimit → String → KeyAwareRateLimiter → Bool × KeyAwareRateLimiter
unfolding allow_slot allow_key
allow at answer key kl =
    let (ok, g) = allow_slot at.global_at key kl.global in
    let kl' = record kl { global = g } in if ok then allow_key at answer key kl' else (false, kl')
