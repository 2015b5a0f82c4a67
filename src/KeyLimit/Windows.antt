-- ===== src/KeyLimit/Windows.antt =====
-- What the cache's time to live does to the limit of a key.
use glitchgate.Prelude.{
  ℕ, ◌+◌, ◌*◌, ◌≤◌, ◌<◌, ◌∙◌, ◌^◌, ◌≡◌, refl, String, true, Option, none, some, arith, ℤ,
  or_default, pos, zero, suc, negsuc,
}
use glitchgate.RateLimit
use glitchgate.RateLimit.{Limiter, unit, fresh, touch, swept, entry_or}
use glitchgate.KeyLimit.{
  KeyRateLimit, limit_found, KeyLimiterEntry, KeyAwareRateLimiter, fresh_entry, limiter_of,
  get_key_limiter, allow_slot, Readings, allow_key, allow,
}

or_default_pos : (z : ℤ) (d : ℕ) → 0 < d → 0 < or_default z d
or_default_pos (pos zero) d h = h
or_default_pos (pos (suc n)) d h = omega arith
or_default_pos (negsuc n) d h = h

touch-fresh : (rate burst now : ℕ) → 0 < burst → (touch rate burst now (fresh burst now)).0 ≡ true
unfolding touch fresh
touch-fresh rate burst now h = ground arith

-- A limiter that was just made admits its first request.
pub allow-new :
    (per_minute burst idle_ttl : ℤ) (now : ℕ) (key : String)
    → (RateLimit.allow now key (RateLimit.new per_minute burst idle_ttl)).0 ≡ true
unfolding RateLimit.allow RateLimit.new swept
allow-new per_minute burst idle_ttl now key =
    touch-fresh (or_default per_minute 1) (or_default burst 1) now
      (or_default_pos burst 1 (omega arith))

-- The slot of a key is empty, or its entry has reached the time to live.
abbrev pub IsExpired : ℕ → ℕ → Option KeyLimiterEntry → Type 0
IsExpired ttl now none = Unit
IsExpired ttl now (some e) = e.fetched_at + ttl ≤ now

expired :
    (ttl now : ℕ) (o : Option KeyLimiterEntry) → IsExpired ttl now o → fresh_entry ttl now o ≡ none
unfolding fresh_entry
expired ttl now none h = refl
expired ttl now (some e) h = ground arith

allow_key-miss :
    (at : Readings) (answer : KeyRateLimit) (key : String) (kl : KeyAwareRateLimiter)
    → fresh_entry kl.ttl at.cache_at (kl.per_key key) ≡ none
    → (allow_key at answer key kl).0 ≡ (allow_slot at.key_at key (limiter_of answer)).0
unfolding allow_key
allow_key-miss at answer key kl h = rw (h, get_key_limiter)

allow_no_global :
    (at : Readings) (answer : KeyRateLimit) (key : String) (kl : KeyAwareRateLimiter)
    (global : Option Limiter)
    → global ≡ none
    → (allow at answer key (record kl { global = global })).0
      ≡ (allow_key at answer key (record kl { global = none })).0
unfolding allow
allow_no_global at answer key kl none g = refl
allow_no_global at answer key kl (some l) g = cc

-- With no global limit, a request that finds the cached entry of its key expired is admitted by any
-- rate and burst that the store gives for the key, whatever the key has used up before: the limiter
-- and its spent tokens are replaced by a new limiter with a full bucket.
allow_expired :
    (at : Readings) (per_minute burst : ℤ) (key : String) (kl : KeyAwareRateLimiter)
    → kl.global ≡ none
    → IsExpired kl.ttl at.cache_at (kl.per_key key)
    → (allow at (limit_found per_minute burst) key kl).0 ≡ true
unfolding limiter_of allow_slot
allow_expired at per_minute burst key kl g h =
    allow_no_global at (limit_found per_minute burst) key kl kl.global g
    ∙ allow_key-miss at (limit_found per_minute burst) key (record kl { global = none })
        (expired kl.ttl at.cache_at (kl.per_key key) h)
    ∙ allow-new per_minute burst (pos (15 * 60 * 10 ^ 9)) at.key_at key
