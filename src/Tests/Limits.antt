-- ===== src/Tests/Limits.antt =====
-- Runs of internal/ratelimit and of the key limits.
use glitchgate.Prelude.{
  ℕ, ◌+◌, ◌*◌, ◌≤◌, ◌≡◌, refl, some, none, List, [], ◌∷◌, arith, empty_map, ◌^◌,
}
use glitchgate.RateLimit
use glitchgate.RateLimit.{Limiter, unit}
use glitchgate.RateLimit.Bound.{Request, granted, granted_bounded, final}
use glitchgate.KeyLimit.{KeyAwareRateLimiter, Readings}

abbrev second : ℕ
second = 10 ^ 9

-- 60 requests a minute, a burst of two.
abbrev limiter : Limiter
limiter = record {
  entries = empty_map;
  per_minute = 60;
  burst = 2;
  idle_ttl = 900 * second;
  cleanup_every = 60 * second;
  last_cleanup_at = 0;
}

abbrev requests : List Request
requests = (second, "a") ∷ (second, "b") ∷ (second, "a") ∷ (second, "a") ∷ (2 * second, "a") ∷ []

granted_three : granted "a" limiter requests ≡ 3
unfolding granted RateLimit.allow RateLimit.swept RateLimit.touch RateLimit.fresh
    RateLimit.bucket_key
granted_three = refl

granted_bounded_example :
    granted "a" limiter requests * unit + 60 * second ≤ 2 * unit + 60 * final second requests
granted_bounded_example =
    granted_bounded second "a" limiter requests refl (omega arith) (omega arith)

abbrev drained : Limiter
drained = record limiter { burst = 1; last_cleanup_at = 1 }

abbrev key_limiter : KeyAwareRateLimiter
key_limiter = record {
  global = none;
  ttl = 30 * second;
  per_key = λ k. some (record { limiter = some drained; fetched_at = second });
  last_sweep = 0;
}

abbrev at : Readings
at = record { global_at = 40 * second; cache_at = 40 * second; key_at = 40 * second }
