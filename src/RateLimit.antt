-- ===== src/RateLimit.antt =====
-- internal/ratelimit/limiter.go: one token bucket for each key, with eviction of idle buckets.
-- Times and durations are nanoseconds; `now.Sub(t) < d` is `now < t + d`. Tokens are counted in
-- units of 1/(60 * 10^9) of a token, in which the refill of a nanosecond at `perMinute` tokens a
-- minute is `perMinute` units: the model's sums are exact where the source rounds a float64.
pub mod Bucket
pub mod Bound
use glitchgate.Prelude.{
  ℕ, ◌+◌, ◌-◌, ◌*◌, ◌^◌, String, Bool, true, false, not, ◌||◌, Option, none, some, Map, empty_map,
  put, retain, ltb, leb, nat_eq, ◌==◌, if◌then◌else◌, ℤ, or_default,
}

-- One token.
abbrev pub unit : ℕ
unit = 60 * 10 ^ 9

pub record Entry : Type 0 where
  pub tokens : ℕ
  pub last_seen : ℕ
  pub last_refill : ℕ

pub record Limiter : Type 0 where
  pub entries : Map Entry
  pub per_minute : ℕ
  pub burst : ℕ
  pub idle_ttl : ℕ
  pub cleanup_every : ℕ
  pub last_cleanup_at : ℕ

unfoldable pub new : ℤ → ℤ → ℤ → Limiter
new per_minute burst idle_ttl = record {
  entries = empty_map;
  per_minute = or_default per_minute 1;
  burst = or_default burst 1;
  idle_ttl = or_default idle_ttl (15 * 60 * 10 ^ 9);
  cleanup_every = 60 * 10 ^ 9;
  last_cleanup_at = 0;
}

-- The bucket of a key that has none.
unfoldable pub fresh : ℕ → ℕ → Entry
fresh burst now = record { tokens = burst * unit; last_seen = now; last_refill = now }

-- The refill of Allow, under `if elapsed > 0`.
unfoldable pub refill : ℕ → ℕ → ℕ → Entry → Entry
refill per_minute burst now e =
    if ltb e.last_refill now
    then (let filled = e.tokens + (now - e.last_refill) * per_minute in
        record e {
          tokens = if ltb (burst * unit) filled then burst * unit else filled;
          last_refill = now;
        })
    else e

-- The end of Allow.
unfoldable pub consume : Entry → Bool × Entry
consume e = if ltb e.tokens unit then (false, e) else (true, record e { tokens = e.tokens - unit })

-- Allow from `e.lastSeen = now` on.
unfoldable pub touch : ℕ → ℕ → ℕ → Entry → Bool × Entry
unfolding refill consume
touch per_minute burst now e = consume (refill per_minute burst now (record e { last_seen = now }))

unfoldable pub cleanup : ℕ → Limiter → Limiter
cleanup now l = record l {
  entries = retain (λ e. not (ltb (e.last_seen + l.idle_ttl) now)) l.entries;
  last_cleanup_at = now;
}

-- The cleanup at the head of Allow, when it is due.
unfoldable pub swept : ℕ → Limiter → Limiter
unfolding cleanup
swept now l =
    if nat_eq l.last_cleanup_at 0 || leb (l.last_cleanup_at + l.cleanup_every) now
    then cleanup now l
    else l

abbrev pub entry_or : Entry → Option Entry → Entry
entry_or d none = d
entry_or d (some e) = e

-- if key == "" { key = "unknown" }
unfoldable pub bucket_key : String → String
bucket_key key = if key == "" then "unknown" else key

unfoldable pub allow : ℕ → String → Limiter → Bool × Limiter
allow now key l =
    let l' = swept now l in
    let (admitted, e) =
      touch l.per_minute l.burst now (entry_or (fresh l.burst now) (l'.entries (bucket_key key))) in
    (admitted, record l' { entries = put l'.entries (bucket_key key) e })
