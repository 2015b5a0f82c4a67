-- ===== src/Gate/Bounded.antt =====
-- internal/proxy/request_security.go: how many requests of one address reach a handler.
use glitchgate.Prelude.{
  ℕ, ◌+◌, ◌*◌, ◌≤◌, String, ◌==◌, Bool, true, false, ◌&&◌, Option, none, some, List, [], ◌∷◌, map,
  if◌then◌else◌, ◌≡◌, refl, arith, Bool-cases, inl, inr,
}
use glitchgate.KeyLimit.{allow_slot}
use glitchgate.RateLimit.{Limiter, allow, bucket_key, unit}
use glitchgate.RateLimit.Bound.{Request, IsPatient, IsOrdered, final, granted, granted_bounded}
use glitchgate.Scope.Keys.{Auth, missing_key, invalid_key, authenticated, authenticate}
use glitchgate.Gate.{
  Verdict, too_many_requests, unauthorized, reaches, Arrival, Gate, remote_addr_key, limit_key,
  identify, admit,
}

abbrev pub is_reached : {Key : Type 0} → Verdict Key → Bool
is_reached (too_many_requests style) = false
is_reached (unauthorized auth) = false
is_reached (reaches pk) = true

module _ {Key : Type 0} (split_host_port : String → Option String) (by_prefix : List ℕ → Option Key)
    (verify : List ℕ → Key → Bool) (key_id : Key → String) where
  -- The address bucket of a request, at the time of its first check.
  abbrev pub addressed : Arrival → Request
  addressed a = (a.ip_at, remote_addr_key split_host_port a.remote_addr)

  -- How many of the requests of the bucket `k` reach a handler.
  unfoldable pub reached : String → Gate → List Arrival → ℕ
  reached k g [] = 0
  reached k g (a ∷ rest) =
      let passed = admit split_host_port by_prefix verify key_id a g in
      (if bucket_key (addressed a).1 == k && is_reached passed.0 then 1 else 0)
      + reached k passed.1 rest

  identify_keeps :
      (auth : Auth Key) (a : Arrival) (g : Gate)
      → (identify split_host_port by_prefix verify key_id auth a g).1.ip_limiter ≡ g.ip_limiter
  unfolding identify limit_key
  identify_keeps missing_key a g = refl
  identify_keeps invalid_key a g = refl
  identify_keeps (authenticated pk) a g = refl

  -- What the address limiter says, and what it becomes.
  admit_ip :
      (a : Arrival) (g : Gate) (l : Limiter)
      → g.ip_limiter ≡ some l
      → ((admit split_host_port by_prefix verify key_id a g).1.ip_limiter
          ≡ some (allow a.ip_at (addressed a).1 l).1)
        × (is_reached (admit split_host_port by_prefix verify key_id a g).0 ≡ true
            → (allow a.ip_at (addressed a).1 l).0 ≡ true)
  unfolding admit allow_slot
  admit_ip a g l e = elim (Bool-cases (allow a.ip_at (addressed a).1 l).0) [
    | inl q ↦ (
      rw (admit, e, q)
          (identify_keeps (authenticate by_prefix verify a.headers) a
            (record g { ip_limiter = some (allow a.ip_at (addressed a).1 l).1 })),
      λ r. q,
    )
    | inr q ↦ (rw (admit, e, q) refl, rw (admit, e, q) (λ r. ground (arith, r)))
  ]

  one_lem :
      (same r ok : Bool)
      → (r ≡ true → ok ≡ true)
      → (if same && r then 1 else 0) ≤ (if same && ok then 1 else 0)
  one_lem false r ok h = omega arith
  one_lem true false ok h = omega arith
  one_lem true true ok h = rw (h refl) (omega arith)

  reached_lem :
      (k : String) (g : Gate) (l : Limiter) (rs : List Arrival)
      → g.ip_limiter ≡ some l
      → reached k g rs ≤ granted k l (map addressed rs)
  unfolding reached granted
  reached_lem k g l [] e = omega arith
  reached_lem k g l (a ∷ rs) e =
      let passed = admit split_host_port by_prefix verify key_id a g in
      let (next, r) = admit_ip a g l e in
      omega (
        arith,
        one_lem (bucket_key (addressed a).1 == k) (is_reached passed.0)
            (allow a.ip_at (addressed a).1 l).0 r,
        reached_lem k passed.1 (allow a.ip_at (addressed a).1 l).1 rs next,
      )

  -- Of any requests whose address checks are made from `s` on at times that do not go back, whatever
  -- their keys, ports and other limits, those of one address bucket that is not there yet reach a
  -- handler at most burst times plus the refill of the time from `s` to the last check, where the
  -- burst is at most what the idle time refills.
  pub reached_bounded :
      (s : ℕ) (k : String) (g : Gate) (l : Limiter) (rs : List Arrival)
      → g.ip_limiter ≡ some l
      → l.entries k ≡ none
      → IsPatient l
      → IsOrdered s (map addressed rs)
      → reached k g rs * unit + l.per_minute * s
        ≤ l.burst * unit + l.per_minute * final s (map addressed rs)
  reached_bounded s k g l rs e h p o =
      let bound = granted_bounded s k l (map addressed rs) h p o in
      let fewer = reached_lem k g l rs e in omega (arith, bound, fewer)
