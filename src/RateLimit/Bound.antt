-- ===== src/RateLimit/Bound.antt =====
-- How many requests of one key a limiter admits, whatever other keys do in between.
use glitchgate.Prelude.{
  ℕ, ◌+◌, ◌-◌, ◌*◌, ◌≤◌, ◌<◌, ◌≡◌, ◌⊎◌, refl, String, Bool, true, false, ◌&&◌, Option, none, some,
  if◌then◌else◌, List, [], ◌∷◌, arith, ◌==◌, eq_iff, Bool-cases, inl, inr, put_self, subst, sym,
}
use glitchgate.RateLimit.{
  Entry, Limiter, unit, fresh, touch, cleanup, swept, entry_or, bucket_key, allow,
}
use glitchgate.RateLimit.Bucket.{cost, touch_pays, touch_time}

-- A request: its time and the key it names.
abbrev pub Request : Type 0
Request = ℕ × String

-- The times do not go back, from `s` on.
abbrev pub IsOrdered : ℕ → List Request → Type 0
IsOrdered s [] = Unit
IsOrdered s ((t, k) ∷ rs) = (s ≤ t) × IsOrdered t rs

-- The time of the last request.
abbrev pub final : ℕ → List Request → ℕ
final s [] = s
final s ((t, k) ∷ rs) = final t rs

-- How many of the requests that fall into the bucket `k` are admitted.
unfoldable pub granted : String → Limiter → List Request → ℕ
granted k l [] = 0
granted k l ((t, key) ∷ rs) =
    (if bucket_key key == k && (allow t key l).0 then 1 else 0) + granted k (allow t key l).1 rs

-- What a bucket can pay for at the time `now`.
abbrev level : ℕ → ℕ → ℕ → Option Entry → ℕ
level rate burst now none = burst * unit
level rate burst now (some e) = e.tokens + rate * (now - e.last_refill)

-- The bucket was seen last at `s` or before, and filled no later than that.
abbrev IsTimely : ℕ → Option Entry → Type 0
IsTimely s none = Unit
IsTimely s (some e) = (e.last_refill ≤ e.last_seen) × (e.last_seen ≤ s)

mul_sub : (r a b : ℕ) → b ≤ a → r * (a - b) + r * b ≡ r * a
mul_sub r a b h = grind arith

IsTimely-later : (s t : ℕ) (o : Option Entry) → s ≤ t → IsTimely s o → IsTimely t o
IsTimely-later s t none h p = tt
IsTimely-later s t (some e) h p = omega arith

level_wait :
    (rate burst s t : ℕ) (o : Option Entry)
    → s ≤ t
    → IsTimely s o
    → level rate burst t o + rate * s ≤ level rate burst s o + rate * t
level_wait rate burst s t none h p = grind arith
level_wait rate burst s t (some e) h p =
    omega (
      arith,
      mul_sub rate t e.last_refill (omega arith),
      mul_sub rate s e.last_refill (omega arith),
    )

-- The parameters that no call changes.
abbrev SameRates : Limiter → Limiter → Type 0
SameRates l m = (m.per_minute ≡ l.per_minute) × (m.burst ≡ l.burst) × (m.idle_ttl ≡ l.idle_ttl)

-- Idle long enough to be evicted is idle long enough to be full.
abbrev pub IsPatient : Limiter → Type 0
IsPatient l = l.burst * unit ≤ l.per_minute * l.idle_ttl

swept-SameRates : (t : ℕ) (l : Limiter) → SameRates l (swept t l)
unfolding swept
swept-SameRates t l = ground arith

abbrev IsIdle : ℕ → ℕ → Option Entry → Type 0
IsIdle t ttl none = ⊥
IsIdle t ttl (some e) = e.last_seen + ttl < t

-- What the cleanup makes of the slot `o`.
swept_slot :
    (t : ℕ) (k : String) (l : Limiter) (o : Option Entry)
    → l.entries k ≡ o
    → ((swept t l).entries k ≡ o) ⊎ ((swept t l).entries k ≡ none) × IsIdle t l.idle_ttl o
unfolding swept cleanup
swept_slot t k l none h = inl (ground arith)
swept_slot t k l (some e) h = ground arith

idle_pays :
    (rate ttl t full : ℕ) (e : Entry)
    → full ≤ rate * ttl
    → e.last_refill ≤ e.last_seen
    → e.last_seen + ttl < t
    → full ≤ rate * (t - e.last_refill)
idle_pays rate ttl t full e h p q =
    let longer : ttl ≤ t - e.last_refill = omega arith in
    let more : rate * ttl ≤ rate * (t - e.last_refill) = grind arith in omega arith

-- The cleanup gives no bucket more than it could pay for.
swept-level :
    (s t : ℕ) (k : String) (l : Limiter) (o : Option Entry)
    → l.entries k ≡ o
    → IsTimely s o
    → s ≤ t
    → IsPatient l
    → (level l.per_minute l.burst t ((swept t l).entries k) ≤ level l.per_minute l.burst t o)
      × IsTimely t ((swept t l).entries k)
swept-level s t k l none h p q f = elim (swept_slot t k l none h) [
  | inl same ↦ rw same (omega arith)
  | inr gone ↦ absurd gone.1
]
swept-level s t k l (some e) h p q f = elim (swept_slot t k l (some e) h) [
  | inl same ↦ rw same (omega arith)
  | inr gone ↦ rw (gone.0) (
    (let enough = idle_pays l.per_minute l.idle_ttl t (l.burst * unit) e f p.0 gone.1 in
        omega arith),
    tt,
  )
]

-- The bucket that Allow works on: the one that is there, or a fresh one.
used : ℕ → Limiter → Option Entry → Entry
used t l o = entry_or (fresh l.burst t) o

used_pays :
    (t : ℕ) (l : Limiter) (o : Option Entry)
    → IsTimely t o
    → ((used t l o).last_refill ≤ t)
      × ((used t l o).tokens + l.per_minute * t
          ≤ level l.per_minute l.burst t o + l.per_minute * (used t l o).last_refill)
unfolding used fresh
used_pays t l none p = omega arith
used_pays t l (some e) p = omega (arith, mul_sub l.per_minute t e.last_refill (omega arith))

allow-SameRates : (t : ℕ) (key : String) (l : Limiter) → SameRates l (allow t key l).1
unfolding allow
allow-SameRates t key l = swept-SameRates t l

abbrev touched : ℕ → String → Limiter → Bool × Entry
touched t k l = touch l.per_minute l.burst t (used t l ((swept t l).entries k))

allow_same :
    (t : ℕ) (key : String) (l : Limiter)
    → ((allow t key l).0 ≡ (touched t (bucket_key key) l).0)
      × ((allow t key l).1.entries (bucket_key key) ≡ some (touched t (bucket_key key) l).1)
unfolding allow used
allow_same t key l =
    (refl, put_self (swept t l).entries (bucket_key key) (touched t (bucket_key key) l).1)

allow_other :
    (t : ℕ) (key k : String) (l : Limiter)
    → (bucket_key key == k) ≡ false
    → (allow t key l).1.entries k ≡ (swept t l).entries k
unfolding allow
allow_other t key k l h = rw h

-- One request: what it spends and what it leaves come from what the bucket had and the time passed.
step_same :
    (s t : ℕ) (key : String) (l : Limiter)
    → IsTimely s (l.entries (bucket_key key))
    → s ≤ t
    → IsPatient l
    → (cost (allow t key l).0
          + level l.per_minute l.burst t ((allow t key l).1.entries (bucket_key key))
          + l.per_minute * s
        ≤ level l.per_minute l.burst s (l.entries (bucket_key key)) + l.per_minute * t)
      × IsTimely t ((allow t key l).1.entries (bucket_key key))
step_same s t key l p q f =
    let k = bucket_key key in
    let clean = swept-level s t k l (l.entries k) refl p q f in
    let pays = used_pays t l ((swept t l).entries k) clean.1 in
    let e : Entry = used t l ((swept t l).entries k) in
    let spent = touch_pays l.per_minute l.burst t e pays.0 in
    let times = touch_time l.per_minute l.burst t e pays.0 in
    let waits = level_wait l.per_minute l.burst s t (l.entries k) q p in
    let none_left = mul_sub l.per_minute t t (omega arith) in
    rw ((allow_same t key l).0, (allow_same t key l).1)
      (rw (times.0) (omega arith), omega (arith, times.0, times.1))

-- A request for another bucket.
step_other :
    (s t : ℕ) (key k : String) (l : Limiter)
    → (bucket_key key == k) ≡ false
    → IsTimely s (l.entries k)
    → s ≤ t
    → IsPatient l
    → (level l.per_minute l.burst t ((allow t key l).1.entries k) + l.per_minute * s
        ≤ level l.per_minute l.burst s (l.entries k) + l.per_minute * t)
      × IsTimely t ((allow t key l).1.entries k)
step_other s t key k l d p q f =
    let clean = swept-level s t k l (l.entries k) refl p q f in
    let waits = level_wait l.per_minute l.burst s t (l.entries k) q p in
    rw (allow_other t key k l d) (omega arith, clean.1)

-- Either kind of request.
step_pays :
    (s t : ℕ) (key k : String) (l : Limiter)
    → IsTimely s (l.entries k)
    → s ≤ t
    → IsPatient l
    → (cost (bucket_key key == k && (allow t key l).0)
          + level l.per_minute l.burst t ((allow t key l).1.entries k)
          + l.per_minute * s
        ≤ level l.per_minute l.burst s (l.entries k) + l.per_minute * t)
      × IsTimely t ((allow t key l).1.entries k)
step_pays s t key k l p q f = elim (Bool-cases (bucket_key key == k)) [
  | inl same ↦ rw same (
      subst
        (λ j.
          (cost (allow t key l).0
              + level l.per_minute l.burst t ((allow t key l).1.entries j)
              + l.per_minute * s
            ≤ level l.per_minute l.burst s (l.entries j) + l.per_minute * t)
          × IsTimely t ((allow t key l).1.entries j))
        ((eq_iff (bucket_key key) k).0 same)
        (step_same s t key l
          (subst (λ j. IsTimely s (l.entries j)) (sym ((eq_iff (bucket_key key) k).0 same)) p) q f))
  | inr other ↦ rw other (let r = step_other s t key k l other p q f in (omega (arith, r.0), r.1))
]

cost-unit : (b : Bool) → cost b ≡ (if b then 1 else 0) * unit
cost-unit true = omega arith
cost-unit false = omega arith

-- What the bucket can pay for at the start bounds what is granted, with the time that passes.
pub granted_pays :
    (s : ℕ) (k : String) (l : Limiter) (rs : List Request)
    → IsTimely s (l.entries k)
    → IsPatient l
    → IsOrdered s rs
    → granted k l rs * unit + l.per_minute * s
      ≤ level l.per_minute l.burst s (l.entries k) + l.per_minute * final s rs
unfolding granted
granted_pays s k l [] p f o = omega arith
granted_pays s k l ((t, key) ∷ rs) p f o =
    let same = allow-SameRates t key l in
    let now = step_pays s t key k l p o.0 f in
    let b : Bool = bucket_key key == k && (allow t key l).0 in
    let patient : IsPatient (allow t key l).1 = rw (same.0, same.1, same.2) f in
    let ih = granted_pays t k (allow t key l).1 rs now.1 patient o.1 in
    omega (arith, cost-unit b, now.0, rw (same.0, same.1) at ih)

-- In a limiter whose idle buckets have had the time to fill up before they are evicted (the burst
-- is at most what the idle time refills), the requests that fall into a bucket which is not there
-- yet, made from `s` on at times that do not go back and with any requests for other buckets
-- between them, are admitted at most burst times plus the refill of the time from `s` to the last.
pub granted_bounded :
    (s : ℕ) (k : String) (l : Limiter) (rs : List Request)
    → l.entries k ≡ none
    → IsPatient l
    → IsOrdered s rs
    → granted k l rs * unit + l.per_minute * s ≤ l.burst * unit + l.per_minute * final s rs
granted_bounded s k l rs h f o = rw h at (granted_pays s k l rs (rw h tt) f o)
