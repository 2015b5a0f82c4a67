-- ===== src/RateLimit/Bucket.antt =====
-- One bucket: what a request does to it.
use glitchgate.Prelude.{ℕ, ◌+◌, ◌-◌, ◌*◌, ◌≤◌, ◌≡◌, Bool, if◌then◌else◌, arith}
use glitchgate.RateLimit.{Entry, unit, fresh, touch, refill, consume}

-- A bucket holds at most the burst.
abbrev pub IsBounded : ℕ → Entry → Type 0
IsBounded burst e = e.tokens ≤ burst * unit

pub fresh-IsBounded : (burst now : ℕ) → IsBounded burst (fresh burst now)
unfolding fresh
fresh-IsBounded burst now = omega arith

pub touch-IsBounded :
    (rate burst now : ℕ) (e : Entry)
    → IsBounded burst e
    → IsBounded burst (touch rate burst now e).1
unfolding touch
touch-IsBounded rate burst now e h = ground arith

abbrev pub cost : Bool → ℕ
cost b = if b then unit else 0

refill_pays :
    (rate burst now : ℕ) (e : Entry)
    → e.last_refill ≤ now
    → (refill rate burst now e).tokens + rate * e.last_refill ≤ e.tokens + rate * now
unfolding refill
refill_pays rate burst now e h =
    let earned : (now - e.last_refill) * rate + rate * e.last_refill ≡ rate * now = grind arith in
    ground arith

consume_pays : (e : Entry) → cost (consume e).0 + (consume e).1.tokens ≡ e.tokens
unfolding consume
consume_pays e = ground arith

-- The tokens spent and kept come from those that were there and the refill of the time passed.
pub touch_pays :
    (rate burst now : ℕ) (e : Entry)
    → e.last_refill ≤ now
    → cost (touch rate burst now e).0 + (touch rate burst now e).1.tokens + rate * e.last_refill
      ≤ e.tokens + rate * now
touch_pays rate burst now e h =
    let seen : Entry = record e { last_seen = now } in
    unfold touch in
    omega (arith, consume_pays (refill rate burst now seen), refill_pays rate burst now seen h)

pub touch_time :
    (rate burst now : ℕ) (e : Entry)
    → e.last_refill ≤ now
    → ((touch rate burst now e).1.last_refill ≡ now) × ((touch rate burst now e).1.last_seen ≡ now)
unfolding touch
touch_time rate burst now e h = ground arith
