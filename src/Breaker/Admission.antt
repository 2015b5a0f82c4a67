-- ===== src/Breaker/Admission.antt =====
-- Which requests a breaker admits while no result is recorded, and when a trip lets the next one in.
use glitchgate.Prelude.{
  ℕ, ◌+◌, ◌≡◌, ◌≢◌, refl, Bool, true, false, ◌||◌, if◌then◌else◌, List, [], ◌∷◌, leb, length, arith,
  Bool-cases, inl, inr,
}
use glitchgate.Breaker.{Breaker, state_closed, state_open, state_half_open, allow, record_failure}
use glitchgate.Breaker.Invariant.{IsValid}

-- How many of the Allow calls at the times return true.
unfoldable pub admitted : Breaker → List ℕ → ℕ
admitted b [] = 0
admitted b (t ∷ ts) = (if (allow t b).0 then 1 else 0) + admitted (allow t b).1 ts

-- Some time in the list is at or after `end`.
abbrev pub reaches : ℕ → List ℕ → Bool
reaches end [] = false
reaches end (t ∷ ts) = leb end t || reaches end ts

closed_keeps : (b : Breaker) (t : ℕ) → b.state ≡ state_closed → allow t b ≡ (true, b)
unfolding allow
closed_keeps b t h = ground arith

pub admitted_closed :
    (b : Breaker) (ts : List ℕ) → b.state ≡ state_closed → admitted b ts ≡ length ts
unfolding admitted
admitted_closed b [] h = refl
admitted_closed b (t ∷ ts) h = rw (closed_keeps b t h) (omega (arith, admitted_closed b ts h))

half_open_keeps :
    (b : Breaker) (t : ℕ)
    → b.state ≡ state_half_open
    → b.probe_in_flight ≡ true
    → allow t b ≡ (false, b)
unfolding allow
half_open_keeps b t h p = ground arith

pub admitted_probing :
    (b : Breaker) (ts : List ℕ)
    → b.state ≡ state_half_open
    → b.probe_in_flight ≡ true
    → admitted b ts ≡ 0
unfolding admitted
admitted_probing b [] h p = refl
admitted_probing b (t ∷ ts) h p =
    rw (half_open_keeps b t h p) (omega (arith, admitted_probing b ts h p))

-- A valid half-open breaker admits no request at any list of times: until the result of its probe
-- is recorded, no passing of time lets another request through.
half_open_waits :
    (b : Breaker) (ts : List ℕ) → IsValid b → b.state ≡ state_half_open → admitted b ts ≡ 0
half_open_waits b ts v h = admitted_probing b ts h (ground arith)

open_early :
    (b : Breaker) (t : ℕ)
    → b.state ≡ state_open
    → leb (b.last_state_change + b.cooldown) t ≡ false
    → allow t b ≡ (false, b)
unfolding allow
open_early b t h e = ground arith

abbrev pub probing : Breaker → ℕ → Breaker
probing b t = record b { state = state_half_open; last_state_change = t; probe_in_flight = true }

pub open_late :
    (b : Breaker) (t : ℕ)
    → b.state ≡ state_open
    → leb (b.last_state_change + b.cooldown) t ≡ true
    → allow t b ≡ (true, probing b t)
unfolding allow
open_late b t h e = ground arith

-- Of any Allow calls on an open breaker, in any order of their clock readings and with no result
-- recorded between them, exactly one is admitted if some reading has reached the end of the
-- cooldown, and none otherwise.
pub open_admits_one :
    (b : Breaker) (ts : List ℕ)
    → b.state ≡ state_open
    → admitted b ts ≡ (if reaches (b.last_state_change + b.cooldown) ts then 1 else 0)
unfolding admitted
open_admits_one b [] h = refl
open_admits_one b (t ∷ ts) h = elim (Bool-cases (leb (b.last_state_change + b.cooldown) t)) [
  | inl late ↦
      rw (open_late b t h late, late) (omega (arith, admitted_probing (probing b t) ts refl refl))
  | inr early ↦ rw (open_early b t h early, early) (ground (arith, open_admits_one b ts h))
]

-- A failure that opens a breaker which was not open starts a cooldown at its own time: the next
-- Allow call is admitted exactly if its time is at or after that time plus the cooldown.
allow-record_failure :
    (b : Breaker) (now t : ℕ)
    → b.state ≢ state_open
    → (record_failure now b).state ≡ state_open
    → (allow t (record_failure now b)).0 ≡ leb (now + b.cooldown) t
unfolding allow record_failure
allow-record_failure b now t h o = ground arith
