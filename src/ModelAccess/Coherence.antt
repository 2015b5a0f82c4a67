-- ===== src/ModelAccess/Coherence.antt =====
-- A cached allowlist against the store that it was read from.
use glitchgate.Prelude.{
  ℕ, ◌+◌, ◌≤◌, ◌<◌, ◌≡◌, ◌⊎◌, refl, ap, ◌∙◌, String, Bool, true, Option, none, some, List, [], ◌∷◌,
  arith, ◌==◌, eq_iff, inl, inr, Option-cases, put, retain, Bool-cases, ℤ, subst,
}
use glitchgate.ModelAccess.{
  Fetch, fetched, fetch_failed, AllowlistEntry, ModelChecker, new_model_checker, evict_stale,
  invalidate_key, refresh, fresh_entry, get_patterns, is_model_allowed,
}

-- The database over time.
abbrev pub Store : Type 0
Store = ℕ → String → Fetch

-- Every cached allowlist is what the store held when it was read, and no read lies ahead of `now`.
pub record IsCoherent (store : Store) (now : ℕ) (mc : ModelChecker) : Type 0 where
  pub read :
      (key : String) (e : AllowlistEntry)
      → mc.cache key ≡ some e
      → (store e.fetched_at key ≡ fetched e.patterns) × (e.fetched_at ≤ now)

pub new_model_checker-IsCoherent :
    (store : Store) (now : ℕ) (ttl : ℤ) → IsCoherent store now (new_model_checker ttl)
unfolding new_model_checker
new_model_checker-IsCoherent store now ttl = record { read = λ key e h. absurd (ground arith) }

pub later_IsCoherent :
    (store : Store) (s t : ℕ) (mc : ModelChecker)
    → s ≤ t
    → IsCoherent store s mc
    → IsCoherent store t mc
later_IsCoherent store s t mc h c = record {
  read = λ key e q. ((c.read key e q).0, omega (arith, (c.read key e q).1));
}

retained {ℓ} :
    {V : Type ℓ} (keep : V → Bool) (m : String → Option V) (k : String) (v : V)
    → retain keep m k ≡ some v
    → m k ≡ some v
retained keep m k v h = ground arith

evict_stale_sub :
    (now : ℕ) (mc : ModelChecker) (key : String) (e : AllowlistEntry)
    → (evict_stale now mc).cache key ≡ some e
    → mc.cache key ≡ some e
unfolding evict_stale
evict_stale_sub now mc key e h = ground arith

put-IsCoherent :
    (store : Store) (now : ℕ) (key : String) (ps : List String) (mc : ModelChecker)
    → IsCoherent store now mc
    → store now key ≡ fetched ps
    → IsCoherent store now
        (record mc { cache = put mc.cache key (record { patterns = ps; fetched_at = now }) })
put-IsCoherent store now key ps mc c h = record {
  read = λ k e q. elim (Bool-cases (key == k)) [
    | inl same ↦
        let j : key ≡ k = (eq_iff key k).0 same in
        let new : record { patterns = ps; fetched_at = now } ≡ e = ground (arith) in
        subst
          (λ (x : AllowlistEntry).
            (store x.fetched_at k ≡ fetched x.patterns) × (x.fetched_at ≤ now))
          new (subst (λ i. store now i ≡ fetched ps) j h, omega arith)
    | inr other ↦ c.read k e (rw other at q)
  ];
}

evict_stale-IsCoherent :
    (store : Store) (now : ℕ) (mc : ModelChecker)
    → IsCoherent store now mc
    → IsCoherent store now (evict_stale now mc)
evict_stale-IsCoherent store now mc c = record {
  read = λ k e q. c.read k e (evict_stale_sub now mc k e q);
}

-- The patterns come from the store as it was at `at`, less than the time to live ago.
pub record IsRecent (store : Store) (ttl now : ℕ) (key : String) (f : Fetch) : Type 0 where
  pub at : ℕ
  pub held : store at key ≡ f
  pub past : at ≤ now
  pub within : (at ≡ now) ⊎ (now < at + ttl)

-- What a lookup owes: a coherent cache, and an answer that is recent.
abbrev Serves : Store → ℕ → ℕ → String → Fetch × ModelChecker → Type 0
Serves store ttl now key r = IsRecent store ttl now key r.0 × IsCoherent store now r.1

refresh-Serves :
    (store : Store) (ttl now : ℕ) (key : String) (mc : ModelChecker) (f : Fetch)
    → IsCoherent store now mc
    → store now key ≡ f
    → Serves store ttl now key (refresh f now key mc)
unfolding refresh
refresh-Serves store ttl now key mc (fetched ps) c h = (
  record { at = now; held = h; past = omega arith; within = inl refl },
  put-IsCoherent store now key ps mc c h,
)
refresh-Serves store ttl now key mc (fetch_failed e) c h =
    (record { at = now; held = h; past = omega arith; within = inl refl }, c)

hit :
    (ttl now : ℕ) (o : Option AllowlistEntry) (ps : List String)
    → fresh_entry ttl now o ≡ some ps
    → (e : AllowlistEntry) × (o ≡ some e) × (e.patterns ≡ ps) × (now < e.fetched_at + ttl)
unfolding fresh_entry
hit ttl now none ps h = absurd (ground arith)
hit ttl now (some e) ps h = (e, refl, ground arith, ground arith)

pub get_patterns-Serves :
    (store : Store) (now : ℕ) (key : String) (mc : ModelChecker)
    → IsCoherent store now mc
    → Serves store mc.ttl now key (get_patterns (store now) now key mc)
unfolding get_patterns
get_patterns-Serves store now key mc c =
    elim (Option-cases (fresh_entry mc.ttl now (mc.cache key))) [
      | inl miss ↦
          rw (miss, get_patterns)
            (refresh-Serves store mc.ttl now key (evict_stale now mc) (store now key)
              (evict_stale-IsCoherent store now mc c) refl)
      | inr (ps, found) ↦
          let (e, here, same, young) = hit mc.ttl now (mc.cache key) ps found in
          rw (found, get_patterns)
            (
              record {
                at = e.fetched_at;
                held = (c.read key e here).0 ∙ ap fetched same;
                past = (c.read key e here).1;
                within = inr young;
              },
              c,
            )
    ]

pub invalidate_key-IsCoherent :
    (store : Store) (now : ℕ) (key : String) (mc : ModelChecker)
    → IsCoherent store now mc
    → IsCoherent store now (invalidate_key key mc)
unfolding invalidate_key
invalidate_key-IsCoherent store now key mc c = record {
  read = λ k e q. c.read k e (ground (arith, eq_iff key k));
}

-- A call on the checker at its time.
pub data Call : Type 0 where
  check : ℕ → String → String → Call
  invalidate : ℕ → String → Call

module _ (glob : String → String → Option Bool) (store : Store) where
  unfoldable pub step : ModelChecker → Call → ModelChecker
  step mc (check now key model) = (is_model_allowed glob (store now) now key model mc).1
  step mc (invalidate now key) = invalidate_key key mc

  unfoldable pub run : ModelChecker → List Call → ModelChecker
  run mc [] = mc
  run mc (c ∷ cs) = run (step mc c) cs

abbrev pub time : Call → ℕ
time (check now key model) = now
time (invalidate now key) = now

abbrev pub IsOrdered : ℕ → List Call → Type 0
IsOrdered s [] = Unit
IsOrdered s (c ∷ cs) = (s ≤ time c) × IsOrdered (time c) cs

abbrev pub final : ℕ → List Call → ℕ
final s [] = s
final s (c ∷ cs) = final (time c) cs

step-IsCoherent :
    (glob : String → String → Option Bool) (store : Store) (s : ℕ) (mc : ModelChecker) (c : Call)
    → s ≤ time c
    → IsCoherent store s mc
    → IsCoherent store (time c) (step glob store mc c)
unfolding step is_model_allowed
step-IsCoherent glob store s mc (check now key model) h c =
    (get_patterns-Serves store now key mc (later_IsCoherent store s now mc h c)).1
step-IsCoherent glob store s mc (invalidate now key) h c =
    invalidate_key-IsCoherent store now key mc (later_IsCoherent store s now mc h c)

pub run-IsCoherent :
    (glob : String → String → Option Bool) (store : Store) (s : ℕ) (mc : ModelChecker)
    (cs : List Call)
    → IsCoherent store s mc
    → IsOrdered s cs
    → IsCoherent store (final s cs) (run glob store mc cs)
unfolding run
run-IsCoherent glob store s mc [] c o = c
run-IsCoherent glob store s mc (call ∷ cs) c o =
    run-IsCoherent glob store (time call) (step glob store mc call) cs
      (step-IsCoherent glob store s mc call o.0 c) o.1

-- A model is allowed by the patterns: there are none, or one of them matches it.
abbrev pub Matches : (String → String → Option Bool) → String → List String → Type 0
Matches glob model [] = ⊥
Matches glob model (p ∷ ps) = (glob p model ≡ some true) ⊎ Matches glob model ps

abbrev pub Allows : (String → String → Option Bool) → String → List String → Type 0
Allows glob model ps = (ps ≡ []) ⊎ Matches glob model ps
