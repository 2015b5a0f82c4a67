-- ===== src/Breaker/Registry.antt =====
-- internal/circuitbreaker/registry.go: the breakers of all providers, made on first access.
-- A breaker is reached through its name only, so the registry holds the breakers by value and a
-- method of one is a write at its name.
use glitchgate.Prelude.{
  ℕ, String, none, some, Option-cases, inl, inr, subst, Map, empty_map, put, ℤ, ◌≡◌, ◌≢◌, arith,
  eq_iff, put_self, put-eq_some,
}
use mathlib.Core.Option
use glitchgate.Breaker.{Breaker, new_breaker, Stats, stats}
use glitchgate.Breaker.Invariant.{IsValid, new_breaker-IsValid}

pub record Registry : Type 0 where
  pub breakers : Map Breaker
  pub threshold : ℤ
  pub cooldown : ℤ

unfoldable pub new_registry : ℤ → ℤ → Registry
new_registry threshold cooldown = record {
  breakers = empty_map;
  threshold = threshold;
  cooldown = cooldown;
}

-- Get: the breaker, and the registry that holds it. `now` is the time of a NewBreaker call.
unfoldable pub get : ℕ → String → Registry → Breaker × Registry
get now provider r = elim (r.breakers provider) [
  | some b ↦ (b, r)
  | none ↦
      let b = new_breaker r.threshold r.cooldown now in
      (b, record r { breakers = put r.breakers provider b })
]

-- A method call on a breaker that Get returned.
unfoldable pub write_back : String → Breaker → Registry → Registry
write_back provider b r = record r { breakers = put r.breakers provider b }

unfoldable pub all_stats : Registry → Map Stats
all_stats r name = Option.map stats (r.breakers name)

-- Every breaker of the registry satisfies the invariant of one breaker.
pub record HasValid (r : Registry) : Type 0 where
  pub at : (name : String) (b : Breaker) → r.breakers name ≡ some b → IsValid b

get-none :
    (now : ℕ) (name : String) (r : Registry)
    → r.breakers name ≡ none
    → get now name r ≡ (
      new_breaker r.threshold r.cooldown now,
      write_back name (new_breaker r.threshold r.cooldown now) r,
    )
unfolding get write_back
get-none now name r e = rw (e, get)

pub get-some :
    (now : ℕ) (name : String) (r : Registry) (b : Breaker)
    → r.breakers name ≡ some b
    → get now name r ≡ (b, r)
unfolding get
get-some now name r b e = rw (e, get)

pub write_back-HasValid :
    (name : String) (b : Breaker) (r : Registry)
    → HasValid r
    → IsValid b
    → HasValid (write_back name b r)
unfolding write_back
write_back-HasValid name b r h v = record {
  at = λ j c e. elim (put-eq_some r.breakers name j b c e) [
    | inl same ↦ subst IsValid same v
    | inr old ↦ h.at j c old
  ];
}

pub get-IsValid : (now : ℕ) (name : String) (r : Registry) → HasValid r → IsValid (get now name r).0
get-IsValid now name r h = elim (Option-cases (r.breakers name)) [
  | inl e ↦ rw (get-none now name r e) (new_breaker-IsValid r.threshold r.cooldown now)
  | inr (b, e) ↦ rw (get-some now name r b e) (h.at name b e)
]

pub get-HasValid :
    (now : ℕ) (name : String) (r : Registry) → HasValid r → HasValid (get now name r).1
get-HasValid now name r h = elim (Option-cases (r.breakers name)) [
  | inl e ↦
      rw (get-none now name r e)
        (write_back-HasValid name _ r h (new_breaker-IsValid r.threshold r.cooldown now))
  | inr (b, e) ↦ rw (get-some now name r b e) h
]

get_again :
    (now later : ℕ) (name : String) (r : Registry)
    → get later name (get now name r).1 ≡ get now name r
unfolding write_back
get_again now later name r = elim (Option-cases (r.breakers name)) [
  | inl e ↦ rw (get-none now name r e) (
      get-some later name (write_back name (new_breaker r.threshold r.cooldown now) r) _
        (put_self r.breakers name _))
  | inr (b, e) ↦ rw (get-some now name r b e) (get-some later name r b e)
]

get_others :
    (now : ℕ) (name other : String) (r : Registry)
    → name ≢ other
    → (get now name r).1.breakers other ≡ r.breakers other
unfolding get
get_others now name other r h = ground (arith, eq_iff name other)

-- A second Get of a name, at any time, returns the breaker of the first and leaves the registry as
-- it is, and a Get leaves the breaker of any other name as it was.
get-get :
    (now later : ℕ) (name other : String) (r : Registry)
    → name ≢ other
    → (get later name (get now name r).1 ≡ get now name r)
      × ((get now name r).1.breakers other ≡ r.breakers other)
get-get now later name other r h = (get_again now later name r, get_others now name other r h)
