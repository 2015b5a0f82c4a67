-- ===== src/Config/Chains/Acyclic.antt =====
-- internal/config/config.go, detectCycle: what it has shown when it ends without an error.
use glitchgate.Prelude.{
  ℕ, zero, suc, ◌≤◌, ◌<◌, String, true, Option, none, some, List, [], ◌∷◌, ◌++◌, ◌==◌, eq_iff,
  eq_refl, ◌≡◌, ◌≢◌, refl, inl, inr, arith, length, Bool-cases, subst, All, All-each,
}
use glitchgate.Config.Types.{ModelMapping}
use glitchgate.Config.Names.{no_fallbacks}
use glitchgate.Config.Chains.{
  Result, ok, err, ◌>>=◌, by_name, Visit, unvisited, visiting, visited, Visits, mark, each,
  visit_entry, visit_by, detect_cycle, plain_names, detect_all,
}
use glitchgate.Config.Chains.Walks.{
  Grounded, Grounded-mono, done, done-length, Stays, done-mark, Ranked, Covered, Walked, WalksAll,
  Covered-Stays, Covered-Grounded,
}

-- The loop over the fallbacks.
each-Walked :
    (ml : List ModelMapping) (f : String → Visits → Result Visits)
    → ((r : String) (st : Visits) → Ranked ml st → Walked ml (r ∷ []) st (f r st))
    → (rs : List String) (st : Visits) → Ranked ml st
    → Walked ml rs st (each f rs st)
unfolding each Walked Stays
each-Walked ml f w [] st r = (r, (λ k u. refl), tt)
each-Walked ml f w (n ∷ ns) st r = go (f n st) (w n st r) (λ st' r'. each-Walked ml f w ns st' r')
  where
    more :
        (st' : Visits)
        → Stays st st'
        → All (Covered ml st') (n ∷ [])
        → (o : Result Visits) → Walked ml ns st' o
        → Walked ml (n ∷ ns) st o
    more st' s c (err e) x = tt
    more st' s c (ok st'') (r, s', a) = (
      r,
      (λ k u. ground (arith, s k u, s' k, u)),
      ((Covered-Stays ml st' st'' s' (n ∷ []) c).0, a),
    )

    go :
        (o : Result Visits)
        → Walked ml (n ∷ []) st o
        → ((st' : Visits) → Ranked ml st' → Walked ml ns st' (each f ns st'))
        → Walked ml (n ∷ ns) st (o >>= each f ns)
    go (err e) x rest = tt
    go (ok st') (r', s, c) rest = more st' s c (each f ns st') (rest st' r')

-- Marking a name as visited whose fallbacks expand.
finished-Walked :
    (ml : List ModelMapping) (name : String) (m : ModelMapping) (st st' : Visits)
    → by_name ml name ≡ some m
    → st name ≡ unvisited
    → st' name ≢ visited
    → ((k : String) → name ≢ k → st k ≢ unvisited → st' k ≡ st k)
    → Ranked ml st'
    → All (Covered ml st') m.fallbacks
    → Walked ml (name ∷ []) st (ok (mark name visited st'))
unfolding Walked Ranked Stays Covered Grounded
finished-Walked ml name m st st' e u v s r a =
    (ranked, stays, (inl ground (arith, eq_refl name), tt))
  where
    more : done st' (plain_names ml) < done (mark name visited st') (plain_names ml)
    more = done-mark ml name m st' v e

    here : Grounded ml (suc (done st' (plain_names ml))) name
    here = inr (m, e, Covered-Grounded ml st' r m.fallbacks a)

    ranked :
        (k : String)
        → mark name visited st' k ≡ visited
        → Grounded ml (done (mark name visited st') (plain_names ml)) k
    ranked k p = elim (Bool-cases (name == k)) [
      | inl q ↦
          Grounded-mono ml (suc (done st' (plain_names ml))) _ k (omega (arith, more))
            (subst (Grounded ml (suc (done st' (plain_names ml)))) ((eq_iff name k).0 q) here)
      | inr q ↦
          Grounded-mono ml (done st' (plain_names ml)) _ k (omega (arith, more))
            (r k (ground (arith, p, q)))
    ]

    stays : (k : String) → st k ≢ unvisited → mark name visited st' k ≡ st k
    stays k n = ground (arith, n, u, s k, eq_iff name k)

-- Entering a name does not change what is visited.
entered-Ranked :
    (ml : List ModelMapping) (name : String) (st : Visits)
    → st name ≡ unvisited
    → Ranked ml st
    → Ranked ml (mark name visiting st)
unfolding Ranked done
entered-Ranked ml name st u r k p =
    subst (λ d. Grounded ml d k) (same (plain_names ml)) (r k (ground (arith, p)))
  where
    same : (ns : List String) → done st ns ≡ done (mark name visiting st) ns
    same [] = refl
    same (n ∷ ns) = ground (arith, u, same ns, eq_iff name n)

none_left :
    (ml : List ModelMapping) (st : Visits) (rs : List String)
    → no_fallbacks rs ≡ true
    → All (Covered ml st) rs
none_left ml st [] q = tt
none_left ml st (r ∷ rs) q = ground (arith, q)

close_walk :
    (ml : List ModelMapping) (name : String) (m : ModelMapping) (st : Visits) (o : Result Visits)
    → by_name ml name ≡ some m
    → st name ≡ unvisited
    → Walked ml m.fallbacks (mark name visiting st) o
    → Walked ml (name ∷ []) st (o >>= λ st'. ok (mark name visited st'))
unfolding Walked Stays
close_walk ml name m st (err e') e u x = tt
close_walk ml name m st (ok st') e u (r, s, a) =
    finished-Walked ml name m st st' e u (λ v. ground (arith, v, s name, eq_refl name))
      (λ k n x. ground (arith, s k, x, n, eq_iff name k)) r a

entry-Walked :
    (ml : List ModelMapping) (next : String → List String → Visits → Result Visits)
    → WalksAll ml next
    → (name : String) (path : List String) (st : Visits) (m : ModelMapping)
    → by_name ml name ≡ some m
    → st name ≡ unvisited
    → Ranked ml st
    → Walked ml (name ∷ []) st (visit_entry next name path m st)
unfolding visit_entry WalksAll
entry-Walked ml next w name path st m e u r = elim (Bool-cases (no_fallbacks m.fallbacks)) [
  | inl q ↦
      rw (visit_entry, q)
        (finished-Walked ml name m st st e u (λ v. ground (arith, u, v)) (λ k n x. refl) r
          (none_left ml st m.fallbacks q))
  | inr q ↦
      rw (visit_entry, q)
        (close_walk ml name m st
          (each (λ r s. next r (path ++ name ∷ []) s) m.fallbacks (mark name visiting st)) e u
          (each-Walked ml (λ r s. next r (path ++ name ∷ []) s)
            (λ r s x. w r (path ++ name ∷ []) s x) m.fallbacks (mark name visiting st)
            (entered-Ranked ml name st u r)))
]

by-Walked :
    (ml : List ModelMapping) (next : String → List String → Visits → Result Visits)
    → WalksAll ml next
    → (name : String) (path : List String) (st : Visits) (o : Option ModelMapping) (v : Visit)
    → by_name ml name ≡ o
    → st name ≡ v
    → Ranked ml st
    → Walked ml (name ∷ []) st (visit_by next name path o st v)
unfolding Walked Stays Covered
by-Walked ml next w name path st o visited p q r = (r, (λ k u. refl), (inl q, tt))
by-Walked ml next w name path st o visiting p q r = tt
by-Walked ml next w name path st none unvisited p q r = (r, (λ k u. refl), (inr p, tt))
by-Walked ml next w name path st (some m) unvisited p q r =
    entry-Walked ml next w name path st m p q r

detect_cycle-WalksAll : (ml : List ModelMapping) (fuel : ℕ) → WalksAll ml (detect_cycle ml fuel)
unfolding detect_cycle WalksAll Walked
detect_cycle-WalksAll ml zero name path st r = tt
detect_cycle-WalksAll ml (suc fuel) name path st r =
    by-Walked ml (detect_cycle ml fuel) (detect_cycle-WalksAll ml fuel) name path st
      (by_name ml name) (st name) refl refl r

plain_length : (ml : List ModelMapping) → length (plain_names ml) ≤ length ml
unfolding plain_names
plain_length [] = omega arith
plain_length (m ∷ ms) = ground (arith, plain_length ms)

-- If detectCycle reports nothing, every model's fallbacks end within as many levels as there are
-- models.
pub detect_all-Grounded :
    (ml : List ModelMapping) (st : Visits)
    → detect_all ml ≡ ok st
    → All (Grounded ml (length ml)) (plain_names ml)
unfolding detect_all Walked WalksAll Ranked
detect_all-Grounded ml st e =
    let (r, s, a) = subst (Walked ml (plain_names ml) (λ k. unvisited)) e (
      each-Walked ml (λ r s. detect_cycle ml (suc (length ml)) r [] s)
        (λ r s x. detect_cycle-WalksAll ml (suc (length ml)) r [] s x) (plain_names ml)
        (λ k. unvisited) (λ k p. ground (arith, p))) in
    All-each
      (λ n g.
        Grounded-mono ml (done st (plain_names ml)) (length ml) n
          (omega (arith, done-length st (plain_names ml), plain_length ml)) g)
      (plain_names ml) (Covered-Grounded ml st r (plain_names ml) a)
