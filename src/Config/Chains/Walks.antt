-- ===== src/Config/Chains/Walks.antt =====
-- internal/config/config.go, detectCycle: how far the visited models expand, and the walks that keep it.
use glitchgate.Prelude.{
  ℕ, zero, suc, ◌+◌, ◌≤◌, ◌<◌, String, none, some, List, [], ◌∷◌, eq_iff, eq_refl, ◌≡◌, ◌≢◌, refl,
  inl, inr, ◌⊎◌, arith, length, Option-cases, All, All-each,
}
use glitchgate.Config.Types.{ModelMapping}
use glitchgate.Config.Chains.{
  Result, ok, err, by_name, Visit, unvisited, visiting, visited, Visits, mark, plain_names,
}

-- The name expands within `h` levels of fallbacks.
unfoldable pub Grounded : List ModelMapping → ℕ → String → Type 0
Grounded ml zero name = by_name ml name ≡ none
Grounded ml (suc h) name =
    (by_name ml name ≡ none)
    ⊎ ((m : ModelMapping) × (by_name ml name ≡ some m) × All (Grounded ml h) m.fallbacks)

pub Grounded-mono :
    (ml : List ModelMapping) (h h' : ℕ) (name : String)
    → h ≤ h'
    → Grounded ml h name
    → Grounded ml h' name
unfolding Grounded
Grounded-mono ml zero zero name l g = g
Grounded-mono ml zero (suc h') name l g = inl g
Grounded-mono ml (suc h) zero name l g = ground (arith, l)
Grounded-mono ml (suc h) (suc h') name l (inl e) = inl e
Grounded-mono ml (suc h) (suc h') name l (inr (m, e, a)) =
    inr (m, e, All-each (λ r g. Grounded-mono ml h h' r (omega (arith, l)) g) m.fallbacks a)

abbrev pub is_done : Visit → ℕ
is_done visited = 1
is_done visiting = 0
is_done unvisited = 0

-- How many of the names are visited.
unfoldable pub done : Visits → List String → ℕ
done st [] = 0
done st (n ∷ ns) = is_done (st n) + done st ns

pub done-length : (st : Visits) (ns : List String) → done st ns ≤ length ns
unfolding done
done-length st [] = omega arith
done-length st (n ∷ ns) = ground (arith, done-length st ns)

-- A name that was entered stays as it is.
unfoldable pub Stays : Visits → Visits → Type 0
Stays st st' = (k : String) → st k ≢ unvisited → st' k ≡ st k

done_mono : (st st' : Visits) → Stays st st' → (ns : List String) → done st ns ≤ done st' ns
unfolding done Stays
done_mono st st' k [] = omega arith
done_mono st st' k (n ∷ ns) = ground (arith, k n, done_mono st st' k ns)

mark-done :
    (name : String) (st : Visits) (ns : List String)
    → st name ≢ visited
    → done st ns ≤ done (mark name visited st) ns
unfolding done
mark-done name st [] u = omega arith
mark-done name st (n ∷ ns) u = ground (arith, u, mark-done name st ns u, eq_iff name n)

-- Marking a name with an entry as visited counts.
pub done-mark :
    (ml : List ModelMapping) (name : String) (m : ModelMapping) (st : Visits)
    → st name ≢ visited
    → by_name ml name ≡ some m
    → done st (plain_names ml) < done (mark name visited st) (plain_names ml)
unfolding by_name plain_names done
done-mark [] name m st u h = ground arith
done-mark (x ∷ ml) name m st u h = elim (Option-cases (by_name ml name)) [
  | inr (later, q) ↦ ground (arith, q, u, done-mark ml name later st u q, eq_iff name x.model_name)
  | inl q ↦
      ground (
        arith,
        q,
        u,
        h,
        eq_iff x.model_name name,
        eq_refl name,
        mark-done name st (plain_names ml) u,
      )
]

-- Every visited name expands within as many levels as are visited.
unfoldable pub Ranked : List ModelMapping → Visits → Type 0
Ranked ml st = (k : String) → st k ≡ visited → Grounded ml (done st (plain_names ml)) k

unfoldable pub Covered : List ModelMapping → Visits → String → Type 0
Covered ml st name = (st name ≡ visited) ⊎ (by_name ml name ≡ none)

-- What a walk for a list of names comes to.
unfoldable pub Walked : List ModelMapping → List String → Visits → Result Visits → Type 0
Walked ml names st (err e) = Unit
Walked ml names st (ok st') = Ranked ml st' × Stays st st' × All (Covered ml st') names

unfoldable pub WalksAll :
    List ModelMapping → (String → List String → Visits → Result Visits) → Type 0
WalksAll ml next =
    (name : String) (path : List String) (st : Visits)
    → Ranked ml st
    → Walked ml (name ∷ []) st (next name path st)

pub Covered-Stays :
    (ml : List ModelMapping) (st st' : Visits)
    → Stays st st'
    → (names : List String) → All (Covered ml st) names
    → All (Covered ml st') names
unfolding Covered Stays
Covered-Stays ml st st' s names a = All-each (λ n c. ground (arith, s n, c)) names a

pub Covered-Grounded :
    (ml : List ModelMapping) (st : Visits)
    → Ranked ml st
    → (names : List String) → All (Covered ml st) names
    → All (Grounded ml (done st (plain_names ml))) names
unfolding Ranked Covered Grounded
Covered-Grounded ml st r names a = All-each from names a
  where
    from : (n : String) → Covered ml st n → Grounded ml (done st (plain_names ml)) n
    from n (inl v) = r n v
    from n (inr e) =
        Grounded-mono ml 0 (done st (plain_names ml)) n (omega arith) (rw (Grounded, e) refl)
