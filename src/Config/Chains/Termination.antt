-- ===== src/Config/Chains/Termination.antt =====
-- internal/config/config.go, detectCycle: the fuel is enough.
use glitchgate.Prelude.{
  ℕ, zero, suc, ◌+◌, ◌≤◌, ◌<◌, String, Bool, true, false, Option, none, some, List, [], ◌∷◌, ◌++◌,
  eq_iff, eq_refl, ◌≡◌, refl, inl, inr, arith, length, Option-cases,
}
use glitchgate.Config.Types.{ModelMapping}
use glitchgate.Config.Names.{no_fallbacks}
use glitchgate.Config.Chains.{
  ConfigError, out_of_fuel, not_found, Result, ok, err, ◌>>=◌, by_name, Visit, unvisited, visiting,
  visited, Visits, mark, from_first, cycle_error, each, visit_entry, visit_by, detect_cycle,
  plain_names, detect_all,
}

is_new : Visit → ℕ
is_new unvisited = 1
is_new visiting = 0
is_new visited = 0

-- How many of the names are still to be visited.
todo : Visits → List String → ℕ
todo st [] = 0
todo st (n ∷ ns) = is_new (st n) + todo st ns

-- Visits only go forward.
Keeps : Visits → Visits → Type 0
Keeps st st' = (k : String) → is_new (st' k) ≤ is_new (st k)

-- The errors that the source reports for a model list, as against the fuel's end and a name that
-- is not found where it must be.
unfoldable pub IsReported : ConfigError → Type 0
IsReported out_of_fuel = ⊥
IsReported (not_found name) = ⊥
IsReported e = Unit

unfoldable pub Reports {ℓ} : {A : Type ℓ} → Result A → Type 0
unfolding IsReported
Reports (ok a) = Unit
Reports (err e) = IsReported e

-- What a walk that had fuel enough comes to.
Fine : Visits → Result Visits → Type 0
Fine st (ok st') = Keeps st st'
Fine st (err e) = IsReported e

todo_mono : (st st' : Visits) → Keeps st st' → (ns : List String) → todo st' ns ≤ todo st ns
unfolding todo Keeps
todo_mono st st' k [] = omega arith
todo_mono st st' k (n ∷ ns) = omega (arith, k n, todo_mono st st' k ns)

todo-length : (st : Visits) (ns : List String) → todo st ns ≤ length ns
unfolding todo is_new
todo-length st [] = omega arith
todo-length st (n ∷ ns) = ground (arith, todo-length st ns)

plain_length : (ml : List ModelMapping) → length (plain_names ml) ≤ length ml
unfolding plain_names
plain_length [] = omega arith
plain_length (m ∷ ms) = ground (arith, plain_length ms)

mark-Keeps : (name : String) (v : Visit) (st : Visits) → is_new v ≡ 0 → Keeps st (mark name v st)
unfolding Keeps is_new
mark-Keeps name v st e k = ground arith

-- A name with an entry is one of the names, so that marking it makes progress.
todo-mark :
    (ml : List ModelMapping) (name : String) (m : ModelMapping) (v : Visit) (st : Visits)
    → is_new v ≡ 0
    → st name ≡ unvisited
    → by_name ml name ≡ some m
    → todo (mark name v st) (plain_names ml) < todo st (plain_names ml)
unfolding by_name plain_names todo is_new Keeps
todo-mark [] name m v st e u h = ground arith
todo-mark (x ∷ ml) name m v st e u h = elim (Option-cases (by_name ml name)) [
  | inr (later, q) ↦ ground (
    arith,
    q,
    todo-mark ml name later v st e u q,
    mark-Keeps name v st e x.model_name,
    eq_iff name x.model_name,
  )
  | inl q ↦ ground (
    arith,
    q,
    u,
    e,
    h,
    mark-Keeps name v st e x.model_name,
    eq_iff x.model_name name,
    eq_refl name,
    todo_mono st (mark name v st) (mark-Keeps name v st e) (plain_names ml),
  )
]

cycle_error_fine : (name : String) (path : List String) → IsReported (cycle_error name path)
unfolding cycle_error IsReported
cycle_error_fine name path = elim (Option-cases (from_first name path)) [
  | inl e ↦ rw (cycle_error, e) tt
  | inr (p, e) ↦ rw (cycle_error, e) tt
]

-- What a walk from any state comes to, for a walk whose fuel is above what is left to visit.
WalksFine : List ModelMapping → ℕ → (String → List String → Visits → Result Visits) → Type 0
WalksFine ml fuel next =
    (name : String) (path : List String) (st : Visits)
    → todo st (plain_names ml) < fuel
    → Fine st (next name path st)

trans_Fine : (st st' : Visits) (r : Result Visits) → Keeps st st' → Fine st' r → Fine st r
unfolding Fine Keeps
trans_Fine st st' (ok st'') k f = λ n. omega (arith, k n, f n)
trans_Fine st st' (err e) k f = f

-- A loop whose steps are fine is fine.
each-Fine :
    (ml : List ModelMapping) (fuel : ℕ) (f : String → Visits → Result Visits)
    → ((r : String) (st : Visits) → todo st (plain_names ml) < fuel → Fine st (f r st))
    → (rs : List String) (st : Visits) → todo st (plain_names ml) < fuel
    → Fine st (each f rs st)
unfolding each Fine Keeps
each-Fine ml fuel f step [] st b = (λ k. omega arith)
each-Fine ml fuel f step (r ∷ rs) st b =
    go (f r st) (step r st b) λ st' l. each-Fine ml fuel f step rs st' l
  where
    go :
        (o : Result Visits)
        → Fine st o
        → ((st' : Visits) → todo st' (plain_names ml) < fuel → Fine st' (each f rs st'))
        → Fine st (o >>= each f rs)
    go (ok st') k rest =
        trans_Fine st st' (each f rs st') k
          (rest st' (omega (arith, b, todo_mono st st' k (plain_names ml))))
    go (err e) k rest = k

finish_Fine :
    (name : String) (st : Visits) (r : Result Visits)
    → Fine st r
    → Fine st (r >>= λ st'. ok (mark name visited st'))
unfolding Fine Keeps is_new
finish_Fine name st (ok st') f =
    λ k. omega (arith, f k, mark-Keeps name visited st' (ground arith) k)
finish_Fine name st (err e) f = f

visit_entry-Fine :
    (ml : List ModelMapping) (fuel : ℕ) (next : String → List String → Visits → Result Visits)
    → WalksFine ml fuel next
    → (name : String) (path : List String) (st : Visits) (m : ModelMapping)
    → by_name ml name ≡ some m
    → st name ≡ unvisited
    → todo st (plain_names ml) < suc fuel
    → (b : Bool) → no_fallbacks m.fallbacks ≡ b
    → Fine st (visit_entry next name path m st)
unfolding visit_entry WalksFine is_new Keeps Fine
visit_entry-Fine ml fuel next w name path st m p q b true e =
    rw (visit_entry, e) (mark-Keeps name visited st refl)
visit_entry-Fine ml fuel next w name path st m p q b false e =
    rw (visit_entry, e)
      (trans_Fine st (mark name visiting st) _ (mark-Keeps name visiting st refl) (
        finish_Fine name (mark name visiting st) _ (
          each-Fine ml fuel (λ r s. next r (path ++ name ∷ []) s)
            (λ r s l. w r (path ++ name ∷ []) s l) m.fallbacks (mark name visiting st)
            (omega (arith, b, todo-mark ml name m visiting st refl q p)))))

visit_by-Fine :
    (ml : List ModelMapping) (fuel : ℕ) (next : String → List String → Visits → Result Visits)
    → WalksFine ml fuel next
    → (name : String) (path : List String) (st : Visits) (o : Option ModelMapping) (v : Visit)
    → by_name ml name ≡ o
    → st name ≡ v
    → todo st (plain_names ml) < suc fuel
    → Fine st (visit_by next name path o st v)
unfolding Fine Keeps
visit_by-Fine ml fuel next w name path st o visited p q b = (λ k. omega arith)
visit_by-Fine ml fuel next w name path st o visiting p q b = cycle_error_fine name path
visit_by-Fine ml fuel next w name path st none unvisited p q b = (λ k. omega arith)
visit_by-Fine ml fuel next w name path st (some m) unvisited p q b =
    visit_entry-Fine ml fuel next w name path st m p q b (no_fallbacks m.fallbacks) refl

detect_cycle-Fine : (ml : List ModelMapping) (fuel : ℕ) → WalksFine ml fuel (detect_cycle ml fuel)
unfolding detect_cycle WalksFine
detect_cycle-Fine ml zero name path st b = ground arith
detect_cycle-Fine ml (suc fuel) name path st b =
    visit_by-Fine ml fuel (detect_cycle ml fuel) (detect_cycle-Fine ml fuel) name path st
      (by_name ml name) (st name) refl refl b

walks-Reports : (r : Result Visits) → Fine (λ k. unvisited) r → Reports r
unfolding Fine Reports
walks-Reports (ok st) f = tt
walks-Reports (err e) f = f

-- Cycle detection always ends, in the states of its walk or in an error that the source reports.
pub detect_all-Reports : (ml : List ModelMapping) → Reports (detect_all ml)
unfolding detect_all WalksFine
detect_all-Reports ml = walks-Reports _ (
    each-Fine ml (suc (length ml)) (λ r s. detect_cycle ml (suc (length ml)) r [] s)
      (λ r st l. detect_cycle-Fine ml (suc (length ml)) r [] st l) (plain_names ml) (λ k. unvisited)
      (omega (arith, todo-length (λ k. unvisited) (plain_names ml), plain_length ml)))
