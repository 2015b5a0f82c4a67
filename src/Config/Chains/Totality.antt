-- ===== src/Config/Chains/Totality.antt =====
-- internal/config/config.go, buildResolvedChains: it ends on every model list.
use glitchgate.Prelude.{
  suc, String, Bool, true, false, not, ◌&&◌, ◌||◌, none, List, [], ◌∷◌, ◌==◌, eq_refl, ◌≡◌, ◌≢◌,
  refl, sym, inl, inr, arith, if◌then◌else◌, length, Bool-cases, Option-cases, subst, All, All-each,
  empty_map,
}
use glitchgate.Config.Types.{ModelMapping}
use glitchgate.Config.Names.{is_wildcard, no_fallbacks}
use glitchgate.Config.Chains.{
  both_set, neither_set, undefined_fallback, Result, ok, err, ◌>>=◌, by_name, resolve_wildcard,
  plain_names, is_some, check_exclusive, check_all_exclusive, check_refs, check_all_refs,
  detect_all, flatten, flatten_all, build_resolved_chains, Visits,
}
use glitchgate.Config.Chains.Termination.{IsReported, Reports, detect_all-Reports}
use glitchgate.Config.Chains.Acyclic.{detect_all-Grounded}
use glitchgate.Config.Chains.Flattening.{
  Succeeds, Resolves, check_all_refs-Resolves, flatten-WillFlatten, each-Succeeds,
}

plain-known : (ml : List ModelMapping) → All (λ n. by_name ml n ≢ none) (plain_names ml)
unfolding plain_names by_name
plain-known [] = tt
plain-known (x ∷ ml) = elim (Bool-cases (is_wildcard x)) [
  | inl w ↦ rw w (All-each kept (plain_names ml) (plain-known ml))
  | inr w ↦ rw w (head w, All-each kept (plain_names ml) (plain-known ml))
]
  where
    kept : (n : String) → by_name ml n ≢ none → by_name (x ∷ ml) n ≢ none
    kept n k = elim (Option-cases (by_name ml n)) [
      | inl e ↦ ground (arith, e, k)
      | inr (m, e) ↦ ground (arith, e)
    ]

    head : is_wildcard x ≡ false → by_name (x ∷ ml) x.model_name ≢ none
    head w = elim (Option-cases (by_name ml x.model_name)) [
      | inl e ↦ ground (arith, e, w, eq_refl x.model_name)
      | inr (m, e) ↦ ground (arith, e)
    ]

plain-Resolves : (ml : List ModelMapping) → All (Resolves ml) (plain_names ml)
unfolding Resolves
plain-Resolves ml = All-each (λ n k. inl k) (plain_names ml) (plain-known ml)

flatten-Succeeds :
    (ml : List ModelMapping) (st : Visits)
    → Succeeds (check_all_refs ml ml)
    → detect_all ml ≡ ok st
    → Succeeds (flatten_all ml)
unfolding flatten_all
flatten-Succeeds ml st s e =
    each-Succeeds ml (length ml) (flatten ml (suc (length ml)))
      (flatten-WillFlatten ml (check_all_refs-Resolves ml ml s) (suc (length ml)) (length ml)
        (omega arith))
      (plain_names ml) empty_map (detect_all-Grounded ml st e) (plain-Resolves ml)

module _ {ℓ} {A : Type ℓ} where
  Reports-if : (b : Bool) (x y : Result A) → Reports x → Reports y → Reports (if b then x else y)
  Reports-if true x y r s = r
  Reports-if false x y r s = s

  Reports-bind {κ} :
      {B : Type κ} (o : Result B) (k : B → Result A)
      → Reports o
      → ((b : B) → o ≡ ok b → Reports (k b))
      → Reports (o >>= k)
  unfolding Reports
  Reports-bind (ok b) k r f = f b refl
  Reports-bind (err e) k r f = r

  Succeeds-Reports : (r : Result A) → Succeeds r → Reports r
  unfolding Reports Succeeds
  Succeeds-Reports (ok a) s = tt
  Succeeds-Reports (err e) s = absurd s

exclusive-Reports : (m : ModelMapping) → Reports (check_exclusive m)
unfolding check_exclusive Reports IsReported
exclusive-Reports m =
    let direct : Bool = not (m.provider == "") || not (m.upstream_model == "") in
    let virtual : Bool = not (no_fallbacks m.fallbacks) in
    let unset : Result (Unit {0}) =
      if not direct && not virtual then err (neither_set m.model_name) else ok tt in
    Reports-if {A = Unit {0}} (is_wildcard m) (ok tt)
      (if direct && virtual then err (both_set m.model_name) else unset) tt
      (Reports-if {A = Unit {0}} (direct && virtual) (err (both_set m.model_name)) unset tt (
        Reports-if {A = Unit {0}} (not direct && not virtual) (err (neither_set m.model_name))
          (ok tt) tt tt))

all_exclusive-Reports : (ml : List ModelMapping) → Reports (check_all_exclusive ml)
unfolding check_all_exclusive Reports
all_exclusive-Reports [] = tt
all_exclusive-Reports (m ∷ ms) =
    Reports-bind (check_exclusive m) _ (exclusive-Reports m) (λ b e. all_exclusive-Reports ms)

refs-Reports :
    (ml : List ModelMapping) (name : String) (refs : List String)
    → Reports (check_refs ml name refs)
unfolding check_refs Reports IsReported
refs-Reports ml name [] = tt
refs-Reports ml name (ref ∷ refs) =
    Reports-if {A = Unit {0}} (is_some (by_name ml ref) || is_some (resolve_wildcard ml ref))
      (check_refs ml name refs) (err (undefined_fallback name ref)) (refs-Reports ml name refs) tt

all_refs-Reports : (ml ms : List ModelMapping) → Reports (check_all_refs ml ms)
unfolding check_all_refs Reports
all_refs-Reports ml [] = tt
all_refs-Reports ml (m ∷ ms) =
    Reports-bind (check_refs ml m.model_name m.fallbacks) _
      (refs-Reports ml m.model_name m.fallbacks) (λ b e. all_refs-Reports ml ms)

-- buildResolvedChains ends on every model list, in the chains or in an error that the first three
-- passes report: the recursions have fuel enough, and the flattening never misses a name.
pub build_resolved_chains-Reports : (ml : List ModelMapping) → Reports (build_resolved_chains ml)
unfolding build_resolved_chains Succeeds
build_resolved_chains-Reports ml =
    Reports-bind (check_all_exclusive ml) _ (all_exclusive-Reports ml) λ a e.
      Reports-bind (check_all_refs ml ml) _ (all_refs-Reports ml ml) λ b f.
        Reports-bind (detect_all ml) _ (detect_all-Reports ml) λ st g.
          Succeeds-Reports (flatten_all ml) (flatten-Succeeds ml st (subst Succeeds (sym f) tt) g)
