-- ===== src/ModelAccess/Verdicts.antt =====
-- What a verdict of the model checker says about the store.
use glitchgate.Prelude.{
  ℕ, ◌≤◌, ◌≡◌, ◌↔◌, refl, subst, sym, ◌∙◌, ap, String, Bool, true, Option, none, List, [], ◌∷◌,
  arith, inl, inr, ℤ, Bool-cases, eq_refl,
}
use glitchgate.ModelAccess.{
  Fetch, fetched, fetch_failed, ModelChecker, new_model_checker, evict_stale, invalidate_key,
  refresh, fresh_entry, get_patterns, any_match, matched, verdict, judge, is_model_allowed,
}
use glitchgate.ModelAccess.Coherence.{
  Store, IsRecent, new_model_checker-IsCoherent, get_patterns-Serves, Call, check, invalidate, step,
  run, IsOrdered, final, Matches, Allows, run-IsCoherent, later_IsCoherent,
}

any_match-Matches :
    (glob : String → String → Option Bool) (model : String) (ps : List String)
    → (any_match glob model ps ≡ true) ↔ Matches glob model ps
unfolding any_match
any_match-Matches glob model [] = ((λ h. cc), (λ h. absurd h))
any_match-Matches glob model (p ∷ ps) =
    let ih = any_match-Matches glob model ps in
    (
      λ h. elim (Bool-cases (matched (glob p model))) [
        | inl yes' ↦ inl (ground arith)
        | inr no' ↦ inr (ih.0 (rw no' at h))
      ],
      elim [ inl q ↦ rw q | inr q ↦ ground (arith, ih.1 q) ],
    )

-- The verdict on patterns that were read is true exactly if there are none or one matches.
pub judge-Allows :
    (glob : String → String → Option Bool) (model : String) (ps : List String) (b : Bool)
    → judge glob model (fetched ps) ≡ verdict b
    → (b ≡ true) ↔ Allows glob model ps
unfolding judge
judge-Allows glob model [] b h = ((λ e. inl refl), (λ a. ground arith))
judge-Allows glob model (p ∷ ps) b h =
    let same : any_match glob model (p ∷ ps) ≡ b = cc in
    let iff = any_match-Matches glob model (p ∷ ps) in
    (λ e. inr (iff.0 (same ∙ e)), elim [ inl q ↦ ground arith | inr q ↦ sym same ∙ iff.1 q ])

ttl-get_patterns :
    (f : String → Fetch) (now : ℕ) (key : String) (mc : ModelChecker)
    → (get_patterns f now key mc).1.ttl ≡ mc.ttl
unfolding get_patterns
ttl-get_patterns f now key mc = ground arith

module _ (glob : String → String → Option Bool) (store : Store) where
  ttl-step : (mc : ModelChecker) (c : Call) → (step glob store mc c).ttl ≡ mc.ttl
  unfolding step is_model_allowed invalidate_key
  ttl-step mc (check now key model) = ttl-get_patterns (store now) now key mc
  ttl-step mc (invalidate now key) = refl

  ttl-run : (mc : ModelChecker) (cs : List Call) → (run glob store mc cs).ttl ≡ mc.ttl
  unfolding run
  ttl-run mc [] = refl
  ttl-run mc (c ∷ cs) = ttl-run (step glob store mc c) cs ∙ ttl-step mc c

-- An allowlist that the store held in the recent past and that gives the verdict.
pub record Backed (glob : String → String → Option Bool) (store : Store) (ttl now : ℕ)
    (key model : String) (b : Bool) : Type 0 where
  pub patterns : List String
  pub recent : IsRecent store ttl now key (fetched patterns)
  pub iff : (b ≡ true) ↔ Allows glob model patterns

backed :
    (glob : String → String → Option Bool) (store : Store) (ttl now : ℕ) (key model : String)
    (f : Fetch) (b : Bool)
    → IsRecent store ttl now key f
    → judge glob model f ≡ verdict b
    → Backed glob store ttl now key model b
unfolding judge
backed glob store ttl now key model (fetch_failed e) b r h = absurd (ground arith)
backed glob store ttl now key model (fetched ps) b r h = record {
  patterns = ps;
  recent = r;
  iff = judge-Allows glob model ps b h;
}

-- After any calls on a new checker at times that do not go back, a verdict on a key and a model at
-- a later time is true exactly if an allowlist is empty or has a pattern that matches the model,
-- for an allowlist that the store held for the key at that time or less than the time to live
-- before it. (A failed read gives no verdict.)
pub verdict-Backed :
    (glob : String → String → Option Bool) (store : Store) (ttl : ℤ) (start : ℕ) (cs : List Call)
    (now : ℕ) (key model : String) (b : Bool)
    → IsOrdered start cs
    → final start cs ≤ now
    → (is_model_allowed glob
        (store now)
        now
        key
        model
        (run glob store (new_model_checker ttl) cs)).0
      ≡ verdict b
    → Backed glob store (new_model_checker ttl).ttl now key model b
unfolding is_model_allowed
verdict-Backed glob store ttl start cs now key model b o l h =
    let mc = run glob store (new_model_checker ttl) cs in
    let coherent =
      run-IsCoherent glob store start (new_model_checker ttl) cs
        (new_model_checker-IsCoherent store start ttl) o in
    let served =
      get_patterns-Serves store now key mc
        (later_IsCoherent store (final start cs) now mc l coherent) in
    backed glob store (new_model_checker ttl).ttl now key model
      (get_patterns (store now) now key mc).0 b
      (subst (λ τ. IsRecent store τ now key (get_patterns (store now) now key mc).0)
        (ttl-run glob store (new_model_checker ttl) cs) served.0)
      h

answer-refresh :
    (f : Fetch) (now : ℕ) (key : String) (mc : ModelChecker) → (refresh f now key mc).0 ≡ f
unfolding refresh
answer-refresh (fetched ps) now key mc = refl
answer-refresh (fetch_failed e) now key mc = refl

get_patterns-removed :
    (f : String → Fetch) (now : ℕ) (key : String) (mc : ModelChecker)
    → mc.cache key ≡ none
    → (get_patterns f now key mc).0 ≡ f key
unfolding get_patterns
get_patterns-removed f now key mc h =
    rw (h, get_patterns, fresh_entry) (answer-refresh (f key) now key (evict_stale now mc))

-- After InvalidateKey, whatever the cache held, the next verdict on the key is that of the store as
-- it is at that time.
is_model_allowed-invalidate_key :
    (glob : String → String → Option Bool) (f : String → Fetch) (now : ℕ) (key model : String)
    (mc : ModelChecker)
    → (is_model_allowed glob f now key model (invalidate_key key mc)).0 ≡ judge glob model (f key)
unfolding is_model_allowed invalidate_key
is_model_allowed-invalidate_key glob f now key model mc =
    ap (judge glob model) (get_patterns-removed f now key (invalidate_key key mc) (rw eq_refl))
