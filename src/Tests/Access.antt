-- ===== src/Tests/Access.antt =====
-- Runs of the model allowlist.
use glitchgate.Prelude.{
  ◌≡◌, refl, String, Bool, true, some, Option, List, [], ◌∷◌, arith, pos, ◌==◌, if◌then◌else◌, ltb,
}
use glitchgate.ModelAccess
use glitchgate.ModelAccess.{
  Fetch, fetched, fetch_failed, new_model_checker, is_model_allowed, judge, verdict, invalidate_key,
}
use glitchgate.ModelAccess.Coherence.{Store, run, step, Call, check}
use glitchgate.ModelAccess.Verdicts.{Backed, verdict-Backed}

-- A match of whole names stands for filepath.Match.
abbrev glob : String → String → Option Bool
glob pattern name = some (pattern == name)

-- The store changes its mind at 50.
abbrev store : Store
store at key = if ltb at 50 then fetched ("opus" ∷ []) else fetched ("haiku" ∷ [])

abbrev calls : List Call
calls = check 10 "k" "opus" ∷ check 40 "j" "opus" ∷ []

stale_verdict :
    (is_model_allowed glob
      (store 60)
      60
      "k"
      "opus"
      (run glob store (new_model_checker (pos 100)) calls)).0
    ≡ verdict true
unfolding is_model_allowed run step new_model_checker ModelAccess.get_patterns judge
stale_verdict = refl

verdict-Backed_example : Backed glob store (new_model_checker (pos 100)).ttl 60 "k" "opus" true
verdict-Backed_example =
    verdict-Backed glob store (pos 100) 0 calls 60 "k" "opus" true (omega arith) (omega arith)
      stale_verdict
