-- ===== src/Config/Names/Matching.antt =====
-- internal/config/config.go, MatchesWildcard: which names match, and with which suffix.
use Prim.Native.Char.{Char}
use Prim.Native.String.{◌++◌}
use text.Mathlib.TextEquality.{Char-path}
use text.Mathlib.TextLemmas.{nil-append, cons-append}
use glitchgate.Prelude.{
  String, true, some, eq_iff, ◌≡◌, ◌≢◌, ◌↔◌, ap, inl, inr, arith, Bool-cases, Option-cases, sym,
  ap₂,
}
use glitchgate.Config.Names.{same_char, cut_prefix, is_safe_model_suffix, matches_wildcard}

same_char→eq : (c d : Char) → same_char c d ≡ true → c ≡ d
same_char→eq c d h = Char-path c d (ground arith)

same_char_refl : (c : Char) → same_char c c ≡ true
same_char_refl c = ground arith

cut_prefix_append : (p s : String) → cut_prefix p (p ++ s) ≡ some s
unfolding cut_prefix
cut_prefix_append String.[] s = ap some (nil-append s)
cut_prefix_append (String.◌∷◌ c p) s = rw (cons-append, same_char_refl) (cut_prefix_append p s)

cut_prefix→append : (p s r : String) → cut_prefix p s ≡ some r → s ≡ p ++ r
unfolding cut_prefix
cut_prefix→append String.[] s r h = rw nil-append (ground arith)
cut_prefix→append (String.◌∷◌ c p) String.[] r h = ground arith
cut_prefix→append (String.◌∷◌ c p) (String.◌∷◌ d s) r h = elim (Bool-cases (same_char c d)) [
  | inl e ↦
      rw cons-append
        (ap₂ String.◌∷◌ (sym (same_char→eq c d e)) (cut_prefix→append p s r (ground (arith, h, e))))
  | inr e ↦ ground (arith, h, e)
]

-- A name matches a wildcard prefix, with a suffix, if and only if the name is the prefix, a slash
-- and the suffix, and the suffix is not empty and is safe.
pub matches_wildcard_iff :
    (prefix name suffix : String)
    → (matches_wildcard prefix name ≡ some suffix)
      ↔ ((name ≡ (prefix ++ "/") ++ suffix) × (suffix ≢ "") × (is_safe_model_suffix suffix ≡ true))
unfolding matches_wildcard
matches_wildcard_iff prefix name suffix = (go, back)
  where
    go :
        matches_wildcard prefix name ≡ some suffix
        → (name ≡ (prefix ++ "/") ++ suffix) × (suffix ≢ "") × (is_safe_model_suffix suffix ≡ true)
    go h = elim (Option-cases (cut_prefix (prefix ++ "/") name)) [
      | inl e ↦ ground (arith, e, h)
      | inr (r, e) ↦ ground (arith, e, h, eq_iff r "", cut_prefix→append (prefix ++ "/") name r e)
    ]

    back :
        (name ≡ (prefix ++ "/") ++ suffix) × (suffix ≢ "") × (is_safe_model_suffix suffix ≡ true)
        → matches_wildcard prefix name ≡ some suffix
    back (e, n, s) =
        rw (matches_wildcard, e, cut_prefix_append (prefix ++ "/") suffix)
          (ground (arith, n, s, eq_iff suffix ""))
