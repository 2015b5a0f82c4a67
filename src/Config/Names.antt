-- ===== src/Config/Names.antt =====
-- internal/config/config.go: model names and wildcard prefixes.
-- The functions of package strings that the source calls stand first, over the characters of a text.
pub mod Matching
use Prim.Native.Char.{Char, code}
use Prim.Native.String.{◌++◌}
use glitchgate.Prelude.{
  ℕ, String, Bool, true, false, not, ◌&&◌, ◌||◌, Option, none, some, List, [], ◌∷◌, nat_eq, ◌==◌,
  if◌then◌else◌,
}
use glitchgate.Config.Types.{ModelMapping}

abbrev pub same_char : Char → Char → Bool
same_char c d = nat_eq (code c) (code d)

-- strings.CutPrefix(s, prefix)
unfoldable pub cut_prefix : String → String → Option String
cut_prefix String.[] s = some s
cut_prefix (String.◌∷◌ c p) String.[] = none
cut_prefix (String.◌∷◌ c p) (String.◌∷◌ d s) = if same_char c d then cut_prefix p s else none

prepend : Char → Option String → Option String
prepend c none = none
prepend c (some s) = some (String.◌∷◌ c s)

-- strings.CutSuffix(s, suffix)
unfoldable pub cut_suffix : String → String → Option String
unfolding prepend
cut_suffix suffix String.[] = if suffix == "" then some "" else none
cut_suffix suffix (String.◌∷◌ c s) =
    let rest = prepend c (cut_suffix suffix s) in if String.◌∷◌ c s == suffix then some "" else rest

add_first : Char → List String → List String
add_first c [] = String.◌∷◌ c "" ∷ []
add_first c (x ∷ xs) = String.◌∷◌ c x ∷ xs

-- strings.Split(s, "/")
unfoldable pub split_slash : String → List String
unfolding add_first
split_slash String.[] = "" ∷ []
split_slash (String.◌∷◌ c s) =
    let rest = split_slash s in if nat_eq (code c) b'/' then "" ∷ rest else add_first c rest

-- strings.ContainsAny(s, "?#\\")
unfoldable pub has_special : String → Bool
has_special String.[] = false
has_special (String.◌∷◌ c s) =
    nat_eq (code c) b'?' || nat_eq (code c) b'#' || nat_eq (code c) 92 || has_special s

-- The loop over the segments.
unfoldable pub safe_segments : List String → Bool
safe_segments [] = true
safe_segments (seg ∷ segs) = not (seg == ".." || seg == "." || seg == "") && safe_segments segs

unfoldable pub is_safe_model_suffix : String → Bool
unfolding has_special split_slash safe_segments
is_safe_model_suffix s = if has_special s then false else safe_segments (split_slash s)

-- `none` for ok = false.
unfoldable pub matches_wildcard : String → String → Option String
unfolding cut_prefix is_safe_model_suffix
matches_wildcard prefix model_name = elim (cut_prefix (prefix ++ "/") model_name) [
  | none ↦ none
  | some after ↦
      if after == "" then none else if is_safe_model_suffix after then some after else none
]

unfoldable pub is_wildcard : ModelMapping → Bool
unfolding cut_suffix
is_wildcard m = elim (cut_suffix "/*" m.model_name) [ none ↦ false | some prefix ↦ true ]

unfoldable pub wildcard_prefix : ModelMapping → String
unfolding cut_suffix
wildcard_prefix m = elim (cut_suffix "/*" m.model_name) [ none ↦ "" | some prefix ↦ prefix ]

abbrev pub no_fallbacks : List String → Bool
no_fallbacks [] = true
no_fallbacks (r ∷ rs) = false

unfoldable pub is_direct : ModelMapping → Bool
is_direct m = not (m.provider == "") && no_fallbacks m.fallbacks

unfoldable pub is_virtual : ModelMapping → Bool
is_virtual m = not (no_fallbacks m.fallbacks)
