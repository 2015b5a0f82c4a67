-- ===== src/Prelude/Bytes.antt =====
-- Texts as lists of bytes, and what the source uses of package strings on them.
use Prim.Native.Nat.{ℕ, ◌+◌, ◌-◌}
use Prim.Native.Char.{code}
use Prim.Native.String.{String}
use mathlib.Core.Path.{◌≡◌, refl, ap}
use mathlib.Core.Bool.{Bool, true, false, not, ◌&&◌, ◌||◌}
use mathlib.Core.Option.{Option, none, some}
use mathlib.Core.List.{List, [], ◌∷◌, ◌++◌}
use native.Mathlib.Omega.{arith}
use glitchgate.Prelude.Tests.{le→leb, nat_eq, leb, if◌then◌else◌}
use glitchgate.Prelude.Lists.{length, take, drop, length-append}

-- The bytes of an ASCII text.
abbrev pub bytes : String → List ℕ
bytes String.[] = []
bytes (String.◌∷◌ c s) = code c ∷ bytes s

unfoldable pub same_bytes : List ℕ → List ℕ → Bool
same_bytes [] [] = true
same_bytes [] (y ∷ ys) = false
same_bytes (x ∷ xs) [] = false
same_bytes (x ∷ xs) (y ∷ ys) = nat_eq x y && same_bytes xs ys

pub same_bytes_refl : (xs : List ℕ) → same_bytes xs xs ≡ true
unfolding same_bytes
same_bytes_refl [] = refl
same_bytes_refl (x ∷ xs) = ground (arith, same_bytes_refl xs)

abbrev pub is_empty : List ℕ → Bool
is_empty [] = true
is_empty (b ∷ bs) = false

-- strings.CutPrefix
unfoldable pub cut : List ℕ → List ℕ → Option (List ℕ)
cut [] s = some s
cut (c ∷ p) [] = none
cut (c ∷ p) (d ∷ s) = let rest = cut p s in if nat_eq c d then rest else none

pub cut-append : (p s : List ℕ) → cut p (p ++ s) ≡ some s
unfolding cut
cut-append [] s = refl
cut-append (c ∷ p) s = ground (arith, cut-append p s)

-- strings.HasSuffix
unfoldable pub has_suffix : List ℕ → List ℕ → Bool
unfolding same_bytes
has_suffix s p = leb (length p) (length s) && same_bytes (drop (length s - length p) s) p

pub drop-append : (xs ys : List ℕ) → drop (length xs) (xs ++ ys) ≡ ys
drop-append [] ys = refl
drop-append (x ∷ xs) ys = drop-append xs ys

pub take-append : (xs ys : List ℕ) → take (length xs) (xs ++ ys) ≡ xs
take-append [] ys = refl
take-append (x ∷ xs) ys = ap (λ zs. x ∷ zs) (take-append xs ys)

pub has_suffix-append : (xs p : List ℕ) → has_suffix (xs ++ p) p ≡ true
unfolding has_suffix
has_suffix-append xs p =
    let n : length (xs ++ p) - length p ≡ length xs = omega (arith, length-append xs p) in
    let l : leb (length p) (length (xs ++ p)) ≡ true =
      le→leb (length p) (length (xs ++ p)) (omega (arith, length-append xs p)) in
    rw (has_suffix, l, n, drop-append xs p) (same_bytes_refl p)

-- s[a : len(s) - b], `none` where Go panics.
unfoldable pub between : ℕ → ℕ → List ℕ → Option (List ℕ)
between a b s = if leb (a + b) (length s) then some (take (length s - (a + b)) (drop a s)) else none

pub between-append : (p m q : List ℕ) → between (length p) (length q) (p ++ (m ++ q)) ≡ some m
unfolding between
between-append p m q =
    let n : length (p ++ (m ++ q)) ≡ length p + (length m + length q) =
      omega (arith, length-append p (m ++ q), length-append m q) in
    let l : leb (length p + length q) (length (p ++ (m ++ q))) ≡ true =
      le→leb (length p + length q) (length (p ++ (m ++ q))) (omega (arith, n)) in
    let k : length (p ++ (m ++ q)) - (length p + length q) ≡ length m = omega (arith, n) in
    rw (between, l, k, drop-append p (m ++ q)) (ap some (take-append m q))

-- unicode.IsSpace, for ASCII.
unfoldable pub is_space : ℕ → Bool
is_space c = nat_eq c 32 || (leb 9 c && leb c 13)

unfoldable pub trim_left : List ℕ → List ℕ
unfolding is_space
trim_left [] = []
trim_left (c ∷ s) = let rest = trim_left s in if is_space c then rest else c ∷ s

unfoldable pub trim_right : List ℕ → List ℕ
unfolding is_space
trim_right [] = []
trim_right (c ∷ s) = let rest = trim_right s in if is_space c && is_empty rest then [] else c ∷ rest

-- strings.TrimSpace
unfoldable pub trim_space : List ℕ → List ℕ
unfolding trim_left trim_right
trim_space s = trim_right (trim_left s)

-- A text that starts and ends with something else than a space.
abbrev pub ends_solid : List ℕ → Bool
ends_solid [] = false
ends_solid (c ∷ []) = not (is_space c)
ends_solid (c ∷ (d ∷ s)) = ends_solid (d ∷ s)

abbrev pub starts_solid : List ℕ → Bool
starts_solid [] = false
starts_solid (c ∷ s) = not (is_space c)

pub trim_right_solid : (s : List ℕ) → ends_solid s ≡ true → trim_right s ≡ s
unfolding trim_right
trim_right_solid [] e = refl
trim_right_solid (c ∷ []) e = ground (arith, e)
trim_right_solid (c ∷ (d ∷ s)) e = rw (trim_right_solid (d ∷ s) e) (ground arith)

pub trim_space_solid : (s : List ℕ) → starts_solid s ≡ true → ends_solid s ≡ true → trim_space s ≡ s
unfolding trim_space
trim_space_solid [] e f = refl
trim_space_solid (c ∷ s) e f =
    let left : trim_left (c ∷ s) ≡ c ∷ s = first (is_space c) refl e in
    rw (trim_space, left) (trim_right_solid (c ∷ s) f)
  where
    first : (b : Bool) → is_space c ≡ b → not b ≡ true → trim_left (c ∷ s) ≡ c ∷ s
    first true q n = ground (arith, n)
    first false q n = rw (trim_left, q) refl

pub ends_solid-append : (s t : List ℕ) → ends_solid t ≡ true → ends_solid (s ++ t) ≡ true
ends_solid-append [] t e = e
ends_solid-append (x ∷ []) [] e = ground (arith, e)
ends_solid-append (x ∷ []) (c ∷ t) e = e
ends_solid-append (x ∷ (y ∷ s)) t e = ends_solid-append (y ∷ s) t e
