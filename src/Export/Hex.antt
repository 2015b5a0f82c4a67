-- ===== src/Export/Hex.antt =====
-- Package encoding/hex, as far as internal/store/export.go uses it: two lower-case digits a byte.
use glitchgate.Prelude.{
  ℕ, ◌+◌, ◌-◌, ◌*◌, ◌/◌, ◌%◌, ◌<◌, ◌&&◌, Option, none, some, List, [], ◌∷◌, ◌≡◌, refl, ap, arith,
  ltb, leb, if◌then◌else◌, All,
}

abbrev pub hex_digit : ℕ → ℕ
hex_digit n = if ltb n 10 then b'0' + n else 87 + n

-- The value of a digit, in upper or lower case.
unfoldable pub from_hex : ℕ → Option ℕ
from_hex c =
    if leb b'0' c && leb c b'9'
    then some (c - b'0')
    else if leb b'a' c && leb c b'f'
    then some (c - 87)
    else if leb b'A' c && leb c b'F'
    then some (c - 55)
    else none

unfoldable pub hex_encode : List ℕ → List ℕ
hex_encode [] = []
hex_encode (b ∷ bs) = hex_digit (b / 16) ∷ (hex_digit (b % 16) ∷ hex_encode bs)

unfoldable pub hex_decode : List ℕ → Option (List ℕ)
unfolding from_hex
hex_decode [] = some []
hex_decode (c ∷ []) = none
hex_decode (c ∷ (d ∷ s)) = elim (from_hex c) [
  | none ↦ none
  | some x ↦ elim (from_hex d) [
    | none ↦ none
    | some y ↦ elim (hex_decode s) [ none ↦ none | some bs ↦ some ((x * 16 + y) ∷ bs) ]
  ]
]

abbrev pub IsByte : ℕ → Type 0
IsByte b = b < 256

from_hex_digit : (n : ℕ) → n < 16 → from_hex (hex_digit n) ≡ some n
unfolding from_hex
from_hex_digit n l = ground (arith, l)

pub hex_decode-encode : (bs : List ℕ) → All IsByte bs → hex_decode (hex_encode bs) ≡ some bs
unfolding hex_encode hex_decode
hex_decode-encode [] p = refl
hex_decode-encode (b ∷ bs) (l, p) =
    rw
      (
        hex_decode,
        from_hex_digit (b / 16) (omega (arith, l)),
        from_hex_digit (b % 16) (omega arith),
        hex_decode-encode bs p,
      )
      (ap (λ x. some (x ∷ bs)) (omega arith))
