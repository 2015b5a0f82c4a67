-- ===== src/Export/Rows.antt =====
-- internal/store/export.go, writeTableSQL and importFromDump: the values of a row, written as joined
-- literals, are split and read back.
use glitchgate.Prelude.{
  ℕ, ◌/◌, ◌%◌, ◌<◌, ℤ, pos, Bool, true, false, ◌||◌, not, Option, List, [], ◌∷◌, ◌++◌, map, ◌≡◌,
  refl, ap, ap₂, ◌∙◌, arith, nat_eq, Bool-cases, inl, inr, All, bytes, is_space, ends_solid-append,
}
use glitchgate.Export.{
  Value, null, int, float, boolean, text, blob, has_control, double_quotes, quote_sql, sql_literal,
  parsed, parse_sql_literal_to_go, split_sql_values, join_literals,
}
use glitchgate.Export.Hex.{hex_digit, hex_encode, IsByte}
use glitchgate.Export.Literals.{
  is_numeral_byte, IsNumeral, solid_byte, numeral_ends, Readable, stored, parse-sql_literal,
}
use glitchgate.Export.Splitting.{
  IsLiteral, is_closed, splits_at, turned_str, is_quote, split-join_literals,
}

-- A byte that neither splits nor turns anything.
unfoldable is_plain : ℕ → Bool
is_plain c = not (nat_eq c b'\'' || nat_eq c b',' || nat_eq c b'(' || nat_eq c b')')

no_marks :
    (c : ℕ)
    → is_plain c ≡ true
    → (nat_eq c b'\'' ≡ false)
      × (nat_eq c b',' ≡ false)
      × (nat_eq c b'(' ≡ false)
      × (nat_eq c b')' ≡ false)
unfolding is_plain
no_marks c e = ground (arith, e)

plain_passes :
    (depth : ℤ) (in_str : Bool) (c : ℕ) (s : List ℕ)
    → is_plain c ≡ true
    → is_closed depth in_str (c ∷ s) ≡ is_closed depth in_str s
unfolding is_closed splits_at is_plain
plain_passes depth true c s e = let (q, m, o, r) = no_marks c e in rw (turned_str, q) refl
plain_passes depth false c s e =
    let (q, m, o, r) = no_marks c e in rw (splits_at, m, turned_str, q, o, r) refl

plain_digit : (n : ℕ) → n < 16 → is_plain (hex_digit n) ≡ true
unfolding is_plain
plain_digit n l = ground (arith, l)

hex_passes :
    (depth : ℤ) (in_str : Bool) (b s : List ℕ)
    → All IsByte b
    → is_closed depth in_str (hex_encode b ++ s) ≡ is_closed depth in_str s
unfolding hex_encode
hex_passes depth in_str [] s p = refl
hex_passes depth in_str (c ∷ b) s (l, p) =
    plain_passes depth in_str (hex_digit (c / 16)) (hex_digit (c % 16) ∷ (hex_encode b ++ s))
      (plain_digit (c / 16) (omega (arith, l)))
    ∙ plain_passes depth in_str (hex_digit (c % 16)) (hex_encode b ++ s)
        (plain_digit (c % 16) (omega arith))
    ∙ hex_passes depth in_str b s p

doubled_passes :
    (s t : List ℕ) → is_closed (pos 0) true (double_quotes s ++ t) ≡ is_closed (pos 0) true t
unfolding double_quotes is_closed splits_at
doubled_passes [] t = refl
doubled_passes (c ∷ s) t = elim (Bool-cases (nat_eq c b'\'')) [
  | inl e ↦ rw (double_quotes, e, is_quote c e) (doubled_passes s t)
  | inr e ↦ rw (double_quotes, e, turned_str, e) (doubled_passes s t)
]

numeral_passes :
    (s : List ℕ) → All (λ c. is_numeral_byte c ≡ true) s → is_closed (pos 0) false s ≡ true
unfolding is_closed is_plain is_numeral_byte
numeral_passes [] a = refl
numeral_passes (c ∷ s) (e, a) =
    plain_passes (pos 0) false c s (ground (arith, e)) ∙ numeral_passes s a

numeral-IsLiteral : (s : List ℕ) → IsNumeral s → IsLiteral s
numeral-IsLiteral [] (n, a) = absurd (n refl)
numeral-IsLiteral (c ∷ s) (n, (e, a)) =
    (rw (solid_byte c e) refl, numeral_ends (c ∷ s) (n, (e, a)), numeral_passes (c ∷ s) (e, a))

quote_sql-IsLiteral : (s : List ℕ) → All IsByte s → IsLiteral (quote_sql s)
unfolding quote_sql is_space is_closed splits_at
quote_sql-IsLiteral s p = elim (Bool-cases (has_control s)) [
  | inl e ↦
      rw (quote_sql, e)
        (
          refl,
          ends_solid-append (bytes "CAST(X'" ++ hex_encode s) (bytes "' AS TEXT)") refl,
          hex_passes (pos 1) true s (bytes "' AS TEXT)") p,
        )
  | inr e ↦
      rw (quote_sql, e)
        (
          refl,
          ends_solid-append (b'\'' ∷ double_quotes s) (b'\'' ∷ []) refl,
          doubled_passes s (b'\'' ∷ []),
        )
]

module _ {Float : Type 0} (format_int : ℤ → List ℕ) (format_float : Float → List ℕ)
    (parse_int : List ℕ → Option ℤ) (parse_float : List ℕ → Option Float) where
  sql_literal-IsLiteral :
      (v : Value Float)
      → Readable format_int format_float parse_int parse_float v
      → IsLiteral (sql_literal format_int format_float v)
  unfolding sql_literal Readable is_closed splits_at is_space
  sql_literal-IsLiteral null r = (refl, refl, refl)
  sql_literal-IsLiteral (int n) (i, e) = numeral-IsLiteral (format_int n) i
  sql_literal-IsLiteral (float f) (i, e, g) = numeral-IsLiteral (format_float f) i
  sql_literal-IsLiteral (boolean true) r = (refl, refl, refl)
  sql_literal-IsLiteral (boolean false) r = (refl, refl, refl)
  sql_literal-IsLiteral (text s) p = quote_sql-IsLiteral s p
  sql_literal-IsLiteral (blob b) (n, p) = (
    refl,
    ends_solid-append (bytes "X'" ++ hex_encode b) (bytes "'") refl,
    hex_passes (pos 0) true b (bytes "'") p,
  )

  abbrev pub IsReadable : Value Float → Type 0
  IsReadable v = Readable format_int format_float parse_int parse_float v

  pub literals_lem :
      (vs : List (Value Float))
      → All IsReadable vs
      → All IsLiteral (map (sql_literal format_int format_float) vs)
  literals_lem [] a = tt
  literals_lem (v ∷ vs) (r, a) = (sql_literal-IsLiteral v r, literals_lem vs a)

  parsed_lem :
      (vs : List (Value Float))
      → All IsReadable vs
      → map
          (parse_sql_literal_to_go parse_int parse_float)
          (map (sql_literal format_int format_float) vs)
        ≡ map (λ v. parsed (stored v)) vs
  parsed_lem [] a = refl
  parsed_lem (v ∷ vs) (r, a) =
      ap₂ (λ x xs. x ∷ xs) (parse-sql_literal format_int format_float parse_int parse_float v r)
        (parsed_lem vs a)

  -- The values of a row, not none, are read back from the text that the row is written as, in
  -- their order, each truth value as a number.
  pub parse-split-join_literals :
      (v : Value Float) (vs : List (Value Float))
      → All IsReadable (v ∷ vs)
      → map
          (parse_sql_literal_to_go parse_int parse_float)
          (split_sql_values (join_literals (map (sql_literal format_int format_float) (v ∷ vs))))
        ≡ map (λ w. parsed (stored w)) (v ∷ vs)
  parse-split-join_literals v vs a =
      ap (map (parse_sql_literal_to_go parse_int parse_float)) (
        split-join_literals (sql_literal format_int format_float v)
          (map (sql_literal format_int format_float) vs) (literals_lem (v ∷ vs) a))
      ∙ parsed_lem (v ∷ vs) a
