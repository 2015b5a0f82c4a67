-- ===== src/Export/OneLine.antt =====
-- internal/store/export.go: what writeTableSQL prints for a row stays on one line.
use glitchgate.Prelude.{
  ℕ, ◌/◌, ◌%◌, ◌<◌, ℤ, Bool, true, false, not, ◌&&◌, List, [], ◌∷◌, ◌++◌, map, ◌≡◌, refl, arith,
  nat_eq, Bool-cases, Option, inl, inr, All, bytes,
}
use glitchgate.Export.{
  Value, null, int, float, boolean, text, blob, has_control, double_quotes, quote_sql, sql_literal,
  join_literals,
}
use glitchgate.Export.Hex.{hex_encode, hex_digit, IsByte}
use glitchgate.Export.Literals.{Readable, is_numeral_byte}
use glitchgate.Export.Lines.{insert_line}

-- Neither a line feed nor a carriage return.
unfoldable pub one_line : List ℕ → Bool
one_line [] = true
one_line (c ∷ s) = not (nat_eq c 10) && not (nat_eq c 13) && one_line s

pub one_line-append :
    (s t : List ℕ) → one_line s ≡ true → one_line t ≡ true → one_line (s ++ t) ≡ true
unfolding one_line
one_line-append [] t e f = f
one_line-append (c ∷ s) t e f =
    let rest = one_line-append s t (ground (arith, e)) f in ground (arith, e, rest)

plain_digit : (n : ℕ) → n < 16 → one_line (hex_digit n ∷ []) ≡ true
unfolding one_line
plain_digit n l = ground (arith, l)

hex-one_line : (b : List ℕ) → All IsByte b → one_line (hex_encode b) ≡ true
unfolding one_line hex_encode
hex-one_line [] a = refl
hex-one_line (c ∷ b) (l, a) =
    one_line-append (hex_digit (c / 16) ∷ []) (hex_digit (c % 16) ∷ hex_encode b)
      (plain_digit (c / 16) (omega (arith, l)))
      (one_line-append (hex_digit (c % 16) ∷ []) (hex_encode b) (plain_digit (c % 16) (omega arith))
        (hex-one_line b a))

quotes-one_line : (s : List ℕ) → has_control s ≡ false → one_line (double_quotes s) ≡ true
unfolding one_line has_control double_quotes
quotes-one_line [] e = refl
quotes-one_line (c ∷ s) e =
    let rest = quotes-one_line s (ground (arith, e)) in ground (arith, e, rest)

quote_sql-one_line : (s : List ℕ) → All IsByte s → one_line (quote_sql s) ≡ true
unfolding quote_sql one_line
quote_sql-one_line s a = elim (Bool-cases (has_control s)) [
  | inl e ↦
      rw (quote_sql, e)
        (one_line-append (bytes "CAST(X'") (hex_encode s ++ bytes "' AS TEXT)") refl
          (one_line-append (hex_encode s) (bytes "' AS TEXT)") (hex-one_line s a) refl))
  | inr e ↦
      rw (quote_sql, e) (one_line-append (double_quotes s) (b'\'' ∷ []) (quotes-one_line s e) refl)
]

numeral-one_line : (s : List ℕ) → All (λ c. is_numeral_byte c ≡ true) s → one_line s ≡ true
unfolding one_line is_numeral_byte
numeral-one_line [] a = refl
numeral-one_line (c ∷ s) (e, a) = let rest = numeral-one_line s a in ground (arith, e, rest)

joined-one_line :
    (ls : List (List ℕ)) → All (λ l. one_line l ≡ true) ls → one_line (join_literals ls) ≡ true
unfolding one_line join_literals
joined-one_line [] a = refl
joined-one_line (l ∷ []) (e, a) = e
joined-one_line (l ∷ (m ∷ ls)) (e, a) =
    one_line-append l (bytes ", " ++ join_literals (m ∷ ls)) e
      (one_line-append (bytes ", ") (join_literals (m ∷ ls)) refl (joined-one_line (m ∷ ls) a))

module _ {Float : Type 0} (format_int : ℤ → List ℕ) (format_float : Float → List ℕ)
    (parse_int : List ℕ → Option ℤ) (parse_float : List ℕ → Option Float) where
  literal-one_line :
      (v : Value Float)
      → Readable format_int format_float parse_int parse_float v
      → one_line (sql_literal format_int format_float v) ≡ true
  unfolding Readable sql_literal one_line
  literal-one_line null r = refl
  literal-one_line (int i) ((n, a), e) = numeral-one_line _ a
  literal-one_line (float f) ((n, a), e, g) = numeral-one_line _ a
  literal-one_line (boolean true) r = refl
  literal-one_line (boolean false) r = refl
  literal-one_line (text s) a = quote_sql-one_line s a
  literal-one_line (blob b) (n, a) =
      one_line-append (bytes "X'") (hex_encode b ++ bytes "'") refl
        (one_line-append (hex_encode b) (bytes "'") (hex-one_line b a) refl)

  literals-one_line :
      (vs : List (Value Float))
      → All (Readable format_int format_float parse_int parse_float) vs
      → All (λ l. one_line l ≡ true) (map (sql_literal format_int format_float) vs)
  literals-one_line [] a = tt
  literals-one_line (v ∷ vs) (r, a) = (literal-one_line v r, literals-one_line vs a)

  -- The line of a row of readable values is one line, if the names are.
  pub insert_line-one_line :
      (table : List ℕ) (cols : List (List ℕ)) (vs : List (Value Float))
      → one_line table ≡ true
      → All (λ c. one_line c ≡ true) cols
      → All (Readable format_int format_float parse_int parse_float) vs
      → one_line (insert_line table cols (map (sql_literal format_int format_float) vs)) ≡ true
  unfolding insert_line one_line
  insert_line-one_line table cols vs t c a =
      let literals = join_literals (map (sql_literal format_int format_float) vs) in
      let last = bytes ") VALUES (" ++ (literals ++ bytes ");") in
      one_line-append (bytes "INSERT OR IGNORE INTO ")
        (table ++ (bytes " (" ++ (join_literals cols ++ last))) refl
        (one_line-append table (bytes " (" ++ (join_literals cols ++ last)) t (
          one_line-append (bytes " (") (join_literals cols ++ last) refl (
            one_line-append (join_literals cols) last (joined-one_line cols c) (
              one_line-append (bytes ") VALUES (") (literals ++ bytes ");") refl (
                one_line-append literals (bytes ");")
                  (joined-one_line (map (sql_literal format_int format_float) vs)
                    (literals-one_line vs a))
                  refl)))))
