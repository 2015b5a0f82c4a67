-- ===== src/Export/Literals.antt =====
-- internal/store/export.go: every value that a backup can hold is read back from its literal.
use glitchgate.Prelude.{
  ℕ, ◌≤◌, ℤ, pos, Bool, true, false, ◌&&◌, ◌||◌, Option, none, some, List, [], ◌∷◌, ◌++◌, ◌≡◌, ◌≢◌,
  refl, ◌∙◌, arith, nat_eq, leb, All, length, length-append, bytes, same_bytes, cut,
  has_suffix-append, between-append, ends_solid, ends_solid-append, is_space, le→leb,
}
use glitchgate.Export.{
  Value, null, int, float, boolean, text, blob, sql_literal, is_null_text, is_quoted, starts_with,
  parsed, parse_number, lower_byte, parse_trimmed, parse_sql_literal_to_go,
}
use glitchgate.Export.Hex.{hex_encode, hex_decode-encode, IsByte}
use glitchgate.Export.Quoting.{parse-solid, parse-quote_sql}

-- The bytes of the numbers that fmt writes.
unfoldable pub is_numeral_byte : ℕ → Bool
is_numeral_byte c =
    (leb b'0' c && leb c b'9') || nat_eq c b'-' || nat_eq c b'+' || nat_eq c b'.' || nat_eq c b'e'

abbrev pub IsNumeral : List ℕ → Type 0
IsNumeral s = (s ≢ []) × All (λ c. is_numeral_byte c ≡ true) s

pub solid_byte : (c : ℕ) → is_numeral_byte c ≡ true → is_space c ≡ false
unfolding is_numeral_byte is_space
solid_byte c e = ground (arith, e)

other_forms :
    (c : ℕ)
    → is_numeral_byte c ≡ true
    → (nat_eq (lower_byte c) 110 ≡ false)
      × (nat_eq c b'\'' ≡ false)
      × (nat_eq 67 c ≡ false)
      × (nat_eq 88 c ≡ false)
unfolding is_numeral_byte
other_forms c e = ground (arith, e)

pub numeral_ends : (s : List ℕ) → IsNumeral s → ends_solid s ≡ true
numeral_ends [] (n, a) = absurd (n refl)
numeral_ends (c ∷ []) (n, (e, a)) = rw (solid_byte c e) refl
numeral_ends (c ∷ (d ∷ s)) (n, (e, a)) = numeral_ends (d ∷ s) ((λ h. ground (arith, h)), a)

length-hex_encode : (b : List ℕ) → b ≢ [] → 2 ≤ length (hex_encode b)
unfolding hex_encode
length-hex_encode [] n = absurd (n refl)
length-hex_encode (c ∷ b) n = omega arith

-- A truth value comes back as a number.
abbrev pub stored : {Float : Type 0} → Value Float → Value Float
stored (boolean true) = int (pos 1)
stored (boolean false) = int (pos 0)
stored v = v

module _ {Float : Type 0} (format_int : ℤ → List ℕ) (format_float : Float → List ℕ)
    (parse_int : List ℕ → Option ℤ) (parse_float : List ℕ → Option Float) where
  -- What is relied on: bytes are bytes, a blob is not empty, a number's text is a numeral, package
  -- strconv reads it back, and a float's text is not an integer's, as that of a whole float is.
  unfoldable pub Readable : Value Float → Type 0
  Readable null = Unit
  Readable (int n) = IsNumeral (format_int n) × (parse_int (format_int n) ≡ some n)
  Readable (float f) =
      IsNumeral (format_float f)
      × (parse_int (format_float f) ≡ none)
      × (parse_float (format_float f) ≡ some f)
  Readable (boolean b) =
      (parse_int (bytes "1") ≡ some (pos 1)) × (parse_int (bytes "0") ≡ some (pos 0))
  Readable (text s) = All IsByte s
  Readable (blob b) = (b ≢ []) × All IsByte b

  as_number :
      (c : ℕ) (s : List ℕ)
      → (nat_eq (lower_byte c) 110 ≡ false)
        × (nat_eq c b'\'' ≡ false)
        × (nat_eq 67 c ≡ false)
        × (nat_eq 88 c ≡ false)
      → parse_trimmed parse_int parse_float (c ∷ s) ≡ parse_number parse_int parse_float (c ∷ s)
  unfolding parse_trimmed is_null_text is_quoted same_bytes starts_with cut
  as_number c s (e, f, g, h) =
      rw (parse_trimmed, is_null_text, e, is_quoted, f, starts_with, cut, g, h) (ground arith)

  numeral :
      (s : List ℕ)
      → IsNumeral s
      → parse_sql_literal_to_go parse_int parse_float s ≡ parse_number parse_int parse_float s
  numeral [] (n, a) = absurd (n refl)
  numeral (c ∷ s) (n, (e, a)) =
      parse-solid parse_int parse_float (c ∷ s) (rw (solid_byte c e) refl)
        (numeral_ends (c ∷ s) (n, (e, a)))
      ∙ as_number c s (other_forms c e)

  blob_parsed :
      (b : List ℕ)
      → b ≢ []
      → All IsByte b
      → parse_trimmed parse_int parse_float (bytes "X'" ++ (hex_encode b ++ bytes "'"))
        ≡ parsed (blob b)
  unfolding parse_trimmed is_null_text is_quoted same_bytes starts_with cut
  blob_parsed b n p =
      let l : leb 4 (length (bytes "X'" ++ (hex_encode b ++ bytes "'"))) ≡ true =
        le→leb 4 (length (bytes "X'" ++ (hex_encode b ++ bytes "'")))
          (omega (arith, length-hex_encode b n, length-append (hex_encode b) (bytes "'"))) in
      rw
        (
          parse_trimmed,
          l,
          has_suffix-append (bytes "X'" ++ hex_encode b) (bytes "'"),
          between-append (bytes "X'") (hex_encode b) (bytes "'"),
          hex_decode-encode b p,
        )
        refl

  null_parsed : parse_trimmed parse_int parse_float (bytes "NULL") ≡ parsed null
  unfolding parse_trimmed is_null_text same_bytes
  null_parsed = refl

  -- Every value is read back from its literal, a truth value as a number.
  pub parse-sql_literal :
      (v : Value Float)
      → Readable v
      → parse_sql_literal_to_go parse_int parse_float (sql_literal format_int format_float v)
        ≡ parsed (stored v)
  unfolding Readable sql_literal is_space is_numeral_byte parse_number
  parse-sql_literal null r =
      parse-solid parse_int parse_float (bytes "NULL") refl refl ∙ null_parsed
  parse-sql_literal (int n) (i, e) = numeral (format_int n) i ∙ rw (parse_number, e) refl
  parse-sql_literal (float f) (i, e, g) = numeral (format_float f) i ∙ rw (parse_number, e, g) refl
  parse-sql_literal (boolean true) (e, g) =
      numeral (bytes "1") ((λ h. ground (arith, h)), (refl, tt)) ∙ rw (parse_number, e) refl
  parse-sql_literal (boolean false) (e, g) =
      numeral (bytes "0") ((λ h. ground (arith, h)), (refl, tt)) ∙ rw (parse_number, g) refl
  parse-sql_literal (text s) p = parse-quote_sql parse_int parse_float s p
  parse-sql_literal (blob b) (n, p) =
      parse-solid parse_int parse_float (bytes "X'" ++ (hex_encode b ++ bytes "'")) refl
        (ends_solid-append (bytes "X'" ++ hex_encode b) (bytes "'") refl)
      ∙ blob_parsed b n p
