-- ===== src/Export/Quoting.antt =====
-- internal/store/export.go, quoteSQL: reading a quoted text gives the text.
use glitchgate.Prelude.{
  ℕ, ℤ, true, false, Option, List, [], ◌∷◌, ◌++◌, ◌≡◌, refl, ap, ◌∙◌, nat_eq, Bool-cases, inl, inr,
  All, bytes, same_bytes, cut, has_suffix-append, between-append, trim_space_solid, starts_solid,
  ends_solid, ends_solid-append, is_space,
}
use glitchgate.Export.{
  text, has_control, double_quotes, single_quotes, quote_sql, is_null_text, is_quoted, starts_with,
  parsed, parse_trimmed, parse_sql_literal_to_go,
}
use glitchgate.Export.Hex.{hex_encode, hex_decode-encode, IsByte}

single_skip :
    (c : ℕ) (s : List ℕ) → nat_eq c b'\'' ≡ false → single_quotes (c ∷ s) ≡ c ∷ single_quotes s
unfolding single_quotes
single_skip c [] e = refl
single_skip c (d ∷ s) e = rw (single_quotes, e) refl

pub single-double_quotes : (s : List ℕ) → single_quotes (double_quotes s) ≡ s
unfolding double_quotes single_quotes
single-double_quotes [] = refl
single-double_quotes (c ∷ s) = elim (Bool-cases (nat_eq c b'\'')) [
  | inl e ↦ rw (double_quotes, e, single_quotes, e) (ap (λ t. c ∷ t) (single-double_quotes s))
  | inr e ↦
      rw (double_quotes, e, single_skip c (double_quotes s) e)
        (ap (λ t. c ∷ t) (single-double_quotes s))
]

module _ {Float : Type 0} (parse_int : List ℕ → Option ℤ)
    (parse_float : List ℕ → Option Float) where
  -- A literal without spaces at its ends is parsed as it is.
  pub parse-solid :
      (s : List ℕ)
      → starts_solid s ≡ true
      → ends_solid s ≡ true
      → parse_sql_literal_to_go parse_int parse_float s ≡ parse_trimmed parse_int parse_float s
  unfolding parse_sql_literal_to_go
  parse-solid s e f = ap (parse_trimmed parse_int parse_float) (trim_space_solid s e f)

  quoted :
      (s : List ℕ)
      → parse_trimmed parse_int parse_float (b'\'' ∷ (s ++ b'\'' ∷ []))
        ≡ parsed (text (single_quotes s))
  unfolding parse_trimmed is_null_text is_quoted same_bytes
  quoted s =
      rw
        (
          parse_trimmed,
          has_suffix-append s (b'\'' ∷ []),
          between-append (b'\'' ∷ []) s (b'\'' ∷ []),
        )
        refl

  control :
      (s : List ℕ)
      → All IsByte s
      → parse_trimmed parse_int parse_float
          (bytes "CAST(X'" ++ (hex_encode s ++ bytes "' AS TEXT)"))
        ≡ parsed (text s)
  unfolding parse_trimmed is_null_text is_quoted same_bytes starts_with cut
  control s p =
      rw
        (
          parse_trimmed,
          has_suffix-append (bytes "CAST(X'" ++ hex_encode s) (bytes "' AS TEXT)"),
          between-append (bytes "CAST(X'") (hex_encode s) (bytes "' AS TEXT)"),
          hex_decode-encode s p,
        )
        refl

  -- Every text is read back from its literal, whatever quotes and control characters it has.
  pub parse-quote_sql :
      (s : List ℕ)
      → All IsByte s
      → parse_sql_literal_to_go parse_int parse_float (quote_sql s) ≡ parsed (text s)
  unfolding quote_sql is_space
  parse-quote_sql s p = elim (Bool-cases (has_control s)) [
    | inl e ↦
        let literal = bytes "CAST(X'" ++ (hex_encode s ++ bytes "' AS TEXT)") in
        rw (quote_sql, e)
          (parse-solid literal refl
              (ends_solid-append (bytes "CAST(X'" ++ hex_encode s) (bytes "' AS TEXT)") refl)
            ∙ control s p)
    | inr e ↦
        let literal = b'\'' ∷ (double_quotes s ++ b'\'' ∷ []) in
        rw (quote_sql, e)
          (parse-solid literal refl (ends_solid-append (b'\'' ∷ double_quotes s) (b'\'' ∷ []) refl)
            ∙ quoted (double_quotes s)
            ∙ ap (λ t. parsed (text t)) (single-double_quotes s))
  ]
