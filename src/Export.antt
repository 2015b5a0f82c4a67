-- ===== src/Export.antt =====
-- internal/store/export.go: the text of a backup. A row is written as one INSERT statement of SQL
-- literals, and read back by splitting and parsing them. A text is its list of bytes; the numbers'
-- texts, of packages fmt and strconv, and their reading are parameters.
pub mod OneLine
pub mod Hex
pub mod Quoting
pub mod Literals
pub mod Splitting
pub mod Rows
pub mod Lines
pub mod Dump
use glitchgate.Prelude.{
  ℕ, zero, suc, ◌+◌, ◌-◌, ◌≤◌, ℤ, pos, negsuc, Bool, true, false, not, ◌&&◌, ◌||◌, Option, none,
  some, List, [], ◌∷◌, ◌++◌, map, nat_eq, leb, if◌then◌else◌, length, take, drop, bytes, same_bytes,
  cut, has_suffix, between, trim_space, increment, decrement, is_zero,
}
use glitchgate.Export.Hex.{hex_encode, hex_decode}

-- What a column holds: the cases of sqlLiteral, a time as the text of its format. A float is kept
-- as a value of `Float`.
pub data Value (Float : Type 0) : Type 0 where
  null : Value Float
  int : ℤ → Value Float
  float : Float → Value Float
  boolean : Bool → Value Float
  text blob : List ℕ → Value Float

-- strings.ContainsAny(s, "\n\r\x00")
unfoldable pub has_control : List ℕ → Bool
has_control [] = false
has_control (c ∷ s) = nat_eq c 10 || nat_eq c 13 || nat_eq c 0 || has_control s

-- strings.ReplaceAll(s, "'", "''")
unfoldable pub double_quotes : List ℕ → List ℕ
double_quotes [] = []
double_quotes (c ∷ s) =
    let rest = double_quotes s in if nat_eq c b'\'' then c ∷ (c ∷ rest) else c ∷ rest

-- strings.ReplaceAll(s, "''", "'")
unfoldable pub single_quotes : List ℕ → List ℕ
single_quotes [] = []
single_quotes (c ∷ []) = c ∷ []
single_quotes (c ∷ (d ∷ s)) = elim (nat_eq c b'\'' && nat_eq d b'\'') [
  | true ↦ c ∷ single_quotes s
  | false ↦ c ∷ single_quotes (d ∷ s)
]

unfoldable pub quote_sql : List ℕ → List ℕ
unfolding has_control double_quotes
quote_sql s =
    if has_control s
    then bytes "CAST(X'" ++ (hex_encode s ++ bytes "' AS TEXT)")
    else b'\'' ∷ (double_quotes s ++ b'\'' ∷ [])

module _ {Float : Type 0} (format_int : ℤ → List ℕ) (format_float : Float → List ℕ) where
  unfoldable pub sql_literal : Value Float → List ℕ
  unfolding quote_sql
  sql_literal null = bytes "NULL"
  sql_literal (int n) = format_int n
  sql_literal (float f) = format_float f
  sql_literal (boolean true) = bytes "1"
  sql_literal (boolean false) = bytes "0"
  sql_literal (text s) = quote_sql s
  sql_literal (blob b) = bytes "X'" ++ (hex_encode b ++ bytes "'")

-- ASCII's strings.EqualFold, on one side in lower case.
abbrev pub lower_byte : ℕ → ℕ
lower_byte c = if leb 65 c && leb c 90 then c + 32 else c

unfoldable pub is_null_text : List ℕ → Bool
unfolding same_bytes
is_null_text s = same_bytes (map lower_byte s) (bytes "null")

-- len(s) >= 2 && s[0] == '\'' && s[len(s)-1] == '\''
unfoldable pub is_quoted : List ℕ → Bool
unfolding has_suffix
is_quoted [] = false
is_quoted (c ∷ s) = nat_eq c b'\'' && has_suffix s (bytes "'")

unfoldable pub starts_with : List ℕ → List ℕ → Bool
unfolding cut
starts_with s p = elim (cut p s) [ none ↦ false | some rest ↦ true ]

-- The last outcome is Go's run-time error for a slice whose bounds are the wrong way round.
pub data Parsed (Float : Type 0) : Type 0 where
  parsed : Value Float → Parsed Float
  refused : Parsed Float
  panics : Parsed Float

-- The bytes of a hex literal, as a value.
abbrev pub decoded : {Float : Type 0} → (List ℕ → Value Float) → Option (List ℕ) → Parsed Float
decoded make none = refused
decoded make (some b) = parsed (make b)

abbrev pub decoded_slice :
    {Float : Type 0} → (List ℕ → Value Float) → Option (List ℕ) → Parsed Float
decoded_slice make none = panics
decoded_slice make (some h) = decoded make (hex_decode h)

abbrev pub unquoted : {Float : Type 0} → Option (List ℕ) → Parsed Float
unquoted none = panics
unquoted (some s) = parsed (text (single_quotes s))

module _ {Float : Type 0} (parse_int : List ℕ → Option ℤ)
    (parse_float : List ℕ → Option Float) where
  unfoldable pub parse_number : List ℕ → Parsed Float
  parse_number s = elim (parse_int s) [
    | some n ↦ parsed (int n)
    | none ↦ elim (parse_float s) [ some f ↦ parsed (float f) | none ↦ refused ]
  ]

  -- parseSQLLiteralToGo, of a text without spaces at its ends.
  unfoldable pub parse_trimmed : List ℕ → Parsed Float
  unfolding is_null_text is_quoted starts_with parse_number between has_suffix single_quotes
      hex_decode
  parse_trimmed s =
      if is_null_text s
      then parsed null
      else if is_quoted s
      then unquoted (between 1 1 s)
      else if starts_with s (bytes "CAST(X'") && has_suffix s (bytes "' AS TEXT)")
      then decoded_slice text (between 7 10 s)
      else if leb 4 (length s) && starts_with s (bytes "X'") && has_suffix s (bytes "'")
      then decoded_slice blob (between 2 1 s)
      else parse_number s

  unfoldable pub parse_sql_literal_to_go : List ℕ → Parsed Float
  unfolding parse_trimmed trim_space
  parse_sql_literal_to_go s = parse_trimmed (trim_space s)

-- The loop of splitSQLValues: the depth, inStr, and the text since the last split. In a literal, two
-- quotes are passed over together.
unfoldable pub split_from : ℤ → Bool → List ℕ → List ℕ → List (List ℕ)
unfolding trim_space
split_from depth in_str cur [] = trim_space cur ∷ []
split_from depth true cur (c ∷ []) = split_from depth (not (nat_eq c b'\'')) (cur ++ c ∷ []) []
split_from depth true cur (c ∷ (d ∷ s)) = elim (nat_eq c b'\'') [
  | false ↦ split_from depth true (cur ++ c ∷ []) (d ∷ s)
  | true ↦ elim (nat_eq d b'\'') [
    | true ↦ split_from depth true (cur ++ c ∷ (d ∷ [])) s
    | false ↦ split_from depth false (cur ++ c ∷ []) (d ∷ s)
  ]
]
split_from depth false cur (c ∷ s) = elim (nat_eq c b',' && is_zero depth) [
  | true ↦ trim_space cur ∷ split_from depth false [] s
  | false ↦
      split_from
        (if nat_eq c b'('
          then increment depth
          else if nat_eq c b')'
          then decrement depth
          else depth)
        (nat_eq c b'\'') (cur ++ c ∷ []) s
]

unfoldable pub split_sql_values : List ℕ → List (List ℕ)
unfolding split_from
split_sql_values s = split_from (pos 0) false [] s

-- strings.Join(literals, ", ")
unfoldable pub join_literals : List (List ℕ) → List ℕ
join_literals [] = []
join_literals (l ∷ []) = l
join_literals (l ∷ (m ∷ ls)) = l ++ (bytes ", " ++ join_literals (m ∷ ls))
