-- ===== src/Export/Lines.antt =====
-- internal/store/export.go: the line of a row, as writeTableSQL prints it and parseInsertLine reads
-- it. The line feed at its end is the scanner's.
pub mod Reading
use mathlib.Core.List.{append_assoc, append-nil}
use glitchgate.Prelude.{
  ℕ, ◌-◌, Bool, true, false, ◌&&◌, not, Option, none, some, List, [], ◌∷◌, ◌++◌, map, ◌≡◌, refl, ap,
  ap₂, sym, ◌∙◌, arith, nat_eq, if◌then◌else◌, All, length, length-append, take, drop, bytes, cut,
  has_suffix, has_suffix-append, take-append, trim_space, trim_space_solid, starts_solid,
  ends_solid,
}
use glitchgate.Export.{split_sql_values, join_literals, starts_with}
use glitchgate.Export.Splitting.{IsLiteral, split-join_literals}

-- s[:i] and s[i+1:] where i is strings.IndexByte(s, b).
unfoldable pub cut_at : ℕ → List ℕ → Option (List ℕ × List ℕ)
cut_at b [] = none
cut_at b (c ∷ s) =
    let rest = cut_at b s in
    elim (nat_eq c b) [
      | true ↦ some ([], s)
      | false ↦ elim rest [ none ↦ none | some p ↦ some (c ∷ p.0, p.1) ]
    ]

-- strings.Split(s, ", "), after the text `cur`.
unfoldable pub split_names : List ℕ → List ℕ → List (List ℕ)
split_names cur [] = cur ∷ []
split_names cur (c ∷ []) = (cur ++ c ∷ []) ∷ []
split_names cur (c ∷ (d ∷ s)) = elim (nat_eq c b',' && nat_eq d b' ') [
  | true ↦ cur ∷ split_names [] s
  | false ↦ split_names (cur ++ c ∷ []) (d ∷ s)
]

-- strings.TrimSuffix
unfoldable pub trim_suffix : List ℕ → List ℕ → List ℕ
unfolding has_suffix
trim_suffix s p = if has_suffix s p then take (length s - length p) s else s

pub data LineError : Type 0 where
  not_insert no_space no_columns unclosed_columns no_values no_parentheses : LineError

-- What parseInsertLine returns. An error comes with the table's name, or with "unknown".
pub data InsertLine : Type 0 where
  statement : List ℕ → List (List ℕ) → List (List ℕ) → InsertLine
  malformed : List ℕ → LineError → InsertLine

-- The values, after the keyword. A text that is in parentheses has two bytes at least.
unfoldable pub parse_values : List ℕ → List (List ℕ) → List ℕ → InsertLine
unfolding trim_suffix starts_with has_suffix split_sql_values
parse_values table cols rest =
    let values = trim_suffix rest (bytes ";") in
    if starts_with values (bytes "(") && has_suffix values (bytes ")")
    then statement table cols (split_sql_values (take (length values - 2) (drop 1 values)))
    else malformed table no_parentheses

unfoldable pub parse_columns : List ℕ → List ℕ → InsertLine
unfolding cut cut_at split_names parse_values
parse_columns table rest = elim (cut (bytes "(") rest) [
  | none ↦ malformed table no_columns
  | some inner ↦ elim (cut_at b')' inner) [
    | none ↦ malformed table unclosed_columns
    | some p ↦ elim (cut (bytes " VALUES ") p.1) [
      | none ↦ malformed table no_values
      | some values ↦ parse_values table (map trim_space (split_names [] p.0)) values
    ]
  ]
]

unfoldable pub parse_insert_line : List ℕ → InsertLine
unfolding cut cut_at parse_columns
parse_insert_line line = elim (cut (bytes "INSERT OR IGNORE INTO ") line) [
  | none ↦ malformed (bytes "unknown") not_insert
  | some rest ↦ elim (cut_at b' ' rest) [
    | none ↦ malformed (bytes "unknown") no_space
    | some p ↦ parse_columns p.0 p.1
  ]
]

-- The line that writeTableSQL prints for one row.
unfoldable pub insert_line : List ℕ → List (List ℕ) → List (List ℕ) → List ℕ
unfolding join_literals
insert_line table cols literals =
    bytes "INSERT OR IGNORE INTO "
    ++ (table
        ++ (bytes " ("
            ++ (join_literals cols
                ++ (bytes ") VALUES (" ++ (join_literals literals ++ bytes ");")))))

-- No byte of the text is `b`.
unfoldable pub lacks : ℕ → List ℕ → Bool
lacks b [] = true
lacks b (c ∷ s) = not (nat_eq c b) && lacks b s

-- A column's name: neither its ends are spaces, nor does it hold a comma or a closing parenthesis.
abbrev pub IsName : List ℕ → Type 0
IsName s =
    (starts_solid s ≡ true) × (ends_solid s ≡ true) × (lacks b',' s ≡ true) × (lacks b')' s ≡ true)
