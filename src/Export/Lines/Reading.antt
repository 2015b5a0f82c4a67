-- ===== src/Export/Lines/Reading.antt =====
-- internal/store/export.go, parseInsertLine: it reads what writeTableSQL prints.
use mathlib.Core.List.{append_assoc, append-nil}
use glitchgate.Prelude.{
  ℕ, ◌-◌, true, false, some, List, [], ◌∷◌, ◌++◌, map, ◌≡◌, refl, ap, ap₂, sym, ◌∙◌, arith, nat_eq,
  All, length, length-append, bytes, cut, has_suffix-append, take-append, trim_space,
  trim_space_solid,
}
use glitchgate.Export.{join_literals, starts_with}
use glitchgate.Export.Splitting.{IsLiteral, split-join_literals}
use glitchgate.Export.Lines.{
  statement, cut_at, split_names, trim_suffix, parse_values, parse_columns, parse_insert_line,
  insert_line, lacks, IsName,
}

lacks-head :
    (b c : ℕ) (s : List ℕ) → lacks b (c ∷ s) ≡ true → (nat_eq c b ≡ false) × (lacks b s ≡ true)
unfolding lacks
lacks-head b c s e = ground (arith, e)

lacks-append :
    (b : ℕ) (s t : List ℕ) → lacks b s ≡ true → lacks b t ≡ true → lacks b (s ++ t) ≡ true
unfolding lacks
lacks-append b [] t e f = f
lacks-append b (c ∷ s) t e f =
    let (q, r) = lacks-head b c s e in rw (lacks, q) (lacks-append b s t r f)

equal_to_itself : (b : ℕ) → nat_eq b b ≡ true
equal_to_itself b = ground arith

cut_at-append : (b : ℕ) (s t : List ℕ) → lacks b s ≡ true → cut_at b (s ++ b ∷ t) ≡ some (s, t)
unfolding cut_at
cut_at-append b [] t e = rw (cut_at, equal_to_itself b) refl
cut_at-append b (c ∷ s) t e =
    let (q, r) = lacks-head b c s e in rw (cut_at, q, cut_at-append b s t r) refl

name_byte :
    (cur : List ℕ) (c : ℕ) (s : List ℕ)
    → nat_eq c b',' ≡ false
    → split_names cur (c ∷ s) ≡ split_names (cur ++ c ∷ []) s
unfolding split_names
name_byte cur c [] e = refl
name_byte cur c (d ∷ s) e = rw (split_names, e) refl

name_bytes :
    (cur s rest : List ℕ)
    → lacks b',' s ≡ true
    → split_names cur (s ++ rest) ≡ split_names (cur ++ s) rest
name_bytes cur [] rest e = ap (λ t. split_names t rest) (sym (append-nil cur))
name_bytes cur (c ∷ s) rest e =
    let (q, r) = lacks-head b',' c s e in
    name_byte cur c (s ++ rest) q
    ∙ name_bytes (cur ++ c ∷ []) s rest r
    ∙ ap (λ t. split_names t rest) (append_assoc cur (c ∷ []) s)

split_names-join :
    (s : List ℕ) (ss : List (List ℕ))
    → All IsName (s ∷ ss)
    → map trim_space (split_names [] (join_literals (s ∷ ss))) ≡ s ∷ ss
unfolding split_names join_literals
split_names-join s [] ((i, j, e, f), a) =
    ap (λ t. map trim_space (split_names [] t)) (sym (append-nil s))
    ∙ ap (map trim_space) (name_bytes [] s [] e)
    ∙ ap (λ t. t ∷ []) (trim_space_solid s i j)
split_names-join s (t ∷ ss) ((i, j, e, f), a) =
    ap (map trim_space) (name_bytes [] s (bytes ", " ++ join_literals (t ∷ ss)) e)
    ∙ ap₂ (λ x xs. x ∷ xs) (trim_space_solid s i j) (split_names-join t ss a)

lacks-join : (ss : List (List ℕ)) → All IsName ss → lacks b')' (join_literals ss) ≡ true
unfolding lacks join_literals
lacks-join [] a = refl
lacks-join (s ∷ []) ((i, j, e, f), a) = f
lacks-join (s ∷ (t ∷ ss)) ((i, j, e, f), a) =
    lacks-append b')' s (bytes ", " ++ join_literals (t ∷ ss)) f (lacks-join (t ∷ ss) a)

trim_suffix-append : (s p : List ℕ) → trim_suffix (s ++ p) p ≡ s
unfolding trim_suffix
trim_suffix-append s p =
    let n : length (s ++ p) - length p ≡ length s = omega (arith, length-append s p) in
    rw (trim_suffix, has_suffix-append s p, n) (take-append s p)

values_lem :
    (table : List ℕ) (cols : List (List ℕ)) (l : List ℕ) (ls : List (List ℕ))
    → All IsLiteral (l ∷ ls)
    → parse_values table cols (b'(' ∷ (join_literals (l ∷ ls) ++ bytes ");"))
      ≡ statement table cols (l ∷ ls)
unfolding parse_values starts_with cut
values_lem table cols l ls a =
    let joined = join_literals (l ∷ ls) in
    let whole = b'(' ∷ (joined ++ bytes ")") in
    let trimmed : trim_suffix (b'(' ∷ (joined ++ bytes ");")) (bytes ";") ≡ whole =
      ap (λ t. trim_suffix (b'(' ∷ t) (bytes ";"))
        (sym (append_assoc joined (bytes ")") (bytes ";")))
      ∙ trim_suffix-append whole (bytes ";") in
    let n : length whole - 2 ≡ length joined = omega (arith, length-append joined (bytes ")")) in
    rw
      (
        parse_values,
        trimmed,
        has_suffix-append (b'(' ∷ joined) (bytes ")"),
        n,
        take-append joined (bytes ")"),
        split-join_literals l ls a,
      )
      refl

columns_lem :
    (table c : List ℕ) (cols : List (List ℕ)) (values : List ℕ)
    → All IsName (c ∷ cols)
    → parse_columns table (b'(' ∷ (join_literals (c ∷ cols) ++ (bytes ") VALUES " ++ values)))
      ≡ parse_values table (c ∷ cols) values
unfolding parse_columns cut
columns_lem table c cols values a =
    rw
      (
        parse_columns,
        cut_at-append b')' (join_literals (c ∷ cols)) (bytes " VALUES " ++ values)
            (lacks-join (c ∷ cols) a),
        split_names-join c cols a,
      )
      refl

table_lem :
    (table columns : List ℕ)
    → lacks b' ' table ≡ true
    → parse_insert_line (bytes "INSERT OR IGNORE INTO " ++ (table ++ b' ' ∷ columns))
      ≡ parse_columns table columns
unfolding parse_insert_line cut
table_lem table columns e = rw (parse_insert_line, cut_at-append b' ' table columns e) refl

-- The line of a row is read back as the table, the columns and the values' literals that it was
-- printed from, where neither the columns nor the values are none, the table's name has no space,
-- and the columns' names have no comma, closing parenthesis, or space at an end.
pub parse-insert_line :
    (table c : List ℕ) (cols : List (List ℕ)) (l : List ℕ) (ls : List (List ℕ))
    → lacks b' ' table ≡ true
    → All IsName (c ∷ cols)
    → All IsLiteral (l ∷ ls)
    → parse_insert_line (insert_line table (c ∷ cols) (l ∷ ls))
      ≡ statement table (c ∷ cols) (l ∷ ls)
unfolding parse_insert_line insert_line
parse-insert_line table c cols l ls e a b =
    let values = b'(' ∷ (join_literals (l ∷ ls) ++ bytes ");") in
    let columns = b'(' ∷ (join_literals (c ∷ cols) ++ (bytes ") VALUES " ++ values)) in
    table_lem table columns e
    ∙ columns_lem table c cols values a
    ∙ values_lem table (c ∷ cols) l ls b
