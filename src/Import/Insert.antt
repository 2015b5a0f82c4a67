-- ===== src/Import/Insert.antt =====
-- internal/store/export.go, importBatch: the statement that flush makes of a batch, the rows'
-- values as its arguments. The text of a number, of package fmt, is a parameter.
use mathlib.Core.List.{append_assoc, append-nil}
use glitchgate.Prelude.{
  ℕ, zero, suc, ◌+◌, Bool, List, [], ◌∷◌, ◌++◌, if◌then◌else◌, length, length-append, bytes, ◌≡◌,
  refl, sym, ap, ◌∙◌,
}
use glitchgate.Export.{Value, join_literals}

-- importBatch; its dialect is either PostgreSQL's or SQLite's.
pub record ImportBatch (Float : Type 0) : Type 0 where
  pub table : List ℕ
  pub cols : List (List ℕ)
  pub rows : List (List (Value Float))
  pub postgres : Bool

-- The text written so far, and the arguments.
abbrev pub Written : Type 0 → Type 0
Written Float = List ℕ × List (Value Float)

-- if i > 0 { sb.WriteString(", ") }
unfoldable pub separator : ℕ → List ℕ
separator zero = []
separator (suc i) = bytes ", "

unfoldable pub statement_head : Bool → List ℕ → List (List ℕ) → List ℕ
statement_head postgres table cols =
    bytes (if postgres then "INSERT INTO " else "INSERT OR IGNORE INTO ")
    ++ (table ++ (bytes " (" ++ (join_literals cols ++ bytes ") VALUES ")))

unfoldable pub statement_end : Bool → List ℕ
statement_end postgres = bytes (if postgres then " ON CONFLICT DO NOTHING" else "")

unfoldable pub placeholder : (ℕ → List ℕ) → Bool → ℕ → List ℕ
placeholder format_nat postgres n = if postgres then b'$' ∷ format_nat n else b'?' ∷ []

-- The values of the rows, row by row.
abbrev pub all_values : {Float : Type 0} → List (List (Value Float)) → List (Value Float)
all_values [] = []
all_values (row ∷ rows) = row ++ all_values rows

module _ {Float : Type 0} (format_nat : ℕ → List ℕ) where
  -- for j := range row
  unfoldable pub write_cells : Bool → ℕ → List (Value Float) → Written Float → Written Float
  unfolding placeholder separator
  write_cells pg j [] w = w
  write_cells pg j (v ∷ row) (sb, args) =
      write_cells pg (suc j) row
        ((sb ++ separator j) ++ placeholder format_nat pg (length args + 1), args ++ v ∷ [])

  -- for i, row := range b.rows
  unfoldable pub write_tuples : Bool → ℕ → List (List (Value Float)) → Written Float → Written Float
  unfolding write_cells separator
  write_tuples pg i [] w = w
  write_tuples pg i (row ∷ rows) (sb, args) =
      let w = write_cells pg 0 row ((sb ++ separator i) ++ bytes "(", args) in
      write_tuples pg (suc i) rows (w.0 ++ bytes ")", w.1)

  -- What flush hands to the database.
  unfoldable pub insert_statement : ImportBatch Float → Written Float
  unfolding statement_head write_tuples statement_end
  insert_statement b =
      let w = write_tuples b.postgres 0 b.rows (statement_head b.postgres b.table b.cols, []) in
      (w.0 ++ statement_end b.postgres, w.1)

  -- The placeholders of a row, where `n` arguments come before it.
  abbrev pub placeholders : Bool → ℕ → List (Value Float) → List (List ℕ)
  placeholders pg n [] = []
  placeholders pg n (v ∷ row) = placeholder format_nat pg (n + 1) ∷ placeholders pg (n + 1) row

  abbrev pub tuples : Bool → ℕ → List (List (Value Float)) → List (List ℕ)
  tuples pg n [] = []
  tuples pg n (row ∷ rows) =
      (bytes "(" ++ (join_literals (placeholders pg n row) ++ bytes ")"))
      ∷ tuples pg (n + length row) rows

-- The texts, each after the separator of its place from `i` on.
abbrev joined_from : ℕ → List (List ℕ) → List ℕ
joined_from i [] = []
joined_from i (l ∷ ls) = separator i ++ (l ++ joined_from (suc i) ls)

wrapped :
    (sb p s rest : List ℕ)
    → ((((sb ++ p) ++ bytes "(") ++ s) ++ bytes ")") ++ rest
      ≡ sb ++ (p ++ ((bytes "(" ++ (s ++ bytes ")")) ++ rest))
wrapped sb p s rest =
    rw
      (
        append_assoc sb p (bytes "("),
        append_assoc sb (p ++ bytes "(") s,
        append_assoc sb ((p ++ bytes "(") ++ s) (bytes ")"),
        append_assoc sb (((p ++ bytes "(") ++ s) ++ bytes ")") rest,
        append_assoc p (bytes "(") s,
        append_assoc p (bytes "(" ++ s) (bytes ")"),
        append_assoc p ((bytes "(" ++ s) ++ bytes ")") rest,
      )
      refl

joined-suc : (i : ℕ) (ls : List (List ℕ)) → joined_from (suc i) ls ≡ joined_from 1 ls
unfolding separator
joined-suc i [] = refl
joined-suc i (l ∷ ls) =
    ap (λ t. bytes ", " ++ (l ++ t)) (joined-suc (suc i) ls ∙ sym (joined-suc 1 ls))

joined-join_literals : (ls : List (List ℕ)) → joined_from 0 ls ≡ join_literals ls
unfolding join_literals separator
joined-join_literals [] = refl
joined-join_literals (l ∷ []) = append-nil l
joined-join_literals (l ∷ (m ∷ ls)) =
    ap (λ t. l ++ (bytes ", " ++ t))
      (ap (λ t. m ++ t) (joined-suc 1 ls) ∙ joined-join_literals (m ∷ ls))

module _ {Float : Type 0} (format_nat : ℕ → List ℕ) where
  write_cells_lem :
      (pg : Bool) (j : ℕ) (row : List (Value Float)) (sb : List ℕ) (args : List (Value Float))
      → write_cells format_nat pg j row (sb, args)
        ≡ (sb ++ joined_from j (placeholders format_nat pg (length args) row), args ++ row)
  unfolding write_cells
  write_cells_lem pg j [] sb args = rw (append-nil sb, append-nil args) refl
  write_cells_lem pg j (v ∷ row) sb args =
      let p = placeholder format_nat pg (length args + 1) in
      let ps = joined_from (suc j) (placeholders format_nat pg (length args + 1) row) in
      rw
        (
          write_cells_lem pg (suc j) row ((sb ++ separator j) ++ p) (args ++ v ∷ []),
          length-append args (v ∷ []),
          append_assoc args (v ∷ []) row,
          append_assoc (sb ++ separator j) p ps,
          append_assoc sb (separator j) (p ++ ps),
        )
        refl

  write_tuples_lem :
      (pg : Bool) (i : ℕ) (rows : List (List (Value Float))) (sb : List ℕ)
      (args : List (Value Float))
      → write_tuples format_nat pg i rows (sb, args)
        ≡ (sb ++ joined_from i (tuples format_nat pg (length args) rows), args ++ all_values rows)
  unfolding write_tuples
  write_tuples_lem pg i [] sb args = rw (append-nil sb, append-nil args) refl
  write_tuples_lem pg i (row ∷ rows) sb args =
      let cells = joined_from 0 (placeholders format_nat pg (length args) row) in
      let rest = joined_from (suc i) (tuples format_nat pg (length args + length row) rows) in
      rw
        (
          write_cells_lem pg 0 row ((sb ++ separator i) ++ bytes "(") args,
          write_tuples_lem pg (suc i) rows
              ((((sb ++ separator i) ++ bytes "(") ++ cells) ++ bytes ")") (args ++ row),
          length-append args row,
          append_assoc args row (all_values rows),
          joined-join_literals (placeholders format_nat pg (length args) row),
        )
        (ap (λ t. (t, args ++ (row ++ all_values rows)))
          (wrapped sb (separator i) (join_literals (placeholders format_nat pg (length args) row))
            rest))

  -- The statement that flush makes of a batch, in both dialects: after the head the rows' tuples,
  -- joined by commas, each with one placeholder for each of its values; PostgreSQL's are numbered
  -- through from 1, so that each number is the place of its value among the arguments, which are
  -- the rows' values in their order.
  pub insert_statement_lem :
      (b : ImportBatch Float)
      → insert_statement format_nat b ≡ (
        statement_head b.postgres b.table b.cols
            ++ (join_literals (tuples format_nat b.postgres 0 b.rows) ++ statement_end b.postgres),
        all_values b.rows,
      )
  unfolding insert_statement
  insert_statement_lem b =
      let head = statement_head b.postgres b.table b.cols in
      let body = join_literals (tuples format_nat b.postgres 0 b.rows) in
      rw
        (
          write_tuples_lem b.postgres 0 b.rows head [],
          joined-join_literals (tuples format_nat b.postgres 0 b.rows),
          append_assoc head body (statement_end b.postgres),
        )
        refl
