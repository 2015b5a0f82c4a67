-- ===== src/Import/Scan.antt =====
-- internal/store/export.go, importFromDump: package bufio's scanner, by which a backup is read line by
-- line, with room for 10 MB.
use mathlib.Core.List.{append_assoc, append-nil}
use glitchgate.Prelude.{
  ℕ, ◌*◌, ◌<◌, Bool, true, false, List, [], ◌∷◌, ◌++◌, ◌≡◌, refl, ap, sym, ◌∙◌, arith, nat_eq, ltb,
  if◌then◌else◌, is_empty, length, All,
}
use glitchgate.Export.OneLine.{one_line}
use glitchgate.Export.Dump.{print_lines}

abbrev pub max_token : ℕ
max_token = 10 * 1024 * 1024

-- The carriage return at the end of a line is dropped.
unfoldable pub drop_cr : List ℕ → List ℕ
drop_cr [] = []
drop_cr (c ∷ []) = if nat_eq c 13 then [] else c ∷ []
drop_cr (c ∷ (d ∷ s)) = c ∷ drop_cr (d ∷ s)

-- The lines, and whether the scan ended at a line that does not fit.
abbrev pub Scanned : Type 0
Scanned = List (List ℕ) × Bool

unfoldable pub emit : List ℕ → Scanned → Scanned
unfolding drop_cr
emit line rest = if ltb (length line) max_token then (drop_cr line ∷ rest.0, rest.1) else ([], true)

unfoldable pub scan_from : List ℕ → List ℕ → Scanned
unfolding emit
scan_from cur [] = if is_empty cur then ([], false) else emit cur ([], false)
scan_from cur (c ∷ s) = elim (nat_eq c 10) [
  | true ↦ emit cur (scan_from [] s)
  | false ↦ scan_from (cur ++ c ∷ []) s
]

unfoldable pub scan_lines : List ℕ → Scanned
unfolding scan_from
scan_lines s = scan_from [] s

drop_cr_lem : (s : List ℕ) → one_line s ≡ true → drop_cr s ≡ s
unfolding drop_cr one_line
drop_cr_lem [] e = refl
drop_cr_lem (c ∷ []) e = ground (arith, e)
drop_cr_lem (c ∷ (d ∷ s)) e = ap (λ t. c ∷ t) (drop_cr_lem (d ∷ s) (ground (arith, e)))

to_feed :
    (cur l s : List ℕ)
    → one_line l ≡ true
    → scan_from cur (l ++ 10 ∷ s) ≡ emit (cur ++ l) (scan_from [] s)
unfolding scan_from one_line
to_feed cur [] s e = ap (λ t. emit t (scan_from [] s)) (sym (append-nil cur))
to_feed cur (c ∷ l) s e =
    let here : nat_eq c 10 ≡ false = ground (arith, e) in
    let rest : one_line l ≡ true = ground (arith, e) in
    rw (scan_from, here) (to_feed (cur ++ c ∷ []) l s rest)
    ∙ ap (λ t. emit t (scan_from [] s)) (append_assoc cur (c ∷ []) l)

-- A line that is read as it was printed.
abbrev pub IsLine : List ℕ → Type 0
IsLine l = (one_line l ≡ true) × (length l < max_token)

-- Lines that are printed are read back, if they are lines of less than 10 MB.
pub scan-print_lines :
    (ls : List (List ℕ)) → All IsLine ls → scan_lines (print_lines ls) ≡ (ls, false)
unfolding scan_lines scan_from print_lines emit
scan-print_lines [] a = refl
scan-print_lines (l ∷ ls) ((e, n), a) =
    let fits : ltb (length l) max_token ≡ true = ground (arith, n) in
    to_feed [] l (print_lines ls) e
    ∙ ap (emit l) (scan-print_lines ls a)
    ∙ rw (emit, fits, drop_cr_lem l e) refl
