-- ===== src/Export/Splitting.antt =====
-- internal/store/export.go, splitSQLValues: the joined literals of a row are split where they were
-- joined. In a string a quote ends it and a quote right after begins it again, so the loop is one
-- that turns at every quote.
use mathlib.Core.List.{append_assoc, append-nil}
use glitchgate.Prelude.{
  ℕ, zero, suc, ℤ, pos, negsuc, increment, decrement, is_zero, Bool, true, false, ◌&&◌, not, List,
  [], ◌∷◌, ◌++◌, ◌≡◌, refl, ap, ap₂, sym, ◌∙◌, subst, arith, nat_eq, if◌then◌else◌, Bool-cases, inl,
  inr, All, bytes, trim_space, starts_solid, ends_solid, trim_space_solid,
}
use glitchgate.Export.{split_from, split_sql_values, join_literals}

abbrev pub turned_depth : ℤ → Bool → ℕ → ℤ
turned_depth depth true c = depth
turned_depth depth false c =
    if nat_eq c b'(' then increment depth else if nat_eq c b')' then decrement depth else depth

abbrev pub turned_str : Bool → ℕ → Bool
turned_str in_str c = if nat_eq c b'\'' then not in_str else in_str

pub is_quote : (c : ℕ) → nat_eq c b'\'' ≡ true → c ≡ b'\''
is_quote c e = ground (arith, e)

toggle_pair :
    (depth : ℤ) (cur s : List ℕ)
    → split_from depth true cur (b'\'' ∷ (b'\'' ∷ s))
      ≡ split_from depth false (cur ++ b'\'' ∷ []) (b'\'' ∷ s)
unfolding split_from
toggle_pair depth cur s =
    ap (λ t. split_from depth true t s) (sym (append_assoc cur (b'\'' ∷ []) (b'\'' ∷ [])))

toggle :
    (depth : ℤ) (cur s : List ℕ)
    → split_from depth true cur (b'\'' ∷ s) ≡ split_from depth false (cur ++ b'\'' ∷ []) s
unfolding split_from
toggle depth cur [] = refl
toggle depth cur (d ∷ s) = elim (Bool-cases (nat_eq d b'\'')) [
  | inl e ↦
      subst
        (λ x.
          split_from depth true cur (b'\'' ∷ (x ∷ s))
          ≡ split_from depth false (cur ++ b'\'' ∷ []) (x ∷ s))
        (sym (is_quote d e)) (toggle_pair depth cur s)
  | inr e ↦ rw (split_from, e) refl
]

within :
    (depth : ℤ) (cur : List ℕ) (c : ℕ) (s : List ℕ)
    → nat_eq c b'\'' ≡ false
    → split_from depth true cur (c ∷ s) ≡ split_from depth true (cur ++ c ∷ []) s
unfolding split_from
within depth cur c [] e = refl
within depth cur c (d ∷ s) e = rw (split_from, e) refl

unfoldable pub splits_at : ℤ → Bool → ℕ → Bool
splits_at depth in_str c = not in_str && nat_eq c b',' && is_zero depth

-- One byte, where no split happens.
advance :
    (depth : ℤ) (in_str : Bool) (cur : List ℕ) (c : ℕ) (s : List ℕ)
    → splits_at depth in_str c ≡ false
    → split_from depth in_str cur (c ∷ s)
      ≡ split_from (turned_depth depth in_str c) (turned_str in_str c) (cur ++ c ∷ []) s
unfolding split_from splits_at
advance depth true cur c s e = elim (Bool-cases (nat_eq c b'\'')) [
  | inl q ↦
      subst
        (λ x.
          split_from depth true cur (x ∷ s)
          ≡ split_from (turned_depth depth true x) (turned_str true x) (cur ++ x ∷ []) s)
        (sym (is_quote c q)) (toggle depth cur s)
  | inr q ↦ within depth cur c s q ∙ rw (turned_str, q) refl
]
advance depth false cur c s e = elim (Bool-cases (nat_eq c b'\'')) [
  | inl q ↦ rw (split_from, e, turned_str, q) refl
  | inr q ↦ rw (split_from, e, turned_str, q) refl
]

-- Read from here, the text has no split and ends outside a string and all parentheses.
unfoldable pub is_closed : ℤ → Bool → List ℕ → Bool
unfolding splits_at
is_closed depth in_str [] = is_zero depth && not in_str
is_closed depth in_str (c ∷ s) =
    not (splits_at depth in_str c)
    && is_closed (turned_depth depth in_str c) (turned_str in_str c) s

both : (a b : Bool) → (not a && b) ≡ true → (a ≡ false) × (b ≡ true)
both false b e = (refl, e)
both true b e = ground (arith, e)

pub walk :
    (depth : ℤ) (in_str : Bool) (cur s rest : List ℕ)
    → is_closed depth in_str s ≡ true
    → split_from depth in_str cur (s ++ rest) ≡ split_from (pos 0) false (cur ++ s) rest
unfolding is_closed
walk (pos zero) false cur [] rest e =
    ap (λ t. split_from (pos 0) false t rest) (sym (append-nil cur))
walk (pos zero) true cur [] rest e = ground (arith, e)
walk (pos (suc n)) in_str cur [] rest e = ground (arith, e)
walk (negsuc n) in_str cur [] rest e = ground (arith, e)
walk depth in_str cur (c ∷ s) rest e =
    let (q, f) =
      both (splits_at depth in_str c)
        (is_closed (turned_depth depth in_str c) (turned_str in_str c) s) e in
    advance depth in_str cur c (s ++ rest) q
    ∙ walk (turned_depth depth in_str c) (turned_str in_str c) (cur ++ c ∷ []) s rest f
    ∙ ap (λ t. split_from (pos 0) false t rest) (append_assoc cur (c ∷ []) s)

-- A literal stands in a list of literals as it is.
abbrev pub IsLiteral : List ℕ → Type 0
IsLiteral l = (starts_solid l ≡ true) × (ends_solid l ≡ true) × (is_closed (pos 0) false l ≡ true)

split_joined :
    (before l : List ℕ) (ls : List (List ℕ))
    → trim_space (before ++ l) ≡ l
    → is_closed (pos 0) false l ≡ true
    → All IsLiteral ls
    → split_from (pos 0) false before (join_literals (l ∷ ls)) ≡ l ∷ ls
unfolding join_literals split_from
split_joined before l [] t e a =
    ap (λ x. split_from (pos 0) false before x) (sym (append-nil l))
    ∙ walk (pos 0) false before l [] e
    ∙ ap (λ x. x ∷ []) t
split_joined before l (m ∷ ls) t e ((i, j, k), a) =
    walk (pos 0) false before l (bytes ", " ++ join_literals (m ∷ ls)) e
    ∙ ap₂ (λ x xs. x ∷ xs) t (split_joined (b' ' ∷ []) m ls (trim_space_solid m i j) k a)

-- Literals that are joined with commas are split where they were joined.
pub split-join_literals :
    (l : List ℕ) (ls : List (List ℕ))
    → All IsLiteral (l ∷ ls)
    → split_sql_values (join_literals (l ∷ ls)) ≡ l ∷ ls
unfolding split_sql_values
split-join_literals l ls ((i, j, k), a) = split_joined [] l ls (trim_space_solid l i j) k a
