-- ===== src/Translate/ToolIds.antt =====
-- internal/translate/helpers.go, sanitizeAnthropicToolID. A text is its list of bytes.
use glitchgate.Prelude.{
  ℕ, zero, suc, ◌≤◌, Bool, true, false, not, ◌&&◌, ◌||◌, List, [], ◌∷◌, ◌≡◌, refl, arith, ltb,
  nat_eq, if◌then◌else◌, length, take, map, All, Bool-cases, inl, inr,
}

-- The condition under which a byte is kept.
unfoldable pub is_allowed : ℕ → Bool
is_allowed c = not (
    (ltb c b'a' || ltb b'z' c)
    && (ltb c b'A' || ltb b'Z' c)
    && (ltb c b'0' || ltb b'9' c)
    && not (nat_eq c b'_')
    && not (nat_eq c b'-'))

unfoldable pub sanitize_byte : ℕ → ℕ
unfolding is_allowed
sanitize_byte c = if is_allowed c then c else b'_'

unfoldable pub sanitize_anthropic_tool_id : List ℕ → List ℕ
unfolding sanitize_byte
sanitize_anthropic_tool_id id =
    let b = map sanitize_byte id in if ltb 64 (length b) then take 64 b else b

-- What Anthropic accepts: at most 64 letters, digits, underscores and hyphens.
unfoldable pub IsToolId : List ℕ → Type 0
IsToolId id = (length id ≤ 64) × All (λ c. is_allowed c ≡ true) id

All-allowed : (id : List ℕ) → All (λ c. is_allowed c ≡ true) (map sanitize_byte id)
unfolding is_allowed sanitize_byte
All-allowed [] = tt
All-allowed (c ∷ id) = (ground arith, All-allowed id)

All-take {ℓ κ} : {A : Type ℓ} (P : A → Type κ) (n : ℕ) (xs : List A) → All P xs → All P (take n xs)
All-take P zero xs p = tt
All-take P (suc n) [] p = tt
All-take P (suc n) (x ∷ xs) (p, ps) = (p, All-take P n xs ps)

length-take {ℓ} : {A : Type ℓ} (n : ℕ) (xs : List A) → length (take n xs) ≤ n
length-take zero xs = omega arith
length-take (suc n) [] = omega arith
length-take (suc n) (x ∷ xs) = omega (arith, length-take n xs)

-- Every text is made into an identifier that Anthropic accepts.
sanitize_anthropic_tool_id-IsToolId : (id : List ℕ) → IsToolId (sanitize_anthropic_tool_id id)
unfolding sanitize_anthropic_tool_id IsToolId
sanitize_anthropic_tool_id-IsToolId id =
    elim (Bool-cases (ltb 64 (length (map sanitize_byte id)))) [
      | inl e ↦ rw e (
        length-take 64 (map sanitize_byte id),
        All-take (λ c. is_allowed c ≡ true) 64 (map sanitize_byte id) (All-allowed id),
      )
      | inr e ↦ rw e (ground (arith, e), All-allowed id)
    ]

map-sanitize_byte : (id : List ℕ) → All (λ c. is_allowed c ≡ true) id → map sanitize_byte id ≡ id
unfolding sanitize_byte
map-sanitize_byte [] p = refl
map-sanitize_byte (c ∷ id) (p, ps) = rw (p, map-sanitize_byte id ps) refl

not_longer : (n : ℕ) → n ≤ 64 → ltb 64 n ≡ false
not_longer n l = ground (arith, l)

-- An identifier that Anthropic accepts is left as it is.
pub sanitize_anthropic_tool_id_kept :
    (id : List ℕ) → IsToolId id → sanitize_anthropic_tool_id id ≡ id
unfolding sanitize_anthropic_tool_id IsToolId
sanitize_anthropic_tool_id_kept id (l, p) =
    rw (map-sanitize_byte id p, not_longer (length id) l) refl
