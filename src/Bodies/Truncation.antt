-- ===== src/Bodies/Truncation.antt =====
-- internal/proxy/result.go, truncateLoggedBody: how long a logged body is.
use glitchgate.Prelude.{
  ℕ, zero, suc, ◌+◌, ◌≤◌, ◌<◌, pos, List, [], ◌∷◌, inl, inr, arith, leb, length, take,
  length-append, Bool-cases,
}
use glitchgate.Bodies.{truncate_logged_body}

length-take_le {ℓ} : {A : Type ℓ} (n : ℕ) (xs : List A) → length (take n xs) ≤ n
length-take_le zero xs = omega arith
length-take_le (suc n) [] = omega arith
length-take_le (suc n) (x ∷ xs) = omega (arith, length-take_le n xs)

-- Where there is a positive limit, what is logged of a body has at most the limit's bytes and the
-- mark's, whatever the body.
truncated_length :
    (mark : ℕ → List ℕ) (body : List ℕ) (max : ℕ)
    → 0 < max
    → length (truncate_logged_body mark body (pos max)) ≤ max + length (mark (length body))
unfolding truncate_logged_body
truncated_length mark body zero p = ground arith
truncated_length mark body (suc n) p = elim (Bool-cases (leb (length body) (suc n))) [
  | inl e ↦ rw e (ground (arith, e))
  | inr e ↦
      rw (e, length-append (take (suc n) body) (mark (length body)))
        (omega (arith, length-take_le (suc n) body))
]
