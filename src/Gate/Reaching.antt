-- ===== src/Gate/Reaching.antt =====
-- internal/proxy/request_security.go: which requests reach a handler.
use glitchgate.Prelude.{
  ℕ, String, Bool, true, Option, List, ◌≡◌, ◌↔◌, refl, ap, subst, arith, Bool-cases, inl, inr,
}
use glitchgate.KeyLimit.{allow_slot}
use glitchgate.Scope.Keys.{Auth, missing_key, invalid_key, authenticated, authenticate}
use glitchgate.Scope.Presented.{Identifies, authenticate-Identifies}
use glitchgate.Gate.{
  reaches, Arrival, Gate, or_unknown, allow_key_aware, remote_addr_key, limit_key, identify, admit,
}

module _ {Key : Type 0} (split_host_port : String → Option String) (by_prefix : List ℕ → Option Key)
    (verify : List ℕ → Key → Bool) (key_id : Key → String) where
  abbrev IsAllowed : Key → Arrival → Gate → Type 0
  IsAllowed pk a g =
      (allow_key_aware a.key_at a.key_limit (or_unknown (key_id pk)) g.key_limiter).0 ≡ true

  reaches-injective : (k pk : Key) → reaches k ≡ reaches pk → k ≡ pk
  reaches-injective k pk e = ground (arith, e)

  limited :
      (k pk : Key) (a : Arrival) (g : Gate)
      → (limit_key split_host_port by_prefix verify key_id k a g).0 ≡ reaches pk
      → (authenticated k ≡ authenticated pk) × IsAllowed pk a g
  unfolding limit_key
  limited k pk a g e =
      elim (Bool-cases
        (allow_key_aware a.key_at a.key_limit (or_unknown (key_id k)) g.key_limiter).0) [
          | inl q ↦
              let same : k ≡ pk = reaches-injective k pk (rw (limit_key, q) at e) in
              (ap authenticated same, subst (λ x. IsAllowed x a g) same q)
          | inr q ↦ ground (arith, rw (limit_key, q) at e)
        ]

  identified :
      (auth : Auth Key) (pk : Key) (a : Arrival) (g : Gate)
      → (identify split_host_port by_prefix verify key_id auth a g).0 ≡ reaches pk
      → (auth ≡ authenticated pk) × IsAllowed pk a g
  unfolding identify
  identified missing_key pk a g e = ground (arith, e)
  identified invalid_key pk a g e = ground (arith, e)
  identified (authenticated k) pk a g e = limited k pk a g e

  -- A request reaches the handler with a stored key if and only if its address is within its limit,
  -- the headers present a key that this stored key stands for, found by the key's first twelve bytes
  -- and verified against the whole of it, and the stored key is within its own limits.
  pub admit-Identifies :
      (a : Arrival) (g : Gate) (pk : Key)
      → ((admit split_host_port by_prefix verify key_id a g).0 ≡ reaches pk) ↔ (
          ((allow_slot a.ip_at (remote_addr_key split_host_port a.remote_addr) g.ip_limiter).0
            ≡ true)
          × Identifies by_prefix verify a.headers pk
          × ((allow_key_aware a.key_at a.key_limit (or_unknown (key_id pk)) g.key_limiter).0
              ≡ true))
  unfolding admit
  admit-Identifies a g pk =
      let slot = allow_slot a.ip_at (remote_addr_key split_host_port a.remote_addr) g.ip_limiter in
      let who = authenticate-Identifies by_prefix verify a.headers pk in
      (
        λ e. elim (Bool-cases slot.0) [
          | inr q ↦ ground (arith, rw (admit, q) at e)
          | inl q ↦
              let (i, l) =
                identified (authenticate by_prefix verify a.headers) pk a
                  (record g { ip_limiter = slot.1 }) (rw (admit, q) at e) in
              (q, who.0 i, l)
        ],
        λ (q, i, l). rw (admit, q, who.1 i, identify, limit_key, l) refl,
      )
