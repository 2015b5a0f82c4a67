-- ===== src/Scope/Presented.antt =====
-- internal/proxy/auth_middleware.go, AuthMiddleware: which keys a request presents, and which of them
-- are accepted, said without the order of the checks.
use glitchgate.Prelude.{
  ℕ, zero, suc, ◌<◌, ◌≤◌, Bool, true, false, ◌&&◌, Option, some, List, [], ◌∷◌, ◌++◌, ◌≡◌, ◌≢◌, ◌⊎◌,
  ◌↔◌, refl, sym, ap, ◌∙◌, subst, inl, inr, arith, length, take, drop, ltb, bytes, same_bytes,
  is_empty, Bool-cases, Option-cases,
}
use glitchgate.Import.Rows.{same_bytes→≡}
use glitchgate.Scope.Keys.{
  Headers, bearer_key, request_key, authenticated, key_prefix, authenticate_key, authenticate,
}

-- A bearer token that begins with llmp_sk_ and does not end there.
abbrev pub BearerKey : List ℕ → List ℕ → Type 0
BearerKey bearer key =
    (b : ℕ) × (rest : List ℕ) × (key ≡ bytes "llmp_sk_" ++ b ∷ rest)
    × (bearer ≡ bytes "Bearer " ++ key)

-- The key in the headers, which is not empty: that of x-api-key, else that of x-proxy-api-key, else,
-- where both are absent, a bearer token that begins with llmp_sk_ and does not end there.
abbrev pub Presents : Headers → List ℕ → Type 0
Presents h key =
    ((h.x_api_key ≡ key) × (key ≢ []))
    ⊎ ((h.x_api_key ≡ []) × (h.x_proxy_api_key ≡ key) × (key ≢ []))
    ⊎ ((h.x_api_key ≡ []) × (h.x_proxy_api_key ≡ []) × BearerKey h.authorization key)

-- What is empty and what is not.
empty_lem : (s : List ℕ) → is_empty s ≡ true → s ≡ []
empty_lem [] e = refl
empty_lem (c ∷ s) e = ground (arith, e)

full_lem : (s : List ℕ) → s ≢ [] → is_empty s ≡ false
full_lem [] n = absurd (n refl)
full_lem (c ∷ s) n = refl

not_empty : (s : List ℕ) → is_empty s ≡ false → s ≢ []
not_empty s e q = ground (arith, ap is_empty q, e)

take-drop : (n : ℕ) (s : List ℕ) → take n s ++ drop n s ≡ s
take-drop zero s = refl
take-drop (suc n) [] = refl
take-drop (suc n) (c ∷ s) = ap (λ t. c ∷ t) (take-drop n s)

prefix_lem : (n : ℕ) (s p : List ℕ) → same_bytes (take n s) p ≡ true → s ≡ p ++ drop n s
prefix_lem n s p e = sym (take-drop n s) ∙ ap (λ t. t ++ drop n s) (same_bytes→≡ (take n s) p e)

-- The rest of a text that is longer than what was dropped.
rest_lem : (s : List ℕ) (p : List ℕ) (n : ℕ) → n ≡ length p → s ≡ p → ltb n (length s) ≡ true → ⊥
rest_lem s p n e q l = ground (arith, e, ap length q, l)

candidate_lem :
    (key rest : List ℕ)
    → key ≡ bytes "llmp_sk_" ++ rest
    → ltb 8 (length key) ≡ true
    → (b : ℕ) × (more : List ℕ) × (key ≡ bytes "llmp_sk_" ++ b ∷ more)
candidate_lem key [] e l = absurd (rest_lem key (bytes "llmp_sk_") 8 refl e l)
candidate_lem key (b ∷ more) e l = (b, more, e)

bearer_key-BearerKey :
    (bearer key : List ℕ) → bearer_key bearer ≡ key → key ≢ [] → BearerKey bearer key
unfolding bearer_key
bearer_key-BearerKey bearer key e n =
    let t = ltb 7 (length bearer) && same_bytes (take 7 bearer) (bytes "Bearer ") in
    let c = drop 7 bearer in
    let u = ltb 8 (length c) && same_bytes (take 8 c) (bytes "llmp_sk_") in
    elim (Bool-cases t) [
      | inr q ↦ absurd (n (sym (rw (bearer_key, q) at e)))
      | inl q ↦ elim (Bool-cases u) [
        | inr r ↦ absurd (n (sym (rw (bearer_key, q, r) at e)))
        | inl r ↦
            let same : c ≡ key = rw (bearer_key, q, r) at e in
            let long : ltb 8 (length c) ≡ true = ground (arith, r) in
            let starts : same_bytes (take 8 c) (bytes "llmp_sk_") ≡ true = ground (arith, r) in
            let first : same_bytes (take 7 bearer) (bytes "Bearer ") ≡ true = ground (arith, q) in
            let (b, more, k) =
              candidate_lem c (drop 8 c) (prefix_lem 8 c (bytes "llmp_sk_") starts) long in
            (
              b,
              more,
              sym same ∙ k,
              prefix_lem 7 bearer (bytes "Bearer ") first ∙ ap (λ t. bytes "Bearer " ++ t) same,
            )
      ]
    ]

longer : (n m : ℕ) → n < m → ltb n m ≡ true
longer n m l = ground (arith, l)

BearerKey-bearer_key : (bearer key : List ℕ) → BearerKey bearer key → bearer_key bearer ≡ key
unfolding bearer_key same_bytes
BearerKey-bearer_key bearer key (b, rest, k, e) =
    let whole = bytes "llmp_sk_" ++ b ∷ rest in
    let f : ltb 7 (length (bytes "Bearer " ++ whole)) ≡ true =
      longer 7 (length (bytes "Bearer " ++ whole)) (omega arith) in
    let g : ltb 8 (length whole) ≡ true = longer 8 (length whole) (omega arith) in
    rw (e, k, f, g) refl

request_key-Presents :
    (h : Headers) (key : List ℕ) → request_key h ≡ key → key ≢ [] → Presents h key
unfolding request_key
request_key-Presents h key e n = elim (Bool-cases (is_empty h.x_api_key)) [
  | inr f ↦ inl (rw (request_key, f, f) at e, n)
  | inl f ↦ elim (Bool-cases (is_empty h.x_proxy_api_key)) [
    | inr g ↦ inr (inl (empty_lem h.x_api_key f, rw (request_key, f, g) at e, n))
    | inl g ↦ inr (
        inr (
          empty_lem h.x_api_key f,
          empty_lem h.x_proxy_api_key g,
          bearer_key-BearerKey h.authorization key (rw (request_key, f, g) at e) n,
        ))
  ]
]

Presents-request_key :
    (h : Headers) (key : List ℕ) → Presents h key → (request_key h ≡ key) × (key ≢ [])
unfolding request_key
Presents-request_key h key (inl (e, n)) =
    let f = full_lem key n in (rw (request_key, e, f, f) refl, n)
Presents-request_key h key (inr (inl (f, e, n))) =
    let g = full_lem key n in (rw (request_key, f, e, g) refl, n)
Presents-request_key h key (inr (inr (f, e, (b, rest, k, a)))) = (
  rw (request_key, f, e) (BearerKey-bearer_key h.authorization key (b, rest, k, a)),
  λ q. ground (arith, sym k ∙ q),
)

module _ {Key : Type 0} (by_prefix : List ℕ → Option Key) (verify : List ℕ → Key → Bool) where
  -- A stored key that stands for the request.
  abbrev pub Identifies : Headers → Key → Type 0
  Identifies h pk =
      (key : List ℕ) × Presents h key
      × (12 ≤ length key)
      × (by_prefix (take 12 key) ≡ some pk)
      × (verify key pk ≡ true)

  authenticated-injective : (k pk : Key) → authenticated k ≡ authenticated pk → k ≡ pk
  authenticated-injective k pk e = ground (arith, e)

  key-accepted :
      (key : List ℕ) (pk : Key)
      → authenticate_key by_prefix verify key ≡ authenticated pk
      → (key ≢ [])
        × (12 ≤ length key)
        × (by_prefix (take 12 key) ≡ some pk)
        × (verify key pk ≡ true)
  unfolding authenticate_key key_prefix
  key-accepted [] pk e = ground (arith, e)
  key-accepted (c ∷ s) pk e = elim (Bool-cases (ltb (length (c ∷ s)) 12)) [
    | inl l ↦ ground (arith, rw (authenticate_key, l) at e)
    | inr l ↦ elim (Option-cases (by_prefix (take 12 (c ∷ s)))) [
      | inl n ↦ ground (arith, rw (authenticate_key, l, n) at e)
      | inr (k, n) ↦ elim (Bool-cases (verify (c ∷ s) k)) [
        | inl v ↦
            let same : k ≡ pk =
              authenticated-injective k pk (rw (authenticate_key, l, n, v) at e) in
            (
              λ q. ground (arith, q),
              ground (arith, l),
              n ∙ ap some same,
              subst (λ x. verify (c ∷ s) x ≡ true) same v,
            )
        | inr v ↦ ground (arith, rw (authenticate_key, l, n, v) at e)
      ]
    ]
  ]

  accepted-key :
      (key : List ℕ) (pk : Key)
      → key ≢ []
      → 12 ≤ length key
      → by_prefix (take 12 key) ≡ some pk
      → verify key pk ≡ true
      → authenticate_key by_prefix verify key ≡ authenticated pk
  unfolding authenticate_key key_prefix
  accepted-key key pk n l f v =
      let short : ltb (length key) 12 ≡ false = ground (arith, l) in
      rw (authenticate_key, full_lem key n, short, f, v) refl

  -- A request goes on with a stored key if and only if the headers present a key of at least twelve
  -- bytes, the store finds the stored key by the first twelve, and the whole key was verified
  -- against it. The key presented is that of x-api-key, else that of x-proxy-api-key, else, where
  -- both are absent, a bearer token that begins with llmp_sk_ and does not end there.
  pub authenticate-Identifies :
      (h : Headers) (pk : Key)
      → (authenticate by_prefix verify h ≡ authenticated pk) ↔ Identifies h pk
  unfolding authenticate
  authenticate-Identifies h pk = (
    λ e.
        let (n, l, f, v) = key-accepted (request_key h) pk e in
        (request_key h, request_key-Presents h (request_key h) refl n, l, f, v),
    λ (key, p, l, f, v).
        let (q, n) = Presents-request_key h key p in
        ap (authenticate_key by_prefix verify) q ∙ accepted-key key pk n l f v,
  )
