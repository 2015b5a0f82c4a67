-- ===== src/Scope/Keys.antt =====
-- internal/proxy/auth_middleware.go, AuthMiddleware: the key of a request and what becomes of it. A
-- text is its list of bytes; a header that is absent is empty.
use glitchgate.Prelude.{
  ℕ, Bool, ◌&&◌, Option, none, some, List, [], length, take, drop, ltb, if◌then◌else◌, bytes,
  same_bytes, is_empty,
}

pub record Headers : Type 0 where
  pub x_api_key : List ℕ
  pub x_proxy_api_key : List ℕ
  pub authorization : List ℕ

-- The key of an Authorization header, empty where it is not a key of ours.
unfoldable pub bearer_key : List ℕ → List ℕ
unfolding same_bytes
bearer_key bearer =
    if ltb 7 (length bearer) && same_bytes (take 7 bearer) (bytes "Bearer ")
    then (let candidate = drop 7 bearer in
        if ltb 8 (length candidate) && same_bytes (take 8 candidate) (bytes "llmp_sk_")
        then candidate
        else [])
    else []

unfoldable pub request_key : Headers → List ℕ
unfolding bearer_key
request_key h =
    let key = if is_empty h.x_api_key then h.x_proxy_api_key else h.x_api_key in
    if is_empty key then bearer_key h.authorization else key

pub data Auth (Key : Type 0) : Type 0 where
  missing_key invalid_key : Auth Key
  -- The request goes on with this stored key.
  authenticated : Key → Auth Key

-- apiKey[:12]
unfoldable pub key_prefix : List ℕ → List ℕ
key_prefix key = take 12 key

-- The store's lookup by prefix, `none` for its error, and the verification of a key against a
-- stored one are parameters.
module _ {Key : Type 0} (by_prefix : List ℕ → Option Key) (verify : List ℕ → Key → Bool) where
  unfoldable pub authenticate_key : List ℕ → Auth Key
  unfolding key_prefix
  authenticate_key key =
      if is_empty key
      then missing_key
      else if ltb (length key) 12
      then invalid_key
      else elim (by_prefix (key_prefix key)) [
        | none ↦ invalid_key
        | some pk ↦ if verify key pk then authenticated pk else invalid_key
      ]

  unfoldable pub authenticate : Headers → Auth Key
  unfolding request_key authenticate_key
  authenticate h = authenticate_key (request_key h)
