-- ===== src/Gate.antt =====
-- internal/proxy/request_security.go, as cmd/serve.go puts it together: what a request passes before
-- its handler is the limit of its address, the check of its key, and the limits of that key.
-- net.SplitHostPort, net/http's reading of a body, the store's key lookup and the hash are
-- parameters; log texts are left out.
pub mod Bounded
pub mod Reaching
use glitchgate.Prelude.{
  ℕ, String, ◌==◌, Bool, true, false, Option, none, some, List, if◌then◌else◌, bytes, has_suffix, ℤ,
  or_default, ◌⊎◌, inl, inr,
}
use glitchgate.KeyLimit.{KeyAwareRateLimiter, KeyRateLimit, Readings, allow_slot}
use glitchgate.KeyLimit
use glitchgate.RateLimit.{Limiter}
use glitchgate.Scope.Keys.{Headers, Auth, missing_key, invalid_key, authenticated, authenticate}

-- The protocol in which a 429 is written.
pub data ErrorStyle : Type 0 where
  anthropic_error openai_error responses_error : ErrorStyle

pub data Verdict (Key : Type 0) : Type 0 where
  too_many_requests : ErrorStyle → Verdict Key
  unauthorized : Auth Key → Verdict Key
  reaches : Key → Verdict Key

-- A request with the clock's readings of its way, and what the store answers for its key's limits.
pub record Arrival : Type 0 where
  pub ip_at : ℕ
  pub key_at : Readings
  pub remote_addr : String
  pub path : List ℕ
  pub headers : Headers
  pub key_limit : KeyRateLimit

-- The limiters, none where they are nil.
pub record Gate : Type 0 where
  pub ip_limiter : Option Limiter
  pub key_limiter : Option KeyAwareRateLimiter

unfoldable pub rate_limit_error : List ℕ → ErrorStyle
unfolding has_suffix
rate_limit_error path =
    if has_suffix path (bytes "/chat/completions")
    then openai_error
    else if has_suffix path (bytes "/responses")
    then responses_error
    else anthropic_error

abbrev pub or_unknown : String → String
or_unknown id = if id == "" then "unknown" else id

-- kl == nil || kl.Allow(ctx, key)
unfoldable pub allow_key_aware :
    Readings
    → KeyRateLimit
    → String
    → Option KeyAwareRateLimiter
    → Bool × Option KeyAwareRateLimiter
allow_key_aware at answer key none = (true, none)
allow_key_aware at answer key (some kl) =
    let (ok, kl') = KeyLimit.allow at answer key kl in (ok, some kl')

unfoldable pub remote_addr_key : (String → Option String) → String → String
remote_addr_key split_host_port addr = elim (split_host_port addr) [
  | none ↦ addr
  | some host ↦ if host == "" then addr else host
]

-- KeyRateLimitMiddleware, for the identifier of a key if there is one: the error that ends the
-- request, if any, and the limiter after it.
unfoldable pub limit_by_key :
    ℕ → Option String → List ℕ → Option Limiter → Option ErrorStyle × Option Limiter
unfolding allow_slot rate_limit_error
limit_by_key now id path l =
    let key : String = elim id [ none ↦ "unknown" | some k ↦ or_unknown k ] in
    let (ok, l') = allow_slot now key l in (if ok then none else some (rate_limit_error path), l')

-- What http.MaxBytesReader and io.ReadAll make of a body: its bytes, or an error of either kind.
pub data BodyReading : Type 0 where
  whole : List ℕ → BodyReading
  over_limit broken : BodyReading

-- The body, or the status of the error that is written, for a reading under each limit.
unfoldable pub read_request_body_with_limit : (ℕ → BodyReading) → ℤ → List ℕ ⊎ ℕ
read_request_body_with_limit read_all max_bytes = elim (read_all (or_default max_bytes 4194304)) [
  | whole body ↦ inl body
  | over_limit ↦ inr 413
  | broken ↦ inr 400
]

module _ {Key : Type 0} (split_host_port : String → Option String) (by_prefix : List ℕ → Option Key)
    (verify : List ℕ → Key → Bool) (key_id : Key → String) where
  -- KeyAwareRateLimitMiddleware
  unfoldable pub limit_key : Key → Arrival → Gate → Verdict Key × Gate
  unfolding allow_key_aware rate_limit_error
  limit_key pk a g =
      let (ok, kl) = allow_key_aware a.key_at a.key_limit (or_unknown (key_id pk)) g.key_limiter in
      (
        if ok then reaches pk else too_many_requests (rate_limit_error a.path),
        record g { key_limiter = kl },
      )

  -- AuthMiddleware, and what is behind it
  unfoldable pub identify : Auth Key → Arrival → Gate → Verdict Key × Gate
  unfolding limit_key
  identify missing_key a g = (unauthorized missing_key, g)
  identify invalid_key a g = (unauthorized invalid_key, g)
  identify (authenticated pk) a g = limit_key pk a g

  -- IPRateLimitMiddleware, and what is behind it
  unfoldable pub admit : Arrival → Gate → Verdict Key × Gate
  unfolding allow_slot remote_addr_key identify rate_limit_error
  admit a g =
      let (ok, l) =
        allow_slot a.ip_at (remote_addr_key split_host_port a.remote_addr) g.ip_limiter in
      let g' = record g { ip_limiter = l } in
      if ok
      then identify (authenticate by_prefix verify a.headers) a g'
      else (too_many_requests (rate_limit_error a.path), g')
