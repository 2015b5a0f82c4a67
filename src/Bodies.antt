-- ===== src/Bodies.antt =====
-- internal/proxy/redact.go and truncateLoggedBody in result.go: what is logged of a body. A body is
-- the list of its bytes; package json, strings.ToLower and the text of the truncation's mark are
-- parameters.
pub mod Redaction
pub mod Truncation
use glitchgate.Prelude.{
  ℕ, zero, suc, ℤ, pos, negsuc, String, Bool, true, false, ◌||◌, Option, none, some, List, [], ◌∷◌,
  ◌++◌, ◌==◌, if◌then◌else◌, length, take, leb, Map,
}

-- What json.Unmarshal makes of a body; a number is kept as its text. The fields of an object, a Go
-- map, have no order that the program relies on.
mutual
  pub data Json : Type 0 where
    null : Json
    boolean : Bool → Json
    number : String → Json
    text : String → Json
    array : Items → Json
    object : Fields → Json

  pub data Items : Type 0 where
    no_items : Items
    item : Json → Items → Items

  pub data Fields : Type 0 where
    no_fields : Fields
    field : String → Json → Fields → Fields

abbrev pub redacted : Json
redacted = text "[REDACTED]"

unfoldable pub is_sensitive : (String → String) → String → Bool
is_sensitive lower k =
    let key = lower k in
    key == "api_key" || key == "x-api-key" || key == "authorization" || key == "x-proxy-api-key"

-- redactMap, and what it does to a value: of the values only a map is entered.
unfoldable mutual
  unfolding is_sensitive

  pub redact_map : (String → String) → Fields → Fields
  redact_map lower no_fields = no_fields
  redact_map lower (field k v rest) =
      let nested = redact_value lower v in
      field k (if is_sensitive lower k then redacted else nested) (redact_map lower rest)

  pub redact_value : (String → String) → Json → Json
  redact_value lower null = null
  redact_value lower (boolean b) = boolean b
  redact_value lower (number n) = number n
  redact_value lower (text s) = text s
  redact_value lower (array xs) = array xs
  redact_value lower (object fs) = object (redact_map lower fs)

unfoldable pub redact_request_body :
    (String → String) → (List ℕ → Option Fields) → (Fields → Option (List ℕ)) → List ℕ → List ℕ
redact_request_body lower unmarshal marshal body = elim (unmarshal body) [
  | none ↦ body
  | some data' ↦ elim (marshal (redact_map lower data')) [ none ↦ body | some out ↦ out ]
]

-- The headers of a request are a map from their names.
unfoldable pub redact_headers : (String → String) → Map (List String) → Map (List String)
redact_headers lower headers k = elim (headers k) [
  | none ↦ none
  | some v ↦
      let name = lower k in
      some (
        if name == "x-api-key" || name == "authorization" || name == "x-proxy-api-key"
        then "[REDACTED]" ∷ []
        else v)
]

unfoldable pub truncate_logged_body : (ℕ → List ℕ) → List ℕ → ℤ → List ℕ
truncate_logged_body mark body (negsuc n) = body
truncate_logged_body mark body (pos zero) = body
truncate_logged_body mark body (pos (suc n)) =
    if leb (length body) (suc n) then body else take (suc n) body ++ mark (length body)
