-- ===== src/Translate/Values.antt =====
-- internal/translate/helpers.go: the texts that a value of type any holds. A text is the list of its
-- bytes. Package json is a parameter.
use glitchgate.Prelude.{
  ℕ, String, Bool, true, false, Option, none, some, List, [], ◌∷◌, ◌++◌, ◌==◌, if◌then◌else◌, bytes,
  same_bytes, cut, is_empty, between, ◌≡◌, refl, arith,
}

abbrev pub Text : Type 0
Text = List ℕ

-- A value of type any, as package json decodes it; a number is kept as its text. A map of strings
-- is the object of its entries, and a slice of strings the array of its elements.
mutual
  pub data Any : Type 0 where
    null : Any
    boolean : Bool → Any
    number : String → Any
    string : Text → Any
    array : Items → Any
    object : Fields → Any

  pub data Items : Type 0 where
    no_items : Items
    item : Any → Items → Items

  pub data Fields : Type 0 where
    no_fields : Fields
    field : String → Any → Fields → Fields

-- Why a translation fails; the texts of the errors are left out.
pub data Error : Type 0 where
  nil_request bad_content bad_part bad_stop bad_role bad_tool_choice no_audio : Error

pub data Result {ℓ} (A : Type ℓ) : Type ℓ where
  done : A → Result A
  failed : Error → Result A

module _ {ℓ κ} {A : Type ℓ} {B : Type κ} where
  infixl 1 ◌>>=◌
  abbrev pub ◌>>=◌ : Result A → (A → Result B) → Result B
  done a >>= f = f a
  failed e >>= f = failed e

module _ {ℓ κ} {A : Type ℓ} {B : Type κ} where
  -- A chain that ends without an error passed each step without one.
  pub done-bind :
      (r : Result A) (f : A → Result B) (b : B)
      → (r >>= f) ≡ done b
      → (a : A) × (r ≡ done a) × (f a ≡ done b)
  done-bind (done a) f b e = (a, refl, e)
  done-bind (failed x) f b e = ground (arith, e)

pub done-injective {ℓ} : {A : Type ℓ} (a b : A) → done a ≡ done b → a ≡ b
done-injective a b e = ground (arith, e)

module _ {ℓ₁ ℓ₂ ℓ₃ κ} {A : Type ℓ₁} {B : Type ℓ₂} {C : Type ℓ₃} {D : Type κ} where
  -- The same of three steps whose results are put together.
  pub done-steps :
      (r : Result A) (s : Result B) (t : Result C) (f : A → B → C → D) (d : D)
      → (r >>= λ a. s >>= λ b. t >>= λ c. done (f a b c)) ≡ done d
      → (a : A) × (b : B) × (c : C) × (r ≡ done a) × (s ≡ done b) × (t ≡ done c) × (f a b c ≡ d)
  done-steps (done a) (done b) (done c) f d e = (a, b, c, refl, refl, refl, ground (arith, e))
  done-steps (done a) (done b) (failed x) f d e = ground (arith, e)
  done-steps (done a) (failed x) t f d e = ground (arith, e)
  done-steps (failed x) s t f d e = ground (arith, e)

-- The loops that stop at the first error.
unfoldable pub each {ℓ κ} : {A : Type ℓ} {B : Type κ} → (A → Result B) → List A → Result (List B)
each f [] = done []
each f (x ∷ xs) = do y ← f x; ys ← each f xs; done (y ∷ ys)

-- v.(string) and v.(map[string]any)
abbrev pub as_string : Any → Option Text
as_string (string s) = some s
as_string _ = none

abbrev pub as_object : Any → Option Fields
as_object (object fs) = some fs
as_object _ = none

-- m[key], nil where the key is missing.
unfoldable pub entry : String → Fields → Any
entry key no_fields = null
entry key (field k v rest) = let found = entry key rest in if k == key then v else found

-- s, _ := v.(string)
abbrev pub or_blank : Option Text → Text
or_blank none = []
or_blank (some s) = s

-- strings.Join
unfoldable pub join : Text → List Text → Text
join sep [] = []
join sep (s ∷ []) = s
join sep (s ∷ (t ∷ ss)) = s ++ (sep ++ join sep (t ∷ ss))

-- strings.HasPrefix
unfoldable pub starts_with : Text → Text → Bool
unfolding cut
starts_with s prefix = elim (cut prefix s) [ none ↦ false | some rest ↦ true ]

-- The text of a part that is an object of type "text".
unfoldable pub text_part : Fields → Option Text
unfolding entry same_bytes
text_part m = elim (as_string (entry "type" m)) [
  | none ↦ none
  | some t ↦ if same_bytes t (bytes "text") then as_string (entry "text" m) else none
]

abbrev pub prepend : Option Text → List Text → List Text
prepend none rest = rest
prepend (some s) rest = s ∷ rest

-- The texts of the parts that are objects, in their order; whatever else is there is skipped.
unfoldable pub text_parts : Items → List Text
unfolding text_part
text_parts no_items = []
text_parts (item (object m) rest) = prepend (text_part m) (text_parts rest)
text_parts (item _ rest) = text_parts rest

-- The loop of extractTextContent, which every part that is no object stops.
unfoldable pub content_parts : Items → Result (List Text)
unfolding text_part
content_parts no_items = done []
content_parts (item (object m) rest) =
    content_parts rest >>= λ parts. done (prepend (text_part m) parts)
content_parts (item _ rest) = failed bad_part

unfoldable pub extract_text_content : Any → Result Text
unfolding content_parts join
extract_text_content (string s) = done s
extract_text_content (array items) = content_parts items >>= λ parts. done (join [] parts)
extract_text_content null = done []
extract_text_content _ = failed bad_content

-- Anthropic's own lines are dropped from a system text.
abbrev pub without_internal : List Text → List Text
without_internal [] = []
without_internal (s ∷ rest) =
    let kept = without_internal rest in
    if starts_with s (bytes "x-anthropic-") then kept else s ∷ kept

unfoldable pub extract_anthropic_system : Any → Text
unfolding text_parts join starts_with
extract_anthropic_system (string s) = s
extract_anthropic_system (array items) = join (bytes "\n") (without_internal (text_parts items))
extract_anthropic_system _ = []

-- Package json on values of type any: Marshal, Unmarshal, and what a value of another shape gives
-- when it is written and read again as a string or as strings.
pub record Json : Type 0 where
  pub marshal : Any → Option Text
  pub unmarshal : Text → Option Any
  pub string_again : Any → Option Text
  pub strings_again : Any → Option (List Text)

unfoldable pub marshal_tool_input : Json → Any → Text
marshal_tool_input json null = bytes "{}"
marshal_tool_input json input = elim (json.marshal input) [ none ↦ bytes "{}" | some data' ↦ data' ]

unfoldable pub unmarshal_tool_args : Json → Text → Any
unmarshal_tool_args json args =
    if is_empty args
    then object no_fields
    else elim (json.unmarshal args) [ none ↦ object no_fields | some v ↦ v ]

-- A schema as it was sent; the canonical form of the Responses API takes it so.
unfoldable pub unmarshal_schema : Json → Text → Any
unmarshal_schema json raw =
    if is_empty raw
    then object no_fields
    else elim (json.unmarshal raw) [ none ↦ object no_fields | some v ↦ v ]

-- The text of a string in JSON, without its quotes; none where the slice would be out of range.
unfoldable pub escape_json : Json → Text → Option Text
unfolding between
escape_json json s = elim (json.marshal (string s)) [ none ↦ some s | some b ↦ between 1 1 b ]

-- The strings of an array, if all its items are strings.
unfoldable pub strings : Items → Option (List Text)
strings no_items = some []
strings (item (string s) rest) = elim (strings rest) [ none ↦ none | some ss ↦ some (s ∷ ss) ]
strings (item _ rest) = none

unfoldable pub parse_stop_sequences : Json → Any → Result (List Text)
unfolding strings
parse_stop_sequences json (string s) = done (if is_empty s then [] else s ∷ [])
parse_stop_sequences json (array items) = elim (strings items) [
  | none ↦ failed bad_stop
  | some ss ↦ done ss
]
parse_stop_sequences json stop = elim (json.string_again stop) [
  | some s ↦ done (s ∷ [])
  | none ↦ elim (json.strings_again stop) [ none ↦ failed bad_stop | some ss ↦ done ss ]
]

-- The header of a data URI, up to the first comma, and what follows it.
unfoldable pub at_comma : Text → Option (Text × Text)
at_comma [] = none
at_comma (c ∷ s) =
    let rest = at_comma s in
    if same_bytes (c ∷ []) (bytes ",")
    then some ([], s)
    else elim rest [ none ↦ none | some p ↦ some (c ∷ p.0, p.1) ]
