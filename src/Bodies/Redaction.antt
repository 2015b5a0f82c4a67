-- ===== src/Bodies/Redaction.antt =====
-- internal/proxy/redact.go: which fields of a logged body are replaced, said by the paths of keys
-- that lead to them.
use glitchgate.Prelude.{
  String, false, Option, none, some, List, [], ◌∷◌, ◌==◌, eq_iff, eq_refl, ◌≡◌, refl, inl, inr,
  Bool-cases, if◌then◌else◌, All, subst, sym, ◌∙◌,
}
use glitchgate.Bodies.{
  Json, Items, null, boolean, number, text, array, object, Fields, no_fields, field, redacted,
  is_sensitive, redact_map, redact_value,
}

-- The value of a key, and the value at the end of a path of keys through nested objects.
unfoldable pub value_of : String → Fields → Option Json
value_of k no_fields = none
value_of k (field j v rest) = let later = value_of k rest in if j == k then some v else later

abbrev pub fields_of : Option Json → Option Fields
fields_of (some (object fs)) = some fs
fields_of _ = none

unfoldable pub value_at : List String → String → Fields → Option Json
unfolding value_of
value_at [] k fs = value_of k fs
value_at (j ∷ js) k fs = elim (fields_of (value_of j fs)) [
  | none ↦ none
  | some nested ↦ value_at js k nested
]

abbrev pub map_option : (Json → Json) → Option Json → Option Json
map_option f none = none
map_option f (some v) = some (f v)

module _ (lower : String → String) where
  value_of-redact_map :
      (k : String) (fs : Fields)
      → value_of k (redact_map lower fs)
        ≡ map_option
            (λ v. if is_sensitive lower k then redacted else redact_value lower v)
            (value_of k fs)
  unfolding value_of redact_map
  value_of-redact_map k no_fields = refl
  value_of-redact_map k (field j v rest) = elim (Bool-cases (j == k)) [
    | inl e ↦
        subst
          (λ n.
            value_of n (redact_map lower (field j v rest))
            ≡ map_option (λ v. if is_sensitive lower n then redacted else redact_value lower v)
                (value_of n (field j v rest)))
          ((eq_iff j k).0 e) (rw eq_refl)
    | inr e ↦ rw e (value_of-redact_map k rest)
  ]

  -- Entering a field with a key that is not sensitive.
  entered :
      (js : List String) (k : String) (o : Option Json)
      → ((fs : Fields)
          → value_at js k (redact_map lower fs)
            ≡ map_option
                (λ v. if is_sensitive lower k then redacted else redact_value lower v)
                (value_at js k fs))
      → (elim (fields_of (map_option (redact_value lower) o)) [
        | none ↦ none
        | some nested ↦ value_at js k nested
      ])
        ≡ map_option
            (λ v. if is_sensitive lower k then redacted else redact_value lower v)
            (elim (fields_of o) [ none ↦ none | some nested ↦ value_at js k nested ])
  unfolding redact_value
  entered js k none ih = refl
  entered js k (some null) ih = refl
  entered js k (some (boolean b)) ih = refl
  entered js k (some (number n)) ih = refl
  entered js k (some (text s)) ih = refl
  entered js k (some (array xs)) ih = refl
  entered js k (some (object fs)) ih = ih fs

  -- A field with a sensitive key is replaced at the end of every path of keys that are not
  -- sensitive themselves, and every other field there keeps its value, but for what is replaced inside it.
  redaction_lem :
      (path : List String) (k : String) (fs : Fields)
      → All (λ j. is_sensitive lower j ≡ false) path
      → value_at path k (redact_map lower fs)
        ≡ map_option
            (λ v. if is_sensitive lower k then redacted else redact_value lower v)
            (value_at path k fs)
  unfolding value_at redact_value
  redaction_lem [] k fs p = value_of-redact_map k fs
  redaction_lem (j ∷ js) k fs (p, ps) =
      let plain : value_of j (redact_map lower fs)
          ≡ map_option (redact_value lower) (value_of j fs) =
        rw p at (value_of-redact_map j fs) in
      subst
        (λ o.
          (elim (fields_of o) [ none ↦ none | some nested ↦ value_at js k nested ])
          ≡ map_option (λ v. if is_sensitive lower k then redacted else redact_value lower v)
              (value_at (j ∷ js) k fs))
        (sym plain) (entered js k (value_of j fs) (λ nested. redaction_lem js k nested ps))

  -- An array that is reached by keys that are not sensitive is logged as it came, whatever keys the
  -- objects in it have.
  arrays_kept :
      (path : List String) (k : String) (fs : Fields) (xs : Items)
      → All (λ j. is_sensitive lower j ≡ false) path
      → is_sensitive lower k ≡ false
      → value_at path k fs ≡ some (array xs)
      → value_at path k (redact_map lower fs) ≡ some (array xs)
  unfolding redact_value
  arrays_kept path k fs xs p q e = redaction_lem path k fs p ∙ rw (e, q) refl
