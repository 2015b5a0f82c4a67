-- ===== src/Translate/Openai/DataUris.antt =====
-- internal/translate/canonical_responses.go: what splitDataURI reads of a URI that buildDataURI
-- writes.
use glitchgate.Prelude.{
  ◌-◌, true, false, some, [], ◌∷◌, ◌++◌, All, ◌≡◌, refl, sym, ap, ◌∙◌, arith, is_empty, same_bytes,
  bytes, length, take, length-append, take-append, has_suffix-append, cut, ltb,
}
use mathlib.Core.List.{append_assoc}
use glitchgate.Translate.Values.{Text, at_comma, starts_with}
use glitchgate.Translate.Openai.{
  media_type_of, split_header, split_data_uri, build_data_uri, image_from, document_from,
}

-- A text without a comma.
unfoldable pub IsPlain : Text → Type 0
IsPlain s = All (λ c. same_bytes (c ∷ []) (bytes ",") ≡ false) s

-- The type of some data: not empty, and without a comma.
unfoldable pub IsMediaType : Text → Type 0
unfolding IsPlain
IsMediaType s = (is_empty s ≡ false) × IsPlain s

IsPlain-append : (s t : Text) → IsPlain s → IsPlain t → IsPlain (s ++ t)
unfolding IsPlain
IsPlain-append [] t p q = q
IsPlain-append (c ∷ s) t (e, p) q = (e, IsPlain-append s t p q)

at_comma-append : (s t : Text) → IsPlain s → at_comma (s ++ (bytes "," ++ t)) ≡ some (s, t)
unfolding at_comma IsPlain same_bytes
at_comma-append [] t p = refl
at_comma-append (c ∷ s) t (e, p) = rw (at_comma-append s t p, e) refl

abbrev base64 : Text
base64 = bytes ";base64"

base64-IsPlain : IsPlain base64
unfolding IsPlain same_bytes
base64-IsPlain = (refl, (refl, (refl, (refl, (refl, (refl, (refl, tt)))))))

header_kept : (m : Text) → IsMediaType m → ltb 7 (length (m ++ base64)) ≡ true
unfolding IsMediaType
header_kept [] (e, p) = ground (arith, e)
header_kept (c ∷ m) (e, p) = ground (arith, length-append m base64)

header_cut : (m : Text) → take (length (m ++ base64) - 7) (m ++ base64) ≡ m
header_cut m =
    let n : length (m ++ base64) - 7 ≡ length m = omega (arith, length-append m base64) in
    rw n (take-append m base64)

media_type_of-append : (m : Text) → IsMediaType m → media_type_of (m ++ base64) ≡ m
unfolding media_type_of
media_type_of-append m p = rw (header_kept m p, has_suffix-append m base64) (header_cut m)

split_header_found :
    (s h d : Text) → at_comma s ≡ some (h, d) → split_header s ≡ some (media_type_of h, d)
unfolding split_header
split_header_found s h d a = rw (split_header, a) refl

split_header-append :
    (m d : Text) → IsMediaType m → split_header (m ++ (base64 ++ (bytes "," ++ d))) ≡ some (m, d)
unfolding IsMediaType
split_header-append m d (e, p) =
    let plain : IsPlain (m ++ base64) = IsPlain-append m base64 p base64-IsPlain in
    let found : at_comma (m ++ (base64 ++ (bytes "," ++ d))) ≡ some (m ++ base64, d) =
      ap at_comma (sym (append_assoc m base64 (bytes "," ++ d)))
      ∙ at_comma-append (m ++ base64) d plain in
    split_header_found (m ++ (base64 ++ (bytes "," ++ d))) (m ++ base64) d found
    ∙ ap (λ t. some (t, d)) (media_type_of-append m (e, p))

-- A data URI that is written is read back, if the type of its data is not empty and has no comma.
pub split-build_data_uri :
    (m d : Text) → IsMediaType m → split_data_uri (build_data_uri m d) ≡ some (m, d)
unfolding split_data_uri build_data_uri
split-build_data_uri m d p = split_header-append m d p

starts_with-build_data_uri : (m d : Text) → starts_with (build_data_uri m d) (bytes "data:") ≡ true
unfolding starts_with build_data_uri cut
starts_with-build_data_uri m d = refl

pub image_from-build_data_uri :
    (m d : Text)
    → IsMediaType m
    → image_from (build_data_uri m d) ≡ record { media_type = m; image_data = d; url = [] }
unfolding image_from
image_from-build_data_uri m d p =
    rw (starts_with-build_data_uri m d, split-build_data_uri m d p) refl

pub document_from-build_data_uri :
    (n m d : Text)
    → IsMediaType m
    → document_from n (build_data_uri m d)
      ≡ record { media_type = m; doc_data = d; url = []; filename = n }
unfolding document_from
document_from-build_data_uri n m d p =
    rw (starts_with-build_data_uri m d, split-build_data_uri m d p) refl
