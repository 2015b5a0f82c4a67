-- ===== src/Translate/Openai/Encoding.antt =====
-- internal/translate/canonical_openai.go, with the fields' names of internal/provider/openai/types.go:
-- the parts of a user's message, and what a reader of their encoding finds.
use glitchgate.Prelude.{
  Bool, true, false, ◌||◌, List, [], ◌∷◌, ◌++◌, map, All, ◌≡◌, ◌⊎◌, inl, inr, refl, sym, ap, ap₂,
  ◌∙◌, arith, is_empty, bytes, if◌then◌else◌, same_bytes, String,
}
use glitchgate.Translate.Values.{
  Text, string, array, object, Items, no_items, item, Fields, no_fields, field, starts_with, entry,
}
use glitchgate.Translate.Canonical.{
  CanonicalBlock, block_text, block_image, block_tool_use, block_tool_result, block_thinking,
  block_refusal, block_audio, block_document, ImageFields, DocumentFields,
}
use glitchgate.Translate.Openai.{
  ContentPart, part_text, part_image, part_audio, part_file, Content, decoded, parts, ChatMessage,
  build_data_uri, image_from, document_from, image_part, file_part, part_to_canonical,
  parts_to_canonical,
}
use glitchgate.Translate.Openai.Messages.{address_of}
use glitchgate.Translate.Openai.DataUris.{
  IsMediaType, image_from-build_data_uri, document_from-build_data_uri,
}

abbrev pub text_field : String → Text → Fields → Fields
text_field key s rest = field key (string s) rest

-- omitempty
abbrev pub unless_empty : String → Text → Fields → Fields
unless_empty key s rest = if is_empty s then rest else text_field key s rest

-- The encoding of a part, under the names that the tags of its fields give. A text comes back from
-- package json as it was, as one of valid UTF-8 does.
unfoldable pub encode_part : ContentPart → Fields
encode_part (part_text s) = text_field "type" (bytes "text") (unless_empty "text" s no_fields)
encode_part (part_image url) =
    text_field "type" (bytes "image_url")
      (field "image_url" (object (text_field "url" url no_fields)) no_fields)
encode_part (part_audio audio format) = text_field "type" (bytes "input_audio") (
    field "input_audio" (object (text_field "data" audio (text_field "format" format no_fields)))
      no_fields)
encode_part (part_file file_data filename) = text_field "type" (bytes "file") (
    field "file"
      (object (unless_empty "file_data" file_data (unless_empty "filename" filename no_fields)))
      no_fields)

unfoldable pub encode_parts : List ContentPart → Items
unfolding encode_part
encode_parts [] = no_items
encode_parts (p ∷ ps) = item (object (encode_part p)) (encode_parts ps)

-- A message whose content was encoded and decoded.
unfoldable pub arrived : ChatMessage → ChatMessage
unfolding encode_parts
arrived msg = record msg { content = of msg.content }
  where
    of : Content → Content
    of (decoded v) = decoded v
    of (parts ps) = decoded (array (encode_parts ps))

-- An image by its data or by an address, and a document by its data.
unfoldable pub IsShown : CanonicalBlock → Type 0
unfolding IsMediaType starts_with
IsShown (block_text s) = is_empty s ≡ false
IsShown (block_image f) =
    (IsMediaType f.media_type × (is_empty f.image_data ≡ false) × (f.url ≡ []))
    ⊎ ((f.media_type ≡ [])
        × (f.image_data ≡ [])
        × (is_empty f.url ≡ false)
        × (starts_with f.url (bytes "data:") ≡ false))
IsShown (block_document f) = IsMediaType f.media_type × (is_empty f.doc_data ≡ false) × (f.url ≡ [])
IsShown _ = ⊥

-- Whether a block asks for several parts.
abbrev pub is_multipart : CanonicalBlock → Bool
is_multipart (block_image f) = true
is_multipart (block_document f) = true
is_multipart _ = false

abbrev pub any_multipart : List CanonicalBlock → Bool
any_multipart [] = false
any_multipart (b ∷ bs) = is_multipart b || any_multipart bs

-- The part of a shown block.
abbrev pub part_of : CanonicalBlock → ContentPart
part_of (block_text s) = part_text s
part_of (block_image f) = part_image (address_of f.media_type f.image_data f.url)
part_of (block_document f) = part_file (address_of f.media_type f.doc_data f.url) f.filename
part_of _ = part_text []

is_empty-build_data_uri : (m d : Text) → is_empty (build_data_uri m d) ≡ false
unfolding build_data_uri
is_empty-build_data_uri m d = refl

address_of-data : (m d u : Text) → is_empty d ≡ false → address_of m d u ≡ build_data_uri m d
unfolding address_of
address_of-data m d u e = rw e refl

address_of-url : (m d u : Text) → d ≡ [] → address_of m d u ≡ u
unfolding address_of
address_of-url m d u e = rw e refl

image_from-url :
    (u : Text)
    → starts_with u (bytes "data:") ≡ false
    → image_from u ≡ record { media_type = []; image_data = []; url = u }
unfolding image_from
image_from-url u p = rw p refl

-- The address of a shown image is not empty, and the image is read from it.
pub image_shown :
    (f : ImageFields)
    → IsShown (block_image f)
    → (is_empty (address_of f.media_type f.image_data f.url) ≡ false)
      × (image_from (address_of f.media_type f.image_data f.url) ≡ f)
unfolding IsShown
image_shown f (inl (t, e, p)) =
    let a = address_of-data f.media_type f.image_data f.url e in
    (
      ap is_empty a ∙ is_empty-build_data_uri f.media_type f.image_data,
      ap image_from a
          ∙ image_from-build_data_uri f.media_type f.image_data t
          ∙ ap (λ u. record { media_type = f.media_type; image_data = f.image_data; url = u })
              (sym p),
    )
image_shown f (inr (t, d, e, p)) =
    let a = address_of-url f.media_type f.image_data f.url d in
    (
      ap is_empty a ∙ e,
      ap image_from a
          ∙ image_from-url f.url p
          ∙ ap₂ (λ m d. record { media_type = m; image_data = d; url = f.url }) (sym t) (sym d),
    )

pub document_shown :
    (f : DocumentFields)
    → IsShown (block_document f)
    → (is_empty (address_of f.media_type f.doc_data f.url) ≡ false)
      × (document_from f.filename (address_of f.media_type f.doc_data f.url) ≡ f)
unfolding IsShown
document_shown f (t, e, p) =
    let a = address_of-data f.media_type f.doc_data f.url e in
    (
      ap is_empty a ∙ is_empty-build_data_uri f.media_type f.doc_data,
      ap (document_from f.filename) a
          ∙ document_from-build_data_uri f.filename f.media_type f.doc_data t
          ∙ ap
              (λ u. record {
                media_type = f.media_type;
                doc_data = f.doc_data;
                url = u;
                filename = f.filename;
              })
              (sym p),
    )

text_back :
    (s : Text)
    → is_empty s ≡ false
    → part_to_canonical (encode_part (part_text s)) ≡ block_text s ∷ []
unfolding part_to_canonical encode_part entry same_bytes
text_back [] e = ground (arith, e)
text_back (c ∷ s) e = refl

image_back :
    (u : Text) (f : ImageFields)
    → is_empty u ≡ false
    → image_from u ≡ f
    → part_to_canonical (encode_part (part_image u)) ≡ block_image f ∷ []
unfolding part_to_canonical encode_part entry same_bytes image_part
image_back [] f e q = ground (arith, e)
image_back (c ∷ u) f e q = ap (λ g. block_image g ∷ []) q

file_back :
    (d n : Text) (f : DocumentFields)
    → is_empty d ≡ false
    → document_from n d ≡ f
    → part_to_canonical (encode_part (part_file d n)) ≡ block_document f ∷ []
unfolding part_to_canonical encode_part entry same_bytes file_part
file_back [] n f e q = ground (arith, e)
file_back (c ∷ d) [] f e q = ap (λ g. block_document g ∷ []) q
file_back (c ∷ d) (k ∷ n) f e q = ap (λ g. block_document g ∷ []) q

-- A shown block is read back from its part.
block_shown :
    (b : CanonicalBlock) → IsShown b → part_to_canonical (encode_part (part_of b)) ≡ b ∷ []
unfolding IsShown
block_shown (block_text s) e = text_back s e
block_shown (block_image f) e =
    let (p, q) = image_shown f e in image_back (address_of f.media_type f.image_data f.url) f p q
block_shown (block_document f) e =
    let (p, q) = document_shown f e in
    file_back (address_of f.media_type f.doc_data f.url) f.filename f p q
block_shown (block_tool_use i n v) e = elim e [ ]
block_shown (block_tool_result i r) e = elim e [ ]
block_shown (block_thinking s) e = elim e [ ]
block_shown (block_refusal s) e = elim e [ ]
block_shown (block_audio a f) e = elim e [ ]

pub blocks_shown :
    (bs : List CanonicalBlock)
    → All IsShown bs
    → parts_to_canonical (encode_parts (map part_of bs)) ≡ bs
unfolding parts_to_canonical encode_parts
blocks_shown [] a = refl
blocks_shown (b ∷ bs) (e, a) = ap₂ (λ xs ys. xs ++ ys) (block_shown b e) (blocks_shown bs a)
