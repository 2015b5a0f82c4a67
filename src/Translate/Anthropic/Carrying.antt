-- ===== src/Translate/Anthropic/Carrying.antt =====
-- internal/translate/canonical_anthropic.go: the messages that Anthropic's form can carry.
use glitchgate.Prelude.{
  String, false, Option, some, List, [], ◌∷◌, ◌++◌, All, ◌≡◌, refl, ap, ap₂, sym, ◌∙◌, ◌⊎◌, inl,
  inr, is_empty, arith,
}
use mathlib.Core.List.{append_assoc}
use glitchgate.Translate.Values.{Text, done, ◌>>=◌}
use glitchgate.Translate.Canonical.{
  CanonicalBlock, block_text, block_image, block_tool_use, block_tool_result, block_thinking,
  block_refusal, block_audio, block_document, CanonicalMessage,
}
use glitchgate.Translate.ToolIds.{IsToolId, sanitize_anthropic_tool_id_kept}
use glitchgate.Translate.Anthropic.{
  ContentBlock, Content, blocks, source_of, image_of, document_of, extract_tool_result_text,
  block_to_canonical, blocks_to_canonical, block_to_anthropic, blocks_to_anthropic,
  parse_content_blocks, canonical_content, anthropic_message_to_canonical,
  canonical_message_to_anthropic,
}

-- Either data and no address, or an address at most.
unfoldable pub IsSource : (media_type base64 url : Text) → Type 0
IsSource media_type base64 url =
    ((is_empty base64 ≡ false) × (url ≡ [])) ⊎ ((base64 ≡ []) × (media_type ≡ []))

-- What Anthropic's form has a place for: no refusal, no sound, no file name, and its own identifiers.
unfoldable pub IsCarried : CanonicalBlock → Type 0
unfolding IsSource IsToolId
IsCarried (block_text s) = Unit
IsCarried (block_image f) = IsSource f.media_type f.image_data f.url
IsCarried (block_document f) = IsSource f.media_type f.doc_data f.url × (f.filename ≡ [])
IsCarried (block_tool_use id name input) = IsToolId id
IsCarried (block_tool_result id result) = IsToolId id
IsCarried (block_thinking s) = Unit
IsCarried (block_refusal s) = ⊥
IsCarried (block_audio audio format) = ⊥

image_of-source_of :
    (m d u : Text)
    → IsSource m d u
    → image_of (source_of m d u) ≡ record { media_type = m; image_data = d; url = u }
unfolding source_of IsSource
image_of-source_of m [] u (inl (e, p)) = ground (arith, e)
image_of-source_of m (c ∷ d) u (inl (e, p)) = rw p refl
image_of-source_of m d [] (inr (p, q)) = rw (p, q) refl
image_of-source_of m d (c ∷ u) (inr (p, q)) = rw (p, q) refl

document_of-source_of :
    (m d u n : Text)
    → IsSource m d u
    → n ≡ []
    → document_of (source_of m d u) ≡ record { media_type = m; doc_data = d; url = u; filename = n }
unfolding source_of IsSource
document_of-source_of m [] u n (inl (e, p)) f = ground (arith, e)
document_of-source_of m (c ∷ d) u n (inl (e, p)) f = rw (p, f) refl
document_of-source_of m d [] n (inr (p, q)) f = rw (p, q, f) refl
document_of-source_of m d (c ∷ u) n (inr (p, q)) f = rw (p, q, f) refl

block-carried :
    (b : CanonicalBlock) → IsCarried b → blocks_to_canonical (block_to_anthropic b) ≡ b ∷ []
unfolding IsCarried blocks_to_canonical block_to_canonical block_to_anthropic
    extract_tool_result_text
block-carried (block_text s) c = refl
block-carried (block_image f) c =
    ap (λ g. block_image g ∷ []) (image_of-source_of f.media_type f.image_data f.url c)
block-carried (block_document f) (c, e) =
    ap (λ g. block_document g ∷ [])
      (document_of-source_of f.media_type f.doc_data f.url f.filename c e)
block-carried (block_tool_use id name input) c =
    ap (λ i. block_tool_use i name input ∷ []) (sanitize_anthropic_tool_id_kept id c)
block-carried (block_tool_result id result) c =
    ap (λ i. block_tool_result i result ∷ []) (sanitize_anthropic_tool_id_kept id c)
block-carried (block_thinking s) c = refl
block-carried (block_refusal s) c = elim c [ ]
block-carried (block_audio audio format) c = elim c [ ]

-- Blocks go over one by one.
blocks_to_canonical-append :
    (xs bs : List ContentBlock)
    → blocks_to_canonical (xs ++ bs) ≡ blocks_to_canonical xs ++ blocks_to_canonical bs
unfolding blocks_to_canonical
blocks_to_canonical-append [] bs = refl
blocks_to_canonical-append (a ∷ xs) bs =
    ap (λ r. block_to_canonical a ++ r) (blocks_to_canonical-append xs bs)
    ∙ sym (append_assoc (block_to_canonical a) (blocks_to_canonical xs) (blocks_to_canonical bs))

blocks-carried :
    (bs : List CanonicalBlock)
    → All IsCarried bs
    → blocks_to_canonical (blocks_to_anthropic bs) ≡ bs
unfolding blocks_to_anthropic blocks_to_canonical
blocks-carried [] c = refl
blocks-carried (b ∷ bs) (c, cs) =
    blocks_to_canonical-append (block_to_anthropic b) (blocks_to_anthropic bs)
    ∙ ap₂ (λ xs ys. xs ++ ys) (block-carried b c) (blocks-carried bs cs)

-- Package json reads back the blocks that are written for a message.
unfoldable pub IsReread : (Content → Option (List ContentBlock)) → List CanonicalBlock → Type 0
unfolding blocks_to_anthropic
IsReread reread bs = reread (blocks (blocks_to_anthropic bs)) ≡ some (blocks_to_anthropic bs)

parse_content_blocks_lem :
    (reread : Content → Option (List ContentBlock)) (xs : List ContentBlock)
    → reread (blocks xs) ≡ some xs
    → parse_content_blocks reread (blocks xs) ≡ done xs
unfolding parse_content_blocks
parse_content_blocks_lem reread xs e = rw (parse_content_blocks, e) refl

reread-carried :
    (reread : Content → Option (List ContentBlock)) (role : String) (bs : List CanonicalBlock)
    → IsReread reread bs
    → All IsCarried bs
    → anthropic_message_to_canonical reread
        (record { role = role; content = blocks (blocks_to_anthropic bs) })
      ≡ done (record { role = role; blocks = bs })
unfolding anthropic_message_to_canonical IsReread
reread-carried reread role bs e c =
    ap (λ r. r >>= λ xs. done (record { role = role; blocks = blocks_to_canonical xs }))
      (parse_content_blocks_lem reread (blocks_to_anthropic bs) e)
    ∙ ap (λ xs. done (record { role = role; blocks = xs })) (blocks-carried bs c)

content-carried :
    (reread : Content → Option (List ContentBlock)) (role : String) (bs : List CanonicalBlock)
    → IsReread reread bs
    → All IsCarried bs
    → anthropic_message_to_canonical reread (record { role = role; content = canonical_content bs })
      ≡ done (record { role = role; blocks = bs })
unfolding canonical_content anthropic_message_to_canonical
content-carried reread role (block_text s ∷ []) e c = refl
content-carried reread role [] e c = reread-carried reread role [] e c
content-carried reread role (block_text s ∷ (b ∷ bs)) e c =
    reread-carried reread role (block_text s ∷ (b ∷ bs)) e c
content-carried reread role (block_image f ∷ bs) e c =
    reread-carried reread role (block_image f ∷ bs) e c
content-carried reread role (block_document f ∷ bs) e c =
    reread-carried reread role (block_document f ∷ bs) e c
content-carried reread role (block_tool_use i n v ∷ bs) e c =
    reread-carried reread role (block_tool_use i n v ∷ bs) e c
content-carried reread role (block_tool_result i r ∷ bs) e c =
    reread-carried reread role (block_tool_result i r ∷ bs) e c
content-carried reread role (block_thinking s ∷ bs) e c =
    reread-carried reread role (block_thinking s ∷ bs) e c
content-carried reread role (block_refusal s ∷ bs) e c =
    reread-carried reread role (block_refusal s ∷ bs) e c
content-carried reread role (block_audio a f ∷ bs) e c =
    reread-carried reread role (block_audio a f ∷ bs) e c

-- A message whose blocks Anthropic's form has a place for (a text, an image or a document by its
-- data or by its address, a tool's call and result under identifiers that Anthropic accepts, a
-- thought) comes back from that form as it was, where package json reads the blocks back that were
-- written.
pub canonical-anthropic_message :
    (reread : Content → Option (List ContentBlock)) (m : CanonicalMessage)
    → IsReread reread m.blocks
    → All IsCarried m.blocks
    → anthropic_message_to_canonical reread (canonical_message_to_anthropic m) ≡ done m
unfolding canonical_message_to_anthropic
canonical-anthropic_message reread m e c = content-carried reread m.role m.blocks e c
