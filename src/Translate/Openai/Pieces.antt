-- ===== src/Translate/Openai/Pieces.antt =====
-- internal/translate/canonical_openai.go: what messages say, without the borders between texts.
use glitchgate.Prelude.{
  ℕ, Bool, true, false, List, [], ◌∷◌, ◌++◌, ◌==◌, ◌≡◌, refl, sym, ap, ◌∙◌, if◌then◌else◌, is_empty,
  arith, All,
}
use mathlib.Core.List.{append_assoc, append-nil}
use glitchgate.Translate.Values.{Text, string, join}
use glitchgate.Translate.Canonical.{
  CanonicalBlock, block_text, block_image, block_tool_use, block_tool_result, block_thinking,
  block_refusal, block_audio, block_document,
}
use glitchgate.Translate.Openai.{
  ContentPart, part_text, part_image, part_audio, part_file, Content, decoded, parts, ChatMessage,
}
use glitchgate.Translate.Openai.Messages.{part_bodies, address_of}

-- What is said, without the borders between texts: a letter, or one of the other contents.
pub data Piece : Type 0 where
  letter : ℕ → Piece
  image : (url : Text) → Piece
  sound : (audio format : Text) → Piece
  file : (file_data filename : Text) → Piece
  result : (id answer : Text) → Piece

abbrev pub letters : Text → List Piece
letters [] = []
letters (c ∷ s) = letter c ∷ letters s

abbrev pub unless_empty : Text → Piece → List Piece
unless_empty url p = if is_empty url then [] else p ∷ []

-- What a user's block says.
unfoldable pub spell_block : CanonicalBlock → List Piece
unfolding address_of
spell_block (block_text s) = letters s
spell_block (block_image f) =
    let url = address_of f.media_type f.image_data f.url in unless_empty url (image url)
spell_block (block_audio audio format) = sound audio format ∷ []
spell_block (block_document f) =
    let data' = address_of f.media_type f.doc_data f.url in
    unless_empty data' (file data' f.filename)
spell_block (block_tool_result id answer) = result id answer ∷ []
spell_block (block_tool_use id name input) = []
spell_block (block_thinking s) = []
spell_block (block_refusal s) = []

unfoldable pub spell_blocks : List CanonicalBlock → List Piece
unfolding spell_block
spell_blocks [] = []
spell_blocks (b ∷ bs) = spell_block b ++ spell_blocks bs

abbrev pub spell_part : ContentPart → List Piece
spell_part (part_text s) = letters s
spell_part (part_image url) = image url ∷ []
spell_part (part_audio audio format) = sound audio format ∷ []
spell_part (part_file file_data filename) = file file_data filename ∷ []

unfoldable pub spell_parts : List ContentPart → List Piece
spell_parts [] = []
spell_parts (p ∷ ps) = spell_part p ++ spell_parts ps

-- What a message says: a tool's answers to a call, and a user its text or its parts.
unfoldable pub spell_message : ChatMessage → List Piece
unfolding spell_parts
spell_message m = of m.content
  where
    of : Content → List Piece
    of (decoded (string s)) = if m.role == "tool" then result m.tool_call_id s ∷ [] else letters s
    of (decoded v) = []
    of (parts ps) = spell_parts ps

unfoldable pub spell_messages : List ChatMessage → List Piece
unfolding spell_message
spell_messages [] = []
spell_messages (m ∷ ms) = spell_message m ++ spell_messages ms

pub spell_messages-append :
    (ms ns : List ChatMessage) → spell_messages (ms ++ ns) ≡ spell_messages ms ++ spell_messages ns
unfolding spell_messages
spell_messages-append [] ns = refl
spell_messages-append (m ∷ ms) ns =
    ap (λ r. spell_message m ++ r) (spell_messages-append ms ns)
    ∙ sym (append_assoc (spell_message m) (spell_messages ms) (spell_messages ns))

pub spell_parts-append :
    (ps qs : List ContentPart) → spell_parts (ps ++ qs) ≡ spell_parts ps ++ spell_parts qs
unfolding spell_parts
spell_parts-append [] qs = refl
spell_parts-append (p ∷ ps) qs =
    ap (λ r. spell_part p ++ r) (spell_parts-append ps qs)
    ∙ sym (append_assoc (spell_part p) (spell_parts ps) (spell_parts qs))

letters-append : (s t : Text) → letters (s ++ t) ≡ letters s ++ letters t
letters-append [] t = refl
letters-append (c ∷ s) t = ap (λ r. letter c ∷ r) (letters-append s t)

abbrev pub is_text : ContentPart → Bool
is_text (part_text s) = true
is_text _ = false

-- The joined texts say what the parts say, if these are all texts.
pub letters-join :
    (ps : List ContentPart)
    → All (λ p. is_text p ≡ true) ps
    → letters (join [] (part_bodies ps)) ≡ spell_parts ps
unfolding join spell_parts
letters-join [] a = refl
letters-join (part_text s ∷ []) a = sym (append-nil (letters s))
letters-join (part_text s ∷ (q ∷ ps)) (a, rest) =
    letters-append s (join [] (part_bodies (q ∷ ps)))
    ∙ ap (λ r. letters s ++ r) (letters-join (q ∷ ps) rest)
letters-join (part_image url ∷ ps) (a, rest) = ground (arith, a)
letters-join (part_audio audio format ∷ ps) (a, rest) = ground (arith, a)
letters-join (part_file data' name ∷ ps) (a, rest) = ground (arith, a)
