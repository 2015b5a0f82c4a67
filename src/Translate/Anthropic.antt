-- ===== src/Translate/Anthropic.antt =====
-- internal/translate/canonical_anthropic.go, with the types of internal/provider/anthropic/types.go:
-- Anthropic's messages to and from the canonical form. What package json reads again from a content
-- of another shape than a text is a parameter.
pub mod Carrying
pub mod Writing
pub mod Keeping
pub mod Requests
pub mod Responses
use glitchgate.Prelude.{
  String, Bool, not, Option, none, some, List, [], ◌∷◌, ◌++◌, ◌==◌, if◌then◌else◌, same_bytes,
  bytes, is_empty,
}
use glitchgate.Translate.Values.{
  Text, Any, null, string, array, object, no_fields, field, Result, done, failed, ◌>>=◌,
  bad_content, bad_tool_choice, as_string, or_blank, entry, join, text_parts,
}
use glitchgate.Translate.Canonical.{
  CanonicalBlock, block_text, block_image, block_tool_use, block_tool_result, block_thinking,
  block_refusal, block_audio, block_document, ImageFields, DocumentFields, no_image, no_document,
  CanonicalMessage, CanonicalToolChoice, choice_auto, choice_required, choice_none, choice_specific,
}
use glitchgate.Translate.ToolIds.{sanitize_anthropic_tool_id}

pub record ImageSource : Type 0 where
  pub type : String
  pub media_type : Text
  pub base64 : Text
  pub url : Text

-- The cache control, which no translation reads, is left out.
pub record ContentBlock : Type 0 where
  pub type : String
  pub body : Text
  pub thinking : Text
  pub id : Text
  pub name : Text
  pub input : Any
  pub source : Option ImageSource
  pub tool_use_id : Text
  pub content : Any

-- anthropic.ContentBlock{Type: type}
abbrev pub content_block : String → ContentBlock
content_block type = record {
  type = type;
  body = [];
  thinking = [];
  id = [];
  name = [];
  input = null;
  source = none;
  tool_use_id = [];
  content = null;
}

-- What a message's content holds: a value that was decoded, or blocks that a translation made.
pub data Content : Type 0 where
  decoded : Any → Content
  blocks : List ContentBlock → Content

pub record Message : Type 0 where
  pub role : String
  pub content : Content

unfoldable pub extract_tool_result_text : ContentBlock → Text
extract_tool_result_text b = of b.content
  where
    of : Any → Text
    of (string s) = s
    of (array items) = join [] (text_parts items)
    of _ = b.body

abbrev pub image_of : Option ImageSource → ImageFields
image_of none = no_image
image_of (some s) =
    if s.type == "base64"
    then record no_image { media_type = s.media_type; image_data = s.base64 }
    else record no_image { url = s.url }

abbrev pub document_of : Option ImageSource → DocumentFields
document_of none = no_document
document_of (some s) =
    if s.type == "base64"
    then record no_document { media_type = s.media_type; doc_data = s.base64 }
    else record no_document { url = s.url }

-- The switch of anthropicMessageToCanonical: a block of another type is dropped.
unfoldable pub block_to_canonical : ContentBlock → List CanonicalBlock
unfolding extract_tool_result_text
block_to_canonical b =
    if b.type == "text"
    then block_text b.body ∷ []
    else if b.type == "image"
    then block_image (image_of b.source) ∷ []
    else if b.type == "document"
    then block_document (document_of b.source) ∷ []
    else if b.type == "tool_use"
    then block_tool_use b.id b.name b.input ∷ []
    else if b.type == "tool_result"
    then block_tool_result b.tool_use_id (extract_tool_result_text b) ∷ []
    else if b.type == "thinking"
    then block_thinking b.thinking ∷ []
    else []

unfoldable pub blocks_to_canonical : List ContentBlock → List CanonicalBlock
unfolding block_to_canonical
blocks_to_canonical [] = []
blocks_to_canonical (b ∷ bs) = block_to_canonical b ++ blocks_to_canonical bs

-- parseContentBlocks, over what package json reads.
unfoldable pub parse_content_blocks :
    (Content → Option (List ContentBlock)) → Content → Result (List ContentBlock)
parse_content_blocks reread content = elim (reread content) [
  | none ↦ failed bad_content
  | some bs ↦ done bs
]

unfoldable pub anthropic_message_to_canonical :
    (Content → Option (List ContentBlock)) → Message → Result CanonicalMessage
unfolding parse_content_blocks blocks_to_canonical
anthropic_message_to_canonical reread msg = of msg.content
  where
    parsed : Content → Result CanonicalMessage
    parsed content = parse_content_blocks reread content >>= λ bs.
        done (record { role = msg.role; blocks = blocks_to_canonical bs })

    of : Content → Result CanonicalMessage
    of (decoded (string s)) = done (record { role = msg.role; blocks = block_text s ∷ [] })
    of (decoded v) = parsed (decoded v)
    of (blocks bs) = parsed (blocks bs)

-- The source of an image or of a document: its data if there are any, else its address.
unfoldable pub source_of : Text → Text → Text → Option ImageSource
source_of media_type base64 url =
    if not (is_empty base64)
    then some (record { type = "base64"; media_type = media_type; base64 = base64; url = [] })
    else if not (is_empty url)
    then some (record { type = "url"; media_type = []; base64 = []; url = url })
    else none

-- The switch of canonicalMessageToAnthropic: a refusal or a sound is dropped.
unfoldable pub block_to_anthropic : CanonicalBlock → List ContentBlock
unfolding source_of sanitize_anthropic_tool_id
block_to_anthropic (block_text s) = record (content_block "text") { body = s } ∷ []
block_to_anthropic (block_image f) =
    record (content_block "image") { source = source_of f.media_type f.image_data f.url } ∷ []
block_to_anthropic (block_document f) =
    record (content_block "document") { source = source_of f.media_type f.doc_data f.url } ∷ []
block_to_anthropic (block_tool_use id name input) =
    record (content_block "tool_use") {
      id = sanitize_anthropic_tool_id id;
      name = name;
      input = input;
    }
    ∷ []
block_to_anthropic (block_tool_result id result) =
    record (content_block "tool_result") {
      tool_use_id = sanitize_anthropic_tool_id id;
      content = string result;
    }
    ∷ []
block_to_anthropic (block_thinking s) = record (content_block "thinking") { thinking = s } ∷ []
block_to_anthropic (block_refusal s) = []
block_to_anthropic (block_audio audio format) = []

unfoldable pub blocks_to_anthropic : List CanonicalBlock → List ContentBlock
unfolding block_to_anthropic
blocks_to_anthropic [] = []
blocks_to_anthropic (b ∷ bs) = block_to_anthropic b ++ blocks_to_anthropic bs

-- A single text becomes the content itself.
unfoldable pub canonical_content : List CanonicalBlock → Content
unfolding blocks_to_anthropic
canonical_content (block_text s ∷ []) = decoded (string s)
canonical_content bs = blocks (blocks_to_anthropic bs)

unfoldable pub canonical_message_to_anthropic : CanonicalMessage → Message
unfolding canonical_content
canonical_message_to_anthropic msg = record {
  role = msg.role;
  content = canonical_content msg.blocks;
}
