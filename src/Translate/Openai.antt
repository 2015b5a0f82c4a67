-- ===== src/Translate/Openai.antt =====
-- internal/translate/canonical_openai.go, with the types of internal/provider/openai/types.go and the
-- data URIs of canonical_responses.go: OpenAI's chat messages to and from the canonical form.
pub mod Messages
pub mod Order
pub mod Pieces
pub mod Encoding
pub mod Silence
pub mod Replies
pub mod Arrival
pub mod DataUris
pub mod Reading
pub mod Requests
pub mod Responses
use glitchgate.Prelude.{
  ℕ, zero, suc, ◌+◌, ◌-◌, String, Bool, true, false, not, ◌&&◌, ◌||◌, Option, none, some, List, [],
  ◌∷◌, ◌++◌, ◌==◌, if◌then◌else◌, same_bytes, bytes, is_empty, map, has_suffix, ltb, length, take,
}
use glitchgate.Translate.Values.{
  Text, Any, null, boolean, number, string, array, object, Items, no_items, item, Fields, no_fields,
  field, Result, done, failed, ◌>>=◌, bad_content, bad_tool_choice, as_string, as_object, or_blank,
  entry, join, starts_with, extract_text_content, Json, marshal_tool_input, unmarshal_tool_args,
  at_comma,
}
use glitchgate.Translate.Canonical.{
  CanonicalBlock, block_text, block_image, block_tool_use, block_tool_result, block_thinking,
  block_refusal, block_audio, block_document, ImageFields, DocumentFields, no_image, no_document,
  CanonicalMessage,
}

pub record FunctionCall : Type 0 where
  pub name : Text
  pub arguments : Text

-- The index, which streams use, is left out.
pub record ToolCall : Type 0 where
  pub id : Text
  pub type : String
  pub function : FunctionCall

-- openai.ContentPart, each case with the fields of its type; an image's detail, which no translation
-- sets, is left out.
pub data ContentPart : Type 0 where
  part_text : Text → ContentPart
  part_image : (url : Text) → ContentPart
  part_audio : (audio format : Text) → ContentPart
  part_file : (file_data filename : Text) → ContentPart

-- What a message's content holds: a value that was decoded, or parts that a translation made.
pub data Content : Type 0 where
  decoded : Any → Content
  parts : List ContentPart → Content

-- The name, which no translation reads, is left out.
pub record ChatMessage : Type 0 where
  pub role : String
  pub content : Content
  pub refusal : Text
  pub tool_calls : List ToolCall
  pub tool_call_id : Text
  pub reasoning : Text
  pub reasoning_content : Text

-- openai.ChatMessage{Role: role}
abbrev pub chat_message : String → ChatMessage
chat_message role = record {
  role = role;
  content = decoded null;
  refusal = [];
  tool_calls = [];
  tool_call_id = [];
  reasoning = [];
  reasoning_content = [];
}

unfoldable pub content_text : Content → Result Text
unfolding extract_text_content
content_text (decoded v) = extract_text_content v
content_text (parts ps) = failed bad_content

-- The media type of a header, without its mark.
unfoldable pub media_type_of : Text → Text
unfolding has_suffix
media_type_of header =
    if ltb 7 (length header) && has_suffix header (bytes ";base64")
    then take (length header - 7) header
    else header

-- splitDataURI, on the text after "data:"
unfoldable pub split_header : Text → Option (Text × Text)
unfolding at_comma media_type_of
split_header s = elim (at_comma s) [ none ↦ none | some p ↦ some (media_type_of p.0, p.1) ]

unfoldable pub build_data_uri : Text → Text → Text
build_data_uri media_type base64 = bytes "data:" ++ (media_type ++ (bytes ";base64," ++ base64))

abbrev pub after_scheme : Text → Text
after_scheme (_ ∷ (_ ∷ (_ ∷ (_ ∷ (_ ∷ s))))) = s
after_scheme s = []

unfoldable pub split_data_uri : Text → Option (Text × Text)
unfolding split_header
split_data_uri uri = split_header (after_scheme uri)

-- The fields of an image whose address is not empty.
unfoldable pub image_from : Text → ImageFields
unfolding starts_with split_data_uri
image_from url =
    if starts_with url (bytes "data:")
    then elim (split_data_uri url) [
      | none ↦ no_image
      | some p ↦ record no_image { media_type = p.0; image_data = p.1 }
    ]
    else record no_image { url = url }

-- The fields of a file whose data are not empty; what is no data URI is left out.
unfoldable pub document_from : Text → Text → DocumentFields
unfolding starts_with split_data_uri
document_from filename file_data =
    if starts_with file_data (bytes "data:")
    then elim (split_data_uri file_data) [
      | none ↦ record no_document { filename = filename }
      | some p ↦ record { media_type = p.0; doc_data = p.1; url = []; filename = filename }
    ]
    else record no_document { filename = filename }

abbrev pub texts_of : Option Text → List CanonicalBlock
texts_of none = []
texts_of (some s) = block_text s ∷ []

unfoldable pub image_part : Option Fields → List CanonicalBlock
unfolding entry image_from
image_part none = []
image_part (some m) =
    let url = or_blank (as_string (entry "url" m)) in
    if is_empty url then [] else block_image (image_from url) ∷ []

unfoldable pub file_part : Option Fields → List CanonicalBlock
unfolding entry document_from
file_part none = []
file_part (some m) =
    let file_data = or_blank (as_string (entry "file_data" m)) in
    let filename = or_blank (as_string (entry "filename" m)) in
    if is_empty file_data then [] else block_document (document_from filename file_data) ∷ []

-- The switch of openAIUserMessageToCanonical: a part of another type is skipped.
unfoldable pub part_to_canonical : Fields → List CanonicalBlock
unfolding entry same_bytes image_part file_part
part_to_canonical m =
    let type = or_blank (as_string (entry "type" m)) in
    if same_bytes type (bytes "text")
    then texts_of (as_string (entry "text" m))
    else if same_bytes type (bytes "image_url")
    then image_part (as_object (entry "image_url" m))
    else if same_bytes type (bytes "file")
    then file_part (as_object (entry "file" m))
    else []

unfoldable pub parts_to_canonical : Items → List CanonicalBlock
unfolding part_to_canonical
parts_to_canonical no_items = []
parts_to_canonical (item (object m) rest) = part_to_canonical m ++ parts_to_canonical rest
parts_to_canonical (item _ rest) = parts_to_canonical rest

unfoldable pub user_blocks : Content → Result (List CanonicalBlock)
unfolding parts_to_canonical content_text
user_blocks (decoded (string s)) = done (block_text s ∷ [])
user_blocks (decoded (array items)) = done (parts_to_canonical items)
user_blocks (decoded null) = done (block_text [] ∷ [])
user_blocks content = content_text content >>= λ s. done (block_text s ∷ [])

unfoldable pub openai_user_message_to_canonical : ChatMessage → Result CanonicalMessage
unfolding user_blocks
openai_user_message_to_canonical msg =
    user_blocks msg.content >>= λ bs. done (record { role = "user"; blocks = bs })

-- if s != "" { append the block }
abbrev pub nonempty_block : (Text → CanonicalBlock) → Text → List CanonicalBlock
nonempty_block block s = if is_empty s then [] else block s ∷ []

abbrev pub or_zero : Result Text → Text
or_zero (done s) = s
or_zero (failed e) = []

-- The reasoning, under either of its names.
abbrev pub reasoning_of : ChatMessage → Text
reasoning_of msg = if is_empty msg.reasoning then msg.reasoning_content else msg.reasoning

unfoldable pub call_to_canonical : Json → ToolCall → CanonicalBlock
unfolding unmarshal_tool_args
call_to_canonical json tc =
    block_tool_use tc.id tc.function.name (unmarshal_tool_args json tc.function.arguments)

unfoldable pub openai_assistant_message_to_canonical : Json → ChatMessage → CanonicalMessage
unfolding content_text call_to_canonical
openai_assistant_message_to_canonical json msg = record {
  role = "assistant";
  blocks =
      nonempty_block block_thinking (reasoning_of msg)
      ++ (nonempty_block block_text (or_zero (content_text msg.content))
          ++ (nonempty_block block_refusal msg.refusal
              ++ map (call_to_canonical json) msg.tool_calls));
}
