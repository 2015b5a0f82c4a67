-- ===== src/Translate/Openai/Messages.antt =====
-- internal/translate/canonical_openai.go: the canonical form's messages to OpenAI's.
use glitchgate.Prelude.{
  Bool, true, false, not, ◌||◌, List, [], ◌∷◌, ◌++◌, ◌==◌, if◌then◌else◌, is_empty,
}
use glitchgate.Translate.Values.{Text, string, join, Json, marshal_tool_input}
use glitchgate.Translate.Canonical.{
  CanonicalBlock, block_text, block_image, block_tool_use, block_tool_result, block_thinking,
  block_refusal, block_audio, block_document, CanonicalMessage,
}
use glitchgate.Translate.Openai.{
  ToolCall, ContentPart, part_text, part_image, part_audio, part_file, Content, decoded, parts,
  ChatMessage, chat_message, build_data_uri,
}

unfoldable pub call_to_openai : Json → CanonicalBlock → List ToolCall
unfolding marshal_tool_input
call_to_openai json (block_tool_use id name input) =
    record {
      id = id;
      type = "function";
      function = record { name = name; arguments = marshal_tool_input json input };
    }
    ∷ []
call_to_openai json _ = []

-- The locals of the assistant's branch of canonicalMessageToOpenAI.
pub record Assistant : Type 0 where
  pub texts : List Text
  pub thinking : Text
  pub refusal : Text
  pub calls : List ToolCall

unfoldable pub assistant_step : Json → CanonicalBlock → Assistant → Assistant
unfolding call_to_openai
assistant_step json (block_text s) a = record a { texts = a.texts ++ (s ∷ []) }
assistant_step json (block_thinking s) a = record a { thinking = s }
assistant_step json (block_refusal s) a = record a { refusal = s }
assistant_step json b a = record a { calls = a.calls ++ call_to_openai json b }

unfoldable pub assistant_loop : Json → List CanonicalBlock → Assistant → Assistant
unfolding assistant_step
assistant_loop json [] a = a
assistant_loop json (b ∷ bs) a = assistant_loop json bs (assistant_step json b a)

-- if len(textParts) > 0
abbrev pub joined : Text → List Text → Content → Content
joined sep [] content = content
joined sep (t ∷ ts) content = decoded (string (join sep (t ∷ ts)))

unfoldable pub assistant_to_openai : Json → List CanonicalBlock → ChatMessage
unfolding assistant_loop
assistant_to_openai json bs =
    let a =
      assistant_loop json bs (record { texts = []; thinking = []; refusal = []; calls = [] }) in
    record (chat_message "assistant") {
      content = joined [] a.texts (chat_message "assistant").content;
      reasoning_content = a.thinking;
      refusal = a.refusal;
      tool_calls = a.calls;
    }

-- The locals of canonicalUserToOpenAI.
pub record Split : Type 0 where
  pub messages : List ChatMessage
  pub parts : List ContentPart
  pub has_images : Bool

abbrev pub part_body : ContentPart → Text
part_body (part_text s) = s
part_body _ = []

abbrev pub part_bodies : List ContentPart → List Text
part_bodies [] = []
part_bodies (p ∷ ps) = part_body p ∷ part_bodies ps

unfoldable pub user_content : Bool → List ContentPart → Content
unfolding join
user_content has_images ps =
    if has_images then parts ps else decoded (string (join [] (part_bodies ps)))

-- flushParts
unfoldable pub flush_parts : Split → Split
unfolding user_content
flush_parts st = elim st.parts [
  | [] ↦ st
  | p ∷ ps ↦ record {
    messages =
        st.messages
        ++ (record (chat_message "user") { content = user_content st.has_images (p ∷ ps) } ∷ []);
    parts = [];
    has_images = false;
  }
]

abbrev pub add_part : ContentPart → Bool → Split → Split
add_part p multipart st = record st {
  parts = st.parts ++ (p ∷ []);
  has_images = st.has_images || multipart;
}

-- The address of an image or of a document: a data URI if there are data.
unfoldable pub address_of : (media_type base64 url : Text) → Text
unfolding build_data_uri
address_of media_type base64 url =
    if not (is_empty base64) then build_data_uri media_type base64 else url

abbrev pub tool_message : Text → Text → ChatMessage
tool_message id result = record (chat_message "tool") {
  tool_call_id = id;
  content = decoded (string result);
}

unfoldable pub user_step : CanonicalBlock → Split → Split
unfolding address_of flush_parts
user_step (block_text s) st = add_part (part_text s) false st
user_step (block_image f) st =
    let url = address_of f.media_type f.image_data f.url in
    if is_empty url then st else add_part (part_image url) true st
user_step (block_audio audio format) st = add_part (part_audio audio format) true st
user_step (block_document f) st =
    let file_data = address_of f.media_type f.doc_data f.url in
    if is_empty file_data then st else add_part (part_file file_data f.filename) true st
user_step (block_tool_result id result) st =
    let flushed = flush_parts st in
    record flushed { messages = flushed.messages ++ (tool_message id result ∷ []) }
user_step _ st = st

unfoldable pub user_loop : List CanonicalBlock → Split → Split
unfolding user_step
user_loop [] st = st
user_loop (b ∷ bs) st = user_loop bs (user_step b st)

unfoldable pub canonical_user_to_openai : CanonicalMessage → List ChatMessage
unfolding user_loop flush_parts
canonical_user_to_openai msg =
    let st = user_loop msg.blocks (record { messages = []; parts = []; has_images = false }) in
    (flush_parts st).messages

unfoldable pub canonical_message_to_openai : Json → CanonicalMessage → List ChatMessage
unfolding canonical_user_to_openai assistant_to_openai
canonical_message_to_openai json msg =
    if msg.role == "user"
    then canonical_user_to_openai msg
    else assistant_to_openai json msg.blocks ∷ []
