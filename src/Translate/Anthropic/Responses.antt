-- ===== src/Translate/Anthropic/Responses.antt =====
-- internal/translate/canonical_anthropic.go: Anthropic's responses to and from the canonical form.
use glitchgate.Prelude.{ℕ, String, Option, none, some, List, [], ◌∷◌, ◌++◌, ◌==◌, if◌then◌else◌}
use glitchgate.Translate.Stops.{
  StopReason, unset, unknown, canonical_stop_reason_to_anthropic,
  anthropic_stop_reason_to_canonical,
}
use glitchgate.Translate.Values.{Text}
use glitchgate.Translate.Canonical.{
  CanonicalBlock, block_text, block_tool_use, block_thinking, block_refusal, CanonicalResponse,
}
use glitchgate.Translate.ToolIds.{sanitize_anthropic_tool_id}
use glitchgate.Translate.Anthropic.{ContentBlock, content_block}

pub record Usage : Type 0 where
  pub input_tokens : ℕ
  pub output_tokens : ℕ
  pub cache_creation_input_tokens : ℕ
  pub cache_read_input_tokens : ℕ

-- The stop sequence, which no translation reads, is left out.
pub record MessagesResponse : Type 0 where
  pub id : Text
  pub type : String
  pub role : String
  pub content : List ContentBlock
  pub model : Text
  pub stop_reason : Option String
  pub usage : Usage

-- A block of another type is dropped.
unfoldable pub response_block_to_canonical : ContentBlock → List CanonicalBlock
response_block_to_canonical b =
    if b.type == "text"
    then block_text b.body ∷ []
    else if b.type == "thinking"
    then block_thinking b.thinking ∷ []
    else if b.type == "tool_use"
    then block_tool_use b.id b.name b.input ∷ []
    else []

unfoldable pub response_blocks_to_canonical : List ContentBlock → List CanonicalBlock
unfolding response_block_to_canonical
response_blocks_to_canonical [] = []
response_blocks_to_canonical (b ∷ bs) =
    response_block_to_canonical b ++ response_blocks_to_canonical bs

unfoldable pub anthropic_response_to_canonical : MessagesResponse → CanonicalResponse
unfolding response_blocks_to_canonical anthropic_stop_reason_to_canonical
anthropic_response_to_canonical resp =
    let reason = anthropic_stop_reason_to_canonical resp.stop_reason in
    record {
      id = resp.id;
      model = resp.model;
      stop_reason = reason.0;
      raw_stop_reason = reason.1;
      content = response_blocks_to_canonical resp.content;
      usage = record {
        input_tokens = resp.usage.input_tokens;
        output_tokens = resp.usage.output_tokens;
        cache_creation_input_tokens = resp.usage.cache_creation_input_tokens;
        cache_read_input_tokens = resp.usage.cache_read_input_tokens;
        reasoning_tokens = 0;
      };
    }

-- A refusal is emitted as a text; images, documents, sounds and tool results are dropped.
unfoldable pub response_block_to_anthropic : CanonicalBlock → List ContentBlock
unfolding sanitize_anthropic_tool_id
response_block_to_anthropic (block_text s) = record (content_block "text") { body = s } ∷ []
response_block_to_anthropic (block_thinking s) =
    record (content_block "thinking") { thinking = s } ∷ []
response_block_to_anthropic (block_tool_use id name input) =
    record (content_block "tool_use") {
      id = sanitize_anthropic_tool_id id;
      name = name;
      input = input;
    }
    ∷ []
response_block_to_anthropic (block_refusal s) = record (content_block "text") { body = s } ∷ []
response_block_to_anthropic _ = []

unfoldable pub response_blocks_to_anthropic : List CanonicalBlock → List ContentBlock
unfolding response_block_to_anthropic
response_blocks_to_anthropic [] = []
response_blocks_to_anthropic (b ∷ bs) =
    response_block_to_anthropic b ++ response_blocks_to_anthropic bs

unfoldable pub anthropic_reason : StopReason → Option String → Option String
anthropic_reason unset raw = none
anthropic_reason unknown (some reason) = some reason
anthropic_reason sr raw = some (canonical_stop_reason_to_anthropic sr)

unfoldable pub canonical_to_anthropic_response : CanonicalResponse → Text → MessagesResponse
unfolding response_blocks_to_anthropic anthropic_reason
canonical_to_anthropic_response canon model = record {
  id = canon.id;
  type = "message";
  role = "assistant";
  content = response_blocks_to_anthropic canon.content;
  model = model;
  stop_reason = anthropic_reason canon.stop_reason canon.raw_stop_reason;
  usage = record {
    input_tokens = canon.usage.input_tokens;
    output_tokens = canon.usage.output_tokens;
    cache_creation_input_tokens = canon.usage.cache_creation_input_tokens;
    cache_read_input_tokens = canon.usage.cache_read_input_tokens;
  };
}
