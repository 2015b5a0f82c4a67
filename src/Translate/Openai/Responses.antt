-- ===== src/Translate/Openai/Responses.antt =====
-- internal/translate/canonical_openai.go: OpenAI's chat responses to and from the canonical form.
use glitchgate.Prelude.{
  ℕ, String, Option, none, some, List, [], ◌∷◌, ◌++◌, map, if◌then◌else◌, bytes, cut,
}
use glitchgate.Translate.Stops.{
  StopReason, unknown, canonical_stop_reason_to_openai_finish, openai_finish_to_canonical,
}
use glitchgate.Translate.Values.{
  Text, string, array, object, Items, no_items, item, as_string, entry, join, Json,
}
use glitchgate.Translate.Canonical.{
  CanonicalBlock, block_text, block_thinking, block_refusal, CanonicalUsage, CanonicalResponse,
  add_int64, is_positive,
}
use glitchgate.Translate.Openai.{
  ToolCall, Content, decoded, ChatMessage, chat_message, nonempty_block, reasoning_of,
  call_to_canonical,
}
use glitchgate.Translate.Openai.Messages.{call_to_openai, joined}

-- The details hold one count each; the reasoning tokens beside them, which no translation reads, are
-- left out.
pub record Usage : Type 0 where
  pub prompt_tokens : ℕ
  pub completion_tokens : ℕ
  pub total_tokens : ℕ
  pub cached_tokens : Option ℕ
  pub reasoning_tokens : Option ℕ

-- The index, always 0 here, and the delta of streams are left out.
pub record Choice : Type 0 where
  pub message : Option ChatMessage
  pub finish_reason : Option String

pub record ChatCompletionResponse : Type 0 where
  pub id : Text
  pub object : String
  pub created : ℕ
  pub model : Text
  pub choices : List Choice
  pub usage : Option Usage

-- strings.TrimPrefix
unfoldable pub trim_prefix : Text → Text → Text
unfolding cut
trim_prefix s prefix = elim (cut prefix s) [ none ↦ s | some rest ↦ rest ]

-- The texts of the parts, each a block of its own; an empty one is skipped.
unfoldable pub text_blocks : Items → List CanonicalBlock
unfolding entry
text_blocks no_items = []
text_blocks (item (object m) rest) = elim (as_string (entry "text" m)) [
  | none ↦ text_blocks rest
  | some t ↦ nonempty_block block_text t ++ text_blocks rest
]
text_blocks (item _ rest) = text_blocks rest

unfoldable pub response_text : Content → List CanonicalBlock
unfolding text_blocks
response_text (decoded (string s)) = nonempty_block block_text s
response_text (decoded (array items)) = text_blocks items
response_text _ = []

unfoldable pub response_message_blocks : Json → ChatMessage → List CanonicalBlock
unfolding response_text call_to_canonical
response_message_blocks json msg =
    nonempty_block block_thinking (reasoning_of msg)
    ++ (response_text msg.content
        ++ (nonempty_block block_refusal msg.refusal
            ++ map (call_to_canonical json) msg.tool_calls))

abbrev pub or_none : Option ℕ → ℕ
or_none none = 0
or_none (some n) = n

unfoldable pub usage_to_canonical : Option Usage → CanonicalUsage
usage_to_canonical none = record {
  input_tokens = 0;
  output_tokens = 0;
  cache_creation_input_tokens = 0;
  cache_read_input_tokens = 0;
  reasoning_tokens = 0;
}
usage_to_canonical (some u) = record {
  input_tokens = u.prompt_tokens;
  output_tokens = u.completion_tokens;
  cache_creation_input_tokens = 0;
  cache_read_input_tokens = or_none u.cached_tokens;
  reasoning_tokens = or_none u.reasoning_tokens;
}

-- The first choice's reason and blocks; without a choice the reason is the first of its
-- enumeration.
unfoldable pub first_choice : Json → List Choice → StopReason × List CanonicalBlock
unfolding response_message_blocks openai_finish_to_canonical
first_choice json [] = (StopReason.end_turn, [])
first_choice json (c ∷ rest) = (
  openai_finish_to_canonical c.finish_reason,
  elim c.message [ none ↦ [] | some msg ↦ response_message_blocks json msg ],
)

unfoldable pub openai_response_to_canonical : Json → ChatCompletionResponse → CanonicalResponse
unfolding first_choice usage_to_canonical trim_prefix
openai_response_to_canonical json resp =
    let choice = first_choice json resp.choices in
    record {
      id = trim_prefix resp.id (bytes "chatcmpl-");
      model = resp.model;
      stop_reason = choice.0;
      raw_stop_reason = none;
      content = choice.1;
      usage = usage_to_canonical resp.usage;
    }

-- The locals of canonicalToOpenAIResponse.
pub record Reply : Type 0 where
  pub texts : List Text
  pub thinking : List Text
  pub refusal : Text
  pub calls : List ToolCall

unfoldable pub reply_step : Json → CanonicalBlock → Reply → Reply
unfolding call_to_openai
reply_step json (block_text s) a = record a { texts = a.texts ++ (s ∷ []) }
reply_step json (block_thinking s) a = record a { thinking = a.thinking ++ (s ∷ []) }
reply_step json (block_refusal s) a = record a { refusal = s }
reply_step json b a = record a { calls = a.calls ++ call_to_openai json b }

unfoldable pub reply_loop : Json → List CanonicalBlock → Reply → Reply
unfolding reply_step
reply_loop json [] a = a
reply_loop json (b ∷ bs) a = reply_loop json bs (reply_step json b a)

-- Without thoughts the join is empty, as the field is.
unfoldable pub reply_message : Json → List CanonicalBlock → ChatMessage
unfolding reply_loop join
reply_message json bs =
    let a = reply_loop json bs (record { texts = []; thinking = []; refusal = []; calls = [] }) in
    record (chat_message "assistant") {
      content = joined [] a.texts (chat_message "assistant").content;
      reasoning_content = join (bytes "\n\n") a.thinking;
      refusal = a.refusal;
      tool_calls = a.calls;
    }

unfoldable pub openai_reason : StopReason → Option String → Option String
openai_reason unknown (some reason) = some reason
openai_reason sr raw = canonical_stop_reason_to_openai_finish sr

abbrev pub if_positive : ℕ → Option ℕ
if_positive n = if is_positive n then some n else none

unfoldable pub usage_to_openai : CanonicalUsage → Usage
usage_to_openai u =
    let prompt_tokens = add_int64 u.input_tokens u.cache_read_input_tokens in
    record {
      prompt_tokens = prompt_tokens;
      completion_tokens = u.output_tokens;
      total_tokens = add_int64 prompt_tokens u.output_tokens;
      cached_tokens = if_positive u.cache_read_input_tokens;
      reasoning_tokens = if_positive u.reasoning_tokens;
    }

-- The time of the response is a parameter.
unfoldable pub canonical_to_openai_response :
    Json → (created : ℕ) → CanonicalResponse → Text → ChatCompletionResponse
unfolding reply_message openai_reason usage_to_openai
canonical_to_openai_response json created canon model = record {
  id = bytes "chatcmpl-" ++ canon.id;
  object = "chat.completion";
  created = created;
  model = model;
  choices =
      record {
        message = some (reply_message json canon.content);
        finish_reason = openai_reason canon.stop_reason canon.raw_stop_reason;
      }
      ∷ [];
  usage = some (usage_to_openai canon.usage);
}
