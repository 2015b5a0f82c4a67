-- ===== src/Translate/Anthropic/Requests.antt =====
-- internal/translate/canonical_anthropic.go: Anthropic's requests to and from the canonical form.
use glitchgate.Prelude.{
  ℤ, pos, negsuc, String, Bool, true, false, not, ◌&&◌, Option, none, some, List, [], ◌∷◌, map,
  ◌==◌, if◌then◌else◌, same_bytes, bytes, is_empty, ltb, is_zero,
}
use glitchgate.Translate.Values.{
  Text, Any, null, string, object, no_fields, field, Result, done, failed, ◌>>=◌, each, nil_request,
  bad_tool_choice, no_audio, as_string, or_blank, entry, extract_anthropic_system,
}
use glitchgate.Translate.Canonical.{
  CanonicalBlock, block_audio, CanonicalMessage, CanonicalTool, CanonicalToolChoice, choice_auto,
  choice_required, choice_none, choice_specific, CanonicalThinking, CanonicalRequest,
}
use glitchgate.Translate.Effort.{effort_to_budget_tokens, budget_tokens_to_effort}
use glitchgate.Translate.Anthropic.{
  ContentBlock, Content, Message, anthropic_message_to_canonical, canonical_message_to_anthropic,
}

pub record ThinkingConfig : Type 0 where
  pub type : String
  pub budget_tokens : ℤ

pub record Tool : Type 0 where
  pub name : Text
  pub description : Text
  pub input_schema : Any

-- The metadata, which no translation reads, are left out.
pub record MessagesRequest : Type 0 where
  pub model : Text
  pub max_tokens : ℤ
  pub messages : List Message
  pub system : Any
  pub stream : Bool
  pub temperature : Option String
  pub top_p : Option String
  pub top_k : Option ℤ
  pub stop_sequences : List Text
  pub tools : List Tool
  pub tool_choice : Any
  pub thinking : Option ThinkingConfig

unfoldable pub anthropic_tool_choice_map_to_canonical : Text → Text → CanonicalToolChoice
unfolding same_bytes
anthropic_tool_choice_map_to_canonical typ name =
    if same_bytes typ (bytes "any")
    then record { mode = choice_required; function_name = [] }
    else if same_bytes typ (bytes "tool")
    then record { mode = choice_specific; function_name = name }
    else record { mode = choice_auto; function_name = [] }

-- A choice that is nil is not translated.
unfoldable pub anthropic_tool_choice_to_canonical : Any → Result (Option CanonicalToolChoice)
unfolding entry anthropic_tool_choice_map_to_canonical
anthropic_tool_choice_to_canonical null = done none
anthropic_tool_choice_to_canonical (object m) = done (
    some (
      anthropic_tool_choice_map_to_canonical (or_blank (as_string (entry "type" m)))
        (or_blank (as_string (entry "name" m)))))
anthropic_tool_choice_to_canonical _ = failed bad_tool_choice

abbrev pub tool_to_canonical : Tool → CanonicalTool
tool_to_canonical t = record {
  name = t.name;
  description = t.description;
  parameters = t.input_schema;
}

-- if req.MaxTokens > 0
abbrev pub positive_limit : ℤ → Option ℤ
positive_limit (negsuc n) = none
positive_limit (pos n) = if ltb 0 n then some (pos n) else none

unfoldable pub thinking_to_canonical : Option ThinkingConfig → Option CanonicalThinking
unfolding budget_tokens_to_effort
thinking_to_canonical none = none
thinking_to_canonical (some t) =
    if t.type == "enabled"
    then some (record {
      enabled = true;
      budget_tokens = t.budget_tokens;
      effort = budget_tokens_to_effort t.budget_tokens;
    })
    else none

-- A request that is nil is `none`.
unfoldable pub anthropic_request_to_canonical :
    (Content → Option (List ContentBlock)) → Option MessagesRequest → Result CanonicalRequest
unfolding each extract_anthropic_system anthropic_message_to_canonical
    anthropic_tool_choice_to_canonical thinking_to_canonical
anthropic_request_to_canonical reread none = failed nil_request
anthropic_request_to_canonical reread (some req) = do
  messages ← each (anthropic_message_to_canonical reread) req.messages
  choice ← anthropic_tool_choice_to_canonical req.tool_choice
  done (record {
    model = req.model;
    system = extract_anthropic_system req.system;
    messages = messages;
    max_tokens = positive_limit req.max_tokens;
    temperature = req.temperature;
    top_p = req.top_p;
    top_k = req.top_k;
    stop_sequences = req.stop_sequences;
    stream = req.stream;
    tools = map tool_to_canonical req.tools;
    tool_choice = choice;
    thinking = thinking_to_canonical req.thinking;
  })

unfoldable pub has_audio : List CanonicalBlock → Bool
has_audio [] = false
has_audio (block_audio audio format ∷ bs) = true
has_audio (_ ∷ bs) = has_audio bs

unfoldable pub checked_message : CanonicalMessage → Result Message
unfolding has_audio canonical_message_to_anthropic
checked_message msg =
    if has_audio msg.blocks then failed no_audio else done (canonical_message_to_anthropic msg)

-- map[string]any{"type": "object", "properties": map[string]any{}}
abbrev pub empty_schema : Any
empty_schema =
    object
      (field "type" (string (bytes "object")) (field "properties" (object no_fields) no_fields))

abbrev pub or_schema : Any → Any
or_schema null = empty_schema
or_schema schema = schema

abbrev pub tool_to_anthropic : CanonicalTool → Tool
tool_to_anthropic t = record {
  name = t.name;
  description = t.description;
  input_schema = or_schema t.parameters;
}

unfoldable pub canonical_tool_choice_to_anthropic : CanonicalToolChoice → Any
canonical_tool_choice_to_anthropic tc = elim tc.mode [
  | choice_required ↦ object (field "type" (string (bytes "any")) no_fields)
  | choice_specific ↦
      object
        (field "type" (string (bytes "tool")) (field "name" (string tc.function_name) no_fields))
  | choice_none ↦ null
  | choice_auto ↦ object (field "type" (string (bytes "auto")) no_fields)
]

abbrev pub default_max_tokens : ℤ
default_max_tokens = pos 4096

abbrev pub or_default_limit : Option ℤ → ℤ
or_default_limit none = default_max_tokens
or_default_limit (some n) = n

abbrev pub config_of : ℤ → Option ThinkingConfig
config_of (negsuc n) = none
config_of (pos n) =
    if ltb 0 n then some (record { type = "enabled"; budget_tokens = pos n }) else none

-- The budget that is given, or one from the effort.
unfoldable pub thinking_to_anthropic : ℤ → Option CanonicalThinking → Option ThinkingConfig
unfolding effort_to_budget_tokens
thinking_to_anthropic max_tokens none = none
thinking_to_anthropic max_tokens (some t) =
    if t.enabled
    then config_of (
        if is_zero t.budget_tokens && not (t.effort == "")
        then pos (effort_to_budget_tokens t.effort max_tokens)
        else t.budget_tokens)
    else none

unfoldable pub canonical_to_anthropic_request : Option CanonicalRequest → Result MessagesRequest
unfolding each checked_message canonical_tool_choice_to_anthropic thinking_to_anthropic
canonical_to_anthropic_request none = failed nil_request
canonical_to_anthropic_request (some canon) =
    let max_tokens = or_default_limit canon.max_tokens in
    each checked_message canon.messages >>= λ messages. done (record {
      model = canon.model;
      max_tokens = max_tokens;
      messages = messages;
      system = if is_empty canon.system then null else string canon.system;
      stream = canon.stream;
      temperature = canon.temperature;
      top_p = canon.top_p;
      top_k = canon.top_k;
      stop_sequences = canon.stop_sequences;
      tools = map tool_to_anthropic canon.tools;
      tool_choice = elim canon.tool_choice [
        | none ↦ null
        | some tc ↦ canonical_tool_choice_to_anthropic tc
      ];
      thinking = thinking_to_anthropic max_tokens canon.thinking;
    })
