-- ===== src/Translate/Openai/Requests.antt =====
-- internal/translate/canonical_openai.go: OpenAI's chat requests to and from the canonical form.
use glitchgate.Prelude.{
  ℤ, pos, negsuc, zero, suc, String, Bool, true, not, ◌&&◌, Option, none, some, List, [], ◌∷◌, ◌++◌,
  map, ◌==◌, if◌then◌else◌, same_bytes, bytes,
}
use glitchgate.Translate.Values.{
  Text, Any, null, string, array, object, Items, no_items, item, no_fields, field, Result, done,
  failed, ◌>>=◌, nil_request, bad_role, bad_tool_choice, as_string, entry, join, Json,
  parse_stop_sequences,
}
use glitchgate.Translate.Canonical.{
  block_tool_result, CanonicalMessage, CanonicalTool, CanonicalToolChoice, choice_auto,
  choice_required, choice_none, choice_specific, CanonicalThinking, CanonicalRequest,
}
use glitchgate.Translate.Effort.{budget_tokens_to_effort}
use glitchgate.Translate.Openai.{
  decoded, ChatMessage, chat_message, content_text, openai_user_message_to_canonical,
  openai_assistant_message_to_canonical,
}
use glitchgate.Translate.Openai.Messages.{canonical_message_to_openai}

-- A tool, with its function's fields.
pub record Tool : Type 0 where
  pub type : String
  pub name : Text
  pub description : Text
  pub parameters : Any

-- The stream options are the flag IncludeUsage.
pub record ChatCompletionRequest : Type 0 where
  pub model : Text
  pub messages : List ChatMessage
  pub max_tokens : Option ℤ
  pub temperature : Option String
  pub top_p : Option String
  pub stream : Bool
  pub stop : Any
  pub tools : List Tool
  pub tool_choice : Any
  pub include_usage : Option Bool
  pub reasoning_effort : Option String

-- The system texts and the messages of the loop.
pub record Turns : Type 0 where
  pub system_parts : List Text
  pub messages : List CanonicalMessage

unfoldable pub tool_result_message : ChatMessage → Text → CanonicalMessage
tool_result_message msg s = record {
  role = "user";
  blocks = block_tool_result msg.tool_call_id s ∷ [];
}

abbrev pub add_message : Turns → CanonicalMessage → Turns
add_message t m = record t { messages = t.messages ++ (m ∷ []) }

-- One round of the loop: the switch on the role.
unfoldable pub turn_step : Json → ChatMessage → Turns → Result Turns
unfolding content_text openai_user_message_to_canonical openai_assistant_message_to_canonical
    tool_result_message
turn_step json msg t =
    if msg.role == "system"
    then (content_text msg.content >>= λ s.
        done (record t { system_parts = t.system_parts ++ (s ∷ []) }))
    else if msg.role == "user"
    then (openai_user_message_to_canonical msg >>= λ m. done (add_message t m))
    else if msg.role == "assistant"
    then done (add_message t (openai_assistant_message_to_canonical json msg))
    else if msg.role == "tool"
    then (content_text msg.content >>= λ s. done (add_message t (tool_result_message msg s)))
    else failed bad_role

unfoldable pub turn_loop : Json → List ChatMessage → Turns → Result Turns
unfolding turn_step
turn_loop json [] t = done t
turn_loop json (msg ∷ msgs) t = turn_step json msg t >>= λ next. turn_loop json msgs next

-- A tool of another type than a function is dropped.
unfoldable pub function_tools : List Tool → List CanonicalTool
function_tools [] = []
function_tools (t ∷ ts) =
    let rest = function_tools ts in
    if t.type == "function"
    then record { name = t.name; description = t.description; parameters = t.parameters } ∷ rest
    else rest

abbrev pub plain_choice : CanonicalToolChoice
plain_choice = record { mode = choice_auto; function_name = [] }

-- The choice of a function by its name, or the model's own choice.
unfoldable pub named_choice : Any → CanonicalToolChoice
unfolding entry
named_choice (object fn) = elim (as_string (entry "name" fn)) [
  | none ↦ plain_choice
  | some name ↦ record { mode = choice_specific; function_name = name }
]
named_choice _ = plain_choice

-- A choice that is nil is not translated.
unfoldable pub openai_tool_choice_to_canonical : Any → Result (Option CanonicalToolChoice)
unfolding same_bytes entry named_choice
openai_tool_choice_to_canonical null = done none
openai_tool_choice_to_canonical (string s) =
    if same_bytes s (bytes "none")
    then done (some (record plain_choice { mode = choice_none }))
    else if same_bytes s (bytes "auto")
    then done (some plain_choice)
    else if same_bytes s (bytes "required")
    then done (some (record plain_choice { mode = choice_required }))
    else failed bad_tool_choice
openai_tool_choice_to_canonical (object m) = done (some (named_choice (entry "function" m)))
openai_tool_choice_to_canonical _ = failed bad_tool_choice

unfoldable pub effort_to_canonical : Option String → Option CanonicalThinking
effort_to_canonical none = none
effort_to_canonical (some effort) =
    if effort == ""
    then none
    else some (record { enabled = true; budget_tokens = pos 0; effort = effort })

-- if req.Stop != nil
unfoldable pub stop_to_canonical : Json → Any → Result (List Text)
unfolding parse_stop_sequences
stop_to_canonical json null = done []
stop_to_canonical json stop = parse_stop_sequences json stop

-- A request that is nil is `none`. Without system messages the join is empty, as the field is.
unfoldable pub openai_request_to_canonical :
    Json → Option ChatCompletionRequest → Result CanonicalRequest
unfolding turn_loop function_tools openai_tool_choice_to_canonical effort_to_canonical
    stop_to_canonical join
openai_request_to_canonical json none = failed nil_request
openai_request_to_canonical json (some req) = do
  seqs ← stop_to_canonical json req.stop
  turns ← turn_loop json req.messages (record { system_parts = []; messages = [] })
  choice ← openai_tool_choice_to_canonical req.tool_choice
  done (record {
    model = req.model;
    system = join (bytes "\n") turns.system_parts;
    messages = turns.messages;
    max_tokens = req.max_tokens;
    temperature = req.temperature;
    top_p = req.top_p;
    top_k = none;
    stop_sequences = seqs;
    stream = req.stream;
    tools = function_tools req.tools;
    tool_choice = choice;
    thinking = effort_to_canonical req.reasoning_effort;
  })

unfoldable pub string_items : List Text → Items
string_items [] = no_items
string_items (s ∷ ss) = item (string s) (string_items ss)

-- if len(canon.StopSequences) > 0
unfoldable pub stop_to_openai : List Text → Any
unfolding string_items
stop_to_openai [] = null
stop_to_openai (s ∷ ss) = array (string_items (s ∷ ss))

abbrev pub system_message : Text → List ChatMessage
system_message [] = []
system_message (c ∷ s) = record (chat_message "system") { content = decoded (string (c ∷ s)) } ∷ []

unfoldable pub messages_to_openai : Json → List CanonicalMessage → List ChatMessage
unfolding canonical_message_to_openai
messages_to_openai json [] = []
messages_to_openai json (m ∷ ms) = canonical_message_to_openai json m ++ messages_to_openai json ms

abbrev pub tool_to_openai : CanonicalTool → Tool
tool_to_openai t = record {
  type = "function";
  name = t.name;
  description = t.description;
  parameters = t.parameters;
}

unfoldable pub canonical_tool_choice_to_openai : CanonicalToolChoice → Any
canonical_tool_choice_to_openai tc = elim tc.mode [
  | choice_none ↦ string (bytes "none")
  | choice_required ↦ string (bytes "required")
  | choice_specific ↦ object (
      field "type" (string (bytes "function"))
        (field "function" (object (field "name" (string tc.function_name) no_fields)) no_fields))
  | choice_auto ↦ string (bytes "auto")
]

unfoldable pub effort_of_budget : ℤ → String
unfolding budget_tokens_to_effort
effort_of_budget (negsuc n) = ""
effort_of_budget (pos zero) = ""
effort_of_budget (pos (suc n)) = budget_tokens_to_effort (pos (suc n))

unfoldable pub thinking_to_effort : Option CanonicalThinking → Option String
unfolding effort_of_budget
thinking_to_effort none = none
thinking_to_effort (some t) =
    let effort = if t.effort == "" then effort_of_budget t.budget_tokens else t.effort in
    if t.enabled && not (effort == "") then some effort else none

unfoldable pub canonical_to_openai_request :
    Json → Option CanonicalRequest → Result ChatCompletionRequest
unfolding messages_to_openai canonical_tool_choice_to_openai thinking_to_effort stop_to_openai
canonical_to_openai_request json none = failed nil_request
canonical_to_openai_request json (some canon) = done (record {
  model = canon.model;
  messages = system_message canon.system ++ messages_to_openai json canon.messages;
  max_tokens = canon.max_tokens;
  temperature = canon.temperature;
  top_p = canon.top_p;
  stream = canon.stream;
  stop = stop_to_openai canon.stop_sequences;
  tools = map tool_to_openai canon.tools;
  tool_choice = elim canon.tool_choice [
    | none ↦ null
    | some tc ↦ canonical_tool_choice_to_openai tc
  ];
  include_usage = if canon.stream then some true else none;
  reasoning_effort = thinking_to_effort canon.thinking;
})
