-- ===== src/Translate/Openai/Reading.antt =====
-- internal/translate/canonical_openai.go: what a request that is read without an error is made of.
use glitchgate.Prelude.{some, List, [], bytes, Option, ◌≡◌}
use glitchgate.Translate.Values.{Text, done, Json, join, done-steps}
use glitchgate.Translate.Canonical.{CanonicalToolChoice, CanonicalRequest}
use glitchgate.Translate.Openai.Requests.{
  ChatCompletionRequest, Turns, turn_loop, function_tools, openai_tool_choice_to_canonical,
  effort_to_canonical, stop_to_canonical, openai_request_to_canonical,
}

abbrev pub no_turns : Turns
no_turns = record { system_parts = []; messages = [] }

-- The request of the parts that can fail.
abbrev pub built :
    ChatCompletionRequest → List Text → Turns → Option CanonicalToolChoice → CanonicalRequest
built req seqs turns choice = record {
  model = req.model;
  system = join (bytes "\n") turns.system_parts;
  messages = turns.messages;
  max_tokens = req.max_tokens;
  temperature = req.temperature;
  top_p = req.top_p;
  top_k = Option.none;
  stop_sequences = seqs;
  stream = req.stream;
  tools = function_tools req.tools;
  tool_choice = choice;
  thinking = effort_to_canonical req.reasoning_effort;
}

pub built-read :
    (json : Json) (req : ChatCompletionRequest) (canon : CanonicalRequest)
    → openai_request_to_canonical json (some req) ≡ done canon
    → (seqs : List Text) × (turns : Turns) × (choice : Option CanonicalToolChoice)
      × (stop_to_canonical json req.stop ≡ done seqs)
      × (turn_loop json req.messages no_turns ≡ done turns)
      × (openai_tool_choice_to_canonical req.tool_choice ≡ done choice)
      × (built req seqs turns choice ≡ canon)
unfolding openai_request_to_canonical
built-read json req canon e =
    done-steps (stop_to_canonical json req.stop) (turn_loop json req.messages no_turns)
      (openai_tool_choice_to_canonical req.tool_choice) (built req) canon e
