-- ===== src/Tests/Translations.antt =====
-- The translations between the protocols, at concrete messages.
use glitchgate.Prelude.{
  pos, true, false, Option, none, some, List, [], ◌∷◌, map, ◌≡◌, refl, bytes, inl, arith, All,
  same_bytes,
}
use glitchgate.Translate.Stops.{tool_use}
use glitchgate.Translate.Values.{
  Text, Any, null, string, array, object, no_items, item, no_fields, field, done, ◌>>=◌, each, Json,
}
use glitchgate.Translate.Canonical.{
  CanonicalBlock, block_text, block_image, block_tool_use, block_tool_result, block_refusal,
  block_document, CanonicalMessage, CanonicalRequest, CanonicalResponse, choice_specific,
  choice_auto,
}
use glitchgate.Translate.ToolIds.{IsToolId, is_allowed}
use glitchgate.Translate.Anthropic
use glitchgate.Translate.Anthropic.{
  ContentBlock, anthropic_message_to_canonical, canonical_message_to_anthropic,
}
use glitchgate.Translate.Anthropic.Carrying.{IsCarried, IsReread}
use glitchgate.Translate.Anthropic.Requests.{
  MessagesRequest, anthropic_request_to_canonical, canonical_to_anthropic_request,
}
use glitchgate.Translate.Anthropic.Keeping.{IsKept, canonical-anthropic_request}
use glitchgate.Translate.Openai.{chat_message, decoded, openai_user_message_to_canonical}
use glitchgate.Translate.Openai.Messages.{canonical_user_to_openai}
use glitchgate.Translate.Openai.Pieces.{spell_messages, spell_blocks}
use glitchgate.Translate.Openai.Order.{spell-canonical_user_to_openai}
use glitchgate.Translate.Openai.Encoding.{arrived, IsShown}
use glitchgate.Translate.Openai.Arrival.{user_message_arrives}
use glitchgate.Translate.Openai.Requests.{ChatCompletionRequest, openai_request_to_canonical}
use glitchgate.Translate.Openai.Responses.{
  Usage, ChatCompletionResponse, openai_response_to_canonical, canonical_to_openai_response,
}
use glitchgate.Translate.Openai.Replies.{gathered, IsReadable, openai_response-gathered}
use glitchgate.Translate.Delegations.{
  anthropic_to_openai, openai_to_anthropic, openai_to_anthropic_response,
}
use glitchgate.Translate.Delegations.Budgets.{IsBudget, IsRoom, openai_to_anthropic-IsBudget}
use glitchgate.Translate.Delegations.Counts.{whole_usage, cached_counted_twice}
use glitchgate.Translate.Delegations.Sounds.{openai_to_anthropic_answers}

abbrev reread : Anthropic.Content → Option (List ContentBlock)
reread (Anthropic.Content.decoded v) = none
reread (Anthropic.Content.blocks bs) = some bs

-- A package json that writes a string as it stands.
abbrev write_string : Any → Option Text
write_string (string s) = some s
write_string _ = none

abbrev plain_json : Json
plain_json = record {
  marshal = write_string;
  unmarshal = λ s. some (string s);
  string_again = λ v. none;
  strings_again = λ v. none;
}

abbrev picture : CanonicalBlock
picture = block_image (record { media_type = bytes "i/p"; image_data = bytes "iVBO"; url = [] })

abbrev paper : CanonicalBlock
paper = block_document (record {
  media_type = bytes "a/p";
  doc_data = bytes "JVBE";
  url = [];
  filename = bytes "a.pdf";
})

abbrev question : CanonicalMessage
question = record {
  role = "user";
  blocks =
      block_tool_result (bytes "c1") (bytes "3") ∷ (block_text (bytes "and?") ∷ (picture ∷ []));
}

question-IsCarried : All IsCarried question.blocks
unfolding IsCarried IsToolId is_allowed
question-IsCarried = ((omega arith, (refl, (refl, tt))), (tt, (inl (refl, refl), tt)))

question-IsReread : IsReread reread question.blocks
unfolding IsReread
question-IsReread = refl

abbrev asked : CanonicalRequest
asked = record {
  model = bytes "claude";
  system = bytes "Be brief.";
  messages = question ∷ [];
  max_tokens = some (pos 8000);
  temperature = some "0.5";
  top_p = none;
  top_k = none;
  stop_sequences = bytes "END" ∷ [];
  stream = true;
  tools = record { name = bytes "add"; description = []; parameters = object no_fields } ∷ [];
  tool_choice = some (record { mode = choice_specific; function_name = bytes "add" });
  thinking = some (record { enabled = true; budget_tokens = pos 1500; effort = "low" });
}

asked-IsKept : IsKept asked
unfolding IsKept
asked-IsKept =
    ((question-IsCarried, tt), ((λ e. ground (arith, e)), tt), (7999, refl), tt, (1499, refl))

canonical-anthropic_request_example :
    (canonical_to_anthropic_request (some asked) >>= λ req.
    anthropic_request_to_canonical reread (some req))
    ≡ done asked
canonical-anthropic_request_example =
    canonical-anthropic_request reread asked (question-IsReread, tt) asked-IsKept

spell-canonical_user_to_openai_example :
    spell_messages (canonical_user_to_openai question) ≡ spell_blocks question.blocks
spell-canonical_user_to_openai_example = spell-canonical_user_to_openai question

abbrev gallery : CanonicalMessage
gallery = record {
  role = "user";
  blocks = block_text (bytes "Compare:") ∷ (picture ∷ (paper ∷ []));
}

gallery-IsShown : All IsShown gallery.blocks
unfolding IsShown same_bytes
gallery-IsShown = (
  refl,
  (
    inl ((refl, (refl, (refl, (refl, tt)))), refl, refl),
    (((refl, (refl, (refl, (refl, tt)))), refl, refl), tt),
  ),
)

user_message_arrives_example :
    each (λ msg. openai_user_message_to_canonical (arrived msg)) (canonical_user_to_openai gallery)
    ≡ done (gallery ∷ [])
user_message_arrives_example = user_message_arrives gallery refl gallery-IsShown refl

abbrev wanted : ChatCompletionRequest
wanted = record {
  model = bytes "gpt";
  messages =
      record (chat_message "user") {
        content = decoded (
            array (
              item (object (field "type" (string (bytes "input_audio")) no_fields)) (
                item
                  (object (
                    field "type" (string (bytes "text"))
                      (field "text" (string (bytes "hi")) no_fields)))
                  no_items)));
      }
      ∷ [];
  max_tokens = some (pos 1000);
  temperature = none;
  top_p = none;
  stream = false;
  stop = string (bytes "END");
  tools = [];
  tool_choice = string (bytes "auto");
  include_usage = none;
  reasoning_effort = some "high";
}

abbrev read_wanted : CanonicalRequest
read_wanted = record {
  model = bytes "gpt";
  system = [];
  messages = record { role = "user"; blocks = block_text (bytes "hi") ∷ [] } ∷ [];
  max_tokens = some (pos 1000);
  temperature = none;
  top_p = none;
  top_k = none;
  stop_sequences = bytes "END" ∷ [];
  stream = false;
  tools = [];
  tool_choice = some (record { mode = choice_auto; function_name = [] });
  thinking = some (record { enabled = true; budget_tokens = pos 0; effort = "high" });
}

abbrev sent : MessagesRequest
sent = record {
  model = bytes "gpt";
  max_tokens = pos 1000;
  messages =
      record { role = "user"; content = Anthropic.Content.decoded (string (bytes "hi")) } ∷ [];
  system = null;
  stream = false;
  temperature = none;
  top_p = none;
  top_k = none;
  stop_sequences = bytes "END" ∷ [];
  tools = [];
  tool_choice = object (field "type" (string (bytes "auto")) no_fields);
  thinking = some (record { type = "enabled"; budget_tokens = pos 999 });
}

reads_wanted : openai_request_to_canonical plain_json (some wanted) ≡ done read_wanted
unfolding openai_request_to_canonical
reads_wanted = refl

sends_wanted : openai_to_anthropic plain_json (some wanted) ≡ done sent
unfolding openai_to_anthropic
sends_wanted = refl

wanted-IsRoom : IsRoom (some (pos 1000))
unfolding IsRoom
wanted-IsRoom = omega arith

openai_to_anthropic-IsBudget_example : (pos 1000 ≡ pos 1000) × IsBudget (pos 1000) sent.thinking
openai_to_anthropic-IsBudget_example =
    openai_to_anthropic-IsBudget plain_json wanted sent sends_wanted wanted-IsRoom

openai_to_anthropic_answers_example :
    (r : MessagesRequest) × (openai_to_anthropic plain_json (some wanted) ≡ done r)
    × (r.messages ≡ map canonical_message_to_anthropic read_wanted.messages)
openai_to_anthropic_answers_example =
    openai_to_anthropic_answers plain_json wanted read_wanted reads_wanted

abbrev reply : CanonicalResponse
reply = record {
  id = bytes "m1";
  model = bytes "claude";
  stop_reason = tool_use;
  raw_stop_reason = none;
  content =
      block_text (bytes "So ")
      ∷ (block_tool_use (bytes "c1") (bytes "add") (string (bytes "1,2"))
          ∷ (block_text (bytes "on.") ∷ (block_refusal (bytes "no") ∷ [])));
  usage = record {
    input_tokens = 1;
    output_tokens = 2;
    cache_creation_input_tokens = 0;
    cache_read_input_tokens = 0;
    reasoning_tokens = 0;
  };
}

reply-IsReadable : All (IsReadable plain_json) reply.content
unfolding IsReadable
reply-IsReadable = (tt, (refl, (tt, (tt, tt))))

openai_response-gathered_example :
    let back =
      openai_response_to_canonical plain_json
        (canonical_to_openai_response plain_json 7 reply (bytes "gpt")) in
    (back.id ≡ bytes "m1") × (back.stop_reason ≡ tool_use) × (back.content ≡ gathered reply.content)
openai_response-gathered_example =
    openai_response-gathered plain_json 7 reply (bytes "gpt") reply-IsReadable refl

gathers_reply :
    gathered reply.content
    ≡ block_text (bytes "So on.")
      ∷ (block_refusal (bytes "no")
          ∷ (block_tool_use (bytes "c1") (bytes "add") (string (bytes "1,2")) ∷ []))
unfolding gathered
gathers_reply = refl

abbrev spent : Usage
spent = record {
  prompt_tokens = 100;
  completion_tokens = 10;
  total_tokens = 110;
  cached_tokens = some 80;
  reasoning_tokens = none;
}

abbrev answered : ChatCompletionResponse
answered = record {
  id = bytes "chatcmpl-m1";
  object = "chat.completion";
  created = 7;
  model = bytes "gpt";
  choices = [];
  usage = some spent;
}

cached_counted_twice_example :
    (anthropic_to_openai plain_json 7
      (openai_to_anthropic_response plain_json answered (bytes "gpt"))
      (bytes "gpt")).usage
    ≡ some (whole_usage 100 80 10 none)
cached_counted_twice_example =
    cached_counted_twice plain_json 7 answered spent (bytes "gpt") (bytes "gpt") refl (omega arith)
