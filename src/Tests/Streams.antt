-- ===== src/Tests/Streams.antt =====
-- Runs of internal/proxy/stream_synth.go and stream_relay.go.
use glitchgate.Prelude.{
  ℕ, Bool, true, false, Option, none, some, List, [], ◌∷◌, String, ◌≡◌, refl, bytes, same_bytes,
  if◌then◌else◌, All,
}
use glitchgate.Stream.{
  Usage, Envelope, contains, sanitize_sse_line, extract_anthropic_tokens, relay_sse_stream,
}
use glitchgate.Stream.Synthesis.{
  MessagesResponse, ContentBlock, Event, event_type, block_events, anthropic_events,
  synthesize_anthropic_sse,
}
use glitchgate.Stream.Client.{expecting, client_run}
use glitchgate.Stream.Assembly.{all_carried, received, client_run-anthropic_events}
use glitchgate.Stream.Relaying.{stream_lines, Encodes, relay-synthesize}
use glitchgate.Stream.Chunks.{ToolCall, ChatResponse, openai_chunks}
use glitchgate.Stream.Reader
use glitchgate.Stream.Reader.{unopened, calls_in, reader_run, reader_run-openai_chunks}
use glitchgate.Stream.Outputs.{OutputItem, ResponsesResponse, responses_events}
use glitchgate.Stream.Listener

abbrev used : Usage
used = record {
  input_tokens = 120;
  output_tokens = 7;
  cache_creation_input_tokens = 0;
  cache_read_input_tokens = 80;
}

abbrev blocks : List (ContentBlock Bool)
blocks =
    (record { type = "text"; text = "hi"; id = ""; name = ""; input = false })
    ∷ ((record { type = "tool_use"; text = ""; id = "t1"; name = "now"; input = true }) ∷ [])

abbrev reply : MessagesResponse Bool
reply = record {
  id = "m";
  model = "sonnet";
  content = blocks;
  stop_reason = some "tool_use";
  stop_sequence = none;
  usage = used;
}

abbrev json : Bool → List ℕ
json b = if b then bytes "{}" else bytes "null"

-- The payloads of this reply, by the type only, and what they are decoded to.
abbrev payload : Event → List ℕ
payload e = bytes (event_type e)

abbrev plain : String → Envelope
plain type = record { type = type; message_usage = none; usage = none }

abbrev start_usage : Usage
start_usage = record used { output_tokens = 0 }

abbrev end_usage : Usage
end_usage = record {
  input_tokens = 0;
  output_tokens = 7;
  cache_creation_input_tokens = 0;
  cache_read_input_tokens = 0;
}

abbrev decode : List ℕ → Option Envelope
decode s =
    if same_bytes s (bytes "message_start")
    then some (record { type = "message_start"; message_usage = some start_usage; usage = none })
    else if same_bytes s (bytes "message_delta")
    then some (record { type = "message_delta"; message_usage = none; usage = some end_usage })
    else if same_bytes s (bytes "ping")
    then some (plain "ping")
    else if same_bytes s (bytes "message_stop")
    then some (plain "message_stop")
    else if same_bytes s (bytes "content_block_start")
    then some (plain "content_block_start")
    else if same_bytes s (bytes "content_block_delta")
    then some (plain "content_block_delta")
    else if same_bytes s (bytes "content_block_stop")
    then some (plain "content_block_stop")
    else none

client_run-anthropic_events_example :
    client_run expecting (anthropic_events json reply)
    ≡ (if all_carried json blocks then some (received json reply) else none)
client_run-anthropic_events_example = client_run-anthropic_events json reply

encoded : All (Encodes payload decode) (anthropic_events json reply)
unfolding anthropic_events block_events Encodes contains sanitize_sse_line same_bytes
encoded = (
  (refl, refl, refl),
  (
    (refl, refl, refl),
    (
      (refl, refl, refl),
      (
        (refl, refl, refl),
        (
          (refl, refl, refl),
          (
            (refl, refl, refl),
            (
              (refl, refl, refl),
              ((refl, refl, refl), ((refl, refl, refl), ((refl, refl, refl), tt))),
            ),
          ),
        ),
      ),
    ),
  ),
)

relay-synthesize_example :
    relay_sse_stream
      (extract_anthropic_tokens decode)
      (λ n. true)
      (stream_lines payload (anthropic_events json reply))
    ≡ synthesize_anthropic_sse json payload (λ n. true) reply
relay-synthesize_example =
    relay-synthesize payload decode (λ n. true) (λ n. refl) json reply encoded

abbrev call : ToolCall
call = record { index = none; id = "call_1"; type = "function"; name = "now"; arguments = "{}" }

abbrev chat : ChatResponse
chat = record {
  id = "c";
  created = 5;
  model = "m";
  choices =
      (record {
        message = some (record { content = some "hi"; tool_calls = call ∷ [] });
        finish_reason = some "tool_calls";
      })
      ∷ [];
  usage = none;
}

reader_run-openai_chunks_example :
    (reader_run unopened (openai_chunks chat)
      ≡ some (Reader.ended ("hi" ∷ []) [] (some "tool_calls")))
    × (calls_in (openai_chunks chat) ≡ call ∷ [])
reader_run-openai_chunks_example = reader_run-openai_chunks chat (refl, tt)

abbrev said : OutputItem ℕ
said = record {
  type = "message";
  id = "i";
  role = "assistant";
  content =
      (record { type = "refusal"; text = "no" })
      ∷ ((record { type = "output_text"; text = "yes" }) ∷ []);
  rest = 0;
}

abbrev thought : OutputItem ℕ
thought = record { type = "reasoning"; id = "r"; role = ""; content = []; rest = 1 }

abbrev answer : ResponsesResponse ℕ
answer = record {
  id = "x";
  model = "";
  status = "completed";
  output = thought ∷ (said ∷ []);
  usage = none;
}

listener_run-responses_events_example :
    Listener.listener_run Listener.silent (responses_events answer)
    ≡ some
        (Listener.ended ((record { index = 1; item = said; parts = (1, "yes") ∷ [] }) ∷ []) answer)
listener_run-responses_events_example = Listener.listener_run-responses_events answer
