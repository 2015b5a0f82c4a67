-- ===== src/Stream/Synthesis.antt =====
-- internal/proxy/stream_synth.go, SynthesizeAnthropicSSE: the events of a whole response, for a
-- client that asked for a stream. What package json makes of a value is a parameter, and marshalling
-- does not fail.
use glitchgate.Prelude.{
  ℕ, suc, Bool, true, false, Option, List, [], ◌∷◌, ◌++◌, String, ◌==◌, if◌then◌else◌, bytes,
}
use glitchgate.Stream.{TokenCounts, no_tokens, StreamResult, Usage}

-- anthropic.ContentBlock, as far as a response's stream has it.
pub record ContentBlock (Json : Type 0) : Type 0 where
  pub type : String
  pub text : String
  pub id : String
  pub name : String
  pub input : Json

pub record MessagesResponse (Json : Type 0) : Type 0 where
  pub id : String
  pub model : String
  pub content : List (ContentBlock Json)
  pub stop_reason : Option String
  pub stop_sequence : Option String
  pub usage : Usage

pub data StartBlock : Type 0 where
  start_tool : String → String → StartBlock
  start_other : String → StartBlock

-- A tool's input is given as the bytes of its JSON.
pub data Delta : Type 0 where
  input_json_delta : List ℕ → Delta
  text_delta : String → Delta

pub data Event : Type 0 where
  message_start : String → String → Usage → Event
  ping : Event
  content_block_start : ℕ → StartBlock → Event
  content_block_delta : ℕ → Delta → Event
  content_block_stop : ℕ → Event
  message_delta : Option String → Option String → Usage → Event
  message_stop : Event

abbrev pub event_type : Event → String
event_type (message_start id model u) = "message_start"
event_type ping = "ping"
event_type (content_block_start i b) = "content_block_start"
event_type (content_block_delta i d) = "content_block_delta"
event_type (content_block_stop i) = "content_block_stop"
event_type (message_delta reason sequence u) = "message_delta"
event_type message_stop = "message_stop"

module _ {Json : Type 0} (marshal : Json → List ℕ) where
  abbrev pub start_block : ContentBlock Json → StartBlock
  start_block b = if b.type == "tool_use" then start_tool b.id b.name else start_other b.type

  abbrev pub delta_of : ContentBlock Json → Delta
  delta_of b =
      if b.type == "tool_use" then input_json_delta (marshal b.input) else text_delta b.text

  -- The loop over resp.Content, from an index on.
  unfoldable pub block_events : ℕ → List (ContentBlock Json) → List Event
  block_events i [] = []
  block_events i (b ∷ bs) =
      content_block_start i (start_block b)
      ∷ (content_block_delta i (delta_of b) ∷ (content_block_stop i ∷ block_events (suc i) bs))

  -- The events in the order in which they are emitted.
  unfoldable pub anthropic_events : MessagesResponse Json → List Event
  unfolding block_events
  anthropic_events resp =
      message_start resp.id resp.model (record resp.usage { output_tokens = 0 })
      ∷ (ping
          ∷ (block_events 0 resp.content
              ++ message_delta resp.stop_reason resp.stop_sequence (record {
                input_tokens = 0;
                output_tokens = resp.usage.output_tokens;
                cache_creation_input_tokens = 0;
                cache_read_input_tokens = 0;
              })
                ∷ (message_stop ∷ [])))

module _ (payload : Event → List ℕ) where
  abbrev pub event_text : Event → List ℕ
  event_text e =
      bytes "event: "
      ++ (bytes (event_type e) ++ (10 ∷ (bytes "data: " ++ (payload e ++ (10 ∷ (10 ∷ []))))))

-- emit, event by event, until a write fails; `write_ok n` is the n-th write and flush. The other
-- syntheses' writeChunk and writeEvent are the same, with another text.
unfoldable pub emit_events {ℓ} :
    {E : Type ℓ} → (E → List ℕ) → (ℕ → Bool) → ℕ → List ℕ → List E → List ℕ × Bool
emit_events text write_ok n captured [] = (captured, true)
emit_events text write_ok n captured (e ∷ es) =
    let rest = emit_events text write_ok (suc n) (captured ++ text e) es in
    if write_ok n then rest else (captured ++ text e, false)

abbrev pub response_counts : Usage → TokenCounts
response_counts u = record {
  input_tokens = u.input_tokens;
  output_tokens = u.output_tokens;
  cache_creation_input_tokens = u.cache_creation_input_tokens;
  cache_read_input_tokens = u.cache_read_input_tokens;
  reasoning_tokens = 0;
}

module _ {Json : Type 0} (marshal : Json → List ℕ) (payload : Event → List ℕ) where
  -- The Boolean says that no write failed; where one did, no tokens are counted.
  unfoldable pub synthesize_anthropic_sse : (ℕ → Bool) → MessagesResponse Json → StreamResult × Bool
  unfolding anthropic_events emit_events
  synthesize_anthropic_sse write_ok resp =
      let emitted =
        emit_events (event_text payload) write_ok 0 [] (anthropic_events marshal resp) in
      (
        record {
          body = emitted.0;
          counts = if emitted.1 then response_counts resp.usage else no_tokens;
        },
        emitted.1,
      )
