-- ===== src/Stream/Chunks.antt =====
-- internal/proxy/stream_synth.go, SynthesizeOpenAISSE: the chunks of a whole response. What package
-- json makes of a chunk and the clock are parameters, and marshalling does not fail.
use glitchgate.Prelude.{
  ℕ, Bool, Option, none, some, List, [], ◌∷◌, ◌++◌, String, ◌==◌, nat_eq, if◌then◌else◌, bytes,
}
use glitchgate.Stream.{TokenCounts, no_tokens, StreamResult, OpenaiUsage}
use glitchgate.Stream.Synthesis.{emit_events}

-- openai.ToolCall; the index is that of a streamed call.
pub record ToolCall : Type 0 where
  pub index : Option ℕ
  pub id : String
  pub type : String
  pub name : String
  pub arguments : String

-- openai.ChatMessage, as far as the synthesis reads it: the content where it is a string.
pub record ChatMessage : Type 0 where
  pub content : Option String
  pub tool_calls : List ToolCall

pub record Choice : Type 0 where
  pub message : Option ChatMessage
  pub finish_reason : Option String

pub record ChatResponse : Type 0 where
  pub id : String
  pub created : ℕ
  pub model : String
  pub choices : List Choice
  pub usage : Option OpenaiUsage

-- What one chunk's choice holds, and the line that ends the stream.
pub data Chunk : Type 0 where
  role_chunk : Chunk
  content_chunk : String → Chunk
  tool_chunk : ToolCall → Chunk
  finish_chunk : Option String → Chunk
  done_line : Chunk

-- The fields that all chunks of a stream share.
pub record ChunkHeader : Type 0 where
  pub id : String
  pub created : ℕ
  pub model : String

abbrev pub or_zero : Option ℕ → ℕ
or_zero none = 0
or_zero (some n) = n

abbrev pub usage_counts : Option OpenaiUsage → TokenCounts
usage_counts none = no_tokens
usage_counts (some u) = record {
  input_tokens = u.prompt_tokens;
  output_tokens = u.completion_tokens;
  cache_creation_input_tokens = 0;
  cache_read_input_tokens = or_zero u.cached_tokens;
  reasoning_tokens = or_zero u.detailed_reasoning;
}

-- `now` is the clock's reading, where the response has none.
abbrev pub chunk_header : ℕ → ChatResponse → ChunkHeader
chunk_header now resp = record {
  id = if resp.id == "" then "chatcmpl-gemini" else resp.id;
  created = if nat_eq resp.created 0 then now else resp.created;
  model = if resp.model == "" then "unknown" else resp.model;
}

-- A response that is nil
abbrev pub or_empty : ℕ → Option ChatResponse → ChatResponse
or_empty now (some resp) = resp
or_empty now none = record {
  id = "chatcmpl-gemini";
  created = now;
  model = "";
  choices = [];
  usage = none;
}

abbrev pub or_blank : Option ChatMessage → ChatMessage
or_blank (some m) = m
or_blank none = record { content = none; tool_calls = [] }

abbrev pub first_message : List Choice → ChatMessage
first_message [] = or_blank none
first_message (c ∷ cs) = or_blank c.message

abbrev pub first_reason : List Choice → Option String
first_reason [] = none
first_reason (c ∷ cs) = c.finish_reason

abbrev pub content_chunks : Option String → List Chunk
content_chunks none = []
content_chunks (some text) = if text == "" then [] else content_chunk text ∷ []

abbrev pub tool_chunks : List ToolCall → List Chunk
tool_chunks [] = []
tool_chunks (c ∷ cs) = tool_chunk c ∷ tool_chunks cs

unfoldable pub openai_chunks : ChatResponse → List Chunk
openai_chunks resp =
    let message = first_message resp.choices in
    role_chunk
    ∷ (content_chunks message.content
        ++ (tool_chunks message.tool_calls
            ++ finish_chunk (first_reason resp.choices) ∷ (done_line ∷ [])))

module _ (chunk_json : ChunkHeader → Chunk → List ℕ) where
  abbrev pub chunk_text : ChunkHeader → Chunk → List ℕ
  chunk_text h done_line = bytes "data: [DONE]" ++ (10 ∷ (10 ∷ []))
  chunk_text h c = bytes "data: " ++ (chunk_json h c ++ (10 ∷ (10 ∷ [])))

  unfoldable pub synthesize_openai_sse : ℕ → (ℕ → Bool) → Option ChatResponse → StreamResult × Bool
  unfolding openai_chunks emit_events
  synthesize_openai_sse now write_ok given =
      let resp = or_empty now given in
      let emitted =
        emit_events (chunk_text (chunk_header now resp)) write_ok 0 [] (openai_chunks resp) in
      (
        record {
          body = emitted.0;
          counts = if emitted.1 then usage_counts resp.usage else no_tokens;
        },
        emitted.1,
      )
