-- ===== src/Stream/Outputs.antt =====
-- internal/proxy/stream_synth.go, SynthesizeResponsesSSE: the events of a whole response of the
-- Responses API. What package json makes of an event is a parameter, and marshalling does not fail.
use glitchgate.Prelude.{
  ℕ, suc, Bool, Option, none, some, List, [], ◌∷◌, ◌++◌, String, ◌==◌, if◌then◌else◌, bytes,
}
use glitchgate.Stream.{TokenCounts, no_tokens, StreamResult, contains, net_input, set_reasoning}
use glitchgate.Stream.Synthesis.{emit_events}

pub record OutputContent : Type 0 where
  pub type : String
  pub text : String

-- openai.OutputItem, as far as the synthesis reads it; an item is also sent whole, with `rest` for
-- its other fields.
pub record OutputItem (Rest : Type 0) : Type 0 where
  pub type : String
  pub id : String
  pub role : String
  pub content : List OutputContent
  pub rest : Rest

pub record ResponsesUsage : Type 0 where
  pub input_tokens : ℕ
  pub output_tokens : ℕ
  pub cached_tokens : Option ℕ
  pub reasoning_tokens : Option ℕ

pub record ResponsesResponse (Rest : Type 0) : Type 0 where
  pub id : String
  pub model : String
  pub status : String
  pub output : List (OutputItem Rest)
  pub usage : Option ResponsesUsage

-- The item of an added event: a message in progress has its identifier and role only.
pub data Added (Rest : Type 0) : Type 0 where
  in_progress : String → String → Added Rest
  whole : OutputItem Rest → Added Rest

pub data OutputEvent (Rest : Type 0) : Type 0 where
  created : String → String → OutputEvent Rest
  item_added : ℕ → Added Rest → OutputEvent Rest
  part_added : String → ℕ → ℕ → OutputEvent Rest
  text_delta text_done part_done : String → ℕ → ℕ → String → OutputEvent Rest
  item_done : ℕ → OutputItem Rest → OutputEvent Rest
  completed : ResponsesResponse Rest → OutputEvent Rest
  done_line : OutputEvent Rest

module _ {Rest : Type 0} where
  -- The loop over item.Content, from an index on: what is not output text is left out.
  unfoldable pub content_events : String → ℕ → ℕ → List OutputContent → List (OutputEvent Rest)
  content_events id i k [] = []
  content_events id i k (c ∷ cs) =
      let rest = content_events id i (suc k) cs in
      if c.type == "output_text"
      then part_added id i k
        ∷ (text_delta id i k c.text ∷ (text_done id i k c.text ∷ (part_done id i k c.text ∷ rest)))
      else rest

  unfoldable pub item_events : ℕ → OutputItem Rest → List (OutputEvent Rest)
  unfolding content_events
  item_events i item =
      if item.type == "message"
      then item_added i (in_progress item.id item.role)
        ∷ (content_events item.id i 0 item.content ++ item_done i item ∷ [])
      else if item.type == "function_call"
      then item_added i (whole item) ∷ (item_done i item ∷ [])
      else []

  -- The loop over resp.Output, from an index on.
  unfoldable pub output_events : ℕ → List (OutputItem Rest) → List (OutputEvent Rest)
  unfolding item_events
  output_events i [] = []
  output_events i (item ∷ items) = item_events i item ++ output_events (suc i) items

  unfoldable pub responses_events : ResponsesResponse Rest → List (OutputEvent Rest)
  unfolding output_events
  responses_events resp =
      created (if resp.id == "" then "resp_gemini" else resp.id)
        (if resp.model == "" then "unknown" else resp.model)
      ∷ (output_events 0 resp.output ++ completed resp ∷ (done_line ∷ []))

  -- A response that is nil
  abbrev pub or_completed : Option (ResponsesResponse Rest) → ResponsesResponse Rest
  or_completed (some resp) = resp
  or_completed none = record {
    id = "resp_gemini";
    model = "";
    status = "completed";
    output = [];
    usage = none;
  }

abbrev or_zero : Option ℕ → ℕ
or_zero none = 0
or_zero (some n) = n

abbrev pub usage_counts : Option ResponsesUsage → TokenCounts
usage_counts none = no_tokens
usage_counts (some u) = record {
  input_tokens = u.input_tokens;
  output_tokens = u.output_tokens;
  cache_creation_input_tokens = 0;
  cache_read_input_tokens = or_zero u.cached_tokens;
  reasoning_tokens = or_zero u.reasoning_tokens;
}

module _ {Rest : Type 0} (output_text : OutputEvent Rest → List ℕ) where
  -- `output_text` is an event's text, of its type and payload.
  unfoldable pub synthesize_responses_sse :
      (ℕ → Bool) → Option (ResponsesResponse Rest) → StreamResult × Bool
  unfolding responses_events emit_events
  synthesize_responses_sse write_ok given =
      let resp = or_completed given in
      let emitted = emit_events output_text write_ok 0 [] (responses_events resp) in
      (
        record {
          body = emitted.0;
          counts = if emitted.1 then usage_counts resp.usage else no_tokens;
        },
        emitted.1,
      )

-- What extractResponsesTokens decodes: the type, and the response's usage where both are there.
pub record CompletedEvent : Type 0 where
  pub type : String
  pub usage : Option ResponsesUsage

abbrev pub completed_counts : Option ResponsesUsage → TokenCounts → TokenCounts
completed_counts none r = r
completed_counts (some u) r = set_reasoning u.reasoning_tokens (
    net_input u.cached_tokens
      (record r { input_tokens = u.input_tokens; output_tokens = u.output_tokens }))

unfoldable pub extract_responses_tokens :
    (List ℕ → Option CompletedEvent) → List ℕ → TokenCounts → TokenCounts
unfolding contains
extract_responses_tokens decode payload r =
    if contains payload (bytes "response.completed")
    then elim (decode payload) [
      | none ↦ r
      | some e ↦ if e.type == "response.completed" then completed_counts e.usage r else r
    ]
    else r
