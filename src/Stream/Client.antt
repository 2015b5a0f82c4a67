-- ===== src/Stream/Client.antt =====
-- internal/proxy/stream_synth.go, SynthesizeAnthropicSSE: a client of the events, as the API's
-- documentation describes it. It takes a message's blocks one after another, each opened, filled by
-- deltas of its kind and closed under the next index, and refuses all else.
use glitchgate.Prelude.{
  ℕ, Option, none, some, List, [], ◌∷◌, ◌++◌, String, ◌==◌, if◌then◌else◌, bytes, nat_eq, length,
}
use glitchgate.Stream.{Usage}
use glitchgate.Stream.Synthesis.{
  StartBlock, start_tool, start_other, Delta, input_json_delta, text_delta, Event, message_start,
  ping, content_block_start, content_block_delta, content_block_stop, message_delta, message_stop,
}

-- What a block is to the client, and the bytes or the codes of what filled it.
pub data Kind : Type 0 where
  tool_kind : String → String → Kind
  text_kind : Kind
  other_kind : String → Kind

pub record Part : Type 0 where
  pub kind : Kind
  pub content : List ℕ

pub record Message : Type 0 where
  pub id : String
  pub model : String
  pub parts : List Part
  pub input_usage : Usage

pub data Client : Type 0 where
  expecting : Client
  between : Message → Client
  finishing : Message → Option String → Option String → ℕ → Client
  ended : Message → Option String → Option String → ℕ → Client
  filling : Message → Part → Client

abbrev pub kind_of : StartBlock → Kind
kind_of (start_tool id name) = tool_kind id name
kind_of (start_other type) = if type == "text" then text_kind else other_kind type

-- What a delta adds to a block of its kind: a block of another kind, as of thoughts, has deltas of
-- its own, and takes neither of these.
abbrev pub addition : Kind → Delta → Option (List ℕ)
addition (tool_kind id name) (input_json_delta json) = some json
addition text_kind (text_delta text) = some (bytes text)
addition _ _ = none

abbrev pub filled : Message → Part → Option (List ℕ) → Option Client
filled m p none = none
filled m p (some more) = some (filling m (record p { content = p.content ++ more }))

unfoldable pub client_step : Client → Event → Option Client
client_step expecting (message_start id model u) =
    some (between (record { id = id; model = model; parts = []; input_usage = u }))
client_step (between m) ping = some (between m)
client_step (between m) (content_block_start i b) =
    if nat_eq i (length m.parts)
    then some (filling m (record { kind = kind_of b; content = [] }))
    else none
client_step (filling m p) (content_block_delta i d) =
    if nat_eq i (length m.parts) then filled m p (addition p.kind d) else none
client_step (filling m p) (content_block_stop i) =
    if nat_eq i (length m.parts)
    then some (between (record m { parts = m.parts ++ p ∷ [] }))
    else none
client_step (between m) (message_delta reason sequence u) =
    some (finishing m reason sequence u.output_tokens)
client_step (finishing m reason sequence n) message_stop = some (ended m reason sequence n)
client_step _ _ = none

unfoldable pub client_run : Client → List Event → Option Client
unfolding client_step
client_run c [] = some c
client_run c (e ∷ es) = elim (client_step c e) [ none ↦ none | some d ↦ client_run d es ]
