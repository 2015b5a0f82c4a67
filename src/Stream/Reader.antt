-- ===== src/Stream/Reader.antt =====
-- internal/proxy/stream_synth.go, SynthesizeOpenAISSE: what a client makes of the chunks. The reader
-- is the one of the repository's own readers of the format (internal/translate/stream_anthropic.go,
-- internal/web/conversation/conversation.go): the role comes first, then texts and the parts of tool
-- calls, each put together under its index, then the reason for the end, and the last line.
use Prim.Native.String.{◌++◌ as join}
use mathlib.Core.List.{append-nil}
use glitchgate.Prelude.{
  ℕ, nat_eq, All, Option, none, some, List, [], ◌∷◌, ◌++◌, String, ◌==◌, if◌then◌else◌, ◌≡◌, refl,
  ap, ◌∙◌, Bool-cases, inl, inr,
}
use glitchgate.Stream.Chunks.{
  ToolCall, ChatResponse, Chunk, role_chunk, content_chunk, tool_chunk, finish_chunk, done_line,
  first_message, first_reason, content_chunks, tool_chunks, openai_chunks,
}

-- The tool calls so far, each under its index.
abbrev pub Calls : Type 0
Calls = List (ℕ × ToolCall)

abbrev filled_in : String → String → String
filled_in old new = if new == "" then old else new

-- A further part of a call that has begun.
abbrev continued : ToolCall → ToolCall → ToolCall
continued old new = record old {
  id = filled_in old.id new.id;
  name = filled_in old.name new.name;
  arguments = join old.arguments new.arguments;
}

unfoldable pub put_call : ℕ → ToolCall → Calls → Calls
put_call i call [] = (i, call) ∷ []
put_call i call ((j, old) ∷ calls) =
    let rest = put_call i call calls in
    if nat_eq j i then (j, continued old call) ∷ calls else (j, old) ∷ rest

-- A call without an index belongs nowhere and is passed over.
unfoldable pub take_call : ToolCall → Calls → Calls
unfolding put_call
take_call call calls = elim call.index [ none ↦ calls | some i ↦ put_call i call calls ]

pub data Reader : Type 0 where
  unopened : Reader
  reading : List String → Calls → Reader
  stopping ended : List String → Calls → Option String → Reader

-- The text that is not empty, if there is one.
abbrev pub shown : Option String → List String
shown none = []
shown (some text) = if text == "" then [] else text ∷ []

unfoldable pub reader_step : Reader → Chunk → Option Reader
reader_step unopened role_chunk = some (reading [] [])
reader_step (reading texts calls) (content_chunk text) = some (reading (texts ++ text ∷ []) calls)
reader_step (reading texts calls) (tool_chunk call) = some (reading texts (take_call call calls))
reader_step (reading texts calls) (finish_chunk reason) = some (stopping texts calls reason)
reader_step (stopping texts calls reason) done_line = some (ended texts calls reason)
reader_step _ _ = none

unfoldable pub reader_run : Reader → List Chunk → Option Reader
unfolding reader_step
reader_run r [] = some r
reader_run r (c ∷ cs) = elim (reader_step r c) [ none ↦ none | some s ↦ reader_run s cs ]

content_run :
    (content : Option String) (cs : List Chunk)
    → reader_run (reading [] []) (content_chunks content ++ cs)
      ≡ reader_run (reading (shown content) []) cs
unfolding reader_run reader_step
content_run none cs = refl
content_run (some text) cs = elim (Bool-cases (text == "")) [
  | inl e ↦ rw (e) refl
  | inr e ↦ rw (e) refl
]

tools_run :
    (texts : List String) (calls : Calls) (more : List ToolCall) (cs : List Chunk)
    → All (λ c. c.index ≡ none) more
    → reader_run (reading texts calls) (tool_chunks more ++ cs)
      ≡ reader_run (reading texts calls) cs
unfolding reader_run reader_step take_call
tools_run texts calls [] cs a = refl
tools_run texts calls (c ∷ more) cs (n, a) =
    ap (λ x. reader_run (reading texts x) (tool_chunks more ++ cs)) (rw (take_call, n) refl)
    ∙ tools_run texts calls more cs a

-- The tool calls that the chunks have.
unfoldable pub calls_in : List Chunk → List ToolCall
calls_in [] = []
calls_in (tool_chunk call ∷ cs) = call ∷ calls_in cs
calls_in (role_chunk ∷ cs) = calls_in cs
calls_in (content_chunk text ∷ cs) = calls_in cs
calls_in (finish_chunk reason ∷ cs) = calls_in cs
calls_in (done_line ∷ cs) = calls_in cs

content_calls :
    (content : Option String) (cs : List Chunk)
    → calls_in (content_chunks content ++ cs) ≡ calls_in cs
unfolding calls_in
content_calls none cs = refl
content_calls (some text) cs = elim (Bool-cases (text == "")) [
  | inl e ↦ rw (e) refl
  | inr e ↦ rw (e) refl
]

tool_calls_lem :
    (calls : List ToolCall) (cs : List Chunk)
    → calls_in (tool_chunks calls ++ cs) ≡ calls ++ calls_in cs
unfolding calls_in
tool_calls_lem [] cs = refl
tool_calls_lem (c ∷ calls) cs = ap (λ xs. c ∷ xs) (tool_calls_lem calls cs)

-- A reader that takes the chunks of a response ends with the text of its first choice's message,
-- unless it is empty, and the choice's reason, but with none of the message's tool calls, if these
-- carry no index, as those of a response that is not streamed: the chunks have all of them, in their
-- order, each without an index.
pub reader_run-openai_chunks :
    (resp : ChatResponse)
    → All (λ c. c.index ≡ none) (first_message resp.choices).tool_calls
    → (reader_run unopened (openai_chunks resp)
        ≡ some (ended (shown (first_message resp.choices).content) [] (first_reason resp.choices)))
      × (calls_in (openai_chunks resp) ≡ (first_message resp.choices).tool_calls)
unfolding openai_chunks reader_run reader_step calls_in
reader_run-openai_chunks resp a =
    let message = first_message resp.choices in
    (
      content_run message.content _ ∙ tools_run (shown message.content) [] message.tool_calls _ a,
      content_calls message.content _
          ∙ tool_calls_lem message.tool_calls _
          ∙ append-nil message.tool_calls,
    )
