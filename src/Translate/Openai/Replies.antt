-- ===== src/Translate/Openai/Replies.antt =====
-- internal/translate/canonical_openai.go: what a reader of OpenAI's form of a response finds.
use glitchgate.Prelude.{
  ℕ, none, List, [], ◌∷◌, ◌++◌, map, All, ◌≡◌, refl, sym, ap, ap₂, ◌∙◌, bytes, cut,
}
use mathlib.Core.List.{append_assoc, append-nil}
use glitchgate.Translate.Stops.{
  StopReason, end_turn, max_tokens, tool_use, stop_sequence, content_filter, unset, unknown,
  openai_finish_to_canonical,
}
use glitchgate.Translate.Stops.RoundTrips.{as_openai}
use glitchgate.Translate.Values.{Text, join, Json, marshal_tool_input, unmarshal_tool_args}
use glitchgate.Translate.Canonical.{
  CanonicalBlock, block_text, block_image, block_tool_use, block_tool_result, block_thinking,
  block_refusal, block_audio, block_document, CanonicalResponse,
}
use glitchgate.Translate.Openai.{
  ToolCall, ChatMessage, chat_message, nonempty_block, call_to_canonical,
}
use glitchgate.Translate.Openai.Messages.{call_to_openai, joined}
use glitchgate.Translate.Openai.Responses.{
  trim_prefix, response_text, response_message_blocks, first_choice, openai_response_to_canonical,
  Reply, reply_step, reply_loop, reply_message, openai_reason, canonical_to_openai_response,
}

-- The texts, the thoughts, the last refusal and the calls of a response.
abbrev pub texts : List CanonicalBlock → List Text
texts [] = []
texts (block_text s ∷ bs) = s ∷ texts bs
texts (_ ∷ bs) = texts bs

abbrev pub thoughts : List CanonicalBlock → List Text
thoughts [] = []
thoughts (block_thinking s ∷ bs) = s ∷ thoughts bs
thoughts (_ ∷ bs) = thoughts bs

abbrev pub last_refusal : Text → List CanonicalBlock → Text
last_refusal r [] = r
last_refusal r (block_refusal s ∷ bs) = last_refusal s bs
last_refusal r (_ ∷ bs) = last_refusal r bs

abbrev pub calls : List CanonicalBlock → List CanonicalBlock
calls [] = []
calls (block_tool_use i n v ∷ bs) = block_tool_use i n v ∷ calls bs
calls (_ ∷ bs) = calls bs

-- What is left of a response's blocks: one thought, one text, one refusal, each unless it is empty,
-- and the calls in their order.
unfoldable pub gathered : List CanonicalBlock → List CanonicalBlock
unfolding join
gathered bs =
    nonempty_block block_thinking (join (bytes "\n\n") (thoughts bs))
    ++ (nonempty_block block_text (join [] (texts bs))
        ++ (nonempty_block block_refusal (last_refusal [] bs) ++ calls bs))

-- The input of a call is read back from its encoding.
unfoldable pub IsReadable : Json → CanonicalBlock → Type 0
unfolding marshal_tool_input unmarshal_tool_args
IsReadable json (block_tool_use i n v) = unmarshal_tool_args json (marshal_tool_input json v) ≡ v
IsReadable json _ = Unit

written_calls : Json → List CanonicalBlock → List ToolCall
written_calls json [] = []
written_calls json (b ∷ bs) = call_to_openai json b ++ written_calls json bs

abbrev reply : List Text → List Text → Text → List ToolCall → Reply
reply ts hs r cs = record { texts = ts; thinking = hs; refusal = r; calls = cs }

reply_loop_lem :
    (json : Json) (bs : List CanonicalBlock) (ts hs : List Text) (r : Text) (cs : List ToolCall)
    → reply_loop json bs (reply ts hs r cs)
      ≡ reply (ts ++ texts bs) (hs ++ thoughts bs) (last_refusal r bs) (cs ++ written_calls json bs)
unfolding reply_loop reply_step written_calls call_to_openai
reply_loop_lem json [] ts hs r cs =
    ap₂ (λ t h. reply t h r cs) (sym (append-nil ts)) (sym (append-nil hs))
    ∙ ap (reply (ts ++ []) (hs ++ []) r) (sym (append-nil cs))
reply_loop_lem json (block_text s ∷ bs) ts hs r cs =
    reply_loop_lem json bs (ts ++ (s ∷ [])) hs r cs
    ∙ ap (λ t. reply t (hs ++ thoughts bs) (last_refusal r bs) (cs ++ written_calls json bs))
        (append_assoc ts (s ∷ []) (texts bs))
reply_loop_lem json (block_thinking s ∷ bs) ts hs r cs =
    reply_loop_lem json bs ts (hs ++ (s ∷ [])) r cs
    ∙ ap (λ h. reply (ts ++ texts bs) h (last_refusal r bs) (cs ++ written_calls json bs))
        (append_assoc hs (s ∷ []) (thoughts bs))
reply_loop_lem json (block_refusal s ∷ bs) ts hs r cs = reply_loop_lem json bs ts hs s cs
reply_loop_lem json (block_tool_use i n v ∷ bs) ts hs r cs =
    reply_loop_lem json bs ts hs r (cs ++ call_to_openai json (block_tool_use i n v))
    ∙ ap (reply (ts ++ texts bs) (hs ++ thoughts bs) (last_refusal r bs))
        (append_assoc cs (call_to_openai json (block_tool_use i n v)) (written_calls json bs))
reply_loop_lem json (block_image f ∷ bs) ts hs r cs =
    ap (λ c. reply_loop json bs (reply ts hs r c)) (append-nil cs)
    ∙ reply_loop_lem json bs ts hs r cs
reply_loop_lem json (block_document f ∷ bs) ts hs r cs =
    ap (λ c. reply_loop json bs (reply ts hs r c)) (append-nil cs)
    ∙ reply_loop_lem json bs ts hs r cs
reply_loop_lem json (block_audio a f ∷ bs) ts hs r cs =
    ap (λ c. reply_loop json bs (reply ts hs r c)) (append-nil cs)
    ∙ reply_loop_lem json bs ts hs r cs
reply_loop_lem json (block_tool_result i a ∷ bs) ts hs r cs =
    ap (λ c. reply_loop json bs (reply ts hs r c)) (append-nil cs)
    ∙ reply_loop_lem json bs ts hs r cs

calls_read :
    (json : Json) (bs : List CanonicalBlock)
    → All (IsReadable json) bs
    → map (call_to_canonical json) (written_calls json bs) ≡ calls bs
unfolding written_calls call_to_openai call_to_canonical IsReadable
calls_read json [] a = refl
calls_read json (block_tool_use i n v ∷ bs) (e, a) =
    ap₂ (λ w rest. block_tool_use i n w ∷ rest) e (calls_read json bs a)
calls_read json (block_text s ∷ bs) (e, a) = calls_read json bs a
calls_read json (block_thinking s ∷ bs) (e, a) = calls_read json bs a
calls_read json (block_refusal s ∷ bs) (e, a) = calls_read json bs a
calls_read json (block_image f ∷ bs) (e, a) = calls_read json bs a
calls_read json (block_document f ∷ bs) (e, a) = calls_read json bs a
calls_read json (block_audio x f ∷ bs) (e, a) = calls_read json bs a
calls_read json (block_tool_result i x ∷ bs) (e, a) = calls_read json bs a

response_text-joined :
    (ts : List Text)
    → response_text (joined [] ts (chat_message "assistant").content)
      ≡ nonempty_block block_text (join [] ts)
unfolding response_text join
response_text-joined [] = refl
response_text-joined (t ∷ ts) = refl

-- The message of a response.
said : Json → List CanonicalBlock → ChatMessage
said json bs = record (chat_message "assistant") {
  content = joined [] (texts bs) (chat_message "assistant").content;
  reasoning_content = join (bytes "\n\n") (thoughts bs);
  refusal = last_refusal [] bs;
  tool_calls = written_calls json bs;
}

reply_message_lem : (json : Json) (bs : List CanonicalBlock) → reply_message json bs ≡ said json bs
unfolding reply_message said
reply_message_lem json bs =
    ap
      (λ a. record (chat_message "assistant") {
        content = joined [] a.texts (chat_message "assistant").content;
        reasoning_content = join (bytes "\n\n") a.thinking;
        refusal = a.refusal;
        tool_calls = a.calls;
      })
      (reply_loop_lem json bs [] [] [] [])

response_blocks-gathered :
    (json : Json) (bs : List CanonicalBlock)
    → All (IsReadable json) bs
    → response_message_blocks json (reply_message json bs) ≡ gathered bs
unfolding response_message_blocks gathered said
response_blocks-gathered json bs a =
    ap (response_message_blocks json) (reply_message_lem json bs)
    ∙ ap₂
        (λ t c.
          nonempty_block block_thinking (join (bytes "\n\n") (thoughts bs))
          ++ (t ++ (nonempty_block block_refusal (last_refusal [] bs) ++ c)))
        (response_text-joined (texts bs)) (calls_read json bs a)

reason_read : (sr : StopReason) → openai_finish_to_canonical (openai_reason sr none) ≡ as_openai sr
unfolding openai_finish_to_canonical openai_reason
reason_read end_turn = refl
reason_read max_tokens = refl
reason_read tool_use = refl
reason_read stop_sequence = refl
reason_read content_filter = refl
reason_read unset = refl
reason_read unknown = refl

-- A response that goes out in OpenAI's form is read from it under its identifier, with the reason
-- that OpenAI can say for its own, if it keeps no raw one, and with its blocks gathered: its thoughts
-- as one, its texts as one, its last refusal, and all its calls in their order with their
-- identifiers, names and inputs, if package json reads back the inputs that it writes.
pub openai_response-gathered :
    (json : Json) (created : ℕ) (canon : CanonicalResponse) (model : Text)
    → All (IsReadable json) canon.content
    → canon.raw_stop_reason ≡ none
    → let back =
        openai_response_to_canonical json (canonical_to_openai_response json created canon model) in
      (back.id ≡ canon.id)
      × (back.stop_reason ≡ as_openai canon.stop_reason)
      × (back.content ≡ gathered canon.content)
unfolding openai_response_to_canonical canonical_to_openai_response first_choice trim_prefix cut
openai_response-gathered json created canon model a n = (
  refl,
  ap (λ raw. openai_finish_to_canonical (openai_reason canon.stop_reason raw)) n
      ∙ reason_read canon.stop_reason,
  response_blocks-gathered json canon.content a,
)
