-- ===== src/Translate/Anthropic/Writing.antt =====
-- internal/translate/canonical_anthropic.go: what a request without sounds is written as.
use glitchgate.Prelude.{
  false, Option, none, some, List, [], ◌∷◌, ◌++◌, map, All, ◌≡◌, refl, ap, ap₂, arith, is_empty,
  if◌then◌else◌,
}
use glitchgate.Translate.Values.{Any, null, string, done, ◌>>=◌, each}
use glitchgate.Translate.Canonical.{
  CanonicalBlock, block_text, block_image, block_tool_use, block_tool_result, block_thinking,
  block_refusal, block_audio, block_document, CanonicalMessage, CanonicalToolChoice,
  CanonicalRequest,
}
use glitchgate.Translate.Anthropic.{Message, canonical_message_to_anthropic}
use glitchgate.Translate.Anthropic.Requests.{
  MessagesRequest, has_audio, checked_message, tool_to_anthropic, or_default_limit,
  canonical_tool_choice_to_anthropic, thinking_to_anthropic, canonical_to_anthropic_request,
}

unfoldable pub IsSilent : List CanonicalBlock → Type 0
IsSilent bs = has_audio bs ≡ false

pub nothing-IsSilent : IsSilent []
unfolding IsSilent has_audio
nothing-IsSilent = refl

pub append-IsSilent :
    (xs ys : List CanonicalBlock) → IsSilent xs → IsSilent ys → IsSilent (xs ++ ys)
unfolding IsSilent has_audio
append-IsSilent [] ys p q = q
append-IsSilent (block_text s ∷ xs) ys p q = append-IsSilent xs ys p q
append-IsSilent (block_image f ∷ xs) ys p q = append-IsSilent xs ys p q
append-IsSilent (block_document f ∷ xs) ys p q = append-IsSilent xs ys p q
append-IsSilent (block_tool_use i n v ∷ xs) ys p q = append-IsSilent xs ys p q
append-IsSilent (block_tool_result i r ∷ xs) ys p q = append-IsSilent xs ys p q
append-IsSilent (block_thinking s ∷ xs) ys p q = append-IsSilent xs ys p q
append-IsSilent (block_refusal s ∷ xs) ys p q = append-IsSilent xs ys p q
append-IsSilent (block_audio a f ∷ xs) ys p q = ground (arith, p)

unfoldable pub AllSilent : List CanonicalMessage → Type 0
AllSilent ms = All (λ m. IsSilent m.blocks) ms

checked_all :
    (ms : List CanonicalMessage)
    → AllSilent ms
    → each checked_message ms ≡ done (map canonical_message_to_anthropic ms)
unfolding each AllSilent IsSilent checked_message
checked_all [] a = refl
checked_all (m ∷ ms) (p, a) =
    ap₂ (λ r rs. r >>= λ y. rs >>= λ ys. done (y ∷ ys)) (checked m p) (checked_all ms a)
  where
    checked :
        (m : CanonicalMessage)
        → has_audio m.blocks ≡ false
        → checked_message m ≡ done (canonical_message_to_anthropic m)
    checked m p = rw (checked_message, p) refl

abbrev pub written_choice : Option CanonicalToolChoice → Any
written_choice none = null
written_choice (some tc) = canonical_tool_choice_to_anthropic tc

-- The request for Anthropic with the given messages.
unfoldable pub written : CanonicalRequest → List Message → MessagesRequest
written canon messages = record {
  model = canon.model;
  max_tokens = or_default_limit canon.max_tokens;
  messages = messages;
  system = if is_empty canon.system then null else string canon.system;
  stream = canon.stream;
  temperature = canon.temperature;
  top_p = canon.top_p;
  top_k = canon.top_k;
  stop_sequences = canon.stop_sequences;
  tools = map tool_to_anthropic canon.tools;
  tool_choice = written_choice canon.tool_choice;
  thinking = thinking_to_anthropic (or_default_limit canon.max_tokens) canon.thinking;
}

pub written_all :
    (canon : CanonicalRequest)
    → AllSilent canon.messages
    → canonical_to_anthropic_request (some canon)
      ≡ done (written canon (map canonical_message_to_anthropic canon.messages))
unfolding canonical_to_anthropic_request written
written_all canon a = ap (λ r. r >>= λ ms. done (written canon ms)) (checked_all canon.messages a)
