-- ===== src/Translate/Delegations.antt =====
-- internal/translate/delegations.go: the translations between Anthropic and OpenAI, by way of the
-- canonical form.
pub mod Counts
pub mod Sounds
pub mod Budgets
use glitchgate.Prelude.{ℕ, String, Option, none, some, List}
use glitchgate.Translate.Stops.{map_anthropic_error_type}
use glitchgate.Translate.Values.{Text, Result, ◌>>=◌, Json}
use glitchgate.Translate.Canonical.{CanonicalRequest}
use glitchgate.Translate.Anthropic.{ContentBlock, Content}
use glitchgate.Translate.Anthropic.Requests.{
  MessagesRequest, anthropic_request_to_canonical, canonical_to_anthropic_request,
}
use glitchgate.Translate.Anthropic.Responses.{
  MessagesResponse, anthropic_response_to_canonical, canonical_to_anthropic_response,
}
use glitchgate.Translate.Openai.Requests.{
  ChatCompletionRequest, openai_request_to_canonical, canonical_to_openai_request,
}
use glitchgate.Translate.Openai.Responses.{
  ChatCompletionResponse, openai_response_to_canonical, canonical_to_openai_response,
}

unfoldable pub anthropic_to_openai :
    Json → (created : ℕ) → MessagesResponse → Text → ChatCompletionResponse
unfolding anthropic_response_to_canonical canonical_to_openai_response
anthropic_to_openai json created resp model =
    canonical_to_openai_response json created (anthropic_response_to_canonical resp) model

unfoldable pub anthropic_to_openai_request :
    Json
    → (Content → Option (List ContentBlock))
    → Option MessagesRequest
    → Result ChatCompletionRequest
unfolding anthropic_request_to_canonical canonical_to_openai_request
anthropic_to_openai_request json reread req = anthropic_request_to_canonical reread req >>= λ canon.
    canonical_to_openai_request json (some canon)

unfoldable pub openai_to_anthropic : Json → Option ChatCompletionRequest → Result MessagesRequest
unfolding openai_request_to_canonical canonical_to_anthropic_request
openai_to_anthropic json req =
    openai_request_to_canonical json req >>= λ canon. canonical_to_anthropic_request (some canon)

unfoldable pub openai_to_anthropic_response :
    Json → ChatCompletionResponse → Text → MessagesResponse
unfolding openai_response_to_canonical canonical_to_anthropic_response
openai_to_anthropic_response json resp model =
    canonical_to_anthropic_response (openai_response_to_canonical json resp) model

-- anthropic.ErrorDetail and openai.Error
pub record ErrorDetail : Type 0 where
  pub type : String
  pub message : Text

pub record OpenaiError : Type 0 where
  pub message : Text
  pub type : String
  pub code : String

-- What package json decodes of an error's body, and the encoding of the translated error, are
-- parameters; a body that cannot be decoded is the message.
unfoldable pub anthropic_error_to_openai :
    (Text → Option ErrorDetail) → (OpenaiError → Option Text) → Text → Option Text
unfolding map_anthropic_error_type
anthropic_error_to_openai unmarshal marshal body = elim (unmarshal body) [
  | none ↦ marshal (record { message = body; type = "api_error"; code = "" })
  | some e ↦
      marshal
        (record { message = e.message; type = map_anthropic_error_type e.type; code = e.type })
]
