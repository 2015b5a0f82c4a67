-- ===== src/Translate/Delegations/Counts.antt =====
-- internal/translate/delegations.go: the token counts of translated responses.
use glitchgate.Prelude.{ℕ, ◌+◌, ◌^◌, ◌<◌, Option, none, some, ◌≡◌, sym, ap, ap₂, ◌∙◌, subst, arith}
use glitchgate.Translate.Values.{Text, Json}
use glitchgate.Translate.Canonical.{CanonicalUsage}
use glitchgate.Translate.Openai.Responses.{
  Usage, ChatCompletionResponse, usage_to_canonical, usage_to_openai, or_none, if_positive,
  openai_response_to_canonical, canonical_to_openai_response,
}
use glitchgate.Translate.Anthropic.Responses.{
  MessagesResponse, anthropic_response_to_canonical, canonical_to_anthropic_response,
}
use glitchgate.Translate.Delegations.{anthropic_to_openai, openai_to_anthropic_response}

-- OpenAI's counts of a prompt that has fresh and cached tokens.
abbrev pub whole_usage : (fresh cached output : ℕ) → Option ℕ → Usage
whole_usage fresh cached output reasoning = record {
  prompt_tokens = fresh + cached;
  completion_tokens = output;
  total_tokens = fresh + cached + output;
  cached_tokens = if_positive cached;
  reasoning_tokens = reasoning;
}

usage_to_openai_lem :
    (u : CanonicalUsage)
    → u.input_tokens + u.cache_read_input_tokens + u.output_tokens < 2 ^ 63
    → usage_to_openai u
      ≡ whole_usage u.input_tokens u.cache_read_input_tokens u.output_tokens
          (if_positive u.reasoning_tokens)
unfolding usage_to_openai
usage_to_openai_lem u l =
    ap₂
      (λ p t. record {
        prompt_tokens = p;
        completion_tokens = u.output_tokens;
        total_tokens = t;
        cached_tokens = if_positive u.cache_read_input_tokens;
        reasoning_tokens = if_positive u.reasoning_tokens;
      })
      (omega (arith, l)) (omega (arith, l))

-- An OpenAI client reads of Anthropic's counts the whole prompt, which has the cached tokens in it,
-- what was written, and the total of both, if that is below 2 ^ 63.
pub counts-anthropic_to_openai :
    (json : Json) (created : ℕ) (resp : MessagesResponse) (model : Text)
    → resp.usage.input_tokens + resp.usage.cache_read_input_tokens + resp.usage.output_tokens
      < 2 ^ 63
    → (anthropic_to_openai json created resp model).usage
      ≡ some (
          whole_usage resp.usage.input_tokens resp.usage.cache_read_input_tokens
            resp.usage.output_tokens none)
unfolding anthropic_to_openai anthropic_response_to_canonical canonical_to_openai_response
counts-anthropic_to_openai json created resp model l =
    ap some (usage_to_openai_lem (anthropic_response_to_canonical resp).usage l)

-- A response of OpenAI's that Anthropic's form has carried and that is translated back has its
-- cached tokens counted twice in the prompt and in the total, which are below 2 ^ 63: OpenAI's prompt
-- has them in it, the canonical form keeps that prompt, and the way back adds them again.
pub cached_counted_twice :
    (json : Json) (created : ℕ) (resp : ChatCompletionResponse) (u : Usage) (m n : Text)
    → resp.usage ≡ some u
    → u.prompt_tokens + or_none u.cached_tokens + u.completion_tokens < 2 ^ 63
    → (anthropic_to_openai json created (openai_to_anthropic_response json resp m) n).usage
      ≡ some (whole_usage u.prompt_tokens (or_none u.cached_tokens) u.completion_tokens none)
unfolding openai_to_anthropic_response openai_response_to_canonical canonical_to_anthropic_response
    usage_to_canonical
cached_counted_twice json created resp u m n e l =
    let read : usage_to_canonical (some u) ≡ usage_to_canonical resp.usage =
      ap usage_to_canonical (sym e) in
    counts-anthropic_to_openai json created (openai_to_anthropic_response json resp m) n
      (subst (λ c. c.input_tokens + c.cache_read_input_tokens + c.output_tokens < 2 ^ 63) read l)
    ∙ ap (λ c. some (whole_usage c.input_tokens c.cache_read_input_tokens c.output_tokens none))
        (sym read)
