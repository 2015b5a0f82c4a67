-- ===== src/Translate/Stops.antt =====
-- internal/translate/canonical_anthropic.go, canonical_openai.go and helpers.go: stop reasons. The
-- raw text that goes beside an unknown reason is part of the result.
pub mod RoundTrips
use glitchgate.Prelude.{
  String, Bool, true, false, Option, none, some, List, [], ◌∷◌, ◌==◌, if◌then◌else◌,
}

pub data StopReason : Type 0 where
  end_turn max_tokens tool_use stop_sequence content_filter unset unknown : StopReason

abbrev pub canonical_stop_reason_to_anthropic : StopReason → String
canonical_stop_reason_to_anthropic max_tokens = "max_tokens"
canonical_stop_reason_to_anthropic tool_use = "tool_use"
canonical_stop_reason_to_anthropic stop_sequence = "stop_sequence"
canonical_stop_reason_to_anthropic sr = "end_turn"

unfoldable pub anthropic_stop_reason_to_canonical : Option String → StopReason × Option String
anthropic_stop_reason_to_canonical none = (unset, none)
anthropic_stop_reason_to_canonical (some s) =
    if s == "max_tokens"
    then (max_tokens, none)
    else if s == "tool_use"
    then (tool_use, none)
    else if s == "stop_sequence"
    then (stop_sequence, none)
    else if s == "end_turn"
    then (end_turn, none)
    else (unknown, some s)

abbrev pub canonical_stop_reason_to_openai_finish : StopReason → Option String
canonical_stop_reason_to_openai_finish unset = none
canonical_stop_reason_to_openai_finish max_tokens = some "length"
canonical_stop_reason_to_openai_finish tool_use = some "tool_calls"
canonical_stop_reason_to_openai_finish content_filter = some "content_filter"
canonical_stop_reason_to_openai_finish sr = some "stop"

unfoldable pub openai_finish_to_canonical : Option String → StopReason
openai_finish_to_canonical none = unset
openai_finish_to_canonical (some s) =
    if s == "length"
    then max_tokens
    else if s == "tool_calls"
    then tool_use
    else if s == "content_filter"
    then content_filter
    else end_turn

unfoldable pub map_stop_reason : Option String → Option String
map_stop_reason none = none
map_stop_reason (some s) = some (
    if s == "end_turn"
    then "stop"
    else if s == "max_tokens"
    then "length"
    else if s == "stop_sequence"
    then "stop"
    else if s == "tool_use"
    then "tool_calls"
    else s)

unfoldable pub map_anthropic_error_type : String → String
map_anthropic_error_type s =
    if s == "authentication_error"
    then "authentication_error"
    else if s == "invalid_request_error"
    then "invalid_request_error"
    else if s == "not_found_error"
    then "not_found_error"
    else if s == "rate_limit_error"
    then "rate_limit_error"
    else if s == "overloaded_error"
    then "server_error"
    else "api_error"
