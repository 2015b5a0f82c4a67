-- ===== src/Stream.antt =====
-- internal/proxy/stream_relay.go and stream_tokens.go: an upstream's event stream is passed on line
-- by line, and the token counts are taken from its data lines. The scanner's lines, the client's
-- writes, and what package json decodes from a payload are parameters. Token counts are not
-- negative.
pub mod Synthesis
pub mod Client
pub mod Assembly
pub mod Relaying
pub mod Cutoff
pub mod Chunks
pub mod Reader
pub mod Outputs
pub mod Listener
use glitchgate.Prelude.{
  ℕ, zero, suc, ◌+◌, ◌-◌, Bool, true, false, not, ◌&&◌, ◌||◌, Option, none, some, List, [], ◌∷◌,
  ◌++◌, String, ◌==◌, nat_eq, ltb, leb, if◌then◌else◌, bytes, same_bytes, cut,
}

-- sse.StreamResult, without its body.
pub record TokenCounts : Type 0 where
  pub input_tokens : ℕ
  pub output_tokens : ℕ
  pub cache_creation_input_tokens : ℕ
  pub cache_read_input_tokens : ℕ
  pub reasoning_tokens : ℕ

abbrev pub no_tokens : TokenCounts
no_tokens = record {
  input_tokens = 0;
  output_tokens = 0;
  cache_creation_input_tokens = 0;
  cache_read_input_tokens = 0;
  reasoning_tokens = 0;
}

pub record StreamResult : Type 0 where
  pub body : List ℕ
  pub counts : TokenCounts

-- strings.HasPrefix
unfoldable pub has_prefix : List ℕ → List ℕ → Bool
unfolding cut
has_prefix s p = elim (cut p s) [ none ↦ false | some rest ↦ true ]

-- strings.Contains
unfoldable pub contains : List ℕ → List ℕ → Bool
unfolding has_prefix
contains [] p = has_prefix [] p
contains (c ∷ s) p = has_prefix (c ∷ s) p || contains s p

-- sanitizeSSELine
unfoldable pub sanitize_sse_line : List ℕ → List ℕ
sanitize_sse_line [] = []
sanitize_sse_line (c ∷ s) =
    let rest = sanitize_sse_line s in if nat_eq c 13 || nat_eq c 0 then rest else c ∷ rest

-- anthropic.Usage and DeltaUsage
pub record Usage : Type 0 where
  pub input_tokens : ℕ
  pub output_tokens : ℕ
  pub cache_creation_input_tokens : ℕ
  pub cache_read_input_tokens : ℕ

-- What extractAnthropicTokens decodes.
pub record Envelope : Type 0 where
  pub type : String
  pub message_usage : Option Usage
  pub usage : Option Usage

abbrev pub start_counts : Option Usage → TokenCounts → TokenCounts
start_counts none r = r
start_counts (some u) r = record r {
  input_tokens = u.input_tokens;
  cache_creation_input_tokens = u.cache_creation_input_tokens;
  cache_read_input_tokens = u.cache_read_input_tokens;
}

abbrev pub or_kept : ℕ → ℕ → ℕ
or_kept n kept = if ltb 0 n then n else kept

abbrev pub delta_counts : Option Usage → TokenCounts → TokenCounts
delta_counts none r = r
delta_counts (some u) r = record r {
  output_tokens = u.output_tokens;
  input_tokens = or_kept u.input_tokens r.input_tokens;
  cache_creation_input_tokens = or_kept u.cache_creation_input_tokens r.cache_creation_input_tokens;
  cache_read_input_tokens = or_kept u.cache_read_input_tokens r.cache_read_input_tokens;
}

unfoldable pub envelope_counts : Envelope → TokenCounts → TokenCounts
envelope_counts e r =
    if e.type == "message_start"
    then start_counts e.message_usage r
    else if e.type == "message_delta"
    then delta_counts e.usage r
    else r

unfoldable pub extract_anthropic_tokens :
    (List ℕ → Option Envelope) → List ℕ → TokenCounts → TokenCounts
unfolding contains envelope_counts
extract_anthropic_tokens decode payload r =
    if not (contains payload (bytes "message_start"))
      && not (contains payload (bytes "message_delta"))
    then r
    else elim (decode payload) [ none ↦ r | some e ↦ envelope_counts e r ]

-- The usage of an OpenAI chunk.
pub record OpenaiUsage : Type 0 where
  pub prompt_tokens : ℕ
  pub completion_tokens : ℕ
  pub reasoning_tokens : ℕ
  pub cached_tokens : Option ℕ
  pub detailed_reasoning : Option ℕ

-- The cached tokens are a part of the prompt's.
abbrev pub net_input : Option ℕ → TokenCounts → TokenCounts
net_input none r = r
net_input (some cached) r = record r {
  cache_read_input_tokens = cached;
  input_tokens = r.input_tokens - cached;
}

abbrev pub set_reasoning : Option ℕ → TokenCounts → TokenCounts
set_reasoning none r = r
set_reasoning (some n) r = record r { reasoning_tokens = n }

abbrev pub top_reasoning : ℕ → TokenCounts → TokenCounts
top_reasoning n r =
    if nat_eq r.reasoning_tokens 0 && ltb 0 n then record r { reasoning_tokens = n } else r

unfoldable pub chunk_counts : OpenaiUsage → TokenCounts → TokenCounts
chunk_counts u r = top_reasoning u.reasoning_tokens (
    set_reasoning u.detailed_reasoning (
      net_input u.cached_tokens
        (record r { input_tokens = u.prompt_tokens; output_tokens = u.completion_tokens })))

-- The decoding gives none for an error, and some none where the chunk has no usage.
unfoldable pub extract_openai_tokens :
    (List ℕ → Option (Option OpenaiUsage)) → List ℕ → TokenCounts → TokenCounts
unfolding contains chunk_counts
extract_openai_tokens decode payload r =
    if contains payload (bytes "\"usage\"")
    then elim (decode payload) [
      | none ↦ r
      | some usage ↦ elim usage [ none ↦ r | some u ↦ chunk_counts u r ]
    ]
    else r

-- SkipDone
abbrev pub skip_done : (List ℕ → TokenCounts → TokenCounts) → List ℕ → TokenCounts → TokenCounts
unfolding same_bytes
skip_done extract payload r = if same_bytes payload (bytes "[DONE]") then r else extract payload r

-- The counts after a line of the stream.
unfoldable pub line_counts :
    (List ℕ → TokenCounts → TokenCounts) → List ℕ → TokenCounts → TokenCounts
unfolding cut
line_counts extract line r = elim (cut (bytes "data: ") line) [
  | none ↦ r
  | some payload ↦ extract payload r
]

-- The loop of RelaySSEStream: `write_ok n` says whether the writes and the flush of the n-th line
-- succeed. The Boolean says that all did.
unfoldable pub relay_lines :
    (List ℕ → TokenCounts → TokenCounts)
    → (ℕ → Bool)
    → ℕ
    → List (List ℕ)
    → StreamResult
    → StreamResult × Bool
unfolding sanitize_sse_line line_counts
relay_lines extract write_ok n [] r = (r, true)
relay_lines extract write_ok n (text ∷ lines) r =
    let line = sanitize_sse_line text in
    let after : StreamResult = record {
      body = r.body ++ (line ++ 10 ∷ []);
      counts = line_counts extract line r.counts;
    } in
    let rest = relay_lines extract write_ok (suc n) lines after in
    if write_ok n then rest else (after, false)

unfoldable pub relay_sse_stream :
    (List ℕ → TokenCounts → TokenCounts) → (ℕ → Bool) → List (List ℕ) → StreamResult × Bool
unfolding relay_lines
relay_sse_stream extract write_ok lines =
    relay_lines extract write_ok 0 lines (record { body = []; counts = no_tokens })
