-- ===== src/Translate/Canonical.antt =====
-- internal/translate/canonical.go: the form of a request and of a response that every translation
-- goes through. Floats are kept as their texts, Go's int is ℤ, and an int64 is its remainder modulo
-- 2 ^ 64.
use glitchgate.Prelude.{ℕ, ◌+◌, ◌%◌, ◌^◌, ℤ, String, Bool, ◌&&◌, Option, List, [], ltb}
use glitchgate.Translate.Stops.{StopReason}
use glitchgate.Translate.Values.{Text, Any}

-- a + b of two int64
abbrev pub add_int64 : ℕ → ℕ → ℕ
add_int64 a b = (a + b) % 2 ^ 64

-- n > 0 of an int64, whose upper half is negative
abbrev pub is_positive : ℕ → Bool
is_positive n = ltb 0 n && ltb n (2 ^ 63)

pub data ToolChoiceMode : Type 0 where
  choice_auto choice_required choice_none choice_specific : ToolChoiceMode

pub record CanonicalToolChoice : Type 0 where
  pub mode : ToolChoiceMode
  pub function_name : Text

pub record CanonicalTool : Type 0 where
  pub name : Text
  pub description : Text
  pub parameters : Any

pub record ImageFields : Type 0 where
  pub media_type : Text
  pub image_data : Text
  pub url : Text

pub record DocumentFields : Type 0 where
  pub media_type : Text
  pub doc_data : Text
  pub url : Text
  pub filename : Text

-- CanonicalBlock{Type: BlockImage} and CanonicalBlock{Type: BlockDocument}
abbrev pub no_image : ImageFields
no_image = record { media_type = []; image_data = []; url = [] }

abbrev pub no_document : DocumentFields
no_document = record { media_type = []; doc_data = []; url = []; filename = [] }

-- The tagged union, each case with the fields of its tag.
pub data CanonicalBlock : Type 0 where
  block_text : Text → CanonicalBlock
  block_image : ImageFields → CanonicalBlock
  block_tool_use : (id name : Text) → Any → CanonicalBlock
  block_tool_result : (id result : Text) → CanonicalBlock
  block_thinking : Text → CanonicalBlock
  block_refusal : Text → CanonicalBlock
  block_audio : (audio format : Text) → CanonicalBlock
  block_document : DocumentFields → CanonicalBlock

pub record CanonicalMessage : Type 0 where
  pub role : String
  pub blocks : List CanonicalBlock

pub record CanonicalUsage : Type 0 where
  pub input_tokens : ℕ
  pub output_tokens : ℕ
  pub cache_creation_input_tokens : ℕ
  pub cache_read_input_tokens : ℕ
  pub reasoning_tokens : ℕ

pub record CanonicalThinking : Type 0 where
  pub enabled : Bool
  pub budget_tokens : ℤ
  pub effort : String

pub record CanonicalRequest : Type 0 where
  pub model : Text
  pub system : Text
  pub messages : List CanonicalMessage
  pub max_tokens : Option ℤ
  pub temperature : Option String
  pub top_p : Option String
  pub top_k : Option ℤ
  pub stop_sequences : List Text
  pub stream : Bool
  pub tools : List CanonicalTool
  pub tool_choice : Option CanonicalToolChoice
  pub thinking : Option CanonicalThinking

pub record CanonicalResponse : Type 0 where
  pub id : Text
  pub model : Text
  pub stop_reason : StopReason
  pub raw_stop_reason : Option String
  pub content : List CanonicalBlock
  pub usage : CanonicalUsage
