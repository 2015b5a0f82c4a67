-- ===== src/Config/Types.antt =====
-- internal/config/config.go: the records of the configuration that routing reads.
use glitchgate.Prelude.{ℕ, String, Bool, Option, List}

-- ModelMetadata. The rates, float64 dollars in the source, are in the units of Pricing.
pub record ModelMetadata : Type 0 where
  pub input_token_cost : ℕ
  pub output_token_cost : ℕ
  pub cache_read_cost : ℕ
  pub cache_write_cost : ℕ
  pub context_window : ℕ
  pub standard_context_window : ℕ
  pub max_tokens : ℕ
  pub reasoning : Bool
  pub vision : Bool

pub record ModelMapping : Type 0 where
  pub model_name : String
  pub provider : String
  pub upstream_model : String
  pub fallbacks : List String
  pub metadata : Option ModelMetadata
  pub discovered : Bool

pub record DispatchTarget : Type 0 where
  pub provider : String
  pub upstream_model : String
  pub metadata : Option ModelMetadata

pub record ProviderConfig : Type 0 where
  pub name : String
  pub type : String
  pub base_url : String
  pub auth_mode : String
  pub api_key : String
  pub token_dir : String
  pub credentials_file : String
  pub project : String
  pub region : String
  pub stream : Option Bool
  pub discover_models : Bool
  pub model_prefix : Option String
  pub discover_filter : List String
