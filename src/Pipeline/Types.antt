-- ===== src/Pipeline/Types.antt =====
-- internal/proxy/pipeline.go, result.go and internal/provider/provider.go: the data of a dispatch.
use glitchgate.Prelude.{ℕ, ℤ, String, Bool, Option, Map, List}
use glitchgate.Bodies.{Fields}
use glitchgate.Breaker.Registry.{Registry}
use glitchgate.Config.Types.{DispatchTarget}
use glitchgate.Pricing.{Calculator}

pub record Provider : Type 0 where
  pub name : String
  pub api_format : String

-- provider.Response; a body is the list of its bytes, and `stream` says that Stream is not nil.
pub record Response : Type 0 where
  pub status_code : ℕ
  pub body : List ℕ
  pub stream : Bool

-- What SendRequest returns.
pub data SendResult : Type 0 where
  send_failed : List ℕ → SendResult
  sent : Response → SendResult

pub record HandlerResult : Type 0 where
  pub input_tokens : ℕ
  pub output_tokens : ℕ
  pub cache_creation_input_tokens : ℕ
  pub cache_read_input_tokens : ℕ
  pub reasoning_tokens : ℕ
  pub status : ℕ
  pub body : List ℕ
  pub err_details : Option (List ℕ)
  pub is_streaming : Bool

-- The messages of the error callbacks.
pub data Message : Type 0 where
  provider_not_configured : String → Message
  unsupported_format : String → String → Message
  upstream_unreachable : Message
  all_failed : Message

-- What reaches the client: an error, an upstream response that a handler relays, or the error that
-- a route builder writes when it stops.
pub data Written : Type 0 where
  wrote_error : ℕ → String → Message → Written
  relayed : Response → Written
  route_stopped : Written

pub record ChainAttempt : Type 0 where
  pub mapping : DispatchTarget
  pub provider : Provider
  pub attempt_count : ℕ
  pub has_more_fallbacks : Bool

-- routePlan: the request for the provider, the body to log, and HandleResponse's result.
pub record RoutePlan : Type 0 where
  pub provider_request : List ℕ
  pub request_body : List ℕ
  pub handle_response : Response → HandlerResult

-- What a routeBuilder returns: a plan, or that it wrote an error and stopped.
pub data Route : Type 0 where
  stopped : Route
  planned : RoutePlan → Route

-- pipelineSpec
pub record PipelineSpec : Type 0 where
  pub source_format : String
  pub proxy_key_id : String
  pub key_prefix : String
  pub model_request : String
  pub is_streaming : Bool
  pub calculator : Option Calculator

-- store.RequestLogEntry, less its random ID and its timestamp.
pub record LogEntry : Type 0 where
  pub proxy_key_id : String
  pub source_format : String
  pub provider_name : String
  pub model_requested : String
  pub model_upstream : String
  pub resolved_model_name : String
  pub latency_ms : ℕ
  pub request_body : List ℕ
  pub response_body : List ℕ
  pub result : HandlerResult
  pub fallback_attempts : ℕ
  pub cost_usd : Option ℕ

-- The readings of the clock at one position of the chain.
pub record Readings : Type 0 where
  pub get_at : ℕ
  pub allow_at : ℕ
  pub record_at : ℕ
  pub latency_ms : ℕ

pub record Env : Type 0 where
  pub providers : Map Provider
  pub routes : String → Option (ChainAttempt → Route)
  pub send : ℕ → Provider → RoutePlan → SendResult
  pub readings : ℕ → Readings
  pub has_breakers : Bool
  pub spec : PipelineSpec
  pub server_err_type : String
  -- strings.ToLower, json.Unmarshal and json.Marshal.
  pub lower : String → String
  pub unmarshal : List ℕ → Option Fields
  pub marshal : Fields → Option (List ℕ)
  pub body_max_bytes : ℤ
  -- fmt.Sprintf("\n[TRUNCATED original_bytes=%d]", ...)
  pub truncation_mark : ℕ → List ℕ
  -- fmt.Sprintf("all %d fallback entries exhausted; last status %d", ...)
  pub exhausted_text : ℕ → ℕ → List ℕ

pub record World : Type 0 where
  pub registry : Registry
  pub log : List LogEntry
  pub written : List Written
