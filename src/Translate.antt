-- ===== src/Translate.antt =====
-- internal/translate: the values that the protocol translations share.
pub mod Stops
pub mod Effort
pub mod ToolIds
pub mod Values
pub mod Canonical
pub mod Anthropic
pub mod Openai
pub mod Delegations
