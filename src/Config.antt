-- ===== src/Config.antt =====
-- internal/config/config.go and discovery.go: the model list and how a model name is routed.
pub mod Types
pub mod Names
pub mod Chains
pub mod Lookup
pub mod Routes
pub mod Providers
pub mod Discovery
