-- ===== src/Scope.antt =====
-- internal/web/scope.go: whose data a session of the web interface sees, and internal/proxy/auth_middleware.go:
-- which key a request carries. A role is a text; what the store and the hash answer are parameters.
pub mod Visibility
pub mod Keys
pub mod Presented
