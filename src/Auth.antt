-- ===== src/Auth.antt =====
-- Password login: server/internal/authsvc, and the handlers of server/internal/httpapi/auth.go.
pub mod RateLimit
pub mod Session
pub mod Password
pub mod Login
pub mod Setup
pub mod Samples
