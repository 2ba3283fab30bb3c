-- ===== src/Auth.antt =====
-- internal/auth/auth.go: the credentials that it keeps in the vault, and the device flow in
-- Auth/Flow.
pub mod Credentials
pub mod Flow
pub mod Polling
