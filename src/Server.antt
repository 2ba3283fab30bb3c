-- ===== src/Server.antt =====
-- internal/server: the HTTP handlers, as functions from the request and the state that they read to
-- the status code, the body and the new state.
pub mod Health
pub mod Debug
pub mod Auth
pub mod Routes
pub mod Github
pub mod Paging
