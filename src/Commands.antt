-- ===== src/Commands.antt =====
-- cmd: the commands around the components.
pub mod Root
pub mod Lifecycle
pub mod Serve
pub mod Login
