-- ===== src/Server/Debug.antt =====
-- internal/server/debug.go: the endpoints that browse the database and the cache.
pub mod Ident
pub mod Numbers
pub mod Query
pub mod Rows
pub mod Tables
pub mod Key
pub mod Info
pub mod Bindings
pub mod Filters
pub mod Scan
pub mod Scanned
