-- ===== src/Examples.antt =====
-- Concrete inputs, at which the theorems about the program are applied.
mod Managing
mod Collecting
mod Locking
mod Serving
mod Storing
mod Observing
mod Browsing
mod Commanding
mod Living
