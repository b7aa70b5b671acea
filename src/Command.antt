-- ===== src/Command.antt =====
-- cmd/api: the command line of the binary, and the wiring of its two roles. Logging is left out.
pub mod Migrate
pub mod Serve
pub mod Run
