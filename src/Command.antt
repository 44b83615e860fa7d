-- ===== src/Command.antt =====
-- cmd/main.go
pub mod SkipNamespaces
pub mod Host
pub mod Startup
pub mod Flags
