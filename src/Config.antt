-- ===== src/Config.antt =====
-- Reading the configuration: src/internal/config/config.go.
pub mod Jsonc
pub mod Parsing
pub mod Trusted
pub mod Settings
pub mod Vectors
mod Tests
mod SettingsTests
