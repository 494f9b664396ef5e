-- ===== src/Config.antt =====
-- internal/config: the settings that the model reads, and their validation.
pub mod Settings
pub mod Checks
pub mod Validate
pub mod Bounds
pub mod Defaults
pub mod Accepted
