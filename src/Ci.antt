-- ===== src/Ci.antt =====
-- internal/ci: the watcher of the pull requests' checks, and what its prompts are made of.
pub mod Mask
pub mod Checks
pub mod Watcher
