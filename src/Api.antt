-- ===== src/Api.antt =====
-- internal/api: the handlers of requests.
pub mod Tasks
pub mod Commands
pub mod Errors
pub mod Limits
pub mod Usage
