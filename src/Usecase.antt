-- ===== src/Usecase.antt =====
-- internal/usecase: the use cases, over the store of application state.
pub mod AppState
pub mod Budget
pub mod Fix
pub mod Maintenance
pub mod Mode
pub mod Tasks
pub mod Usage
pub mod Warnings
