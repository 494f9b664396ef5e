-- ===== src/Repository.antt =====
-- internal/repository and db/sqlc: the tables.
pub mod Tasks
pub mod Usage
pub mod Listing
