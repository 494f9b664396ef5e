-- ===== src/Examples.antt =====
-- Concrete surroundings, and the theorems at concrete inputs.
pub mod Surroundings
mod Budget
mod Tables
mod Requests
mod Control
mod Warnings
mod Settings
mod Runs
mod Reports
mod Watching
mod Issues
mod Pipeline
