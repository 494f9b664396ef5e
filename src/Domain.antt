-- ===== src/Domain.antt =====
-- internal/domain: the task, time by the calendar, and the active window.
pub mod Task
pub mod Calendar
pub mod Usage
pub mod Window
