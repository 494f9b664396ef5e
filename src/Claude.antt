-- ===== src/Claude.antt =====
-- internal/claude: the run of the Claude CLI, and the parser of the stream that it writes.
pub mod Stream
pub mod Runner
pub mod Canceller
