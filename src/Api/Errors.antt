-- ===== src/Api/Errors.antt =====
-- internal/api/errors.go: the statuses of the answers to errors.
use claude_ops.Prelude.{
  ℕ, Error, not_found, outside_active_window, already_running, usage_exhausted, session_missing,
  not_cancellable, wrap,
}

-- mapError: errors.Is looks through the wrappings
unfoldable pub map_error : Error → ℕ
map_error not_found = 404
map_error outside_active_window = 409
map_error already_running = 409
map_error not_cancellable = 409
map_error usage_exhausted = 503
map_error session_missing = 503
map_error (wrap text e) = map_error e
map_error e = 500
