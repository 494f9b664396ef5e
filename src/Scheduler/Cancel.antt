-- ===== src/Scheduler/Cancel.antt =====
-- The map of cancel functions of internal/scheduler/scheduler.go: a worker's task has an entry from its
-- dispatch to the end of its goroutine.
use claude_ops.Prelude.{
  String, not, List, ◌∷◌, Result, ok, err, not_found, keep, mem_str, if◌then◌else◌, str_eq,
}

-- `cancel_map` holds the keys, `cancelled` the tasks whose context was cancelled while they ran.
pub record Running : Type 0 where
  pub cancel_map : List String
  pub cancelled : List String

-- the entry that dispatchOne makes
unfoldable pub register : String → Running → Running
register id s = record s { cancel_map = id ∷ s.cancel_map }

-- the deferred delete of the goroutine
unfoldable pub unregister : String → Running → Running
unregister id s = record s { cancel_map = keep (λ k. not (str_eq k id)) s.cancel_map }

-- CancelTask
unfoldable pub cancel_task : String → Running → Result (Unit {0}) × Running
cancel_task id s =
    if mem_str id s.cancel_map
    then (ok tt, record s { cancelled = id ∷ s.cancelled })
    else (err not_found, s)
