-- ===== src/Lib.antt =====
-- claude-ops: a scheduler that turns GitHub issues into tasks, gives each to a worker that runs
-- Claude in a worktree, opens a pull request, and watches its checks.
--
-- The parts and how they interact. The poller and the webhook (internal/github) and the task use
-- case (internal/usecase/task_usecase.go) insert queued tasks into the table (internal/repository).
-- A tick of the scheduler (internal/scheduler/scheduler.go) passes the active windows
-- (internal/domain/window.go) and the budget (internal/usecase/budget_usecase.go), polls, and claims
-- tasks while slots are free. The watcher (internal/ci) looks at the pull requests of watched tasks
-- and enqueues fixes. The reclaimer frees tasks whose claim is old. Cron entries fire maintenance
-- tasks, which pass the same budget and a sub-cap of their own. The usage reports add up the table
-- of tasks by day, week, month and model. The settings are checked, and completed by defaults,
-- before any of these start. On boot the tasks that were running are reconciled, and old worktrees
-- are removed (internal/gc). A worker's call of Claude is read from the stream that it writes
-- (internal/claude), and what it made passes the quality gate (internal/qualitygate). Requests come
-- in over HTTP (internal/api): they list, enqueue and stop tasks, set the mode, report the usage,
-- change the limits, and, signed by Slack (internal/slack), stop a running task.
--
-- Where each part is modelled:
--   Domain/Task, Domain/Window     internal/domain/task.go, window.go and scheduler/window_gate.go
--   Domain/Calendar                the packages time, fmt and strings, as a record with laws
--   Scheduler/BudgetGate           internal/scheduler/budget_gate.go
--   Usecase/AppState               the store of state, as a record with laws, and encoding/json
--   Usecase/Budget                 internal/usecase/budget_usecase.go, in state-passing style
--   Usecase/Warnings               EvaluateCostWarn of internal/usecase/budget_usecase.go
--   Usecase/Fix, Usecase/Tasks     internal/usecase/task_usecase.go
--   Repository/Tasks               internal/repository/task_repository.go and db/sqlc/task.sql.go
--   Scheduler/Tick                 internal/scheduler/scheduler.go
--   Scheduler/Worker               internal/scheduler/worker.go
--   Scheduler/Cancel, Reclaimer    the cancel functions of scheduler.go, and internal/scheduler/reclaimer.go
--   Ci/Checks, Ci/Watcher          internal/ci/checks.go and watcher.go
--   Ci/Mask                        TruncateLogTail of internal/ci/mask.go
--   Github/Poller, Dedup, Webhook  internal/github/poller.go, webhook_dedup.go, webhook_handler.go
--   Github/Verifier                internal/github/webhook_verifier.go, before the webhook
--   Slack                          internal/slack/verify.go, interactions.go and api/slack_handler.go
--   Quality                        internal/qualitygate/gate.go and adapter.go
--   Usecase/Mode                   internal/usecase/mode_usecase.go
--   Repository/Listing             List of internal/repository/task_repository.go
--   Api                            internal/api/task_handler.go, mode_handler.go, health_handler.go,
--                                  limits_handler.go, usage_handler.go, errors.go
--   Scheduler/RateLimit            maybeRecordRateLimit of internal/scheduler/worker.go
--   Claude/Stream, Claude/Runner   internal/claude/stream/parser.go, events.go and claude/runner.go
--   Claude/Canceller               internal/claude/canceller.go
--   Gc                             internal/gc/runner.go
--   Config                         internal/config/config.go and validate.go
--   Usecase/Maintenance            internal/usecase/maintenance_usecase.go and scheduler/maintenance.go
--   Domain/Usage, Usecase/Usage    internal/domain/usage_repository.go and usecase/usage_usecase.go
--   Repository/Usage               internal/repository/usage_repository.go and db/sqlc/usage.sql.go
--   Examples                       concrete surroundings, and the theorems at concrete inputs
--
-- How state and operations correspond. A struct is a record with its field names, an enumeration a
-- data type, and a method keeps its name in snake case. The table of tasks is the list of its rows,
-- and a SQL statement a function of it; NOW(3) is an argument. A method on a store goes from a state
-- to a result and a state, since what was written before a failure stays. Calls of GitHub, Slack,
-- the clock and the database take their answers from an environment, errors included. A time is a
-- number of nanoseconds since the zero time, or of units of the clock that is given. The costs of
-- the report by model are floats that are not negative, by their bits, and their rounded sum a
-- parameter.
--
-- Bounds and fuel. The counters of the budget are Go's 64-bit int, whose increment wraps, and so
-- does the sum of time.Unix. The loop of the scheduler's tick has one more unit of fuel than the
-- capacity, since each round but the last fills a slot. The loops of a report over days and months
-- have as many units as the range has; the theorems on the reports show that each day, week or month
-- of it is reached. A client that follows the cursors of a listing has one request more than tasks
-- that it may see. The canceller's loop has as many rounds as pauses fit in the time of grace, and
-- two more. All other loops are structural. Where ORDER BY leaves a tie the first row is taken.
-- Names of repositories are compared exactly, while the default collation of MySQL compares them
-- without case. A text of the store of state is the one that its JSON column gives back.
--
-- Not modelled: the loading of the configuration, the messages to Slack, the routes of HTTP, GetTask
-- with its events, the masking of secrets, and what is only I/O (metrics, processes, calls of gh).
-- The HMACs, encoding/json, encoding/hex and strconv are parameters. A worker that writes its row as
-- running after the row was reclaimed is no step of the interleavings of Scheduler/Tick/Slots.
pub mod Prelude
pub mod Config
pub mod Domain
pub mod Scheduler
pub mod Slack
pub mod Usecase
pub mod Quality
pub mod Repository
pub mod Api
pub mod Ci
pub mod Claude
pub mod Gc
pub mod Github
pub mod Examples
