-- ===== src/Usecase/Tasks.antt =====
-- internal/usecase/task_usecase.go: a task is enqueued for an issue, and stopped. What the stores, the
-- window gate and the clock answer in one call is given by an environment.
pub mod Duplicates
pub mod Accepted
use claude_ops.Prelude.{
  ℕ, String, Bool, true, false, not, ◌&&◌, Option, none, some, List, Result, ok, err, Error,
  not_found, outside_active_window, already_running, not_cancellable, message, wrap, any, str_eq,
  if◌then◌else◌, ◌>>=◌, or_default,
}
use claude_ops.Domain.Task.{
  Time, Task, TaskStatus, queued, cancelled, feature, zero_task, is_queued, is_running,
}
use claude_ops.Repository.Tasks.{Tasks, create, exists_by_repo_and_issue, get_by_id, update}

-- The fields of config.RepoConfig that decide what is enqueued.
pub record RepoConfig : Type 0 where
  pub name : String
  pub labels : List String

pub record EnqueueRequest : Type 0 where
  pub repo_full_name : String
  pub issue_number : ℕ
  pub issue_title : String

pub record Env : Type 0 where
  pub repos : List RepoConfig
  -- the value of "full_mode", where a store of state is wired
  pub full_mode : Option (Result String)
  -- json.Unmarshal of the field `enabled`
  pub enabled : String → Option Bool
  -- what the window gate, where it is wired, answers at the clock's time
  pub window_open : Option Bool
  pub exists_fails : Bool
  pub create_fails : Bool
  pub now : Time  -- time.Now()
  pub new_id : String  -- a fresh uuid

-- isAllowedRepo
abbrev pub is_allowed_repo : List RepoConfig → String → Bool
is_allowed_repo repos name = any (λ r. str_eq r.name name) repos

-- isFullMode
unfoldable pub is_full_mode : Env → Option (Result String) → Result Bool
is_full_mode env none = ok false
is_full_mode env (some (err not_found)) = ok false
is_full_mode env (some (err e)) = err e
is_full_mode env (some (ok value_json)) = ok (or_default false (env.enabled value_json))

-- the row of EnqueueFromIssue
unfoldable pub issue_task : String → Time → EnqueueRequest → Task
issue_task id now req = record zero_task {
  id = id;
  repo_full_name = req.repo_full_name;
  issue_number = req.issue_number;
  issue_title = req.issue_title;
  task_type = feature;
  status = queued;
  created_at = now;
  updated_at = now;
}

created : Task → Result Tasks → Result (Task × Tasks)
created t (ok ts) = ok (t, ts)
created t (err e) = err (wrap "create task" e)

-- from the duplicate check on
unfoldable pub enqueue_new : Env → EnqueueRequest → Tasks → Result (Task × Tasks)
unfolding created
enqueue_new env req ts =
    if env.exists_fails
    then err (wrap "check duplicate" (message "exists by repo and issue"))
    else if exists_by_repo_and_issue req.repo_full_name req.issue_number ts
    then err already_running
    else let t = issue_task env.new_id env.now req in
      created t (if env.create_fails then err (message "create task") else create t ts)

after_mode : Env → EnqueueRequest → Result Bool → Tasks → Result (Task × Tasks)
after_mode env req (err e) ts = err (wrap "check full mode" e)
after_mode env req (ok full_mode) ts =
    if not full_mode && not (or_default true env.window_open)
    then err outside_active_window
    else enqueue_new env req ts

-- EnqueueFromIssue: the task, and the table with it
unfoldable pub enqueue_from_issue : Env → EnqueueRequest → Tasks → Result (Task × Tasks)
unfolding after_mode
enqueue_from_issue env req ts =
    if is_allowed_repo env.repos req.repo_full_name
    then after_mode env req (is_full_mode env env.full_mode) ts
    else err (wrap "repo" not_found)

-- StopTask; `cancel` is the scheduler's CancelTask, `saved` tells whether the update succeeded
stop_loaded :
    (String → Result (Unit {0})) → Bool → Time → Result Task → Tasks → Result (Unit {0}) × Tasks
stop_loaded cancel saved now (err e) ts = (err (wrap "get task" e), ts)
stop_loaded cancel saved now (ok t) ts =
    if is_running t.status
    then (elim (cancel t.id) [ ok u ↦ ok u | err e ↦ err (wrap "cancel task" e) ], ts)
    else if is_queued t.status
    then if saved
      then (ok tt, update now (record t { status = cancelled; finished_at = some now }) ts)
      else (err (wrap "update task" (message "update")), ts)
    else (err not_cancellable, ts)

unfoldable pub stop_task :
    (String → Result (Unit {0})) → Bool → Time → String → Tasks → Result (Unit {0}) × Tasks
unfolding stop_loaded
stop_task cancel saved now id ts = stop_loaded cancel saved now (get_by_id id ts) ts
