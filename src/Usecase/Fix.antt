-- ===== src/Usecase/Fix.antt =====
-- EnqueueFixTask of internal/usecase/task_usecase.go: the ci-fix child of a watched task.
use claude_ops.Prelude.{String, some, Result, ok, err, wrap, ◌+◌}
use claude_ops.Domain.Task.{Time, Task, zero_task, queued, ci_fix}
use claude_ops.Repository.Tasks.{Tasks, create}

pub record FixTaskInput : Type 0 where
  pub parent : Task
  pub head_sha : String
  pub failed_step : String
  pub prompt_template : String

-- The new row. `id` is the fresh uuid, `now` the clock.
unfoldable pub fix_task : String → Time → FixTaskInput → Task
fix_task id now in_ = record zero_task {
  id = id;
  repo_full_name = in_.parent.repo_full_name;
  issue_number = in_.parent.issue_number;
  issue_title = in_.parent.issue_title;
  task_type = ci_fix;
  status = queued;
  source = in_.parent.source;
  prompt_template = in_.prompt_template;
  worktree_path = in_.parent.worktree_path;
  parent_task_id = some in_.parent.id;
  fix_attempt_count = in_.parent.fix_attempt_count + 1;
  head_sha = in_.head_sha;
  created_at = now;
  updated_at = now;
}

created : Task → Result Tasks → Result (Task × Tasks)
created t (ok ts) = ok (t, ts)
created t (err e) = err (wrap "create fix task" e)

-- EnqueueFixTask: the child, and the table with it
unfoldable pub enqueue_fix_task : String → Time → FixTaskInput → Tasks → Result (Task × Tasks)
unfolding created
enqueue_fix_task id now in_ ts = let t = fix_task id now in_ in created t (create t ts)
