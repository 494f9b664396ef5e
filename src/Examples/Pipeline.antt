-- ===== src/Examples/Pipeline.antt =====
-- internal/scheduler/worker.go: the theorems at concrete inputs.
use claude_ops.Prelude.{refl, true, false, [], ◌∷◌, none, some, ok}
use claude_ops.Domain.Task.{Task, zero_task, running}
use claude_ops.Repository.Tasks.{stored}
use claude_ops.Scheduler.BudgetGate.{allowed}
use claude_ops.Scheduler.Worker.{World, Env, run_task}
use claude_ops.Scheduler.Worker.Ends.{IsEnded, run_task-IsEnded}
use claude_ops.Examples.Surroundings.{minutes}

abbrev task : Task
task = stored (record zero_task { id = "a"; repo_full_name = "o/r"; status = running })

abbrev world : World
world = record { tasks = task ∷ []; worktrees = []; recorded = [] }

-- A run whose quality gate fails.
abbrev env : Env minutes
env = record {
  clock = λ reading. 5;
  windows = [];
  ci_fix_enabled = true;
  slack = true;
  events = true;
  fails = λ call. false;
  path_of = λ id. "worktrees/task";
  made = ok tt;
  stopped_early = false;
  prompt = ok "fix it";
  full_mode = some (ok "true");
  budget = some (ok allowed);
  output = none;
  failure = none;
  rate_limited = false;
  stopped_late = false;
  gate = some "lint failed";
  pr = none;
}

run_task-IsEnded_example : IsEnded "a" (run_task minutes env task world).1.tasks
run_task-IsEnded_example = run_task-IsEnded minutes env refl task world refl
