-- ===== src/Examples/Watching.antt =====
-- internal/ci: the theorems at concrete inputs.
use claude_ops.Prelude.{ℕ, refl, true, false, List, [], ◌∷◌, none, some, ok, err, message, arith}
use claude_ops.Domain.Task.{Task, CiStatus, zero_task}
use claude_ops.Repository.Tasks.{stored}
use claude_ops.Ci.Checks.{CheckRun, CheckConclusion, aggregate_conclusion}
use claude_ops.Ci.Mask.Truncated.{Truncated}
use claude_ops.Ci.Watcher.{Env, Gh, PrView, World, tick}
use claude_ops.Ci.Watcher.Timeout.{
  IsUndecided, IsSteady, IsWatchedSince, look_repeatedly, look_repeatedly-IsWatchedSince,
}
use claude_ops.Ci.Watcher.Spared.{Spared}
use claude_ops.Ci.Watcher.Attempts.{tick-Spared}

abbrev failing_check : CheckRun
failing_check = record {
  name = "lint";
  status = "completed";
  conclusion = CheckConclusion.failure;
  workflow_run = 7;
}

abbrev pending_check : CheckRun
pending_check = record {
  name = "test";
  status = "in_progress";
  conclusion = CheckConclusion.none_yet;
  workflow_run = 7;
}

abbrev watched : Task
watched =
    stored (record zero_task {
      id = "a";
      pr_number = 4;
      ci_status = CiStatus.watching;
      updated_at = 100;
    })

abbrev world : World
world = record { tasks = watched ∷ []; recorded = []; notices = [] }

abbrev open_view : PrView
open_view = record { head_ref_oid = "sha"; state = "OPEN" }

abbrev gh_with : List CheckRun → Gh
gh_with checks = record {
  pr_view = λ t. ok open_view;
  pr_checks = λ t. ok checks;
  log_failed = λ t run. err (message "no log");
}

abbrev env_at : ℕ → List CheckRun → Env
env_at now checks = record {
  cfg = record { max_attempts = 3; poll_timeout = 60; comment_on_exhaustion = true };
  now = now;
  db_now = now;
  fails = λ call. false;
  gh = some (gh_with checks);
  prompts = none;
  slack = true;
  events = true;
  new_id = "b";
}

at-IsUndecided : (now : ℕ) → IsUndecided (env_at now (pending_check ∷ []))
unfolding aggregate_conclusion
at-IsUndecided now = record {
  runner = gh_with (pending_check ∷ []);
  wired = refl;
  view = open_view;
  viewed = λ t. refl;
  is_open = refl;
  checks = pending_check ∷ [];
  checked = λ t. refl;
  pending = refl;
  loads = refl;
  writes = refl;
}

abbrev looks : List Env
looks = env_at 150 (pending_check ∷ []) ∷ env_at 200 (pending_check ∷ []) ∷ []

look_repeatedly-IsWatchedSince_example :
    (at : ℕ) × IsWatchedSince "a" at (look_repeatedly looks "a" world).tasks
unfolding IsSteady IsWatchedSince
look_repeatedly-IsWatchedSince_example =
    look_repeatedly-IsWatchedSince "a" 100 looks world
      ((at-IsUndecided 150, omega arith, (at-IsUndecided 200, omega arith, tt)))
      (watched, refl, refl, refl, refl)

tick-Spared_example : Spared "a" 0 (tick (λ id. env_at 150 (failing_check ∷ [])) true world).tasks
unfolding Spared
tick-Spared_example =
    tick-Spared "a" 0 (λ id. env_at 150 (failing_check ∷ [])) (λ id. omega arith) true world
      (watched, refl, refl, refl)
