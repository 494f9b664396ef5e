-- ===== src/Gc.antt =====
-- internal/gc/runner.go: tasks that were running when the service stopped are reconciled, and the
-- worktrees of old failed and cancelled tasks are removed. What the disk, git and the database answer
-- is an environment; messages to Slack change no state and are left out.
pub mod Recovered
pub mod Swept
use claude_ops.Prelude.{
  ℕ, ◌+◌, ◌-◌, ◌*◌, ◌^◌, String, Bool, true, false, not, ◌&&◌, ◌||◌, Option, none, some, List, [],
  ◌∷◌, ltb, if◌then◌else◌, str_eq, ℤ, pos, negsuc,
}
use claude_ops.Domain.Task.{Time, Task, TaskStatus, failed, cancelled, orphaned}
use claude_ops.Repository.Tasks.{Tasks, get_running, update, list_by_status}

pub record Env : Type 0 where
  pub now : Time
  pub retention_days : ℤ
  -- t.AddDate(0, 0, -n), by the calendar of the clock's time zone
  pub days_before : ℕ → Time → Time
  -- the path is there
  pub exists : String → Bool
  -- git status --porcelain in a worktree; `none` is an error
  pub git_status : String → Option String
  pub git_removes : String → Bool
  pub rm_removes : String → Bool
  pub get_running_fails : Bool
  pub list_fails : TaskStatus → Bool
  -- the write of the row of a task
  pub update_fails : String → Bool

-- The table, and the worktrees that were removed.
pub record World : Type 0 where
  pub tasks : Tasks
  pub removed : List String

module _ (env : Env) where
  -- isDirty
  unfoldable pub is_dirty : String → Bool
  is_dirty worktree =
      not (str_eq worktree "")
      && env.exists worktree
      && elim (env.git_status worktree) [ none ↦ false | some out ↦ not (str_eq out "") ]

  -- Update, whose error is logged only
  abbrev pub write : Task → Tasks → Tasks
  write t ts = if env.update_fails t.id then ts else update env.now t ts

  -- what reconcileOrphan makes of a task
  unfoldable pub reconciled : Task → Task
  reconciled t =
      if is_dirty t.worktree_path
      then record t {
        status = orphaned;
        stderr_tail =
            "service restarted while task was running; worktree has unsaved changes — manual review required";
      }
      else record t { status = failed; stderr_tail = "service_restart" }

  -- reconcileOrphan
  unfoldable pub reconcile_orphan : Task → Tasks → Tasks
  reconcile_orphan t ts = write (reconciled t) ts

  unfoldable pub reconcile_all : List Task → Tasks → Tasks
  reconcile_all [] ts = ts
  reconcile_all (t ∷ found) ts = reconcile_all found (reconcile_orphan t ts)

  -- RecoverOrphans
  unfoldable pub recover_orphans : Tasks → Tasks
  recover_orphans ts = if env.get_running_fails then ts else reconcile_all (get_running ts) ts

  abbrev cleared : Task → World → World
  cleared t w = record w { tasks = write (record t { worktree_path = "" }) w.tasks }

  -- removeWorktree
  unfoldable pub remove_worktree : Task → World → World
  remove_worktree t w =
      let path = t.worktree_path in
      if not (env.exists path)
      then cleared t w
      else if env.git_removes path || env.rm_removes path
      then cleared t (record w { removed = path ∷ w.removed })
      else w

  -- t.FinishedAt == nil || t.FinishedAt.After(cutoff), negated
  abbrev ended_by : Time → Option Time → Bool
  ended_by cutoff none = false
  ended_by cutoff (some t) = not (ltb cutoff t)

  unfoldable pub sweep_tasks : Time → List Task → World → World
  sweep_tasks cutoff [] w = w
  sweep_tasks cutoff (t ∷ found) w =
      let due = not (str_eq t.worktree_path "") && ended_by cutoff t.finished_at in
      sweep_tasks cutoff found (if due then remove_worktree t w else w)

  -- one round over a status
  unfoldable pub sweep_status : Time → TaskStatus → (TaskStatus → Bool) → World → World
  sweep_status cutoff status is_it w =
      if env.list_fails status then w else sweep_tasks cutoff (list_by_status is_it 500 w.tasks) w

  is_failed : TaskStatus → Bool
  is_failed failed = true
  is_failed s = false

  is_cancelled : TaskStatus → Bool
  is_cancelled cancelled = true
  is_cancelled s = false

  sweep_before : Time → World → World
  sweep_before cutoff w =
      sweep_status cutoff cancelled is_cancelled (sweep_status cutoff failed is_failed w)

  -- SweepWorktrees
  unfoldable pub sweep_worktrees : World → World
  unfolding is_failed is_cancelled sweep_before
  sweep_worktrees w = elim env.retention_days [
    | negsuc n ↦ w
    | pos ℕ.zero ↦ w
    | pos (ℕ.suc n) ↦ sweep_before (env.days_before (n + 1) env.now) w
  ]

  -- RunOnBoot
  unfoldable pub run_on_boot : World → World
  run_on_boot w = sweep_worktrees (record w { tasks = recover_orphans w.tasks })
