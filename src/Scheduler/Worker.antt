-- ===== src/Scheduler/Worker.antt =====
-- internal/scheduler/worker.go: the pipeline of one task. What git, Claude, GitHub, the budget, the
-- gate and the database answer is given by an environment: each call is made at most once.
pub mod Ends
use claude_ops.Prelude.{
  ℕ, String, Bool, true, false, not, ◌&&◌, Option, none, some, is_some, List, [], ◌∷◌, ◌++◌, Result,
  ok, err, Error, message, wrap, ltb, keep, if◌then◌else◌, str_eq,
}
use claude_ops.Domain.Task.{
  Time, Task, TaskStatus, running, done, failed, cancelled, CiStatus, EventKind, started,
  slack_sent, claude_stdout_chunk, usage_warning, pr_created, is_ci_fix,
}
use claude_ops.Domain.Calendar.{Calendar}
use claude_ops.Domain.Window.{ActiveWindow, allow_now}
use claude_ops.Scheduler.BudgetGate.{BudgetReason, allowed}
use claude_ops.Scheduler.Tick.{is_full_mode}
use claude_ops.Repository.Tasks.{Tasks, update, update_ci_status}

-- The writes of the row, in order.
pub data Write : Type 0 where
  mark_running worktree_path final ci_status : Write

-- The readings of the clock.
pub data Reading : Type 0 where
  at_start at_gate at_end : Reading

-- claude.RunResult
pub record RunResult : Type 0 where
  pub text_output : String
  pub stderr_tail : String
  pub input_tokens : ℕ
  pub output_tokens : ℕ
  pub cache_read_input_tokens : ℕ
  pub cache_creation_input_tokens : ℕ
  pub total_cost_usd : ℕ
  -- the encoded usage of the models, "{}" where it is empty
  pub model_usage_json : String

pub record World : Type 0 where
  pub tasks : Tasks
  pub worktrees : List String
  pub recorded : List EventKind

module _ (c : Calendar) where
  pub record Env : Type 0 where
    pub clock : Reading → Time
    pub windows : List (ActiveWindow c)
    pub ci_fix_enabled : Bool
    pub slack : Bool  -- wired
    pub events : Bool  -- wired
    pub fails : Write → Bool
    -- the path of the worktree of a task
    pub path_of : String → String
    pub made : Result (Unit {0})  -- git worktree add
    pub stopped_early : Bool  -- the context, after the worktree
    pub prompt : Result String
    pub full_mode : Option (Result String)
    pub budget : Option (Result BudgetReason)
    pub output : Option RunResult
    pub failure : Option Error  -- of the run
    pub rate_limited : Bool  -- that failure is a rate limit
    pub stopped_late : Bool  -- the context, after the run
    pub gate : Option String  -- the failure of the quality gate
    pub pr : Option (Result (String × ℕ))

  module _ (env : Env) where
    abbrev pub record_event : EventKind → World → World
    record_event kind w = if env.events then record w { recorded = w.recorded ++ kind ∷ [] } else w

    -- TaskRepo.Update whose error is logged only
    abbrev pub write : Write → Reading → Task → World → World
    write kind at t w =
        if env.fails kind then w else record w { tasks = update (env.clock at) t w.tasks }

    abbrev pub remove_worktree : String → World → World
    remove_worktree path w = record w { worktrees = keep (λ p. not (str_eq p path)) w.worktrees }

    -- fail
    unfoldable pub fail : Task → String → World → Result (Unit {0}) × World
    fail t msg w =
        let end = record t {
          status = failed;
          finished_at = some (env.clock at_end);
          stderr_tail = msg;
        } in
        (err (message msg), record_event EventKind.failed (write final at_end end w))

    -- cancel
    unfoldable pub cancel : Task → World → Result (Unit {0}) × World
    cancel t w =
        let end = record t { status = cancelled; finished_at = some (env.clock at_end) } in
        (
          ok tt,
          remove_worktree t.worktree_path
              (record_event EventKind.cancelled (write final at_end end w)),
        )

    -- from "Mark done" on
    unfoldable pub finish : Task → World → Result (Unit {0}) × World
    finish t w =
        let end = record t { status = done; finished_at = some (env.clock at_end) } in
        let ended = write final at_end end w in
        if env.ci_fix_enabled && ltb 0 t.pr_number && not (is_ci_fix t.task_type)
        then (
          ok tt,
          if env.fails ci_status then ended else record ended {
            tasks =
                update_ci_status t.id CiStatus.watching t.head_sha (env.clock at_end)
                  (env.clock at_end) ended.tasks;
          },
        )
        else (ok tt, remove_worktree t.worktree_path ended)

    with_pr : Option (Result (String × ℕ)) → Task → World → Result (Unit {0}) × World
    with_pr none t w = finish t w
    with_pr (some (err e)) t w = fail t "create PR" (remove_worktree t.worktree_path w)
    with_pr (some (ok (url, number))) t w =
        finish (record t { pr_url = url; pr_number = number }) (record_event pr_created w)

    -- The worktree stays where the quality gate fails.
    with_gate : Option String → Task → World → Result (Unit {0}) × World
    with_gate (some msg) t w = fail t msg (record_event EventKind.failed w)
    with_gate none t w = with_pr env.pr t w

    -- applyRunUsage, and the estimates
    abbrev pub used : Option RunResult → Task → Task
    used none t = t
    used (some r) t = record t {
      estimated_input_tokens = r.input_tokens;
      estimated_output_tokens = r.output_tokens;
      cost_usd = r.total_cost_usd;
      total_input_tokens = r.input_tokens;
      total_output_tokens = r.output_tokens;
      cache_read_input_tokens = r.cache_read_input_tokens;
      cache_creation_input_tokens = r.cache_creation_input_tokens;
      model_usage_json = r.model_usage_json;
    }

    logged : Option RunResult → World → World
    logged none w = w
    logged (some r) w = if str_eq r.text_output "" then w else record_event claude_stdout_chunk w

    with_run : Option Error → Task → World → Result (Unit {0}) × World
    with_run (some e) t w =
        let warned =
          if is_some env.budget && env.rate_limited then record_event usage_warning w else w in
        if env.stopped_late then cancel t warned else fail t "claude" warned
    with_run none t w = with_gate env.gate (used env.output t) w

    with_budget : Option (Result BudgetReason) → Task → World → Result (Unit {0}) × World
    with_budget (some (err e)) t w = fail t "budget gate error" (remove_worktree t.worktree_path w)
    with_budget (some (ok BudgetReason.allowed)) t w = with_run env.failure t (logged env.output w)
    with_budget (some (ok _)) t w = cancel t (remove_worktree t.worktree_path w)
    with_budget none t w = with_run env.failure t (logged env.output w)

    with_prompt : Result String → Task → World → Result (Unit {0}) × World
    with_prompt (err e) t w = fail t "render prompt" w
    with_prompt (ok text) t w =
        if allow_now c (env.clock at_gate) (is_full_mode env.full_mode) env.windows
        then with_budget env.budget t w
        else cancel t (remove_worktree t.worktree_path w)

    with_worktree : Result (Unit {0}) → Task → World → Result (Unit {0}) × World
    with_worktree (err e) t w = fail t "create worktree" w
    with_worktree (ok u) t w =
        let path = env.path_of t.id in
        let there = record t { worktree_path = path } in
        let w₁ = write worktree_path at_start there (record w { worktrees = path ∷ w.worktrees }) in
        if env.stopped_early then cancel there w₁ else with_prompt env.prompt there w₁

    -- RunTask
    unfoldable pub run_task : Task → World → Result (Unit {0}) × World
    unfolding with_worktree with_prompt with_budget with_run with_gate with_pr logged
    run_task t w =
        let begun = record t { status = running; started_at = some (env.clock at_start) } in
        if env.fails mark_running
        then (err (wrap "mark running" (message "update")), w)
        else let w₁ =
            record_event started (record w { tasks = update (env.clock at_start) begun w.tasks }) in
          with_worktree env.made begun (if env.slack then record_event slack_sent w₁ else w₁)
