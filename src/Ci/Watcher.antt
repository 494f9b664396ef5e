-- ===== src/Ci/Watcher.antt =====
-- internal/ci/watcher.go: one look of the watcher at one task. What gh, the template and the
-- database answer is given by an environment: each call is made at most once in one look.
pub mod Timeout
pub mod Spared
pub mod Attempts
use claude_ops.Prelude.{
  ℕ, ◌+◌, ◌-◌, String, Bool, true, false, not, ◌&&◌, ◌||◌, Option, none, some, List, [], ◌∷◌, ◌++◌,
  Result, ok, err, Error, message, wrap, ltb, leb, ◌==◌, str_eq, if◌then◌else◌, is_some,
}
use claude_ops.Domain.Task.{
  Time, Task, CiStatus, EventKind, ci_check_polled, ci_failure_detected, ci_fix_enqueued,
  ci_fix_exhausted,
}
use claude_ops.Repository.Tasks.{Tasks, get_by_id, find_fix_child, list_watching, update_ci_status}
use claude_ops.Usecase.Fix.{FixTaskInput, enqueue_fix_task}
use claude_ops.Ci.Checks.{
  CheckRun, Aggregate, undecided, failed, stuck, passed, aggregate_conclusion,
}

pub record Config : Type 0 where
  pub max_attempts : ℕ
  pub poll_timeout : ℕ
  pub comment_on_exhaustion : Bool

pub record PrView : Type 0 where
  pub head_ref_oid : String
  pub state : String

pub record PromptData : Type 0 where
  pub pr_number : ℕ
  pub failed_step : String
  pub log_tail : String
  pub previous_attempts : ℕ
  pub head_sha : String

-- The gh runner, its output decoded. The log of a run comes truncated and masked.
pub record Gh : Type 0 where
  pub pr_view : Task → Result PrView
  pub pr_checks : Task → Result (List CheckRun)
  pub log_failed : Task → ℕ → Result String

-- The database calls of one look that may fail.
pub data DbCall : Type 0 where
  load find_child write_status : DbCall
  create_fix : DbCall

pub record Env : Type 0 where
  pub cfg : Config
  pub now : Time  -- the clock
  pub db_now : Time  -- NOW(3)
  pub fails : DbCall → Bool
  pub gh : Option Gh
  pub prompts : Option (PromptData → Result String)
  pub slack : Bool  -- wired
  pub events : Bool  -- wired
  pub new_id : String  -- a fresh uuid

pub data Notice : Type 0 where
  ci_passed ci_stuck ci_timeout ci_exhausted : Notice
  fix_enqueued : ℕ → Notice
  pr_comment : Notice

-- The table, and what was recorded and sent, in order, each with the id of its task.
pub record World : Type 0 where
  pub tasks : Tasks
  pub recorded : List (String × EventKind)
  pub notices : List (String × Notice)

module _ (env : Env) where
  abbrev pub record_event : String → EventKind → World → World
  record_event id kind w =
      if env.events then record w { recorded = w.recorded ++ (id, kind) ∷ [] } else w

  abbrev pub notify : String → Notice → World → World
  notify id n w = if env.slack then record w { notices = w.notices ++ (id, n) ∷ [] } else w

  -- UpdateCIStatus, whether or not the caller looks at its error
  abbrev pub set_status : String → CiStatus → String → World → World
  set_status id status head w =
      if env.fails write_status
      then w
      else record w { tasks = update_ci_status id status head env.now env.db_now w.tasks }

  pub failed_step : List CheckRun → String
  failed_step [] = ""
  failed_step (c ∷ cs) = c.name

  fetched_log : Result String → String
  fetched_log (ok text) = text
  fetched_log (err e) = ""

  -- the log of collectFailureContext
  pub log_tail : Option Gh → Task → List CheckRun → String
  log_tail gh task [] = ""
  log_tail none task (c ∷ cs) = ""
  log_tail (some g) task (c ∷ cs) =
      if c.workflow_run == 0 then "" else fetched_log (g.log_failed task c.workflow_run)

  render : Option (PromptData → Result String) → PromptData → Result String
  render none d = ok ""
  render (some r) d = r d

  enqueue : FixTaskInput → World → Result (Task × Tasks)
  enqueue in_ w =
      if env.fails create_fix
      then err (message "create fix task")
      else enqueue_fix_task env.new_id env.now in_ w.tasks

  after_enqueue : Task → String → Result (Task × Tasks) → World → Result (Unit {0}) × World
  after_enqueue task head (err e) w = (err (wrap "enqueue fix task" e), w)
  after_enqueue task head (ok (child, tasks)) w =
      let w₁ = record_event task.id ci_fix_enqueued (record w { tasks = tasks }) in
      let w₂ = set_status task.id CiStatus.watching head w₁ in
      (ok tt, notify task.id (fix_enqueued child.fix_attempt_count) w₂)

  after_render : Task → String → String → Result String → World → Result (Unit {0}) × World
  after_render task head step (err e) w = (err (wrap "render prompt" e), w)
  after_render task head step (ok prompt) w =
      let in_ : FixTaskInput = record {
        parent = task;
        head_sha = head;
        failed_step = step;
        prompt_template = prompt;
      } in
      after_enqueue task head (enqueue in_ w) w

  -- the branch of handleFailure where the attempts are used up
  exhaust : Task → String → World → World
  exhaust task head w =
      let w₁ = set_status task.id CiStatus.exhausted head w in
      let w₂ = record_event task.id ci_fix_exhausted w₁ in
      let w₃ = notify task.id ci_exhausted w₂ in
      if env.cfg.comment_on_exhaustion && is_some env.gh && ltb 0 task.pr_number
      then record w₃ { notices = w₃.notices ++ (task.id, pr_comment) ∷ [] }
      else w₃

  -- a fix child exists, and the query for it did not fail
  abbrev pub has_fix : Task → String → World → Bool
  has_fix task head w = not (env.fails find_child) && is_some (find_fix_child task.id head w.tasks)

  -- handleFailure
  unfoldable pub handle_failure : Task → String → List CheckRun → World → Result (Unit {0}) × World
  unfolding exhaust after_render after_enqueue enqueue render
  handle_failure task head failing w₀ =
      let w = record_event task.id ci_failure_detected w₀ in
      if has_fix task head w
      then (ok tt, w)
      else if leb env.cfg.max_attempts task.fix_attempt_count
      then (ok tt, exhaust task head w)
      else after_render task head (failed_step failing)
          (render env.prompts (record {
            pr_number = task.pr_number;
            failed_step = failed_step failing;
            log_tail = log_tail env.gh task failing;
            previous_attempts = task.fix_attempt_count;
            head_sha = head;
          }))
          w

  -- the switch on the aggregate
  unfoldable pub decide :
      Task → String → Aggregate × List CheckRun → World → Result (Unit {0}) × World
  decide task head (undecided, runs) w =
      if env.fails write_status
      then (err (message "update ci status"), w)
      else (ok tt, set_status task.id CiStatus.watching head w)
  decide task head (passed, runs) w =
      (ok tt, notify task.id ci_passed (set_status task.id CiStatus.passed head w))
  decide task head (stuck, runs) w =
      (ok tt, notify task.id ci_stuck (set_status task.id CiStatus.stuck head w))
  decide task head (failed, runs) w = handle_failure task head runs w

  unfoldable pub with_checks :
      Task → String → Result (List CheckRun) → World → Result (Unit {0}) × World
  with_checks task head (err e) w = (err (wrap "gh pr checks" e), w)
  with_checks task head (ok checks) w =
      decide task head (aggregate_conclusion checks) (record_event task.id ci_check_polled w)

  unfoldable pub with_view :
      Task → Result PrView → (Task → Result (List CheckRun)) → World → Result (Unit {0}) × World
  with_view task (err e) checks w = (err (wrap "gh pr view" e), w)
  with_view task (ok view) checks w =
      if not (str_eq view.state "") && not (str_eq view.state "OPEN")
      then (ok tt, set_status task.id CiStatus.closed view.head_ref_oid w)
      else with_checks task view.head_ref_oid (checks task) w

  -- fetchPRView, and then fetchChecks, through the runner
  unfoldable pub look_at : Option Gh → Task → World → Result (Unit {0}) × World
  look_at none task w = (err (wrap "gh pr view" (message "gh runner not wired")), w)
  look_at (some g) task w = with_view task (g.pr_view task) g.pr_checks w

  abbrev pub timed_out : Task → Bool
  timed_out task =
      not (task.updated_at == 0)
      && ltb 0 env.cfg.poll_timeout
      && ltb env.cfg.poll_timeout (env.now - task.updated_at)

  unfoldable pub watch : Result Task → World → Result (Unit {0}) × World
  watch (err e) w = (err (wrap "load task" e), w)
  watch (ok task) w =
      if task.pr_number == 0
      then (ok tt, set_status task.id CiStatus.empty task.head_sha w)
      else if timed_out task
      then (ok tt, notify task.id ci_timeout (set_status task.id CiStatus.timeout task.head_sha w))
      else look_at env.gh task w

  -- processTask
  unfoldable pub process_task : String → World → Result (Unit {0}) × World
  process_task id w =
      if env.fails load
      then (err (wrap "load task" (message "get task by id")), w)
      else watch (get_by_id id w.tasks) w

-- The loop of tick: an error on one task is logged, and the next task is looked at. `envs` is what
-- the surroundings answer in the look at each task.
unfoldable pub look_at_all : (String → Env) → List String → World → World
look_at_all envs [] w = w
look_at_all envs (id ∷ ids) w = look_at_all envs ids (process_task (envs id) id w).1

-- tick; `listed` tells whether the query of the watched tasks succeeded
unfoldable pub tick : (String → Env) → Bool → World → World
tick envs listed w = if listed then look_at_all envs (list_watching w.tasks) w else w
