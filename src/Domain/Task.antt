-- ===== src/Domain/Task.antt =====
-- internal/domain/task.go: the task, its enumerations, and the events of its life.
use claude_ops.Prelude.{ℕ, String, Option, none, Bool, true, false}

-- A time.Time, in nanoseconds from the zero time, which is 0.
abbrev pub Time : Type 0
Time = ℕ

pub data TaskStatus : Type 0 where
  queued running done failed cancelled orphaned : TaskStatus

pub data TaskType : Type 0 where
  feature security perf ci_fix : TaskType

pub data CiStatus : Type 0 where
  empty pending watching passed failed exhausted timeout stuck closed : CiStatus

pub data TaskSource : Type 0 where
  unset github_issue maintenance : TaskSource

pub TaskStatus-discrete : Discrete TaskStatus
TaskStatus-discrete = hlevel

pub CiStatus-discrete : Discrete CiStatus
CiStatus-discrete = hlevel

-- Costs are copied and summed only: they are counted in millionths of a dollar.
pub record Task : Type 0 where
  pub id : String
  pub repo_full_name : String
  pub issue_number : ℕ
  pub issue_title : String
  pub task_type : TaskType
  pub status : TaskStatus
  pub source : TaskSource
  pub maintenance_name : String
  pub prompt_template : String
  pub worktree_path : String
  pub pr_url : String
  pub pr_number : ℕ
  pub started_at : Option Time
  pub finished_at : Option Time
  pub estimated_input_tokens : ℕ
  pub estimated_output_tokens : ℕ
  pub exit_code : Option ℕ
  pub stderr_tail : String
  pub created_at : Time
  pub updated_at : Time
  pub cost_usd : ℕ
  pub total_input_tokens : ℕ
  pub total_output_tokens : ℕ
  pub cache_creation_input_tokens : ℕ
  pub cache_read_input_tokens : ℕ
  pub model_usage_json : String
  pub worker_id : Option String
  pub claimed_at : Option Time
  pub parent_task_id : Option String
  pub fix_attempt_count : ℕ
  pub ci_status : CiStatus
  pub head_sha : String
  pub ci_last_polled_at : Option Time

pub data EventKind : Type 0 where
  started slack_sent claude_stdout_chunk cancelled usage_warning pr_created failed ci_check_polled
        ci_failure_detected ci_fix_enqueued ci_fix_exhausted :
      EventKind

-- &domain.Task{}: Go's zero value.
abbrev pub zero_task : Task
zero_task = record {
  id = "";
  repo_full_name = "";
  issue_number = 0;
  issue_title = "";
  task_type = feature;
  status = queued;
  source = unset;
  maintenance_name = "";
  prompt_template = "";
  worktree_path = "";
  pr_url = "";
  pr_number = 0;
  started_at = none;
  finished_at = none;
  estimated_input_tokens = 0;
  estimated_output_tokens = 0;
  exit_code = none;
  stderr_tail = "";
  created_at = 0;
  updated_at = 0;
  cost_usd = 0;
  total_input_tokens = 0;
  total_output_tokens = 0;
  cache_creation_input_tokens = 0;
  cache_read_input_tokens = 0;
  model_usage_json = "";
  worker_id = none;
  claimed_at = none;
  parent_task_id = none;
  fix_attempt_count = 0;
  ci_status = CiStatus.empty;
  head_sha = "";
  ci_last_polled_at = none;
}

-- Tests against the constants, as the queries and the guards make them.
abbrev pub is_queued : TaskStatus → Bool
is_queued queued = true
is_queued _ = false

abbrev pub is_running : TaskStatus → Bool
is_running running = true
is_running _ = false

abbrev pub is_ci_fix : TaskType → Bool
is_ci_fix ci_fix = true
is_ci_fix _ = false

abbrev pub is_watching : CiStatus → Bool
is_watching watching = true
is_watching _ = false
