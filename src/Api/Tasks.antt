-- ===== src/Api/Tasks.antt =====
-- ListTasks of internal/api/task_handler.go, and a client that follows its cursors.
pub mod Pages
use mathlib.Core.Option
use claude_ops.Prelude.{
  ℕ, zero, suc, String, Bool, true, Option, none, some, List, [], ◌∷◌, Result, ok, err,
  if◌then◌else◌, str_eq, ℤ, pos, map,
}
use claude_ops.Domain.Task.{
  Task, Time, TaskType, feature, security, perf, ci_fix, TaskSource, unset, github_issue,
}
use claude_ops.Repository.Tasks.{Tasks}
use claude_ops.Repository.Listing.{
  TaskFilter, IdOrder, list, status_text, source_text, ci_status_text,
}

abbrev type_text : TaskType → String
type_text feature = "feature"
type_text security = "security"
type_text perf = "perf"
type_text ci_fix = "ci-fix"

pub record TaskResponse : Type 0 where
  pub id : String
  pub repo_full_name : String
  pub issue_number : ℕ
  pub issue_title : String
  pub task_type : String
  pub status : String
  pub source : String
  pub maintenance_name : String
  pub pr_url : String
  pub pr_number : ℕ
  pub started_at : Option Time
  pub finished_at : Option Time
  pub estimated_input_tokens : ℕ
  pub estimated_output_tokens : ℕ
  pub created_at : Time
  pub updated_at : Time
  pub ci_status : String
  pub parent_task_id : String
  pub fix_attempt_count : ℕ
  pub head_sha : String
  pub ci_last_polled_at : Option Time

abbrev source_or_issue : TaskSource → String
source_or_issue unset = source_text github_issue
source_or_issue s = source_text s

abbrev text_or_empty : Option String → String
text_or_empty none = ""
text_or_empty (some s) = s

-- toTaskResponse
abbrev pub to_task_response : Task → TaskResponse
to_task_response t = record {
  id = t.id;
  repo_full_name = t.repo_full_name;
  issue_number = t.issue_number;
  issue_title = t.issue_title;
  task_type = type_text t.task_type;
  status = status_text t.status;
  source = source_or_issue t.source;
  maintenance_name = t.maintenance_name;
  pr_url = t.pr_url;
  pr_number = t.pr_number;
  started_at = t.started_at;
  finished_at = t.finished_at;
  estimated_input_tokens = t.estimated_input_tokens;
  estimated_output_tokens = t.estimated_output_tokens;
  created_at = t.created_at;
  updated_at = t.updated_at;
  ci_status = ci_status_text t.ci_status;
  parent_task_id = text_or_empty t.parent_task_id;
  fix_attempt_count = t.fix_attempt_count;
  head_sha = t.head_sha;
  ci_last_polled_at = t.ci_last_polled_at;
}

pub record TaskListResponse : Type 0 where
  pub items : List TaskResponse
  pub next_cursor : String

-- The query of a request: a parameter that is not given is "".
pub record ListQuery : Type 0 where
  pub status : String
  pub source : String
  pub limit : String
  pub cursor : String

abbrev given : String → Option String
given s = if str_eq s "" then none else some s

abbrev parsed_limit : Option ℤ → ℤ
parsed_limit none = pos 0
parsed_limit (some n) = n

-- the filter that ListTasks makes; `atoi` is strconv.Atoi
unfoldable pub filter_of : (String → Option ℤ) → ListQuery → TaskFilter
filter_of atoi q = record {
  status = given q.status;
  source = given q.source;
  ci_status = none;
  limit = if str_eq q.limit "" then pos 0 else parsed_limit (atoi q.limit);
  cursor = q.cursor;
}

-- the id of the last item
unfoldable pub last_id : List TaskResponse → String
last_id [] = ""
last_id (r ∷ []) = r.id
last_id (r ∷ s ∷ rest) = last_id (s ∷ rest)

module _ (atoi : String → Option ℤ) (ids : IdOrder) where
  -- ListTasks, where the database answers
  unfoldable pub list_tasks : ListQuery → Tasks → TaskListResponse
  list_tasks q ts =
      let items = map to_task_response (list ids (filter_of atoi q) ts) in
      record { items = items; next_cursor = last_id items }

  -- A client that asks again with the cursor that it was given until there is none; `none` is that
  -- the requests ran out.
  pub follow : ℕ → ListQuery → Tasks → Option (List (List TaskResponse))
  follow zero q ts = none
  follow (suc n) q ts =
      let page = list_tasks q ts in
      let rest =
        Option.map (λ more. page.items ∷ more)
          (follow n (record q { cursor = page.next_cursor }) ts) in
      if str_eq page.next_cursor "" then some (page.items ∷ []) else rest
