-- ===== src/Github/Poller.antt =====
-- internal/github/poller.go: the open issues of the configured repositories become tasks. What
-- GitHub and the database answer is given by an environment.
pub mod Repeats
use claude_ops.Prelude.{
  ℕ, String, ◌≡◌, refl, Bool, true, false, not, ◌&&◌, ◌||◌, Option, none, some, List, [], ◌∷◌, map,
  all, Result, ok, err, mem_str, str_eq, if◌then◌else◌,
}
use claude_ops.Domain.Task.{Time, Task, TaskType, feature, security, perf, zero_task, queued}
use claude_ops.Repository.Tasks.{Tasks, create, exists_by_repo_and_issue}
use claude_ops.Usecase.Tasks.{RepoConfig}

-- The fields of a gh.Issue that are read; `new_id` and `now` are what the task made for it gets.
pub record Issue : Type 0 where
  pub number : ℕ
  pub title : String
  pub is_pull_request : Bool
  pub labels : List String
  pub exists_fails : Bool
  pub create_fails : Bool
  pub new_id : String
  pub now : Time

-- hasAllLabels, and hasAllLabelNames of webhook_handler.go
unfoldable pub has_all_labels : List String → List String → Bool
has_all_labels labels required = all (λ r. mem_str r labels) required

-- detectTaskType
unfoldable pub detect_task_type : List String → TaskType
detect_task_type [] = feature
detect_task_type (l ∷ ls) =
    let rest = detect_task_type ls in
    if str_eq l "security"
    then security
    else if str_eq l "perf" || str_eq l "performance"
    then perf
    else rest

unfoldable pub polled_task : RepoConfig → Issue → Task
polled_task repo i = record zero_task {
  id = i.new_id;
  repo_full_name = repo.name;
  issue_number = i.number;
  issue_title = i.title;
  task_type = detect_task_type i.labels;
  status = queued;
  created_at = i.now;
  updated_at = i.now;
}

or_unchanged : Tasks → Result Tasks → Tasks
or_unchanged ts (ok after) = after
or_unchanged ts (err e) = ts

-- The loop of pollRepo: an error on one issue is logged, and the next issue is looked at.
unfoldable pub poll_issue : RepoConfig → Issue → Tasks → Tasks
unfolding or_unchanged
poll_issue repo i ts =
    if i.is_pull_request || not (has_all_labels i.labels repo.labels)
    then ts
    else if i.exists_fails || exists_by_repo_and_issue repo.name i.number ts || i.create_fails
    then ts
    else or_unchanged ts (create (polled_task repo i) ts)

unfoldable pub poll_issues : RepoConfig → List Issue → Tasks → Tasks
poll_issues repo [] ts = ts
poll_issues repo (i ∷ is) ts = poll_issues repo is (poll_issue repo i ts)

-- pollRepo: an error where the name has no slash, or where GitHub does not answer
unfoldable pub poll_repo : RepoConfig → Bool → Result (List Issue) → Tasks → Tasks
poll_repo repo named (err e) ts = ts
poll_repo repo named (ok is) ts = if named then poll_issues repo is ts else ts

-- Poll; `named` tells whether a name splits at a slash
unfoldable pub poll :
    (String → Bool) → (RepoConfig → Result (List Issue)) → List RepoConfig → Tasks → Tasks
poll named listed [] ts = ts
poll named listed (r ∷ rs) ts = poll named listed rs (poll_repo r (named r.name) (listed r) ts)
