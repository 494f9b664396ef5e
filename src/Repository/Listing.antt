-- ===== src/Repository/Listing.antt =====
-- List of internal/repository/task_repository.go, with all the filters of domain.TaskFilter. A status,
-- a source and a state of the checks are compared as the texts of the columns.
use claude_ops.Prelude.{
  ℕ, String, Bool, true, false, ◌&&◌, ◌≡◌, Option, none, some, map, keep, take, if◌then◌else◌,
  str_eq, ℤ, pos, negsuc,
}
use claude_ops.Domain.Task.{
  Task, TaskStatus, queued, running, done, failed, cancelled, orphaned, TaskSource, unset,
  github_issue, maintenance, CiStatus,
}
use claude_ops.Repository.Tasks.{Tasks, stored, sort_by, older, effective_limit}

abbrev pub status_text : TaskStatus → String
status_text queued = "queued"
status_text running = "running"
status_text done = "done"
status_text failed = "failed"
status_text cancelled = "cancelled"
status_text orphaned = "orphaned"

abbrev pub source_text : TaskSource → String
source_text unset = ""
source_text github_issue = "github_issue"
source_text maintenance = "maintenance"

abbrev pub ci_status_text : CiStatus → String
ci_status_text CiStatus.empty = ""
ci_status_text CiStatus.pending = "pending"
ci_status_text CiStatus.watching = "watching"
ci_status_text CiStatus.passed = "passed"
ci_status_text CiStatus.failed = "failed"
ci_status_text CiStatus.exhausted = "exhausted"
ci_status_text CiStatus.timeout = "timeout"
ci_status_text CiStatus.stuck = "stuck"
ci_status_text CiStatus.closed = "closed"

pub record TaskFilter : Type 0 where
  pub status : Option String
  pub source : Option String
  pub ci_status : Option String
  pub limit : ℤ
  pub cursor : String

-- MySQL's `<` on the ids, by the collation of the column.
pub record IdOrder : Type 0 where
  pub lt : String → String → Bool
  pub irreflexive : (a : String) → lt a a ≡ false
  pub transitive : (a b c : String) → lt a b ≡ true → lt b c ≡ true → lt a c ≡ true

abbrev pub is_text : Option String → String → Bool
is_text none s = true
is_text (some t) s = str_eq s t

-- limit <= 0 || limit > 100
abbrev limit_of : ℤ → ℕ
limit_of (pos n) = effective_limit n
limit_of (negsuc n) = 50

module _ (ids : IdOrder) where
  -- the WHERE clause
  abbrev pub matches : TaskFilter → Task → Bool
  matches f t =
      is_text f.status (status_text t.status)
      && is_text f.source (source_text t.source)
      && is_text f.ci_status (ci_status_text t.ci_status)
      && (if str_eq f.cursor "" then true else ids.lt t.id f.cursor)

  -- List: newest first
  unfoldable pub list : TaskFilter → Tasks → Tasks
  list f ts =
      map stored (take (limit_of f.limit) (sort_by (λ a b. older b a) (keep (matches f) ts)))
