-- ===== src/Repository/Tasks.antt =====
-- internal/repository/task_repository.go and the queries of db/sqlc/task.sql.go: the table of tasks
-- as the list of its rows, and each statement as a function of it. `now` is MySQL's NOW(3). That a
-- call of the database may fail is left to the callers. Among rows that an ORDER BY does not
-- tell apart, the first is taken.
pub mod Rows
pub mod Sorted
pub mod Claims
pub mod Lookup
pub mod Writes
pub mod Loads
use claude_ops.Prelude.{
  ℕ, suc, String, Bool, true, false, not, ◌&&◌, ◌||◌, Option, none, some, List, [], ◌∷◌, ◌++◌, map,
  Result, ok, err, Error, not_found, message, ltb, leb, keep, any, find, length, take,
  if◌then◌else◌, str_eq, ◌==◌, or_default, is_some,
}
use claude_ops.Domain.Task.{
  Time, Task, TaskStatus, queued, running, done, failed, cancelled, orphaned, TaskSource, unset,
  github_issue, maintenance, CiStatus, TaskType, is_queued, is_running, is_ci_fix, is_watching,
}

abbrev pub Tasks : Type 0
Tasks = List Task

abbrev or_github_issue : TaskSource → TaskSource
or_github_issue unset = github_issue
or_github_issue s = s

-- toGORMTask and toDomainTask: both set the defaults, and copy all else.
abbrev pub stored : Task → Task
stored t = record t {
  source = or_github_issue t.source;
  model_usage_json = if str_eq t.model_usage_json "" then "{}" else t.model_usage_json;
}

-- `column = arg` on a nullable column: NULL equals nothing.
abbrev pub eq_nullable : Option String → Option String → Bool
eq_nullable (some a) (some b) = str_eq a b
eq_nullable a b = false

-- `WHERE id = ?` on the primary key.
abbrev pub has_id : String → Task → Bool
has_id id t = str_eq t.id id

abbrev pub of_repo : String → Task → Bool
of_repo repo t = str_eq t.repo_full_name repo

abbrev pub running_in : String → Task → Bool
running_in repo t = is_running t.status && of_repo repo t

-- UPDATE tasks SET … WHERE …
unfoldable pub update_where : (Task → Bool) → (Task → Task) → Tasks → Tasks
update_where p f [] = []
update_where p f (t ∷ ts) = (if p t then f t else t) ∷ update_where p f ts

-- GetByID
unfoldable pub get_by_id : String → Tasks → Result Task
get_by_id id ts = elim (find (has_id id) ts) [ none ↦ err not_found | some t ↦ ok (stored t) ]

-- Update: gorm's Save writes all the columns, sets updated_at, and inserts a row that is not there.
unfoldable pub update : Time → Task → Tasks → Tasks
update now t ts =
    let row = record (stored t) { updated_at = now } in
    if any (has_id t.id) ts then update_where (has_id t.id) (λ _. row) ts else ts ++ row ∷ []

-- The column of the unique index, COALESCE(parent_task_id, '') and head_sha, is that of `u`.
abbrev pub same_fix : Task → Task → Bool
same_fix u t =
    is_ci_fix t.task_type
    && str_eq (or_default "" t.parent_task_id) (or_default "" u.parent_task_id)
    && str_eq t.head_sha u.head_sha

-- A ci-fix task of that parent and head.
abbrev pub is_fix_of : Option String → String → Task → Bool
is_fix_of parent head t =
    is_ci_fix t.task_type && eq_nullable t.parent_task_id parent && str_eq t.head_sha head

-- Create: refused by the primary key, or by the unique index on the fix of a parent and a head.
unfoldable pub create : Task → Tasks → Result Tasks
create t ts =
    if any (has_id t.id) ts
    then err (message "create task: duplicate key")
    else if is_ci_fix t.task_type && any (same_fix t) ts
    then err (message "create task: duplicate fix")
    else ok (ts ++ stored t ∷ [])

-- ExistsByRepoAndIssue
unfoldable pub exists_by_repo_and_issue : String → ℕ → Tasks → Bool
exists_by_repo_and_issue repo issue =
    any
      λ t. of_repo repo t && t.issue_number == issue && (is_queued t.status || is_running t.status)

-- GetRunning
unfoldable pub get_running : Tasks → Tasks
get_running ts = map stored (keep (λ t. is_running t.status) ts)

-- ORDER BY … LIMIT 1: the first of the rows that no row precedes.
unfoldable pub preferred : (Task → Task → Bool) → Task → Option Task → Option Task
preferred before t none = some t
preferred before t (some u) = if before u t then some u else some t

unfoldable pub first_by : (Task → Task → Bool) → Tasks → Option Task
first_by before [] = none
first_by before (t ∷ ts) = preferred before t (first_by before ts)

-- ORDER BY, as a stable insertion sort.
unfoldable pub insert_by : (Task → Task → Bool) → Task → Tasks → Tasks
insert_by before t [] = t ∷ []
insert_by before t (u ∷ us) =
    let rest = insert_by before t us in if before u t then u ∷ rest else t ∷ u ∷ us

unfoldable pub sort_by : (Task → Task → Bool) → Tasks → Tasks
sort_by before [] = []
sort_by before (t ∷ ts) = insert_by before t (sort_by before ts)

abbrev pub older : Task → Task → Bool
older a b = ltb a.created_at b.created_at

abbrev claim_time : Option Time → Time
claim_time none = 0
claim_time (some t) = t

abbrev pub later_claim : Task → Task → Bool
later_claim a b = ltb (claim_time b.claimed_at) (claim_time a.claimed_at)

-- the subquery of ClaimNextTask
abbrev pub eligible : Tasks → Task → Bool
eligible ts t = is_queued t.status && not (any (running_in t.repo_full_name) ts)

abbrev pub claimed : Option String → Time → Task → Task
claimed worker now t = record t {
  status = running;
  worker_id = worker;
  claimed_at = some now;
  started_at = some now;
  updated_at = now;
}

-- ClaimNextTask: the row it took, if any, and the table
unfoldable pub claim_of : Option String → Time → Tasks → Option Task → Option Task × Tasks
claim_of worker now ts none = (none, ts)
claim_of worker now ts (some t) = (some t, update_where (has_id t.id) (claimed worker now) ts)

unfoldable pub claim_next_task : Option String → Time → Tasks → Option Task × Tasks
claim_next_task worker now ts = claim_of worker now ts (first_by older (keep (eligible ts) ts))

-- GetClaimedTaskID
unfoldable pub get_claimed_task : Option String → Tasks → Option Task
get_claimed_task worker ts =
    first_by later_claim (keep (λ t. eq_nullable t.worker_id worker && is_running t.status) ts)

abbrev pub worker_arg : String → Option String
worker_arg id = if str_eq id "" then none else some id

-- GetByID of the id that GetClaimedTaskID found
load_claimed : Option Task → Tasks → Result (Option Task)
load_claimed none ts = err (message "load claimed task id: no rows")
load_claimed (some t) ts = elim (get_by_id t.id ts) [ ok u ↦ ok (some u) | err e ↦ err e ]

-- ClaimNext
unfoldable pub claim_next : String → Time → Tasks → Result (Option Task) × Tasks
unfolding load_claimed
claim_next worker_id now ts =
    let worker = worker_arg worker_id in
    let (taken, after) = claim_next_task worker now ts in
    (if is_some taken then load_claimed (get_claimed_task worker after) after else ok none, after)

abbrev claimed_before : Time → Option Time → Bool
claimed_before cutoff none = false
claimed_before cutoff (some t) = ltb t cutoff

abbrev pub is_stale : Time → Task → Bool
is_stale cutoff t = is_running t.status && claimed_before cutoff t.claimed_at

abbrev pub reclaimed : Time → Task → Task
reclaimed now t = record t { status = orphaned; worker_id = none; updated_at = now }

-- ReclaimStaleTasks
unfoldable pub reclaim_stale : Time → Time → Tasks → Tasks
reclaim_stale cutoff now = update_where (is_stale cutoff) (reclaimed now)

abbrev polled_before : Option Time → Option Time → Bool
polled_before none none = false
polled_before none (some b) = true
polled_before (some a) none = false
polled_before (some a) (some b) = ltb a b

-- ListWatchingTaskIDs: never polled first, then by the time of the poll
unfoldable pub list_watching : Tasks → List String
list_watching ts =
    map (λ t. t.id)
      (sort_by (λ a b. polled_before a.ci_last_polled_at b.ci_last_polled_at)
        (keep (λ t. is_watching t.ci_status) ts))

-- FindFixChild
unfoldable pub find_fix_child : String → String → Tasks → Option Task
find_fix_child parent head ts = find (is_fix_of (worker_arg parent) head) ts

abbrev pub polled : CiStatus → String → Time → Time → Task → Task
polled status head at now t = record t {
  ci_status = status;
  head_sha = head;
  ci_last_polled_at = if at == 0 then none else some at;
  updated_at = now;
}

-- UpdateCIStatus
unfoldable pub update_ci_status : String → CiStatus → String → Time → Time → Tasks → Tasks
update_ci_status id status head at now = update_where (has_id id) (polled status head at now)

-- The filters of domain.TaskFilter that the sweep uses, and its limit.
abbrev pub effective_limit : ℕ → ℕ
effective_limit limit = if limit == 0 || ltb 100 limit then 50 else limit

-- List, with the filter on the status: newest first
unfoldable pub list_by_status : (TaskStatus → Bool) → ℕ → Tasks → Tasks
list_by_status p limit ts =
    map stored
      (take (effective_limit limit) (sort_by (λ a b. older b a) (keep (λ t. p t.status) ts)))
