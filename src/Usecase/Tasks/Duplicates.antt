-- ===== src/Usecase/Tasks/Duplicates.antt =====
-- internal/usecase/task_usecase.go: at most one task of an issue waits or runs.
use claude_ops.Prelude.{
  ℕ, ◌≤◌, String, ◌≡◌, sym, subst, inl, inr, Bool, true, false, not, ◌&&◌, ◌||◌, ◌==◌, [], ◌∷◌,
  ◌++◌, ok, err, Result, message, arith, count, count-append, any, str_eq_self, if◌then◌else◌,
  Bool-cases, past_guard, within_guard, or_default,
}
use claude_ops.Domain.Task.{Task, is_running, is_queued, is_ci_fix}
use claude_ops.Repository.Tasks.{
  Tasks, has_id, of_repo, stored, create, exists_by_repo_and_issue, same_fix,
}
use claude_ops.Repository.Tasks.Rows.{any-count}
use claude_ops.Usecase.Tasks.{
  Env, EnqueueRequest, is_allowed_repo, is_full_mode, issue_task, created, enqueue_new, after_mode,
  enqueue_from_issue,
}

-- A task of the issue that waits or runs.
abbrev pub is_active : String → ℕ → Task → Bool
is_active repo issue t =
    of_repo repo t && t.issue_number == issue && (is_queued t.status || is_running t.status)

pub exists-count :
    (repo : String) (issue : ℕ) (ts : Tasks)
    → exists_by_repo_and_issue repo issue ts ≡ false
    → count (is_active repo issue) ts ≡ 0
unfolding exists_by_repo_and_issue
exists-count repo issue ts h = any-count (is_active repo issue) ts h

pub count-exists :
    (repo : String) (issue : ℕ) (ts : Tasks)
    → 1 ≤ count (is_active repo issue) ts
    → exists_by_repo_and_issue repo issue ts ≡ true
count-exists repo issue ts h = elim (Bool-cases (exists_by_repo_and_issue repo issue ts)) [
  | inl e ↦ e
  | inr e ↦ absurd (omega (arith, h, exists-count repo issue ts e))
]

-- What a row that is inserted adds to the table.
pub create-appends :
    (t : Task) (ts after : Tasks) → create t ts ≡ ok after → ts ++ stored t ∷ [] ≡ after
unfolding create
create-appends t ts after h = elim (Bool-cases (any (has_id t.id) ts)) [
  | inl e ↦ ground arith
  | inr e ↦ elim (Bool-cases (is_ci_fix t.task_type && any (same_fix t) ts)) [
    | inl f ↦ ground arith
    | inr f ↦ ground arith
  ]
]

created-ok :
    (u : Task) (r : Result Tasks) (t : Task) (after : Tasks)
    → created u r ≡ ok (t, after)
    → (u ≡ t) × (r ≡ ok after)
unfolding created
created-ok u (ok ts) t after h = (cc, cc)
created-ok u (err e) t after h = absurd (cc)

-- The guard, and the table, of an enqueueing that succeeds.
enqueue_new-parts :
    (env : Env) (req : EnqueueRequest) (ts : Tasks) (t : Task) (after : Tasks)
    → enqueue_new env req ts ≡ ok (t, after)
    → (exists_by_repo_and_issue req.repo_full_name req.issue_number ts ≡ false)
      × (t ≡ issue_task env.new_id env.now req)
      × (ts ++ stored t ∷ [] ≡ after)
unfolding enqueue_new
enqueue_new-parts env req ts t after h =
    let (known, _) = past_guard env.exists_fails _ _ _ h in
    let (fresh, made) =
      past_guard (exists_by_repo_and_issue req.repo_full_name req.issue_number ts) _ _ _
        (past_guard env.exists_fails _ _ _ h).1 in
    let u = issue_task env.new_id env.now req in
    let (same, stored_as) =
      created-ok u (if env.create_fails then err (message "create task") else create u ts) t after
        made in
    (
      fresh,
      sym same,
      subst (λ (x : Task). ts ++ stored x ∷ [] ≡ after) same
          (create-appends u ts after (past_guard env.create_fails _ _ _ stored_as).1),
    )

enqueue_from_issue-parts :
    (env : Env) (req : EnqueueRequest) (ts : Tasks) (t : Task) (after : Tasks)
    → enqueue_from_issue env req ts ≡ ok (t, after)
    → enqueue_new env req ts ≡ ok (t, after)
unfolding enqueue_from_issue after_mode
enqueue_from_issue-parts env req ts t after h =
    after_mode-ok (is_full_mode env env.full_mode)
      (within_guard (is_allowed_repo env.repos req.repo_full_name) _ _ _ h).1
  where
    after_mode-ok :
        (r : Result Bool)
        → after_mode env req r ts ≡ ok (t, after)
        → enqueue_new env req ts ≡ ok (t, after)
    after_mode-ok (ok full) x =
        (past_guard (not full && not (or_default true env.window_open)) _ _ _ x).1
    after_mode-ok (err e) x = absurd (cc)

-- A task is enqueued for an allowed issue of which no task waits or runs, and then just one does.
pub enqueue_from_issue-once :
    (env : Env) (req : EnqueueRequest) (ts : Tasks) (t : Task) (after : Tasks)
    → enqueue_from_issue env req ts ≡ ok (t, after)
    → (count (is_active req.repo_full_name req.issue_number) ts ≡ 0)
      × (count (is_active req.repo_full_name req.issue_number) after ≡ 1)
      × (ts ++ stored t ∷ [] ≡ after)
unfolding issue_task
enqueue_from_issue-once env req ts t after h =
    let (fresh, made, same) =
      enqueue_new-parts env req ts t after (enqueue_from_issue-parts env req ts t after h) in
    let none_yet = exists-count req.repo_full_name req.issue_number ts fresh in
    let p = is_active req.repo_full_name req.issue_number in
    let is_it : p (stored t) ≡ true = rw (made, str_eq_self req.repo_full_name) (ground arith) in
    (none_yet, rw⁻¹ same (ground (arith, count-append p ts (stored t ∷ []), none_yet, is_it)), same)
