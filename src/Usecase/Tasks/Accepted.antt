-- ===== src/Usecase/Tasks/Accepted.antt =====
-- internal/usecase/task_usecase.go: which requests EnqueueFromIssue accepts.
use claude_ops.Prelude.{
  ℕ, String, ◌≤◌, ◌≡◌, refl, inl, inr, Bool, true, false, not, ◌&&◌, ◌||◌, ◌==◌, [], ◌∷◌, Result,
  ok, err, is_ok, arith, count, any, or_default, Bool-cases,
}
use claude_ops.Domain.Task.{Task}
use claude_ops.Repository.Tasks.{Tasks, has_id, create, exists_by_repo_and_issue}
use claude_ops.Usecase.Tasks.{
  Env, EnqueueRequest, is_allowed_repo, is_full_mode, issue_task, created, enqueue_new, after_mode,
  enqueue_from_issue,
}
use claude_ops.Usecase.Tasks.Duplicates.{is_active, exists-count}

-- Full mode is on, or the window is open; and the mode can be read.
abbrev lets_in_by : Env → Result Bool → Bool
lets_in_by env (ok full) = full || or_default true env.window_open
lets_in_by env (err e) = false

abbrev pub lets_in : Env → Bool
lets_in env = lets_in_by env (is_full_mode env env.full_mode)

-- No task of the issue waits or runs, the id is new, and the database answers.
abbrev is_fresh : Env → EnqueueRequest → Tasks → Bool
is_fresh env req ts =
    count (is_active req.repo_full_name req.issue_number) ts == 0
    && not (any (has_id env.new_id) ts)
    && not env.exists_fails
    && not env.create_fails

-- The request names an allowed repository, and is let in at this time.
abbrev pub wanted : Env → EnqueueRequest → Tasks → Bool
wanted env req ts =
    is_allowed_repo env.repos req.repo_full_name && lets_in env && is_fresh env req ts

any-counted : (p : Task → Bool) (ts : Tasks) → any p ts ≡ true → 1 ≤ count p ts
any-counted p [] h = cc
any-counted p (t ∷ ts) h = ground (arith, any-counted p ts)

exists-counted :
    (repo : String) (issue : ℕ) (ts : Tasks)
    → exists_by_repo_and_issue repo issue ts ≡ true
    → 1 ≤ count (is_active repo issue) ts
unfolding exists_by_repo_and_issue
exists-counted repo issue ts h = any-counted (is_active repo issue) ts h

enqueue_new-is_fresh :
    (env : Env) (req : EnqueueRequest) (ts : Tasks)
    → is_ok (enqueue_new env req ts) ≡ is_fresh env req ts
unfolding enqueue_new created create issue_task
enqueue_new-is_fresh env req ts =
    let repo = req.repo_full_name in
    let issue = req.issue_number in
    elim (Bool-cases (exists_by_repo_and_issue repo issue ts)) [
      | inl e ↦ ground (arith, exists-counted repo issue ts e)
      | inr e ↦ ground (arith, exists-count repo issue ts e)
    ]

after_mode-wanted :
    (env : Env) (req : EnqueueRequest) (ts : Tasks) (r : Result Bool)
    → is_ok (after_mode env req r ts) ≡ (lets_in_by env r && is_fresh env req ts)
unfolding after_mode
after_mode-wanted env req ts (ok full) = ground (arith, enqueue_new-is_fresh env req ts)
after_mode-wanted env req ts (err e) = refl

-- EnqueueFromIssue succeeds exactly for a request that is wanted.
pub enqueue_from_issue-wanted :
    (env : Env) (req : EnqueueRequest) (ts : Tasks)
    → is_ok (enqueue_from_issue env req ts) ≡ wanted env req ts
unfolding enqueue_from_issue
enqueue_from_issue-wanted env req ts =
    ground (arith, after_mode-wanted env req ts (is_full_mode env env.full_mode))
