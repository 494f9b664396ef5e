-- ===== src/Api/Commands/Created.antt =====
-- When EnqueueTask (internal/api/task_handler.go) makes a task.
use claude_ops.Prelude.{
  ◌≡◌, ◌⊎◌, refl, inl, inr, true, false, some, [], ◌∷◌, ◌++◌, count, Result-cases, arith,
}
use claude_ops.Domain.Task.{Task}
use claude_ops.Repository.Tasks.{Tasks, stored}
use claude_ops.Usecase.Tasks.{Env, EnqueueRequest, enqueue_from_issue}
use claude_ops.Usecase.Tasks.Duplicates.{is_active, enqueue_from_issue-once}
use claude_ops.Usecase.Tasks.Accepted.{wanted, enqueue_from_issue-wanted}
use claude_ops.Api.Tasks.{TaskResponse, to_task_response}
use claude_ops.Api.Commands.{Response, done, is_done, enqueue_task}

-- What a request that is answered with a task did to the table.
pub record IsCreated (req : EnqueueRequest) (ts after : Tasks) (r : Response TaskResponse)
    : Type 0 where
  pub task : Task
  pub answered : r ≡ done (to_task_response task)
  pub none_before : count (is_active req.repo_full_name req.issue_number) ts ≡ 0
  pub one_after : count (is_active req.repo_full_name req.issue_number) after ≡ 1
  pub inserted : ts ++ stored task ∷ [] ≡ after

-- A request that names an allowed repository, and is let in at this time by full mode or the window, where
-- no task of its issue waits or runs, the id is new, and the database answers, is answered with a task, and
-- then just one task of the issue waits or runs, in the old table with the new row. Any other request is
-- answered with an error, and the table stays as it was.
pub enqueue_task-IsCreated :
    (env : Env) (req : EnqueueRequest) (ts : Tasks)
    → (let (r, after) = enqueue_task env (some req) ts in
        (wanted env req ts ≡ true) × IsCreated req ts after r
        ⊎ (wanted env req ts ≡ false) × (is_done r ≡ false) × (after ≡ ts))
unfolding enqueue_task
enqueue_task-IsCreated env req ts =
    let known = enqueue_from_issue-wanted env req ts in
    elim (Result-cases (enqueue_from_issue env req ts)) [
      | inl ((t, after), e) ↦
          let (before, one, same) = enqueue_from_issue-once env req ts t after e in
          inl (
            ground (arith, known),
            rw e (record {
              task = t;
              answered = refl;
              none_before = before;
              one_after = one;
              inserted = same;
            }),
          )
      | inr (x, e) ↦ inr (ground (arith, known), rw e refl, rw e refl)
    ]
