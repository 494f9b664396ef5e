-- ===== src/Ci/Watcher/Spared.antt =====
-- internal/ci/watcher.go: the row of a watched task, which handleFailure and the writes of a status keep
-- below the limit on attempts.
use claude_ops.Prelude.{
  ℕ, String, Bool, true, false, ◌&&◌, some, List, [], ◌∷◌, ◌++◌, ◌≡◌, refl, Result, Result-cases,
  ◌<◌, ok, err, find, any, sym, subst, ◌∙◌, eq_iff, leb, str_eq, arith, Bool-cases, inl, inr,
}
use claude_ops.Domain.Task.{
  Task, CiStatus, EventKind, ci_failure_detected, ci_fix_enqueued, is_ci_fix,
}
use claude_ops.Repository.Tasks.{Tasks, has_id, update_ci_status, stored, polled, create, same_fix}
use claude_ops.Repository.Tasks.Lookup.{
  find-update_ci_status, find-update_ci_status_other, find-append,
}
use claude_ops.Usecase.Fix.{FixTaskInput, fix_task, enqueue_fix_task}
use claude_ops.Ci.Checks.{CheckRun}
use claude_ops.Ci.Watcher.{
  Env, Notice, World, fix_enqueued, create_fix, write_status, record_event, notify, set_status,
  handle_failure, exhaust, after_render, after_enqueue, enqueue, has_fix, failed_step,
}

abbrev pub is_exhausted : CiStatus → Bool
is_exhausted CiStatus.exhausted = true
is_exhausted _ = false

-- The row of `id` counts `n` attempts and is not marked exhausted.
unfoldable pub Spared : String → ℕ → Tasks → Type 0
Spared id n ts =
    (t : Task) × (find (has_id id) ts ≡ some t)
    × (t.fix_attempt_count ≡ n)
    × (is_exhausted t.ci_status ≡ false)

module _ (env : Env) (id : String) (n : ℕ) where
  pub written-Spared :
      (other : String) (status : CiStatus) (head : String) (ts : Tasks)
      → (str_eq other id ≡ true → is_exhausted status ≡ false)
      → Spared id n ts
      → Spared id n (update_ci_status other status head env.now env.db_now ts)
  unfolding Spared
  written-Spared other status head ts h (t, found, count, live) =
      elim (Bool-cases (str_eq other id)) [
        | inl e ↦
            let same : id ≡ other = sym ((eq_iff other id).0 e) in
            (
              polled status head env.now env.db_now t,
              subst
                  (λ (s : String).
                    find (has_id id) (update_ci_status s status head env.now env.db_now ts)
                    ≡ some (polled status head env.now env.db_now t))
                  same (find-update_ci_status id status head env.now env.db_now ts t found),
              count,
              h e,
            )
        | inr e ↦ (
          t,
          find-update_ci_status_other id other status head env.now env.db_now ts e ∙ found,
          count,
          live,
        )
      ]

  pub set_status-Spared :
      (other : String) (status : CiStatus) (head : String) (w : World)
      → (str_eq other id ≡ true → is_exhausted status ≡ false)
      → Spared id n w.tasks
      → Spared id n (set_status env other status head w).tasks
  set_status-Spared other status head w h s = elim (Bool-cases (env.fails write_status)) [
    | inl e ↦ rw e s
    | inr e ↦ rw e (written-Spared other status head w.tasks h s)
  ]

  pub notify-tasks :
      (other : String) (m : Notice) (w : World) → (notify env other m w).tasks ≡ w.tasks
  notify-tasks other m w = ground arith

  pub record_event-tasks :
      (other : String) (k : EventKind) (w : World) → (record_event env other k w).tasks ≡ w.tasks
  record_event-tasks other k w = ground arith

  create-Spared :
      (t : Task) (ts after : Tasks) → create t ts ≡ ok after → Spared id n ts → Spared id n after
  unfolding create Spared
  create-Spared t ts after h (u, found, count, live) = elim (Bool-cases (any (has_id t.id) ts)) [
    | inl e ↦ ground arith
    | inr e ↦ elim (Bool-cases (is_ci_fix t.task_type && any (same_fix t) ts)) [
      | inl f ↦ ground arith
      | inr f ↦
          let appended : after ≡ ts ++ stored t ∷ [] = ground arith in
          (
            u,
            subst (λ (ts : Tasks). find (has_id id) ts ≡ some u) (sym appended)
                (find-append id ts (stored t) u found),
            count,
            live,
          )
    ]
  ]

  enqueue-Spared :
      (in_ : FixTaskInput) (w : World) (child : Task) (after : Tasks)
      → enqueue env in_ w ≡ ok (child, after)
      → Spared id n w.tasks
      → Spared id n after
  unfolding enqueue enqueue_fix_task
  enqueue-Spared in_ w child after h s = elim (Bool-cases (env.fails create_fix)) [
    | inl e ↦ ground arith
    | inr e ↦ elim (Result-cases (create (fix_task env.new_id env.now in_) w.tasks)) [
      | inl (ts, f) ↦ create-Spared (fix_task env.new_id env.now in_) w.tasks after (ground arith) s
      | inr (x, f) ↦ ground arith
    ]
  ]

  after_enqueue-Spared :
      (task : Task) (head : String) (r : Result (Task × Tasks)) (w : World)
      → Spared id n w.tasks
      → ((child : Task) (after : Tasks) → r ≡ ok (child, after) → Spared id n after)
      → Spared id n (after_enqueue env task head r w).1.tasks
  unfolding after_enqueue
  after_enqueue-Spared task head (err e) w s h = s
  after_enqueue-Spared task head (ok (child, tasks)) w s h =
      let w₁ = record_event env task.id ci_fix_enqueued (record w { tasks = tasks }) in
      let kept : Spared id n w₁.tasks =
        subst (Spared id n)
          (sym (record_event-tasks task.id ci_fix_enqueued (record w { tasks = tasks })))
          (h child tasks refl) in
      subst (Spared id n)
        (sym (
          notify-tasks task.id (fix_enqueued child.fix_attempt_count)
            (set_status env task.id CiStatus.watching head w₁)))
        (set_status-Spared task.id CiStatus.watching head w₁ (λ _. refl) kept)

  after_render-Spared :
      (task : Task) (head step : String) (r : Result String) (w : World)
      → Spared id n w.tasks
      → Spared id n (after_render env task head step r w).1.tasks
  unfolding after_render
  after_render-Spared task head step (err e) w s = s
  after_render-Spared task head step (ok prompt) w s =
      let in_ : FixTaskInput = record {
        parent = task;
        head_sha = head;
        failed_step = step;
        prompt_template = prompt;
      } in
      after_enqueue-Spared task head (enqueue env in_ w) w s
        (λ child after e. enqueue-Spared in_ w child after e s)

  exhaust-tasks :
      (task : Task) (head : String) (w : World)
      → (exhaust env task head w).tasks ≡ (set_status env task.id CiStatus.exhausted head w).tasks
  unfolding exhaust
  exhaust-tasks task head w = ground arith

  pub handle_failure-Spared :
      (task : Task) (head : String) (failing : List CheckRun) (w : World)
      → (str_eq task.id id ≡ true → task.fix_attempt_count < env.cfg.max_attempts)
      → Spared id n w.tasks
      → Spared id n (handle_failure env task head failing w).1.tasks
  unfolding handle_failure after_render
  handle_failure-Spared task head failing w₀ below s₀ =
      let w = record_event env task.id ci_failure_detected w₀ in
      let s : Spared id n w.tasks =
        subst (Spared id n) (sym (record_event-tasks task.id ci_failure_detected w₀)) s₀ in
      elim (Bool-cases (has_fix env task head w)) [
        | inl e ↦ rw e s
        | inr e ↦ elim (Bool-cases (leb env.cfg.max_attempts task.fix_attempt_count)) [
          | inl f ↦
              rw (e, f)
                (subst (Spared id n) (sym (exhaust-tasks task head w)) (
                  set_status-Spared task.id CiStatus.exhausted head w (λ h. ground (arith, below h))
                    s))
          | inr f ↦ rw (e, f) (after_render-Spared task head (failed_step env failing) _ w s)
        ]
      ]
