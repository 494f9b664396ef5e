-- ===== src/Scheduler/Worker/Ends.antt =====
-- internal/scheduler/worker.go: how the row of a task ends.
use claude_ops.Prelude.{
  ℕ, String, ◌≡◌, refl, sym, subst, ◌∙◌, Bool, true, false, not, ◌&&◌, Option, none, some, [], ◌∷◌,
  ◌++◌, Result, ok, err, Error, arith, find, any, str_eq_self, in_both, ltb, Bool-cases, inl, inr,
}
use claude_ops.Domain.Task.{Time, Task, TaskStatus, CiStatus, EventKind, is_ci_fix}
use claude_ops.Domain.Calendar.{Calendar}
use claude_ops.Domain.Window.{allow_now}
use claude_ops.Scheduler.BudgetGate.{BudgetReason}
use claude_ops.Scheduler.Tick.{is_full_mode}
use claude_ops.Repository.Tasks.{
  Tasks, has_id, stored, update, update_where, update_ci_status, polled,
}
use claude_ops.Repository.Tasks.Lookup.{find-update_ci_status}
use claude_ops.Scheduler.Worker.{
  final, mark_running, ci_status, at_end, at_gate, at_start, RunResult, World, Env, record_event,
  write, fail, cancel, finish, with_pr, with_gate, with_run, with_budget, with_prompt,
  with_worktree, used, run_task,
}

abbrev pub is_ended : TaskStatus → Bool
is_ended TaskStatus.done = true
is_ended TaskStatus.failed = true
is_ended TaskStatus.cancelled = true
is_ended _ = false

-- The row of `id` is done, failed or cancelled.
unfoldable pub IsEnded : String → Tasks → Type 0
IsEnded id ts = (t : Task) × (find (has_id id) ts ≡ some t) × (is_ended t.status ≡ true)

find-update_where :
    (row : Task) (ts : Tasks)
    → any (has_id row.id) ts ≡ true
    → find (has_id row.id) (update_where (has_id row.id) (λ _. row) ts) ≡ some row
unfolding update_where
find-update_where row [] h = absurd (cc)
find-update_where row (t ∷ ts) h = elim (Bool-cases (has_id row.id t)) [
  | inl e ↦ rw (e, str_eq_self row.id) refl
  | inr e ↦ rw (e, e) (find-update_where row ts (ground arith))
]

find-append_new :
    (row : Task) (ts : Tasks)
    → any (has_id row.id) ts ≡ false
    → find (has_id row.id) (ts ++ row ∷ []) ≡ some row
find-append_new row [] h = rw (str_eq_self row.id) refl
find-append_new row (t ∷ ts) h = ground (arith, find-append_new row ts)

abbrev Ended : String → Result (Unit {0}) × World → Type 0
Ended id r = IsEnded id r.1.tasks

-- A row that is written back is the row of its id.
find-update :
    (now : Time) (t : Task) (ts : Tasks)
    → find (has_id t.id) (update now t ts) ≡ some (record (stored t) { updated_at = now })
unfolding update
find-update now t ts =
    let row = record (stored t) { updated_at = now } in
    elim (Bool-cases (any (has_id t.id) ts)) [
      | inl e ↦ rw e (find-update_where row ts e)
      | inr e ↦ rw e (find-append_new row ts e)
    ]

module _ (c : Calendar) (env : Env c) (works : env.fails final ≡ false) where
  written-IsEnded :
      (t : Task) (w : World)
      → is_ended t.status ≡ true
      → IsEnded t.id (write c env final at_end t w).tasks
  unfolding IsEnded
  written-IsEnded t w h = rw works (
    record (stored t) { updated_at = env.clock at_end },
    find-update (env.clock at_end) t w.tasks,
    h,
  )

  recorded-IsEnded :
      (id : String) (kind : EventKind) (w : World)
      → IsEnded id w.tasks
      → IsEnded id (record_event c env kind w).tasks
  recorded-IsEnded id kind w h = elim (Bool-cases env.events) [ inl e ↦ rw e h | inr e ↦ rw e h ]

  fail-IsEnded : (t : Task) (msg : String) (w : World) → IsEnded t.id (fail c env t msg w).1.tasks
  unfolding fail
  fail-IsEnded t msg w = recorded-IsEnded t.id EventKind.failed _ (written-IsEnded _ w refl)

  cancel-IsEnded : (t : Task) (w : World) → IsEnded t.id (cancel c env t w).1.tasks
  unfolding cancel
  cancel-IsEnded t w = recorded-IsEnded t.id EventKind.cancelled _ (written-IsEnded _ w refl)

  watched-IsEnded :
      (id head : String) (at now : Time) (ts : Tasks)
      → IsEnded id ts
      → IsEnded id (update_ci_status id CiStatus.watching head at now ts)
  unfolding IsEnded
  watched-IsEnded id head at now ts (t, found, h) = (
    polled CiStatus.watching head at now t,
    find-update_ci_status id CiStatus.watching head at now ts t found,
    h,
  )

  finish-IsEnded : (t : Task) (w : World) → IsEnded t.id (finish c env t w).1.tasks
  unfolding finish
  finish-IsEnded t w =
      let end = record t { status = TaskStatus.done; finished_at = some (env.clock at_end) } in
      let h = written-IsEnded end w refl in
      in_both (Ended t.id) (env.ci_fix_enabled && ltb 0 t.pr_number && not (is_ci_fix t.task_type))
        _ _
        (in_both (λ (x : World). IsEnded t.id x.tasks) (env.fails ci_status) _ _ h
          (watched-IsEnded t.id t.head_sha (env.clock at_end) (env.clock at_end) _ h))
        h

  with_pr-IsEnded :
      (pr : Option (Result (String × ℕ))) (t : Task) (w : World)
      → IsEnded t.id (with_pr c env pr t w).1.tasks
  unfolding with_pr
  with_pr-IsEnded none t w = finish-IsEnded t w
  with_pr-IsEnded (some (err e)) t w = fail-IsEnded t _ _
  with_pr-IsEnded (some (ok (url, number))) t w =
      finish-IsEnded (record t { pr_url = url; pr_number = number }) _

  with_gate-IsEnded :
      (gate : Option String) (t : Task) (w : World)
      → IsEnded t.id (with_gate c env gate t w).1.tasks
  unfolding with_gate
  with_gate-IsEnded (some msg) t w = fail-IsEnded t msg _
  with_gate-IsEnded none t w = with_pr-IsEnded env.pr t w

  used_id : (o : Option RunResult) (t : Task) → (used c env o t).id ≡ t.id
  used_id none t = refl
  used_id (some r) t = refl

  with_run-IsEnded :
      (failure : Option Error) (t : Task) (w : World)
      → IsEnded t.id (with_run c env failure t w).1.tasks
  unfolding with_run
  with_run-IsEnded (some e) t w =
      in_both (Ended t.id) env.stopped_late _ _ (cancel-IsEnded t _) (fail-IsEnded t _ _)
  with_run-IsEnded none t w =
      subst
        (λ (id : String). IsEnded id (with_gate c env env.gate (used c env env.output t) w).1.tasks)
        (used_id env.output t) (with_gate-IsEnded env.gate (used c env env.output t) w)

  with_budget-IsEnded :
      (budget : Option (Result BudgetReason)) (t : Task) (w : World)
      → IsEnded t.id (with_budget c env budget t w).1.tasks
  unfolding with_budget
  with_budget-IsEnded none t w = with_run-IsEnded env.failure t _
  with_budget-IsEnded (some (err e)) t w = fail-IsEnded t _ _
  with_budget-IsEnded (some (ok BudgetReason.allowed)) t w = with_run-IsEnded env.failure t _
  with_budget-IsEnded (some (ok BudgetReason.daily_cap)) t w = cancel-IsEnded t _
  with_budget-IsEnded (some (ok BudgetReason.weekly_cap)) t w = cancel-IsEnded t _
  with_budget-IsEnded (some (ok BudgetReason.rate_limited)) t w = cancel-IsEnded t _

  with_prompt-IsEnded :
      (prompt : Result String) (t : Task) (w : World)
      → IsEnded t.id (with_prompt c env prompt t w).1.tasks
  unfolding with_prompt
  with_prompt-IsEnded (err e) t w = fail-IsEnded t _ _
  with_prompt-IsEnded (ok text) t w =
      in_both (Ended t.id)
        (allow_now c (env.clock at_gate) (is_full_mode env.full_mode) env.windows) _ _
        (with_budget-IsEnded env.budget t w) (cancel-IsEnded t _)

  with_worktree-IsEnded :
      (made : Result (Unit {0})) (t : Task) (w : World)
      → IsEnded t.id (with_worktree c env made t w).1.tasks
  unfolding with_worktree
  with_worktree-IsEnded (err e) t w = fail-IsEnded t _ _
  with_worktree-IsEnded (ok u) t w =
      let there = record t { worktree_path = env.path_of t.id } in
      in_both (Ended t.id) env.stopped_early _ _ (cancel-IsEnded there _)
        (with_prompt-IsEnded env.prompt there _)

  -- A task that was marked running is done, failed or cancelled when its pipeline returns, on every
  -- exit, if the last write of its row succeeds.
  pub run_task-IsEnded :
      (t : Task) (w : World)
      → env.fails mark_running ≡ false
      → IsEnded t.id (run_task c env t w).1.tasks
  unfolding run_task
  run_task-IsEnded t w marked =
      let begun = record t {
        status = TaskStatus.running;
        started_at = some (env.clock at_start);
      } in
      elim (Bool-cases (env.fails mark_running)) [
        | inl e ↦ absurd (both (sym e ∙ marked))
        | inr e ↦ rw e (with_worktree-IsEnded env.made begun _)
      ]
    where
      both : ¬ (true ≡ false)
      both e = cc
