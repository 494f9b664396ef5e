-- ===== src/Ci/Watcher/Attempts.antt =====
-- internal/ci/watcher.go: the limit on the attempts to fix a pull request, against the row of the
-- task that the attempts are counted in.
use claude_ops.Prelude.{
  ℕ, String, Bool, true, false, not, ◌&&◌, Option, none, some, List, [], ◌∷◌, ◌≡◌, refl, Result,
  ◌<◌, ok, err, find, sym, ap, subst, ◌∙◌, eq_iff, ◌==◌, str_eq, arith, Bool-cases, inl, inr,
}
use claude_ops.Domain.Task.{Task, CiStatus, ci_check_polled}
use claude_ops.Repository.Tasks.{Tasks, has_id, get_by_id, list_watching}
use claude_ops.Repository.Tasks.Lookup.{find-holds, get_by_id-row}
use claude_ops.Ci.Checks.{
  CheckRun, Aggregate, undecided, failed, stuck, passed, aggregate_conclusion,
}
use claude_ops.Ci.Watcher.{
  Env, Notice, World, Gh, PrView, ci_passed, ci_stuck, ci_timeout, load, write_status, record_event,
  notify, set_status, decide, with_checks, with_view, look_at, watch, process_task, look_at_all,
  tick, timed_out,
}
use claude_ops.Ci.Watcher.Spared.{
  Spared, is_exhausted, written-Spared, set_status-Spared, handle_failure-Spared, notify-tasks,
  record_event-tasks,
}

module _ (env : Env) (id : String) (n : ℕ) where
  ends-Spared :
      (other : String) (status : CiStatus) (head : String) (m : Notice) (w : World)
      → is_exhausted status ≡ false
      → Spared id n w.tasks
      → Spared id n (notify env other m (set_status env other status head w)).tasks
  ends-Spared other status head m w h s =
      subst (Spared id n) (sym (notify-tasks env id n other m (set_status env other status head w)))
        (set_status-Spared env id n other status head w (λ _. h) s)

  decide-Spared :
      (task : Task) (head : String) (a : Aggregate × List CheckRun) (w : World)
      → (str_eq task.id id ≡ true → task.fix_attempt_count < env.cfg.max_attempts)
      → Spared id n w.tasks
      → Spared id n (decide env task head a w).1.tasks
  unfolding decide
  decide-Spared task head (undecided, runs) w below s = elim (Bool-cases (env.fails write_status)) [
    | inl e ↦ rw e s
    | inr e ↦ rw e (written-Spared env id n task.id CiStatus.watching head w.tasks (λ _. refl) s)
  ]
  decide-Spared task head (passed, runs) w below s =
      ends-Spared task.id CiStatus.passed head ci_passed w refl s
  decide-Spared task head (stuck, runs) w below s =
      ends-Spared task.id CiStatus.stuck head ci_stuck w refl s
  decide-Spared task head (failed, runs) w below s =
      handle_failure-Spared env id n task head runs w below s

  with_checks-Spared :
      (task : Task) (head : String) (checks : Result (List CheckRun)) (w : World)
      → (str_eq task.id id ≡ true → task.fix_attempt_count < env.cfg.max_attempts)
      → Spared id n w.tasks
      → Spared id n (with_checks env task head checks w).1.tasks
  unfolding with_checks
  with_checks-Spared task head (err e) w below s = s
  with_checks-Spared task head (ok checks) w below s =
      decide-Spared task head (aggregate_conclusion checks)
        (record_event env task.id ci_check_polled w) below
        (subst (Spared id n) (sym (record_event-tasks env id n task.id ci_check_polled w)) s)

  with_view-Spared :
      (task : Task) (view : Result PrView) (checks : Task → Result (List CheckRun)) (w : World)
      → (str_eq task.id id ≡ true → task.fix_attempt_count < env.cfg.max_attempts)
      → Spared id n w.tasks
      → Spared id n (with_view env task view checks w).1.tasks
  unfolding with_view
  with_view-Spared task (err e) checks w below s = s
  with_view-Spared task (ok view) checks w below s =
      elim (Bool-cases (not (str_eq view.state "") && not (str_eq view.state "OPEN"))) [
        | inl e ↦
            rw e
              (set_status-Spared env id n task.id CiStatus.closed view.head_ref_oid w (λ _. refl) s)
        | inr e ↦ rw e (with_checks-Spared task view.head_ref_oid (checks task) w below s)
      ]

  look_at-Spared :
      (gh : Option Gh) (task : Task) (w : World)
      → (str_eq task.id id ≡ true → task.fix_attempt_count < env.cfg.max_attempts)
      → Spared id n w.tasks
      → Spared id n (look_at env gh task w).1.tasks
  unfolding look_at
  look_at-Spared none task w below s = s
  look_at-Spared (some g) task w below s =
      with_view-Spared task (g.pr_view task) g.pr_checks w below s

  watch-Spared :
      (task : Result Task) (w : World)
      → ((t : Task)
          → task ≡ ok t
          → str_eq t.id id ≡ true
          → t.fix_attempt_count < env.cfg.max_attempts)
      → Spared id n w.tasks
      → Spared id n (watch env task w).1.tasks
  unfolding watch
  watch-Spared (err e) w below s = s
  watch-Spared (ok task) w below s = elim (Bool-cases (task.pr_number == 0)) [
    | inl e ↦ rw e (set_status-Spared env id n task.id CiStatus.empty task.head_sha w (λ _. refl) s)
    | inr e ↦ elim (Bool-cases (timed_out env task)) [
      | inl f ↦ rw (e, f) (ends-Spared task.id CiStatus.timeout task.head_sha ci_timeout w refl s)
      | inr f ↦ rw (e, f) (look_at-Spared env.gh task w (below task refl) s)
    ]
  ]

  loaded-attempts :
      (other : String) (ts : Tasks)
      → Spared id n ts
      → (t : Task) → get_by_id other ts ≡ ok t
      → str_eq t.id id ≡ true
      → t.fix_attempt_count ≡ n
  unfolding Spared
  loaded-attempts other ts (row, found, count, live) t h same =
      let (u, at_other, shown) = get_by_id-row other ts t h in
      let here : u.id ≡ other = (eq_iff u.id other).0 (find-holds (has_id other) ts u at_other) in
      let meant : t.id ≡ id = (eq_iff t.id id).0 same in
      let ids : other ≡ id = sym here ∙ (ap (λ (x : Task). x.id) (sym shown) ∙ meant) in
      let at_id : find (has_id id) ts ≡ some u =
        subst (λ (x : String). find (has_id x) ts ≡ some u) ids at_other in
      let equal : u ≡ row = some_inj (sym at_id ∙ found) in
      ap (λ (x : Task). x.fix_attempt_count) shown
      ∙ (ap (λ (x : Task). x.fix_attempt_count) equal ∙ count)
    where
      some_inj : {a b : Task} → some a ≡ some b → a ≡ b
      some_inj e = cc

  process_task-Spared :
      (other : String) (w : World)
      → n < env.cfg.max_attempts
      → Spared id n w.tasks
      → Spared id n (process_task env other w).1.tasks
  unfolding process_task
  process_task-Spared other w below s = elim (Bool-cases (env.fails load)) [
    | inl e ↦ rw e s
    | inr e ↦ rw e (
        watch-Spared (get_by_id other w.tasks) w
          (λ t h same. omega (arith, loaded-attempts other w.tasks s t h same)) s)
  ]

module _ (id : String) (n : ℕ) (envs : String → Env)
    (below : (other : String) → n < (envs other).cfg.max_attempts) where
  look_at_all-Spared :
      (ids : List String) (w : World)
      → Spared id n w.tasks
      → Spared id n (look_at_all envs ids w).tasks
  unfolding look_at_all
  look_at_all-Spared [] w s = s
  look_at_all-Spared (other ∷ ids) w s =
      look_at_all-Spared ids (process_task (envs other) other w).1
        (process_task-Spared (envs other) id n other w (below other) s)

  -- While the row of a task counts fewer attempts than the limit, a tick leaves that count as it is
  -- and does not mark the task exhausted, whatever gh, the clock and the database answer.
  pub tick-Spared :
      (listed : Bool) (w : World) → Spared id n w.tasks → Spared id n (tick envs listed w).tasks
  unfolding tick
  tick-Spared true w s = look_at_all-Spared (list_watching w.tasks) w s
  tick-Spared false w s = s
