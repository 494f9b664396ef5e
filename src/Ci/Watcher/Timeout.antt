-- ===== src/Ci/Watcher/Timeout.antt =====
-- internal/ci/watcher.go: the guard on the time of polling, against the column that it reads.
use claude_ops.Prelude.{
  ◌+◌, ◌≤◌, String, true, false, Option, some, List, [], ◌∷◌, ◌≡◌, refl, sym, ap, subst, ◌∙◌,
  Result, ok, find, ◌==◌, arith, eq_iff, Bool-cases, inl, inr,
}
use claude_ops.Domain.Task.{Time, Task, CiStatus, is_watching, ci_check_polled}
use claude_ops.Repository.Tasks.{Tasks, has_id, stored, polled, update_ci_status}
use claude_ops.Repository.Tasks.Lookup.{find-update_ci_status, get_by_id-found, find-holds}
use claude_ops.Ci.Checks.{
  CheckRun, Aggregate, undecided, passed, failed, stuck, aggregate_conclusion,
}
use claude_ops.Ci.Watcher.{
  Env, World, Gh, PrView, load, write_status, record_event, set_status, decide, with_checks,
  with_view, look_at, watch, process_task, timed_out,
}

-- gh answers that the pull request is open and that its checks are not done, and the database works.
pub record IsUndecided (env : Env) : Type 0 where
  pub runner : Gh
  pub wired : env.gh ≡ some runner
  pub view : PrView
  pub viewed : (t : Task) → runner.pr_view t ≡ ok view
  pub is_open : view.state ≡ "OPEN"
  pub checks : List CheckRun
  pub checked : (t : Task) → runner.pr_checks t ≡ ok checks
  pub pending : (aggregate_conclusion checks).0 ≡ undecided
  pub loads : env.fails load ≡ false
  pub writes : env.fails write_status ≡ false

-- Looks that follow each other within the time of polling.
unfoldable pub IsSteady : Time → List Env → Type 0
IsSteady last [] = Unit {0}
IsSteady last (env ∷ envs) =
    IsUndecided env × (env.now ≤ last + env.cfg.poll_timeout) × IsSteady env.db_now envs

-- The row of `id` is watched, and was last written at `last`.
unfoldable pub IsWatchedSince : String → Time → Tasks → Type 0
IsWatchedSince id last ts =
    (t : Task) × (find (has_id id) ts ≡ some t)
    × ((t.pr_number == 0) ≡ false)
    × (t.updated_at ≡ last)
    × (is_watching t.ci_status ≡ true)

unfoldable pub look_repeatedly : List Env → String → World → World
look_repeatedly [] id w = w
look_repeatedly (env ∷ envs) id w = look_repeatedly envs id (process_task env id w).1

module _ (env : Env) (u : IsUndecided env) where
  decide-undecided :
      (task : Task) (head : String) (a : Aggregate × List CheckRun) (w : World)
      → a.0 ≡ undecided
      → decide env task head a w ≡ (ok tt, set_status env task.id CiStatus.watching head w)
  unfolding decide
  decide-undecided task head (undecided, runs) w h = rw u.writes refl
  decide-undecided task head (passed, runs) w h = cc
  decide-undecided task head (failed, runs) w h = cc
  decide-undecided task head (stuck, runs) w h = cc

  written :
      (id head : String) (w : World)
      → (set_status env id CiStatus.watching head (record_event env id ci_check_polled w)).tasks
        ≡ update_ci_status id CiStatus.watching head env.now env.db_now w.tasks
  written id head w = elim (Bool-cases env.events) [
    | inl e ↦ rw (u.writes, e) refl
    | inr e ↦ rw (u.writes, e) refl
  ]

  -- the table after such a look
  looked : Task → World → Tasks
  looked task w =
      update_ci_status task.id CiStatus.watching u.view.head_ref_oid env.now env.db_now w.tasks

  with_checks-undecided :
      (task : Task) (w : World)
      → (with_checks env task u.view.head_ref_oid (ok u.checks) w).1.tasks ≡ looked task w
  unfolding with_checks looked
  with_checks-undecided task w =
      ap (λ (r : Result (Unit {0}) × World). r.1.tasks)
        (decide-undecided task u.view.head_ref_oid (aggregate_conclusion u.checks)
          (record_event env task.id ci_check_polled w) u.pending)
      ∙ written task.id u.view.head_ref_oid w

  with_view-undecided :
      (task : Task) (w : World)
      → (with_view env task (ok u.view) u.runner.pr_checks w).1.tasks ≡ looked task w
  unfolding with_view
  with_view-undecided task w = rw (u.is_open, u.checked task) (with_checks-undecided task w)

  look_at-undecided :
      (task : Task) (w : World) → (look_at env env.gh task w).1.tasks ≡ looked task w
  unfolding look_at
  look_at-undecided task w =
      subst (λ (o : Option Gh). (look_at env o task w).1.tasks ≡ looked task w) (sym u.wired)
        (subst
          (λ (v : Result PrView).
            (with_view env task v u.runner.pr_checks w).1.tasks ≡ looked task w)
          (sym (u.viewed task)) (with_view-undecided task w))

  process_task-undecided :
      (id : String) (last : Time) (w : World)
      → env.now ≤ last + env.cfg.poll_timeout
      → IsWatchedSince id last w.tasks
      → IsWatchedSince id env.db_now (process_task env id w).1.tasks
  unfolding process_task watch IsWatchedSince looked
  process_task-undecided id last w soon (t, found, has_pr, since, watched) =
      let ids : t.id ≡ id = (eq_iff t.id id).0 (find-holds (has_id id) w.tasks t found) in
      let on_time : timed_out env (stored t) ≡ false = ground (arith, since) in
      let after : (process_task env id w).1.tasks ≡ looked t w =
        rw (u.loads, get_by_id-found id w.tasks t found, has_pr, on_time)
          (look_at-undecided (stored t) w) in
      subst (IsWatchedSince id env.db_now) (sym after) (
        polled CiStatus.watching u.view.head_ref_oid env.now env.db_now t,
        subst
            (λ (s : String).
              find (has_id id) (
                update_ci_status s CiStatus.watching u.view.head_ref_oid env.now env.db_now w.tasks)
              ≡ some (polled CiStatus.watching u.view.head_ref_oid env.now env.db_now t))
            (sym ids)
            (find-update_ci_status id CiStatus.watching u.view.head_ref_oid env.now env.db_now
              w.tasks t found),
        has_pr,
        refl,
        refl,
      )

-- However long the checks of an open pull request stay undecided, looks that follow each other
-- within the time of polling leave its task watched.
pub look_repeatedly-IsWatchedSince :
    (id : String) (last : Time) (envs : List Env) (w : World)
    → IsSteady last envs
    → IsWatchedSince id last w.tasks
    → (at : Time) × IsWatchedSince id at (look_repeatedly envs id w).tasks
unfolding look_repeatedly IsSteady
look_repeatedly-IsWatchedSince id last [] w steady s = (last, s)
look_repeatedly-IsWatchedSince id last (env ∷ envs) w (u, soon, steady) s =
    look_repeatedly-IsWatchedSince id env.db_now envs (process_task env id w).1 steady
      (process_task-undecided env u id last w soon s)
