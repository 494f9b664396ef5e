-- ===== src/Gc/Swept.antt =====
-- Which worktrees SweepWorktrees removes (internal/gc/runner.go).
use claude_ops.Prelude.{
  ℕ, zero, suc, String, ◌≡◌, refl, sym, ap, ◌∙◌, inl, inr, Bool, true, false, not, ◌&&◌, ◌||◌,
  Option, none, some, List, [], ◌∷◌, ◌++◌, map, keep, take, any, arith, ltb, if◌then◌else◌, str_eq,
  eq_iff, mem_str, pos, Bool-cases, in_both,
}
use claude_ops.Domain.Task.{Time, Task, TaskStatus, failed, cancelled}
use claude_ops.Repository.Tasks.{
  Tasks, effective_limit, stored, has_id, update, update_where, list_by_status, sort_by, older,
}
use claude_ops.Repository.Tasks.Sorted.{any-sort_by, any-take, any-keep, any_mono}
use claude_ops.Gc.{
  Env, World, remove_worktree, sweep_tasks, sweep_status, sweep_before, sweep_worktrees, is_failed,
  is_cancelled,
}

abbrev is_terminal : TaskStatus → Bool
is_terminal failed = true
is_terminal cancelled = true
is_terminal s = false

abbrev ended_before : Time → Option Time → Bool
ended_before cutoff none = false
ended_before cutoff (some t) = not (ltb cutoff t)

-- The task ended by the cutoff and has a worktree at the path.
abbrev left_at : Time → String → Task → Bool
left_at cutoff path t =
    not (str_eq path "") && ended_before cutoff t.finished_at && str_eq t.worktree_path path

-- It failed or was cancelled, too.
abbrev pub due : Time → String → Task → Bool
due cutoff path t = is_terminal t.status && left_at cutoff path t

any-map-stored :
    (cutoff : Time) (path : String) (ts : Tasks)
    → any (left_at cutoff path) (map stored ts) ≡ any (left_at cutoff path) ts
any-map-stored cutoff path [] = refl
any-map-stored cutoff path (t ∷ ts) =
    ap (λ b. left_at cutoff path t || b) (any-map-stored cutoff path ts)

any-update_where :
    (d q : Task → Bool) (row : Task) (ts : Tasks)
    → d row ≡ false
    → any d (update_where q (λ _. row) ts) ≡ true
    → any d ts ≡ true
unfolding update_where
any-update_where d q row [] h k = k
any-update_where d q row (t ∷ ts) h k = ground (arith, any-update_where d q row ts)

any-append :
    (d : Task → Bool) (row : Task) (ts : Tasks) → d row ≡ false → any d (ts ++ row ∷ []) ≡ any d ts
any-append d row [] h = rw h refl
any-append d row (t ∷ ts) h = ap (λ b. d t || b) (any-append d row ts h)

any-update :
    (d : Task → Bool) (now : Time) (t : Task) (ts : Tasks)
    → d (record (stored t) { updated_at = now }) ≡ false
    → any d (update now t ts) ≡ true
    → any d ts ≡ true
unfolding update
any-update d now t ts h k =
    let row : Task = record (stored t) { updated_at = now } in
    ground (arith, any-update_where d (has_id t.id) row ts, any-append d row ts)

module _ (env : Env) (cutoff : Time) (path : String) where
  -- Clearing the path of a row makes no row due.
  cleared-due :
      (t : Task) (ts : Tasks)
      → (let row : Task = record t { worktree_path = "" } in
          any (due cutoff path) (if env.update_fails t.id then ts else update env.now row ts) ≡ true
          → any (due cutoff path) ts ≡ true)
  cleared-due t ts =
      let row : Task = record t { worktree_path = "" } in
      elim (Bool-cases (env.update_fails t.id)) [
        | inl e ↦ rw e λ h. h
        | inr e ↦ rw e (
            any-update (due cutoff path) env.now row ts
              (ground (arith, eq_iff "" path, eq_iff path "")))
      ]

  remove_worktree-due :
      (t : Task) (w : World)
      → any (due cutoff path) (remove_worktree env t w).tasks ≡ true
      → any (due cutoff path) w.tasks ≡ true
  unfolding remove_worktree
  remove_worktree-due t w = elim (Bool-cases (not (env.exists t.worktree_path))) [
    | inl e ↦ rw e (cleared-due t w.tasks)
    | inr e ↦
        elim (Bool-cases (env.git_removes t.worktree_path || env.rm_removes t.worktree_path)) [
          | inl f ↦ rw (e, f) (cleared-due t w.tasks)
          | inr f ↦ rw (e, f) λ h. h
        ]
  ]

  sweep_tasks-due :
      (found : List Task) (w : World)
      → any (due cutoff path) (sweep_tasks env cutoff found w).tasks ≡ true
      → any (due cutoff path) w.tasks ≡ true
  unfolding sweep_tasks
  sweep_tasks-due [] w h = h
  sweep_tasks-due (t ∷ found) w h =
      in_both (λ x. any (due cutoff path) x.tasks ≡ true → any (due cutoff path) w.tasks ≡ true)
        (not (str_eq t.worktree_path "") && ended_before cutoff t.finished_at)
        (remove_worktree env t w) w (remove_worktree-due t w) (λ k. k) (sweep_tasks-due found _ h)

  -- A path that one removal adds.
  remove_worktree-removed :
      (t : Task) (w : World)
      → mem_str path w.removed ≡ false
      → str_eq t.worktree_path path ≡ false
      → mem_str path (remove_worktree env t w).removed ≡ false
  unfolding remove_worktree
  remove_worktree-removed t w old other = ground arith

  sweep_tasks-removed :
      (found : List Task) (w : World)
      → mem_str path w.removed ≡ false
      → mem_str path (sweep_tasks env cutoff found w).removed ≡ true
      → any (left_at cutoff path) found ≡ true
  unfolding sweep_tasks
  sweep_tasks-removed [] w old new = cc
  sweep_tasks-removed (t ∷ found) w old new = elim (Bool-cases (left_at cutoff path t)) [
    | inl e ↦ rw e refl
    | inr e ↦
        let passed = not (str_eq t.worktree_path "") && ended_before cutoff t.finished_at in
        let same : mem_str path (if passed then remove_worktree env t w else w).removed ≡ false =
          elim (Bool-cases (str_eq t.worktree_path path)) [
            | inl here ↦
                let off : passed ≡ false = ground (arith, eq_iff t.worktree_path path) in rw off old
            | inr other ↦
                in_both (λ x. mem_str path x.removed ≡ false) passed (remove_worktree env t w) w
                  (remove_worktree-removed t w old other) old
          ] in
        rw e (sweep_tasks-removed found _ same new)
  ]

  -- One round, over the rows that `is_it` selects.
  sweep_status-due :
      (status : TaskStatus) (is_it : TaskStatus → Bool) (w : World)
      → any (due cutoff path) (sweep_status env cutoff status is_it w).tasks ≡ true
      → any (due cutoff path) w.tasks ≡ true
  unfolding sweep_status
  sweep_status-due status is_it w =
      in_both (λ x. any (due cutoff path) x.tasks ≡ true → any (due cutoff path) w.tasks ≡ true)
        (env.list_fails status) w _ (λ h. h) (sweep_tasks-due (list_by_status is_it 500 w.tasks) w)

  listed-due :
      (is_it : TaskStatus → Bool) (ts : Tasks)
      → ((s : TaskStatus) → is_it s ≡ true → is_terminal s ≡ true)
      → any (left_at cutoff path) (list_by_status is_it 500 ts) ≡ true
      → any (due cutoff path) ts ≡ true
  unfolding list_by_status
  listed-due is_it ts sub h =
      let due_of_status = λ (u : Task). left_at cutoff path u && is_it u.status in
      let rows : Tasks = sort_by (λ a b. older b a) (keep (λ u. is_it u.status) ts) in
      any_mono due_of_status (due cutoff path) ts (λ u k. ground (arith, sub u.status))
        (sym (any-keep (λ u. is_it u.status) (left_at cutoff path) ts)
          ∙ (sym (
                any-sort_by (λ a b. older b a) (left_at cutoff path)
                  (keep (λ u. is_it u.status) ts))
              ∙ any-take (effective_limit 500) (left_at cutoff path) rows
                  (sym (any-map-stored cutoff path (take (effective_limit 500) rows)) ∙ h)))

  sweep_status-removed :
      (status : TaskStatus) (is_it : TaskStatus → Bool) (w : World)
      → ((s : TaskStatus) → is_it s ≡ true → is_terminal s ≡ true)
      → mem_str path w.removed ≡ false
      → mem_str path (sweep_status env cutoff status is_it w).removed ≡ true
      → any (due cutoff path) w.tasks ≡ true
  unfolding sweep_status
  sweep_status-removed status is_it w sub old new = elim (Bool-cases (env.list_fails status)) [
    | inl e ↦ absurd (ground arith)
    | inr e ↦
        listed-due is_it w.tasks sub
          (sweep_tasks-removed (list_by_status is_it 500 w.tasks) w old (rw e at new))
  ]

failed_terminal : (env : Env) (s : TaskStatus) → is_failed env s ≡ true → is_terminal s ≡ true
unfolding is_failed
failed_terminal env failed h = refl
failed_terminal env s h = ground arith

cancelled_terminal : (env : Env) (s : TaskStatus) → is_cancelled env s ≡ true → is_terminal s ≡ true
unfolding is_cancelled
cancelled_terminal env cancelled h = refl
cancelled_terminal env s h = ground arith

swept :
    (env : Env) (n : ℕ) (w : World)
    → env.retention_days ≡ pos (suc n)
    → sweep_worktrees env w ≡ sweep_before env (env.days_before (suc n) env.now) w
unfolding sweep_worktrees
swept env n w e = ground arith

-- A path that a sweep newly removes, where the days of the retention are not negative, is of a task that
-- failed or was cancelled, and that ended by the time that AddDate gives for that many days before now.
pub sweep_worktrees-due :
    (env : Env) (days : ℕ) (path : String) (w : World)
    → env.retention_days ≡ pos days
    → mem_str path w.removed ≡ false
    → mem_str path (sweep_worktrees env w).removed ≡ true
    → any (due (env.days_before days env.now) path) w.tasks ≡ true
unfolding sweep_worktrees sweep_before
sweep_worktrees-due env zero path w e old new = absurd (ground arith)
sweep_worktrees-due env (suc n) path w e old new =
    let cutoff = env.days_before (suc n) env.now in
    let first = sweep_status env cutoff failed (is_failed env) w in
    elim (Bool-cases (mem_str path first.removed)) [
      | inl h ↦
          sweep_status-removed env cutoff path failed (is_failed env) w (failed_terminal env) old h
      | inr h ↦ sweep_status-due env cutoff path failed (is_failed env) w (
          sweep_status-removed env cutoff path cancelled (is_cancelled env) first
            (cancelled_terminal env) h
            (sym (ap (λ x. mem_str path x.removed) (swept env n w e)) ∙ new))
    ]
