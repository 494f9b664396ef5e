-- ===== src/Gc/Recovered.antt =====
-- What RecoverOrphans of internal/gc/runner.go leaves of the table.
use claude_ops.Prelude.{
  ℕ, String, ◌≡◌, refl, sym, subst, ◌∙◌, Bool, false, not, ◌&&◌, List, [], ◌∷◌, ◌++◌, map, any,
  find, inl, inr, arith, if◌then◌else◌, Bool-cases, str_eq, str_eq_self, eq_iff, mem_str,
}
use claude_ops.Domain.Task.{Task, is_running}
use claude_ops.Gc.{Env, reconciled, reconcile_orphan, reconcile_all, recover_orphans, is_dirty}
use claude_ops.Repository.Tasks.{
  Tasks, update, update_where, has_id, stored, get_running, get_by_id,
}

abbrev ids : List Task → List String
ids ts = map (λ t. t.id) ts

-- Every running row is one of those ids.
abbrev RunningIn : List String → Tasks → Type 0
RunningIn names [] = Unit {0}
RunningIn names (t ∷ ts) =
    (is_running t.status && not (mem_str t.id names) ≡ false) × RunningIn names ts

RunningIn-none : (ts : Tasks) → RunningIn [] ts → get_running ts ≡ []
unfolding get_running
RunningIn-none [] h = refl
RunningIn-none (t ∷ ts) (a, h) = ground (arith, RunningIn-none ts h)

RunningIn-more :
    (name : String) (names : List String) (ts : Tasks)
    → RunningIn names ts
    → RunningIn (name ∷ names) ts
RunningIn-more name names [] h = tt
RunningIn-more name names (t ∷ ts) (a, h) = (ground arith, RunningIn-more name names ts h)

RunningIn-get_running : (ts : Tasks) → RunningIn (ids (get_running ts)) ts
unfolding get_running
RunningIn-get_running [] = tt
RunningIn-get_running (t ∷ ts) = elim (Bool-cases (is_running t.status)) [
  | inl e ↦
      let first : ids (get_running (t ∷ ts)) ≡ t.id ∷ ids (get_running ts) = rw e refl in
      subst (λ names. RunningIn names (t ∷ ts)) (sym first)
        (
          rw (e, str_eq_self t.id) refl,
          RunningIn-more t.id (ids (get_running ts)) ts (RunningIn-get_running ts),
        )
  | inr e ↦
      let rest : ids (get_running (t ∷ ts)) ≡ ids (get_running ts) = rw e refl in
      subst (λ names. RunningIn names (t ∷ ts)) (sym rest) (rw e refl, RunningIn-get_running ts)
]

reconciled-status :
    (env : Env) (t : Task)
    → (is_running (reconciled env t).status ≡ false) × ((reconciled env t).id ≡ t.id)
unfolding reconciled
reconciled-status env t = elim (Bool-cases (is_dirty env t.worktree_path)) [
  | inl e ↦ rw e (refl, refl)
  | inr e ↦ rw e (refl, refl)
]

RunningIn-update_where :
    (name : String) (names : List String) (row : Task) (ts : Tasks)
    → is_running row.status ≡ false
    → RunningIn (name ∷ names) ts
    → RunningIn names (update_where (has_id name) (λ _. row) ts)
unfolding update_where
RunningIn-update_where name names row [] r h = tt
RunningIn-update_where name names row (t ∷ ts) r (a, h) = elim (Bool-cases (str_eq t.id name)) [
  | inl e ↦ (rw (e, r) refl, RunningIn-update_where name names row ts r h)
  | inr e ↦ (
    rw e (ground (arith, eq_iff t.id name, eq_iff name t.id)),
    RunningIn-update_where name names row ts r h,
  )
]

RunningIn-drop :
    (name : String) (names : List String) (ts : Tasks)
    → any (has_id name) ts ≡ false
    → RunningIn (name ∷ names) ts
    → RunningIn names ts
RunningIn-drop name names [] m h = tt
RunningIn-drop name names (t ∷ ts) m (a, h) = (
  ground (arith, eq_iff t.id name, eq_iff name t.id),
  RunningIn-drop name names ts (ground arith) h,
)

RunningIn-append :
    (names : List String) (row : Task) (ts : Tasks)
    → is_running row.status ≡ false
    → RunningIn names ts
    → RunningIn names (ts ++ row ∷ [])
RunningIn-append names row [] r h = (ground arith, tt)
RunningIn-append names row (t ∷ ts) r (a, h) = (a, RunningIn-append names row ts r h)

RunningIn-update :
    (now : ℕ) (row : Task) (names : List String) (ts : Tasks)
    → is_running row.status ≡ false
    → RunningIn (row.id ∷ names) ts
    → RunningIn names (update now row ts)
unfolding update
RunningIn-update now row names ts r h =
    let saved = record (stored row) { updated_at = now } in
    elim (Bool-cases (any (has_id row.id) ts)) [
      | inl e ↦ rw e (RunningIn-update_where row.id names saved ts r h)
      | inr e ↦ rw e (RunningIn-append names saved ts r (RunningIn-drop row.id names ts e h))
    ]

find-update_where_other :
    (name k : String) (row : Task) (ts : Tasks)
    → str_eq name k ≡ false
    → str_eq row.id k ≡ false
    → find (has_id k) (update_where (has_id name) (λ _. row) ts) ≡ find (has_id k) ts
unfolding update_where
find-update_where_other name k row [] h r = refl
find-update_where_other name k row (t ∷ ts) h r = elim (Bool-cases (str_eq t.id name)) [
  | inl e ↦
      let apart : str_eq t.id k ≡ false =
        ground (arith, eq_iff t.id name, eq_iff t.id k, eq_iff name k) in
      rw (e, r, apart) (find-update_where_other name k row ts h r)
  | inr e ↦ rw (e, find-update_where_other name k row ts h r) refl
]

find-append_other :
    (k : String) (row : Task) (ts : Tasks)
    → str_eq row.id k ≡ false
    → find (has_id k) (ts ++ row ∷ []) ≡ find (has_id k) ts
find-append_other k row [] r = rw r refl
find-append_other k row (t ∷ ts) r = rw (find-append_other k row ts r) refl

find-update_other :
    (now : ℕ) (row : Task) (k : String) (ts : Tasks)
    → str_eq row.id k ≡ false
    → find (has_id k) (update now row ts) ≡ find (has_id k) ts
unfolding update
find-update_other now row k ts h =
    let saved = record (stored row) { updated_at = now } in
    elim (Bool-cases (any (has_id row.id) ts)) [
      | inl e ↦ rw e (find-update_where_other row.id k saved ts h h)
      | inr e ↦ rw e (find-append_other k saved ts h)
    ]

-- The rows of other ids are as they were.
get_by_id-update :
    (now : ℕ) (row : Task) (k : String) (ts : Tasks)
    → str_eq row.id k ≡ false
    → get_by_id k (update now row ts) ≡ get_by_id k ts
unfolding get_by_id
get_by_id-update now row k ts h = rw (find-update_other now row k ts h, get_by_id) refl

without : (b : Bool) (x y : Tasks) → b ≡ false → (if b then x else y) ≡ y
without b x y h = rw h refl

module _ (env : Env) (works : (id : String) → env.update_fails id ≡ false) where
  RunningIn-reconcile_all :
      (found : List Task) (ts : Tasks)
      → RunningIn (ids found) ts
      → RunningIn [] (reconcile_all env found ts)
  unfolding reconcile_all reconcile_orphan
  RunningIn-reconcile_all [] ts h = h
  RunningIn-reconcile_all (t ∷ found) ts h =
      let (r, same) = reconciled-status env t in
      let row = reconciled env t in
      let h' : RunningIn (row.id ∷ ids found) ts = rw same h in
      rw (works row.id) (
        RunningIn-reconcile_all found (update env.now row ts)
          (RunningIn-update env.now row (ids found) ts r h'))

  get_by_id-reconcile_all :
      (found : List Task) (k : String) (ts : Tasks)
      → mem_str k (ids found) ≡ false
      → get_by_id k (reconcile_all env found ts) ≡ get_by_id k ts
  unfolding reconcile_all reconcile_orphan
  get_by_id-reconcile_all [] k ts h = refl
  get_by_id-reconcile_all (t ∷ found) k ts h =
      let (r, same) = reconciled-status env t in
      let row = reconciled env t in
      let apart : str_eq row.id k ≡ false = rw same (ground arith) in
      let later : mem_str k (ids found) ≡ false = ground arith in
      rw (works row.id) (
        get_by_id-reconcile_all found k (update env.now row ts) later
        ∙ get_by_id-update env.now row k ts apart)

  recovered :
      (ts : Tasks)
      → env.get_running_fails ≡ false
      → recover_orphans env ts ≡ reconcile_all env (get_running ts) ts
  unfolding recover_orphans
  recovered ts answers =
      without env.get_running_fails ts (reconcile_all env (get_running ts) ts) answers

  -- After the tasks that ran when the service stopped are reconciled, where the database answers, no
  -- row is running, and a row whose id no running row had is read as before.
  pub get_running-recover_orphans :
      (ts : Tasks)
      → env.get_running_fails ≡ false
      → (get_running (recover_orphans env ts) ≡ [])
        × ((k : String)
            → mem_str k (map (λ t. t.id) (get_running ts)) ≡ false
            → get_by_id k (recover_orphans env ts) ≡ get_by_id k ts)
  get_running-recover_orphans ts answers = rw (recovered ts answers) (
    RunningIn-none (reconcile_all env (get_running ts) ts)
        (RunningIn-reconcile_all (get_running ts) ts (RunningIn-get_running ts)),
    λ k h. get_by_id-reconcile_all (get_running ts) k ts h,
  )
