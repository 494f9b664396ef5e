-- ===== src/Repository/Tasks/Lookup.antt =====
-- The row of an id, through the statements of internal/repository/task_repository.go that change
-- the table.
use claude_ops.Prelude.{
  String, true, false, Option, none, some, [], ◌∷◌, ◌++◌, ◌≡◌, refl, find, Bool, Result, ok, err,
  not_found, Bool-cases, Option-cases, eq_iff, sym, subst, inl, inr, str_eq, arith, if◌then◌else◌,
}
use claude_ops.Domain.Task.{Time, Task, CiStatus}
use claude_ops.Repository.Tasks.{
  Tasks, has_id, update_where, update_ci_status, polled, get_by_id, stored,
}

pub find-update_ci_status :
    (id : String) (status : CiStatus) (head : String) (at now : Time) (ts : Tasks) (t : Task)
    → find (has_id id) ts ≡ some t
    → find (has_id id) (update_ci_status id status head at now ts)
      ≡ some (polled status head at now t)
unfolding update_ci_status update_where
find-update_ci_status id status head at now [] t h = ground arith
find-update_ci_status id status head at now (u ∷ us) t h =
    ground (arith, find-update_ci_status id status head at now us t)

-- An update of some rows that keeps their ids.
pub find-update_where :
    (p : Task → Bool) (f : Task → Task) (id : String) (ts : Tasks) (t : Task)
    → ((u : Task) → (f u).id ≡ u.id)
    → find (has_id id) ts ≡ some t
    → find (has_id id) (update_where p f ts) ≡ some (if p t then f t else t)
unfolding update_where
find-update_where p f id [] t same h = cc
find-update_where p f id (u ∷ us) t same h = elim (Bool-cases (p u)) [
  | inl e ↦ ground (arith, same u, find-update_where p f id us t same)
  | inr e ↦ ground (arith, find-update_where p f id us t same)
]

pub find-append :
    (id : String) (ts : Tasks) (u t : Task)
    → find (has_id id) ts ≡ some t
    → find (has_id id) (ts ++ u ∷ []) ≡ some t
find-append id [] u t h = ground arith
find-append id (x ∷ ts) u t h = ground (arith, find-append id ts u t)

pub find-update_ci_status_other :
    (id other : String) (status : CiStatus) (head : String) (at now : Time) (ts : Tasks)
    → str_eq other id ≡ false
    → find (has_id id) (update_ci_status other status head at now ts) ≡ find (has_id id) ts
unfolding update_ci_status update_where
find-update_ci_status_other id other status head at now [] h = refl
find-update_ci_status_other id other status head at now (u ∷ us) h =
    let rest = find-update_ci_status_other id other status head at now us h in
    elim (Bool-cases (str_eq u.id other)) [
      | inl here ↦
          let away : str_eq u.id id ≡ false =
            subst (λ (s : String). str_eq s id ≡ false) (sym ((eq_iff u.id other).0 here)) h in
          rw (here, away) rest
      | inr there ↦ rw there (rw rest refl)
    ]

pub find-holds : (p : Task → Bool) (ts : Tasks) (t : Task) → find p ts ≡ some t → p t ≡ true
find-holds p [] t h = cc
find-holds p (u ∷ us) t h = elim (Bool-cases (p u)) [
  | inl e ↦ let same : u ≡ t = ground arith in subst (λ (x : Task). p x ≡ true) same e
  | inr e ↦ find-holds p us t (ground arith)
]

-- The row that GetByID returns.
pub get_by_id-row :
    (id : String) (ts : Tasks) (t : Task)
    → get_by_id id ts ≡ ok t
    → (u : Task) × (find (has_id id) ts ≡ some u) × (t ≡ stored u)
unfolding get_by_id
get_by_id-row id ts t h = elim (Option-cases (find (has_id id) ts)) [
  | inl e ↦ absurd (err_ok (subst (λ (o : Option Task). row_of o ≡ ok t) e h))
  | inr (u, e) ↦ (u, e, sym (ok_inj (subst (λ (o : Option Task). row_of o ≡ ok t) e h)))
]
  where
    row_of : Option Task → Result Task
    row_of o = elim o [ none ↦ err not_found | some u ↦ ok (stored u) ]

    err_ok : ¬ (err not_found ≡ ok t)
    err_ok e = cc

    ok_inj : {a b : Task} → ok a ≡ ok b → a ≡ b
    ok_inj e = cc

pub get_by_id-found :
    (id : String) (ts : Tasks) (t : Task)
    → find (has_id id) ts ≡ some t
    → get_by_id id ts ≡ ok (stored t)
unfolding get_by_id
get_by_id-found id ts t h = rw (h, get_by_id) refl
