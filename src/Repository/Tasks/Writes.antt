-- ===== src/Repository/Tasks/Writes.antt =====
-- Create and Update of internal/repository/task_repository.go, and the rules of the table.
use claude_ops.Prelude.{
  find, some, subst, ◌≤◌, String, ◌≡◌, refl, sym, ap, subst, ◌∙◌, inl, inr, Bool, true, false, ◌&&◌,
  [], ◌∷◌, ◌++◌, ok, arith, count, count-append, any, str_eq, eq_iff, Bool-cases,
}
use claude_ops.Domain.Task.{Time, Task, is_running, is_ci_fix}
use claude_ops.Repository.Tasks.{
  Tasks, has_id, running_in, update_where, stored, create, update, same_fix,
}
use claude_ops.Repository.Tasks.Rows.{count-update_where, any-count}
use claude_ops.Repository.Tasks.Claims.{IsExclusive}

count-update_where_there :
    (p q : Task → Bool) (f : Task → Task) (ts : Tasks)
    → ((t : Task) → p t ≡ true → q (f t) ≡ q t)
    → count q (update_where p f ts) ≡ count q ts
unfolding update_where
count-update_where_there p q f [] h = refl
count-update_where_there p q f (t ∷ ts) h = elim (Bool-cases (p t)) [
  | inl e ↦ rw (e, h t e, count-update_where_there p q f ts h) refl
  | inr e ↦ rw (e, count-update_where_there p q f ts h) refl
]

count_none :
    (p q : Task → Bool) (row : Task) (ts : Tasks) → q row ≡ false → count (λ t. p t && q row) ts ≡ 0
count_none p q row [] h = refl
count_none p q row (t ∷ ts) h = ground (arith, count_none p q row ts h)

idle_row : (t : Task) (repo : String) → is_running t.status ≡ false → running_in repo t ≡ false
idle_row t repo h = rw h refl

-- A new row, of a key that no row has, that does not run.
appended-IsExclusive :
    (ts : Tasks) (row : Task)
    → any (has_id row.id) ts ≡ false
    → is_running row.status ≡ false
    → IsExclusive ts
    → IsExclusive (ts ++ row ∷ [])
appended-IsExclusive ts row new idle h = record {
  keys = λ id. elim (Bool-cases (has_id id row)) [
    | inl e ↦
        let same : row.id ≡ id = (eq_iff row.id id).0 e in
        let none_yet : count (has_id id) ts ≡ 0 =
          ap (λ (s : String). count (has_id s) ts) (sym same) ∙ any-count (has_id row.id) ts new in
        ground (arith, count-append (has_id id) ts (row ∷ []), none_yet)
    | inr e ↦ ground (arith, count-append (has_id id) ts (row ∷ []), h.keys id)
  ];
  running_once = λ repo. ground (
    arith,
    count-append (running_in repo) ts (row ∷ []),
    h.running_once repo,
    idle_row row repo idle,
  );
}

-- A row is inserted, queued or otherwise not running, under the rules of the table.
pub create-IsExclusive :
    (t : Task) (ts after : Tasks)
    → create t ts ≡ ok after
    → is_running t.status ≡ false
    → IsExclusive ts
    → IsExclusive after
unfolding create
create-IsExclusive t ts after created idle h = elim (Bool-cases (any (has_id t.id) ts)) [
  | inl e ↦ ground arith
  | inr e ↦ elim (Bool-cases (is_ci_fix t.task_type && any (same_fix t) ts)) [
    | inl f ↦ ground arith
    | inr f ↦
        let same : ts ++ stored t ∷ [] ≡ after = ground arith in
        subst IsExclusive same (appended-IsExclusive ts (stored t) e idle h)
  ]
]

-- A row is written back that no longer runs.
pub update-IsExclusive :
    (now : Time) (t : Task) (ts : Tasks)
    → is_running t.status ≡ false
    → IsExclusive ts
    → IsExclusive (update now t ts)
unfolding update
update-IsExclusive now t ts idle h =
    let row = record (stored t) { updated_at = now } in
    elim (Bool-cases (any (has_id t.id) ts)) [
      | inl e ↦
          let there : IsExclusive (update_where (has_id t.id) (λ _. row) ts) = record {
            keys = λ id.
                rw
                  (count-update_where_there (has_id t.id) (has_id id) (λ _. row) ts
                    (λ u here. ap (λ (s : String). str_eq s id) (sym ((eq_iff u.id t.id).0 here))))
                  (h.keys id);
            running_once = λ repo. omega (
              arith,
              count-update_where (has_id t.id) (running_in repo) (λ _. row) ts,
              count_none (has_id t.id) (running_in repo) row ts (idle_row row repo idle),
              h.running_once repo,
            );
          } in
          rw e there
      | inr e ↦ rw e (appended-IsExclusive ts row e idle h)
    ]

count-and-le : (p : Task → Bool) (b : Bool) (ts : Tasks) → count (λ t. p t && b) ts ≤ count p ts
count-and-le p b [] = omega arith
count-and-le p b (t ∷ ts) = ground (arith, count-and-le p b ts)

some_same : {a b : Task} → some a ≡ some b → a ≡ b
some_same e = cc

-- One row is replaced by one that is counted only where it was.
count-replaced :
    (p q : Task → Bool) (row u : Task) (ts : Tasks)
    → find p ts ≡ some u
    → count p ts ≤ 1
    → (q row ≡ true → q u ≡ true)
    → count q (update_where p (λ _. row) ts) ≤ count q ts
unfolding update_where
count-replaced p q row u [] h le w = cc
count-replaced p q row u (t ∷ ts) h le w = elim (Bool-cases (p t)) [
  | inl e ↦
      let same : t ≡ u = some_same (rw e at h) in
      let counted : q row ≡ true → q t ≡ true =
        subst (λ (x : Task). q row ≡ true → q x ≡ true) (sym same) w in
      ground (arith, counted, count-update_where p q (λ _. row) ts, count-and-le p (q row) ts, le)
  | inr e ↦ ground (arith, count-replaced p q row u ts (rw e at h) (rw e at le) w)
]

any-find : (p : Task → Bool) (ts : Tasks) (u : Task) → find p ts ≡ some u → any p ts ≡ false → 1 ≤ 0
any-find p [] u h e = absurd (cc)
any-find p (t ∷ ts) u h e = ground (arith, any-find p ts u)

-- A running row is written back, running or not, in the same repository.
pub update-IsExclusive_running :
    (now : Time) (t u : Task) (ts : Tasks)
    → find (has_id t.id) ts ≡ some u
    → is_running u.status ≡ true
    → u.repo_full_name ≡ t.repo_full_name
    → IsExclusive ts
    → IsExclusive (update now t ts)
unfolding update
update-IsExclusive_running now t u ts found runs same h =
    let row = record (stored t) { updated_at = now } in
    elim (Bool-cases (any (has_id t.id) ts)) [
      | inl e ↦
          let there : IsExclusive (update_where (has_id t.id) (λ _. row) ts) = record {
            keys = λ id.
                rw
                  (count-update_where_there (has_id t.id) (has_id id) (λ _. row) ts
                    (λ x here. ap (λ (s : String). str_eq s id) (sym ((eq_iff x.id t.id).0 here))))
                  (h.keys id);
            running_once = λ repo.
                let kept : running_in repo row ≡ true → running_in repo u ≡ true =
                  λ x. rw (runs, same) (ground (arith, x)) in
                omega (
                  arith,
                  count-replaced (has_id t.id) (running_in repo) row u ts found (h.keys t.id) kept,
                  h.running_once repo,
                );
          } in
          rw e there
      | inr e ↦ absurd (omega (arith, any-find (has_id t.id) ts u found e))
    ]
