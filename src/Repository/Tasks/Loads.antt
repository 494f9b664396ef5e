-- ===== src/Repository/Tasks/Loads.antt =====
-- ClaimNext of internal/repository/task_repository.go: that the task a claim took is loaded.
use claude_ops.Prelude.{
  ◌≤◌, String, ◌≡◌, refl, inl, inr, Bool, true, false, ◌&&◌, [], ◌∷◌, Option, none, some, ok, err,
  Result, is_ok, is_some, arith, count, keep, find, str_eq, str_eq_self, if◌then◌else◌, Bool-cases,
  Option-cases,
}
use claude_ops.Domain.Task.{Time, Task, is_running}
use claude_ops.Repository.Tasks.{
  Tasks, has_id, update_where, older, eligible, claimed, claim_of, claim_next_task, claim_next,
  get_claimed_task, get_by_id, first_by, later_claim, worker_arg, eq_nullable, load_claimed,
}
use claude_ops.Repository.Tasks.Rows.{count-keep-le, first_by-counted, first_by-none}
use claude_ops.Repository.Tasks.Lookup.{get_by_id-found}
use claude_ops.Repository.Tasks.Claims.{claim_next_task-none}

keep-empty : (q : Task → Bool) (ts : Tasks) → keep q ts ≡ [] → count q ts ≡ 0
keep-empty q [] h = refl
keep-empty q (t ∷ ts) h = elim (Bool-cases (q t)) [
  | inl e ↦ ground arith
  | inr e ↦ rw e (keep-empty q ts (ground arith))
]

find-none : (q : Task → Bool) (ts : Tasks) → find q ts ≡ none → count q ts ≡ 0
find-none q [] h = refl
find-none q (t ∷ ts) h = elim (Bool-cases (q t)) [
  | inl e ↦ ground arith
  | inr e ↦ rw e (find-none q ts (ground arith))
]

count-changed :
    (p q : Task → Bool) (f : Task → Task) (ts : Tasks)
    → ((t : Task) → q (f t) ≡ true)
    → count p ts ≤ count q (update_where p f ts)
unfolding update_where
count-changed p q f [] h = omega arith
count-changed p q f (t ∷ ts) h = ground (arith, h t, count-changed p q f ts h)

module _ (id : String) (now : Time) (ts : Tasks) where
  of_worker : Task → Bool
  of_worker t = eq_nullable t.worker_id (some id) && is_running t.status

  -- the table after a claim of `t`
  after : Task → Tasks
  after t = update_where (has_id t.id) (claimed (some id) now) ts

  loads_found :
      (rows : Tasks) (o : Option Task)
      → first_by later_claim (keep of_worker rows) ≡ o
      → 1 ≤ count of_worker rows
      → is_ok (load_claimed o rows) ≡ true
  unfolding load_claimed
  loads_found rows none e h =
      let empty = keep-empty of_worker rows (first_by-none later_claim (keep of_worker rows) e) in
      absurd (omega (arith, empty, h))
  loads_found rows (some u) e h =
      let there =
        first_by-counted later_claim (has_id u.id) (keep of_worker rows) u e (str_eq_self u.id) in
      elim (Option-cases (find (has_id u.id) rows)) [
        | inl f ↦ absurd (
            omega (
              arith,
              find-none (has_id u.id) rows f,
              count-keep-le of_worker (has_id u.id) rows,
              there,
            ))
        | inr (row, f) ↦ rw (get_by_id-found u.id rows row f, load_claimed, is_ok) refl
      ]

  claimed-counted :
      (t : Task) → first_by older (keep (eligible ts) ts) ≡ some t → 1 ≤ count of_worker (after t)
  unfolding of_worker after
  claimed-counted t e =
      let there =
        first_by-counted older (has_id t.id) (keep (eligible ts) ts) t e (str_eq_self t.id) in
      omega (
        arith,
        there,
        count-keep-le (eligible ts) (has_id t.id) ts,
        count-changed (has_id t.id) of_worker (claimed (some id) now) ts
            (λ u. rw (str_eq_self id) refl),
      )

  claim_next-cases :
      (o : Option Task)
      → first_by older (keep (eligible ts) ts) ≡ o
      → str_eq id "" ≡ false
      → is_ok (claim_next id now ts).0 ≡ true
  unfolding claim_next claim_next_task claim_of get_claimed_task after of_worker
  claim_next-cases none e named = rw (named, e) refl
  claim_next-cases (some t) e named =
      rw (named, e)
        (loads_found (after t) (get_claimed_task (some id) (after t)) refl (claimed-counted t e))

never_none : (o : Option Task) (rows : Tasks) → ¬ (load_claimed o rows ≡ ok none)
unfolding load_claimed
never_none none rows h = cc
never_none (some t) rows h = loaded-never (get_by_id t.id rows) h
  where
    loaded-never : (r : Result Task) → ¬ (elim r [ ok u ↦ ok (some u) | err e ↦ err e ] ≡ ok none)
    loaded-never (ok u) x = cc
    loaded-never (err e) x = cc

-- A claim under a worker id that is not empty never fails: where it takes a task, a task of that
-- worker is loaded.
pub claim_next-is_ok :
    (id : String) (now : Time) (ts : Tasks)
    → str_eq id "" ≡ false
    → is_ok (claim_next id now ts).0 ≡ true
claim_next-is_ok id now ts named =
    claim_next-cases id now ts (first_by older (keep (eligible ts) ts)) refl named

-- Where a claim that succeeds has no task to give, no queued task is free, and nothing is written.
pub claim_next-drained :
    (id : String) (now : Time) (ts : Tasks)
    → (claim_next id now ts).0 ≡ ok none
    → (keep (eligible ts) ts ≡ []) × ((claim_next id now ts).1 ≡ ts)
unfolding claim_next
claim_next-drained id now ts h =
    claim_next_task-none (worker_arg id) now ts
      (not_taken (claim_next_task (worker_arg id) now ts).0 h)
  where
    not_taken :
        (o : Option Task)
        → (if is_some o
            then load_claimed
                (get_claimed_task (worker_arg id) (claim_next_task (worker_arg id) now ts).1)
                (claim_next_task (worker_arg id) now ts).1
            else ok none)
          ≡ ok none
        → o ≡ none
    not_taken none x = refl
    not_taken (some t) x = absurd (
        never_none (get_claimed_task (worker_arg id) (claim_next_task (worker_arg id) now ts).1)
          (claim_next_task (worker_arg id) now ts).1 x)
