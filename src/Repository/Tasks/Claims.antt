-- ===== src/Repository/Tasks/Claims.antt =====
-- ClaimNext and ReclaimStale: at most one running task in each repository, and which task is taken.
use claude_ops.Prelude.{
  ◌≤◌, String, ◌≡◌, refl, ap, subst, inl, inr, Bool, true, false, not, ◌&&◌, [], ◌∷◌, Option, none,
  some, arith, count, keep, any, eq_iff, str_eq_self, Bool-cases, ltb, is_ok,
}
use claude_ops.Domain.Task.{Time, Task, is_queued}
use claude_ops.Repository.Tasks.{
  Tasks, has_id, of_repo, running_in, update_where, older, eligible, claimed, claim_of,
  claim_next_task, get_claimed_task, claim_next, reclaim_stale, is_stale, first_by, reclaimed,
  load_claimed,
}
use claude_ops.Repository.Tasks.Rows.{
  count-update_where, count-update_where_same, count-keep-le, any-count, count_split,
  first_by-counted, first_by-keep, first_by-none, first_by-oldest,
}

-- The primary key, and the rule of one running task in each repository.
pub record IsExclusive (ts : Tasks) : Type 0 where
  pub keys : (id : String) → count (has_id id) ts ≤ 1
  pub running_once : (repo : String) → count (running_in repo) ts ≤ 1

eligible-parts :
    (ts : Tasks) (t : Task)
    → eligible ts t ≡ true
    → (is_queued t.status ≡ true) × (any (running_in t.repo_full_name) ts ≡ false)
eligible-parts ts t h = ground arith

module _ (worker : Option String) (now : Time) (ts : Tasks) (ok_before : IsExclusive ts) where
  taken-running_once :
      (t : Task) (repo : String)
      → first_by older (keep (eligible ts) ts) ≡ some t
      → count (running_in repo) (update_where (has_id t.id) (claimed worker now) ts) ≤ 1
  taken-running_once t repo h =
      let (queue, free) = eligible-parts ts t (first_by-keep older (eligible ts) ts t h) in
      let idle = any-count (running_in t.repo_full_name) ts free in
      let bound = count-update_where (has_id t.id) (running_in repo) (claimed worker now) ts in
      let split = count_split (has_id t.id) (of_repo repo) ts in
      elim (Bool-cases (of_repo repo t)) [
        | inl here ↦
            let same : t.repo_full_name ≡ repo = (eq_iff t.repo_full_name repo).0 here in
            let idle_here : count (running_in repo) ts ≡ 0 =
              subst (λ (r : String). count (running_in r) ts ≡ 0) same idle in
            omega (arith, bound, split, ok_before.keys t.id)
        | inr elsewhere ↦
            let other : Task → Bool = λ u. has_id t.id u && not (of_repo repo u) in
            let found =
              first_by-counted older other (keep (eligible ts) ts) t h
                (rw (str_eq_self t.id, elsewhere)) in
            omega (
              arith,
              bound,
              split,
              found,
              count-keep-le (eligible ts) other ts,
              ok_before.keys t.id,
              ok_before.running_once repo,
            )
      ]

  taken-IsExclusive :
      (o : Option Task)
      → first_by older (keep (eligible ts) ts) ≡ o
      → IsExclusive (claim_of worker now ts o).1
  unfolding claim_of
  taken-IsExclusive none h = ok_before
  taken-IsExclusive (some t) h = record {
    keys = λ id.
        rw (count-update_where_same (has_id t.id) (has_id id) (claimed worker now) ts (λ u. refl))
          (ok_before.keys id);
    running_once = λ repo. taken-running_once t repo h;
  }

  -- A claim keeps the primary key and the rule of one running task in each repository.
  pub claim_next_task-IsExclusive : IsExclusive (claim_next_task worker now ts).1
  unfolding claim_next_task
  claim_next_task-IsExclusive = taken-IsExclusive (first_by older (keep (eligible ts) ts)) refl

-- The task that a claim takes was queued, in a repository with no running task, and no task of the
-- queue that could have been taken is older.
pub claim_next_task-oldest :
    (worker : Option String) (now : Time) (ts : Tasks) (t : Task)
    → (claim_next_task worker now ts).0 ≡ some t
    → (is_queued t.status ≡ true)
      × (any (running_in t.repo_full_name) ts ≡ false)
      × (count (λ u. ltb u.created_at t.created_at) (keep (eligible ts) ts) ≡ 0)
unfolding claim_next_task claim_of
claim_next_task-oldest worker now ts t h =
    let e = taken (first_by older (keep (eligible ts) ts)) h in
    let (queue, free) = eligible-parts ts t (first_by-keep older (eligible ts) ts t e) in
    (queue, free, first_by-oldest (keep (eligible ts) ts) t e)
  where
    taken : (o : Option Task) → (claim_of worker now ts o).0 ≡ some t → o ≡ some t
    taken none x = cc
    taken (some u) x = x

claim_of-none :
    (worker : Option String) (now : Time) (ts : Tasks) (o : Option Task)
    → first_by older (keep (eligible ts) ts) ≡ o
    → (claim_of worker now ts o).0 ≡ none
    → (keep (eligible ts) ts ≡ []) × ((claim_of worker now ts o).1 ≡ ts)
unfolding claim_of
claim_of-none worker now ts none e h = (first_by-none older (keep (eligible ts) ts) e, refl)
claim_of-none worker now ts (some t) e h = absurd (cc)

claim_of-some :
    (worker : Option String) (now : Time) (ts : Tasks) (o : Option Task) (t : Task)
    → (claim_of worker now ts o).0 ≡ some t
    → (claim_of worker now ts o).1 ≡ update_where (has_id t.id) (claimed worker now) ts
unfolding claim_of
claim_of-some worker now ts none t h = absurd (cc)
claim_of-some worker now ts (some u) t h =
    let same : u ≡ t = cc in ap (λ x. update_where (has_id x.id) (claimed worker now) ts) same

no_worker : (ts : Tasks) → get_claimed_task none ts ≡ none
unfolding get_claimed_task first_by
no_worker [] = refl
no_worker (t ∷ ts) = ground (arith, no_worker ts)

-- A claim takes no task only where no queued task is in a repository with nothing running.
pub claim_next_task-none :
    (worker : Option String) (now : Time) (ts : Tasks)
    → (claim_next_task worker now ts).0 ≡ none
    → (keep (eligible ts) ts ≡ []) × ((claim_next_task worker now ts).1 ≡ ts)
unfolding claim_next_task
claim_next_task-none worker now ts =
    claim_of-none worker now ts (first_by older (keep (eligible ts) ts)) refl

-- With the empty worker id a claim that takes a task fails: the row is running, and no worker has it.
claim_next-no_worker :
    (now : Time) (ts : Tasks) (t : Task)
    → (claim_next_task none now ts).0 ≡ some t
    → (is_ok (claim_next "" now ts).0 ≡ false)
      × ((claim_next "" now ts).1 ≡ update_where (has_id t.id) (claimed none now) ts)
unfolding claim_next load_claimed claim_next_task
claim_next-no_worker now ts t h =
    let after = (claim_next_task none now ts).1 in
    (
      rw (h, no_worker after),
      claim_of-some none now ts (first_by older (keep (eligible ts) ts)) t h,
    )

count_never : (p : Task → Bool) (ts : Tasks) → count (λ t. p t && false) ts ≡ 0
count_never p [] = refl
count_never p (t ∷ ts) = ground (arith, count_never p ts)

-- A reclaim keeps the primary key and the rule of one running task in each repository.
pub reclaim_stale-IsExclusive :
    (cutoff now : Time) (ts : Tasks) → IsExclusive ts → IsExclusive (reclaim_stale cutoff now ts)
unfolding reclaim_stale
reclaim_stale-IsExclusive cutoff now ts h = record {
  keys = λ id.
      rw (count-update_where_same (is_stale cutoff) (has_id id) (reclaimed now) ts (λ u. refl))
        (h.keys id);
  running_once = λ repo. omega (
    arith,
    count-update_where (is_stale cutoff) (running_in repo) (reclaimed now) ts,
    count_never (is_stale cutoff) ts,
    h.running_once repo,
  );
}

reclaimed_idle :
    (cutoff now : Time) (repo : String) (ts : Tasks)
    → count (λ u. running_in repo u && not (is_stale cutoff u)) ts ≡ 0
    → any (running_in repo) (reclaim_stale cutoff now ts) ≡ false
unfolding reclaim_stale update_where
reclaimed_idle cutoff now repo [] h = refl
reclaimed_idle cutoff now repo (t ∷ ts) h = ground (arith, reclaimed_idle cutoff now repo ts)

-- A reclaim frees a repository whose running task was claimed before the cutoff, whether or not the
-- worker that has it is still at work: a queued task of that repository can then be claimed.
reclaim_stale-frees :
    (cutoff now : Time) (ts : Tasks) (t : Task)
    → is_queued t.status ≡ true
    → count (λ u. running_in t.repo_full_name u && not (is_stale cutoff u)) ts ≡ 0
    → eligible (reclaim_stale cutoff now ts) t ≡ true
reclaim_stale-frees cutoff now ts t q h = rw (q, reclaimed_idle cutoff now t.repo_full_name ts h)
