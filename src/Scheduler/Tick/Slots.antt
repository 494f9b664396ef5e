-- ===== src/Scheduler/Tick/Slots.antt =====
-- internal/scheduler/scheduler.go: the slots of the workers and the table, over any interleaving of
-- the scheduler's steps with those of the poller, the workers and the reclaimer.
use claude_ops.Prelude.{
  find, some, true, ℕ, zero, suc, ◌+◌, ◌-◌, ◌≤◌, ◌<◌, String, ◌≡◌, ap, inl, inr, false, List, ◌∷◌,
  ◌++◌, Option, none, some, Result, ok, err, arith, leb, length, length-append, Bool-cases,
}
use claude_ops.Domain.Task.{Time, Task, is_running}
use claude_ops.Repository.Tasks.{
  has_id, Tasks, create, update, claim_next, worker_arg, reclaim_stale,
}
use claude_ops.Repository.Tasks.Claims.{
  IsExclusive, claim_next_task-IsExclusive, reclaim_stale-IsExclusive,
}
use claude_ops.Repository.Tasks.Writes.{
  create-IsExclusive, update-IsExclusive, update-IsExclusive_running,
}
use claude_ops.Scheduler.Tick.{
  State, Config, Claim, capacity, spawned, dispatch_one, settled, fill_one, fill,
}

-- One step of the whole: a task is enqueued; the loop of tick goes one round; a worker writes a row
-- that no longer runs; a worker writes its row while the table has it running; a worker's goroutine
-- ends; stale tasks are reclaimed.
pub data Step (cfg : Config) : State → State → Type 0 where
  enqueued :
      (s : State) (t : Task) (after : Tasks)
      → is_running t.status ≡ false
      → create t s.tasks ≡ ok after
      → Step cfg s (record s { tasks = after })
  filled : (s : State) (call : Claim) → Step cfg s (fill_one cfg call s).1
  wrote :
      (s : State) (now : Time) (t : Task)
      → is_running t.status ≡ false
      → Step cfg s (record s { tasks = update now t s.tasks })
  rewrote :
      (s : State) (now : Time) (t u : Task)
      → find (has_id t.id) s.tasks ≡ some u
      → is_running u.status ≡ true
      → u.repo_full_name ≡ t.repo_full_name
      → Step cfg s (record s { tasks = update now t s.tasks })
  ended :
      (s : State) (before after : List String) (id : String)
      → s.workers ≡ before ++ id ∷ after
      → Step cfg s (record s { slots = s.slots - 1; workers = before ++ after })
  reclaimed :
      (s : State) (cutoff now : Time)
      → Step cfg s (record s { tasks = reclaim_stale cutoff now s.tasks })

pub data Reach (cfg : Config) (start : State) : State → Type 0 where
  here : Reach cfg start start
  then_ : (s after : State) → Reach cfg start s → Step cfg s after → Reach cfg start after

-- Each slot in use is held by one worker, none is held past the capacity, and the table keeps its rules.
pub record IsSound (cfg : Config) (s : State) : Type 0 where
  pub held : s.slots ≡ length s.workers
  pub within : s.slots ≤ capacity cfg
  pub exclusive : IsExclusive s.tasks

module _ (cfg : Config) where
  claim_next-IsExclusive :
      (id : String) (now : Time) (ts : Tasks)
      → IsExclusive ts
      → IsExclusive (claim_next id now ts).1
  unfolding claim_next
  claim_next-IsExclusive id now ts h = claim_next_task-IsExclusive (worker_arg id) now ts h

  settled-IsSound :
      (r : Result (Option Task) × Tasks) (s : State)
      → s.slots < capacity cfg
      → s.slots ≡ length s.workers
      → IsExclusive r.1
      → IsSound cfg (settled (spawned r (record s { slots = s.slots + 1 }))).1
  unfolding settled spawned
  settled-IsSound (err e, ts) s room held h = record {
    held = omega arith;
    within = omega arith;
    exclusive = h;
  }
  settled-IsSound (ok none, ts) s room held h = record {
    held = omega arith;
    within = omega arith;
    exclusive = h;
  }
  settled-IsSound (ok (some t), ts) s room held h = record {
    held = omega arith;
    within = omega arith;
    exclusive = h;
  }

  pub fill_one-IsSound :
      (call : Claim) (s : State) → IsSound cfg s → IsSound cfg (fill_one cfg call s).1
  unfolding fill_one dispatch_one settled
  fill_one-IsSound call s h = elim (Bool-cases (leb (capacity cfg) s.slots)) [
    | inl e ↦ rw e h
    | inr e ↦ elim (Bool-cases call.fails) [
      | inl f ↦
          rw (e, f)
            (record {
              held = omega (arith, h.held);
              within = omega (arith, h.within);
              exclusive = h.exclusive;
            })
      | inr f ↦
          rw (e, f)
            (settled-IsSound (claim_next cfg.worker_id call.db_now s.tasks) s (ground arith) h.held
              (claim_next-IsExclusive cfg.worker_id call.db_now s.tasks h.exclusive))
    ]
  ]

  step-IsSound : (s after : State) → Step cfg s after → IsSound cfg s → IsSound cfg after
  step-IsSound _ _ (enqueued s t after idle e) h = record {
    held = h.held;
    within = h.within;
    exclusive = create-IsExclusive t s.tasks after e idle h.exclusive;
  }
  step-IsSound _ _ (filled s call) h = fill_one-IsSound call s h
  step-IsSound _ _ (wrote s now t idle) h = record {
    held = h.held;
    within = h.within;
    exclusive = update-IsExclusive now t s.tasks idle h.exclusive;
  }
  step-IsSound _ _ (rewrote s now t u found runs same) h = record {
    held = h.held;
    within = h.within;
    exclusive = update-IsExclusive_running now t u s.tasks found runs same h.exclusive;
  }
  step-IsSound _ _ (ended s before after id e) h = record {
    held =
        omega (
          arith,
          h.held,
          ap length e,
          length-append before (id ∷ after),
          length-append before after,
        );
    within = omega (arith, h.within);
    exclusive = h.exclusive;
  }
  step-IsSound _ _ (reclaimed s cutoff now) h = record {
    held = h.held;
    within = h.within;
    exclusive = reclaim_stale-IsExclusive cutoff now s.tasks h.exclusive;
  }

  -- Over any interleaving of these steps from a sound start, the slots in use are the workers at work,
  -- never more than the capacity, and no repository has two running tasks.
  pub Reach-IsSound : (start s : State) → IsSound cfg start → Reach cfg start s → IsSound cfg s
  Reach-IsSound start _ h (here) = h
  Reach-IsSound start _ h (then_ s after r step) =
      step-IsSound s after step (Reach-IsSound start s h r)

  -- The loop of tick is a run of such rounds.
  fill-Reach :
      (n : ℕ) (calls : ℕ → Claim) (start s : State)
      → Reach cfg start s
      → Reach cfg start (fill n cfg calls s)
  unfolding fill
  fill-Reach zero calls start s r = r
  fill-Reach (suc n) calls start s r =
      let after = (fill_one cfg (calls n) s).1 in
      let reached = then_ s after r (filled s (calls n)) in
      elim (Bool-cases (fill_one cfg (calls n) s).0) [
        | inl e ↦ rw e (fill-Reach n calls start after reached)
        | inr e ↦ rw e reached
      ]
