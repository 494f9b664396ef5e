-- ===== src/Scheduler/Tick/Filling.antt =====
-- internal/scheduler/scheduler.go: what a tick dispatches, and when it dispatches nothing.
use claude_ops.Prelude.{
  ℕ, zero, suc, ◌+◌, ◌≤◌, ◌<◌, ◌≡◌, refl, sym, subst, inl, inr, ◌⊎◌, Bool, true, false, [], Option,
  none, some, Result, ok, err, arith, leb, is_ok, str_eq, Bool-cases, keep,
}
use claude_ops.Domain.Task.{Time, Task}
use claude_ops.Domain.Calendar.{Calendar}
use claude_ops.Domain.Window.{allow_now}
use claude_ops.Repository.Tasks.{Tasks, claim_next, eligible}
use claude_ops.Repository.Tasks.Loads.{claim_next-is_ok, claim_next-drained}
use claude_ops.Scheduler.Tick.{
  State, Config, Claim, capacity, spawned, dispatch_one, settled, fill_one, fill, tick, Env,
  is_blocked, is_full_mode,
}

-- Every slot is in use, or no queued task is in a repository with nothing running.
abbrev pub IsFilled : Config → State → Type 0
IsFilled cfg s = (capacity cfg ≤ s.slots) ⊎ (keep (eligible s.tasks) s.tasks ≡ [])

module _ (cfg : Config) (named : str_eq cfg.worker_id "" ≡ false) where
  spawned-stops :
      (r : Result (Option Task) × Tasks) (s : State)
      → is_ok r.0 ≡ true
      → (r.0 ≡ ok none → (keep (eligible r.1) r.1 ≡ []))
      → (settled (spawned r s)).0 ≡ false
      → keep (eligible (settled (spawned r s)).1.tasks) (settled (spawned r s)).1.tasks ≡ []
  unfolding settled spawned
  spawned-stops (err e, ts) s fine h stop = absurd (cc)
  spawned-stops (ok none, ts) s fine h stop = h refl
  spawned-stops (ok (some t), ts) s fine h stop = absurd (cc)

  spawned-goes :
      (r : Result (Option Task) × Tasks) (s : State)
      → (settled (spawned r s)).0 ≡ true
      → (settled (spawned r s)).1.slots ≡ s.slots
  unfolding settled spawned
  spawned-goes (err e, ts) s go = absurd (cc)
  spawned-goes (ok none, ts) s go = absurd (cc)
  spawned-goes (ok (some t), ts) s go = refl

  drained :
      (now : Time) (ts : Tasks)
      → (claim_next cfg.worker_id now ts).0 ≡ ok none
      → keep (eligible (claim_next cfg.worker_id now ts).1) (claim_next cfg.worker_id now ts).1 ≡ []
  drained now ts h =
      let (empty, same) = claim_next-drained cfg.worker_id now ts h in
      subst (λ (rows : Tasks). keep (eligible rows) rows ≡ []) (sym same) empty

  fill_one-open :
      (call : Claim) (s : State)
      → call.fails ≡ false
      → leb (capacity cfg) s.slots ≡ false
      → fill_one cfg call s
        ≡ settled (
            spawned
              (claim_next cfg.worker_id call.db_now s.tasks)
              (record s { slots = s.slots + 1 }))
  unfolding fill_one dispatch_one
  fill_one-open call s works free = rw (free, works) refl

  fill_one-full :
      (call : Claim) (s : State)
      → leb (capacity cfg) s.slots ≡ true
      → fill_one cfg call s ≡ (false, s)
  unfolding fill_one
  fill_one-full call s full = rw full refl

  fill_one-stops :
      (call : Claim) (s : State)
      → call.fails ≡ false
      → (fill_one cfg call s).0 ≡ false
      → IsFilled cfg (fill_one cfg call s).1
  fill_one-stops call s works stop = elim (Bool-cases (leb (capacity cfg) s.slots)) [
    | inl e ↦ rw (fill_one-full call s e) (inl (ground arith))
    | inr e ↦
        let opened = fill_one-open call s works e in
        let r = claim_next cfg.worker_id call.db_now s.tasks in
        subst (λ (x : Bool × State). IsFilled cfg x.1) (sym opened)
          (inr (
            spawned-stops r (record s { slots = s.slots + 1 })
              (claim_next-is_ok cfg.worker_id call.db_now s.tasks named)
              (drained call.db_now s.tasks)
              (subst (λ (x : Bool × State). x.0 ≡ false) opened stop)))
  ]

  fill_one-goes :
      (call : Claim) (s : State)
      → call.fails ≡ false
      → (fill_one cfg call s).0 ≡ true
      → (fill_one cfg call s).1.slots ≡ s.slots + 1
  fill_one-goes call s works go = elim (Bool-cases (leb (capacity cfg) s.slots)) [
    | inl e ↦
        absurd (false_true (subst (λ (x : Bool × State). x.0 ≡ true) (fill_one-full call s e) go))
    | inr e ↦
        let opened = fill_one-open call s works e in
        subst (λ (x : Bool × State). x.1.slots ≡ s.slots + 1) (sym opened)
          (spawned-goes (claim_next cfg.worker_id call.db_now s.tasks)
            (record s { slots = s.slots + 1 }) (subst (λ (x : Bool × State). x.0 ≡ true) opened go))
  ]
    where
      false_true : ¬ (false ≡ true)
      false_true e = cc

  -- Fuel past the number of free slots is enough for the loop to run to its end.
  fill-IsFilled :
      (n : ℕ) (calls : ℕ → Claim) (s : State)
      → ((i : ℕ) → (calls i).fails ≡ false)
      → capacity cfg < s.slots + n
      → IsFilled cfg (fill n cfg calls s)
  unfolding fill
  fill-IsFilled zero calls s works enough = inl (omega (arith, enough))
  fill-IsFilled (suc n) calls s works enough = elim (Bool-cases (fill_one cfg (calls n) s).0) [
    | inl e ↦ rw e (
        fill-IsFilled n calls (fill_one cfg (calls n) s).1 works
          (omega (arith, enough, fill_one-goes (calls n) s (works n) e)))
    | inr e ↦ rw e (fill_one-stops (calls n) s (works n) e)
  ]

  -- A tick in an open window that the budget does not block, with a database that answers and a
  -- worker id that is not empty, leaves every slot in use or no queued task in a repository with nothing running.
  pub tick-IsFilled :
      {c : Calendar} (env : Env c) (s : State)
      → allow_now c env.now (is_full_mode env.full_mode) env.windows ≡ true
      → is_blocked env.budget ≡ false
      → ((i : ℕ) → (env.claims i).fails ≡ false)
      → IsFilled cfg (tick c cfg env s)
  unfolding tick
  tick-IsFilled env s opened free works =
      rw (opened, free)
        (fill-IsFilled (capacity cfg + 1) env.claims (record s { tasks = env.poll s.tasks }) works
          (omega arith))
