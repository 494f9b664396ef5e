-- ===== src/Usecase/Budget/Reserve.antt =====
-- What one reservation of a task does: it is counted exactly when the gate allows it, and a refusal
-- or a failure counts nothing.
use claude_ops.Prelude.{
  ◌≡◌, sym, subst, ◌∙◌, ap, inl, inr, Bool, true, false, Error, Result, ok, err, is_ok, arith, refl,
  if◌then◌else◌, Bool-cases,
}
use claude_ops.Prelude.Exec.{and_then, pure, state-then_pure, then_pure-err}
use claude_ops.Domain.Task.{Time}
use claude_ops.Domain.Calendar.{Calendar}
use claude_ops.Scheduler.BudgetGate.{
  BudgetCounters, BudgetLimits, BudgetReason, RateLimitBlock, allowed, active, rollover_counters,
}
use claude_ops.Scheduler.BudgetGate.Decision.{HasRoom, HasRoom-congr, evaluate_budget-allowed_iff}
use claude_ops.Usecase.Budget.{
  BudgetUseCase, BudgetSnapshot, persist_counters, load_counters, load_block, effective_limits,
  roll, snapshot, snapshot_of, answer, check_and_increment, count_up, counted, is_allowed,
}
use claude_ops.Usecase.Budget.Store.{
  load_counters-persist_counters, load_counters-persist_counters_failed,
  effective_limits-persist_counters,
}
use claude_ops.Usecase.Budget.Snapshot.{Snapped, snapshot-Snapped, roll_failed, roll-limits}

module _ {S : Type 0} {c : Calendar} (uc : BudgetUseCase S c) where
  -- The task may start.
  abbrev pub granted : Result (BudgetReason × BudgetSnapshot c) → Bool
  granted (ok (r, snap)) = is_allowed r
  granted (err e) = false

  -- A reservation from counters `n` under `limits`: it was granted, and then the caps had room, no
  -- block was active, and the counters of the current buckets, each one higher, are stored; or it
  -- was not, and the store holds the counters as they were, rolled over or not.
  pub data Reserved (now : Time) (limits : BudgetLimits c) (n : BudgetCounters) (s : S)
      : Bool → Result BudgetCounters → Type 0 where
    granted_one :
        (block : RateLimitBlock) {m : Result BudgetCounters}
        → load_block uc s ≡ ok block
        → active block now ≡ false
        → HasRoom limits.daily_max (rollover_counters c now n limits).daily_count
        → HasRoom limits.weekly_max (rollover_counters c now n limits).weekly_count
        → m ≡ ok (counted uc (rollover_counters c now n limits))
        → Reserved now limits n s true m
    refused_as_was : {m : Result BudgetCounters} → m ≡ ok n → Reserved now limits n s false m
    refused_rolled :
        {m : Result BudgetCounters}
        → m ≡ ok (rollover_counters c now n limits)
        → Reserved now limits n s false m

  is_allowed-allowed : (r : BudgetReason) → is_allowed r ≡ true → r ≡ allowed
  is_allowed-allowed r h = ground arith

  granted-then :
      (r : Result (Unit {0}) × S) (snap : BudgetSnapshot c)
      → granted (and_then r (λ _. pure (allowed, snap))).0 ≡ is_ok r.0
  granted-then (ok a, s) snap = refl
  granted-then (err e, s) snap = refl

  module _ (now : Time) (limits : BudgetLimits c) (n : BudgetCounters) (s : S)
      (l : effective_limits uc s ≡ ok limits) (k : load_counters uc s ≡ ok n) where
    -- A snapshot that fails counts nothing.
    snapshot_of_failed :
        (e : Error) (block : Result RateLimitBlock)
        → (snapshot_of uc now (ok limits) (ok n) block s).0 ≡ err e
        → load_counters uc (snapshot_of uc now (ok limits) (ok n) block s).1 ≡ ok n
    unfolding snapshot_of
    snapshot_of_failed e (err x) h = k
    snapshot_of_failed e (ok block) h =
        let f = answer uc now limits block in
        rw (state-then_pure (roll uc now limits n s) f)
          (roll_failed uc now limits n s e k (then_pure-err (roll uc now limits n s) f e h))

    snapshot_failed :
        (e : Error) → (snapshot uc now s).0 ≡ err e → load_counters uc (snapshot uc now s).1 ≡ ok n
    unfolding snapshot
    snapshot_failed e = rw (l, k) (snapshot_of_failed e (load_block uc s))

    here :
        (s' : S) (snap : BudgetSnapshot c)
        → Snapped uc now s s' snap
        → snap.counters ≡ rollover_counters c now n limits
    here s' snap h = cc (l, k, h.limits_read, h.counters_read, h.rolled_over)

    -- After a snapshot that answers `snap`: the rest of CheckAndIncrement.
    decided :
        (s' : S) (snap : BudgetSnapshot c)
        → Snapped uc now s s' snap
        → (allows : Bool) → is_allowed snap.reason ≡ allows
        → let r = (if allows then count_up uc snap else pure (snap.reason, snap)) s' in
          Reserved now limits n s (granted r.0) (load_counters uc r.1)
    unfolding count_up
    decided s' snap h true e =
        let counters : snap.counters ≡ rollover_counters c now n limits = here s' snap h in
        let under : snap.limits ≡ limits = cc (l, h.limits_read) in
        let (calm, day, week) =
          (evaluate_budget-allowed_iff c now snap.counters snap.limits snap.block).0
            (sym h.decided ∙ is_allowed-allowed snap.reason e) in
        let counts = counted uc snap.counters in
        let r = persist_counters uc counts s' in
        let next : BudgetSnapshot c = record snap { counters = counts } in
        rw
          (
            granted-then r next,
            state-then_pure {B = BudgetReason × BudgetSnapshot c} r (λ _. (allowed, next)),
          )
          (elim (Bool-cases (is_ok r.0)) [
            | inl p ↦ rw p (
                granted_one snap.block h.block_read calm
                  (HasRoom-congr _ _ _ _ (ap (λ x. x.daily_max) under)
                    (ap (λ x. x.daily_count) counters) day)
                  (HasRoom-congr _ _ _ _ (ap (λ x. x.weekly_max) under)
                    (ap (λ x. x.weekly_count) counters) week)
                  (load_counters-persist_counters uc counts s' p
                    ∙ ap (λ x. ok (counted uc x)) counters))
            | inr p ↦ rw p (
                refused_rolled (
                  load_counters-persist_counters_failed uc counts s' p
                  ∙ h.counters_stored
                  ∙ ap ok counters))
          ])
    decided s' snap h false e = rw e (refused_rolled (h.counters_stored ∙ ap ok (here s' snap h)))

    reserve_from :
        (r : Result (BudgetSnapshot c)) (s' : S)
        → snapshot uc now s ≡ (r, s')
        → let f = λ (snap : BudgetSnapshot c).
          (if is_allowed snap.reason then count_up uc snap else pure (snap.reason, snap)) in
          let end = and_then (r, s') f in
          Reserved now limits n s (granted end.0) (load_counters uc end.1)
    reserve_from (err e) s' q =
        refused_as_was (rw (← ap (λ x. x.1) q) (snapshot_failed e (ap (λ x. x.0) q)))
    reserve_from (ok snap) s' q =
        decided s' snap
          (subst (λ x. Snapped uc now s x snap) (ap (λ x. x.1) q)
            (snapshot-Snapped uc now s snap (ap (λ x. x.0) q)))
          (is_allowed snap.reason) refl

    -- From counters `n` and limits that can be read, CheckAndIncrement either grants a task, with no
    -- block active and room under both caps after the rollover, and the counters then show one task
    -- more, or refuses it, and the counters are as they were or rolled over.
    pub check_and_increment-Reserved :
        let r = check_and_increment uc now s in
        Reserved now limits n s (granted r.0) (load_counters uc r.1)
    unfolding check_and_increment
    check_and_increment-Reserved = reserve_from _ _ refl

  limits-snapshot_of :
      (now : Time) (l : Result (BudgetLimits c)) (n : Result BudgetCounters)
      (b : Result RateLimitBlock) (s : S)
      → effective_limits uc (snapshot_of uc now l n b s).1 ≡ effective_limits uc s
  unfolding snapshot_of
  limits-snapshot_of now (err e) n b s = refl
  limits-snapshot_of now (ok l) (err e) b s = refl
  limits-snapshot_of now (ok l) (ok n) (err e) s = refl
  limits-snapshot_of now (ok l) (ok n) (ok b) s =
      rw (state-then_pure (roll uc now l n s) (answer uc now l b)) (roll-limits uc now l n s)

  limits-count_up :
      (r : Result (BudgetSnapshot c) × S)
      → effective_limits uc
          (and_then r (λ snap.
            (if is_allowed snap.reason then count_up uc snap else pure (snap.reason, snap)))).1
        ≡ effective_limits uc r.1
  unfolding count_up
  limits-count_up (err e, s) = refl
  limits-count_up (ok snap, s) = elim (Bool-cases (is_allowed snap.reason)) [
    | inl p ↦
        let m = counted uc snap.counters in
        rw
          (
            p,
            state-then_pure {B = BudgetReason × BudgetSnapshot c} (persist_counters uc m s)
                (λ _. (allowed, record snap { counters = m })),
          )
          (effective_limits-persist_counters uc m s)
    | inr p ↦ rw p
  ]

  -- The budget never changes its own limits.
  pub limits-check_and_increment :
      (now : Time) (s : S)
      → effective_limits uc (check_and_increment uc now s).1 ≡ effective_limits uc s
  unfolding check_and_increment snapshot
  limits-check_and_increment now s =
      limits-count_up
        (snapshot_of uc now (effective_limits uc s) (load_counters uc s) (load_block uc s) s)
      ∙ limits-snapshot_of now _ _ _ s
