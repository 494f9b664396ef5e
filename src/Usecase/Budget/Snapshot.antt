-- ===== src/Usecase/Budget/Snapshot.antt =====
-- What a snapshot of the budget reads, answers, and leaves in the store.
use claude_ops.Prelude.{
  ◌≡◌, ap, refl, inl, inr, true, false, Error, Result, ok, err, is_ok, arith, eq_iff, if◌then◌else◌,
  Bool-cases, eq_ℤ_iff,
}
use claude_ops.Prelude.Exec.{and_then, pure, state-then_pure, then_pure-is_ok, and_then-ok}
use claude_ops.Domain.Task.{Time}
use claude_ops.Domain.Calendar.{Calendar}
use claude_ops.Scheduler.BudgetGate.{
  BudgetCounters, BudgetLimits, RateLimitBlock, rollover_counters, evaluate_budget,
}
use claude_ops.Usecase.Budget.{
  BudgetUseCase, BudgetSnapshot, counters_eq, persist_counters, load_counters, load_block,
  effective_limits, roll, snapshot, snapshot_of, answer,
}
use claude_ops.Usecase.Budget.Store.{
  load_counters-persist_counters, load_counters-persist_counters_failed,
  load_block-persist_counters, effective_limits-persist_counters,
}

counters_eq_iff : (a b : BudgetCounters) → counters_eq a b ≡ true → a ≡ b
unfolding counters_eq
counters_eq_iff a b h = ground (
  arith,
  eq_ℤ_iff a.daily_count b.daily_count,
  eq_ℤ_iff a.weekly_count b.weekly_count,
  eq_iff a.daily_key b.daily_key,
  eq_iff a.weekly_key b.weekly_key,
)

module _ {S : Type 0} {c : Calendar} (uc : BudgetUseCase S c) where
  module _ (now : Time) (limits : BudgetLimits c) (n : BudgetCounters) (s : S) where
    abbrev pub rolled : BudgetCounters
    rolled = rollover_counters c now n limits

    -- The store after a rollover: as it was, or with the rolled counters written.
    roll-state :
        (roll uc now limits n s).1
        ≡ (if counters_eq rolled n then s else (persist_counters uc rolled s).1)
    unfolding roll
    roll-state = elim (Bool-cases (counters_eq rolled n)) [
      | inl p ↦ rw p
      | inr p ↦ rw p (state-then_pure (persist_counters uc rolled s) (λ _. rolled))
    ]

    pub roll-limits : effective_limits uc (roll uc now limits n s).1 ≡ effective_limits uc s
    roll-limits = elim (Bool-cases (counters_eq rolled n)) [
      | inl p ↦ rw (roll-state, p)
      | inr p ↦ rw (roll-state, p) (effective_limits-persist_counters uc rolled s)
    ]

    roll-block : load_block uc (roll uc now limits n s).1 ≡ load_block uc s
    roll-block = elim (Bool-cases (counters_eq rolled n)) [
      | inl p ↦ rw (roll-state, p)
      | inr p ↦ rw (roll-state, p) (load_block-persist_counters uc rolled s)
    ]

    roll-value : (roll uc now limits n s).0 ≡ (
        if counters_eq rolled n
        then ok n
        else (and_then (persist_counters uc rolled s) (λ _. pure rolled)).0)
    unfolding roll
    roll-value = elim (Bool-cases (counters_eq rolled n)) [ inl p ↦ rw p | inr p ↦ rw p ]

    -- One that fails leaves the counters as they were.
    pub roll_failed :
        (e : Error)
        → load_counters uc s ≡ ok n
        → (roll uc now limits n s).0 ≡ err e
        → load_counters uc (roll uc now limits n s).1 ≡ ok n
    roll_failed e l h = elim (Bool-cases (counters_eq rolled n)) [
      | inl p ↦ rw (roll-state, p) l
      | inr p ↦
          let bad : is_ok (persist_counters uc rolled s).0 ≡ false = cc (
            then_pure-is_ok (persist_counters uc rolled s) (λ _. rolled),
            ap is_ok (rw (roll-value, p) at h),
          ) in
          rw (roll-state, p, load_counters-persist_counters_failed uc rolled s bad) l
    ]

    -- A rollover that succeeds returns the rolled counters, and they are the ones stored.
    pub roll_lem :
        (m : BudgetCounters)
        → load_counters uc s ≡ ok n
        → (roll uc now limits n s).0 ≡ ok m
        → (m ≡ rolled) × (load_counters uc (roll uc now limits n s).1 ≡ ok m)
    roll_lem m l h = elim (Bool-cases (counters_eq rolled n)) [
      | inl p ↦
          let same : ok n ≡ ok m = cc (rw (roll-value, p) at h) in
          let e : n ≡ m = cc in (cc (counters_eq_iff rolled n p), rw (roll-state, p) (cc))
      | inr p ↦
          let (a, good, next) =
            and_then-ok (persist_counters uc rolled s) (λ _. pure rolled) m
              (rw (roll-value, p) at h) in
          let e : m ≡ rolled = cc (ap (λ r. r.0) next, rw (roll-value, p) at h) in
          (e, rw (roll-state, p, e) (load_counters-persist_counters uc rolled s (rw good)))
    ]

  -- A snapshot that succeeded: what it read, what it answers, and what it leaves in the store.
  pub record Snapped (now : Time) (s s' : S) (snap : BudgetSnapshot c) : Type 0 where
    pub loaded : BudgetCounters
    pub limits_read : effective_limits uc s ≡ ok snap.limits
    pub counters_read : load_counters uc s ≡ ok loaded
    pub block_read : load_block uc s ≡ ok snap.block
    pub rolled_over : snap.counters ≡ rollover_counters c now loaded snap.limits
    pub decided : snap.reason ≡ evaluate_budget c now snap.counters snap.limits snap.block
    pub limits_kept : effective_limits uc s' ≡ ok snap.limits
    pub counters_stored : load_counters uc s' ≡ ok snap.counters
    pub block_kept : load_block uc s' ≡ ok snap.block

  finished-Snapped :
      (now : Time) (s : S) (limits : BudgetLimits c) (n : BudgetCounters) (block : RateLimitBlock)
      (snap : BudgetSnapshot c) (r : Result BudgetCounters × S)
      → effective_limits uc s ≡ ok limits
      → load_counters uc s ≡ ok n
      → load_block uc s ≡ ok block
      → roll uc now limits n s ≡ r
      → (and_then r (λ m. pure (answer uc now limits block m))).0 ≡ ok snap
      → Snapped now s (and_then r (λ m. pure (answer uc now limits block m))).1 snap
  finished-Snapped now s limits n block snap (err e, s') l k b q h = absurd (cc)
  finished-Snapped now s limits n block snap (ok m, s') l k b q h =
      let (rolled_over, stored) = roll_lem now limits n s m k (ap (λ x. x.0) q) in
      let same : answer uc now limits block m ≡ snap = cc in
      let left : (roll uc now limits n s).1 ≡ s' = ap (λ x. x.1) q in
      rw (← same) (record {
        loaded = n;
        limits_read = l;
        counters_read = k;
        block_read = b;
        rolled_over = rolled_over;
        decided = refl;
        limits_kept = rw (← left, roll-limits now limits n s) l;
        counters_stored = rw (← left) stored;
        block_kept = rw (← left, roll-block now limits n s) b;
      })

  snapshot_of-Snapped :
      (now : Time) (s : S) (snap : BudgetSnapshot c) (limits : Result (BudgetLimits c))
      (loaded : Result BudgetCounters) (block : Result RateLimitBlock)
      → effective_limits uc s ≡ limits
      → load_counters uc s ≡ loaded
      → load_block uc s ≡ block
      → (snapshot_of uc now limits loaded block s).0 ≡ ok snap
      → Snapped now s (snapshot_of uc now limits loaded block s).1 snap
  unfolding snapshot_of
  snapshot_of-Snapped now s snap (err e) loaded block l k b h = absurd (cc)
  snapshot_of-Snapped now s snap (ok limits) (err e) block l k b h = absurd (cc)
  snapshot_of-Snapped now s snap (ok limits) (ok n) (err e) l k b h = absurd (cc)
  snapshot_of-Snapped now s snap (ok limits) (ok n) (ok block) l k b h =
      finished-Snapped now s limits n block snap (roll uc now limits n s) l k b refl h

  pub snapshot-Snapped :
      (now : Time) (s : S) (snap : BudgetSnapshot c)
      → (snapshot uc now s).0 ≡ ok snap
      → Snapped now s (snapshot uc now s).1 snap
  unfolding snapshot
  snapshot-Snapped now s snap = snapshot_of-Snapped now s snap _ _ _ refl refl refl
