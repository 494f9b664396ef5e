-- ===== src/Usecase/Maintenance/Counters.antt =====
-- What the steps of internal/usecase/maintenance_usecase.go leave of the counters of a sub-cap.
use Prim.Native.Char.{code}
use Prim.Native.String.{◌∷◌ as char_then, [] as no_text}
use claude_ops.Prelude.{
  ◌==◌, ℕ, String, ◌≡◌, refl, ap, ◌∙◌, inl, inr, Bool, true, false, Result, ok, err, is_ok, arith,
  if◌then◌else◌, Bool-cases, str_eq, str_eq_self, eq_iff,
}
use claude_ops.Prelude.Exec.{and_then, pure, state-then_pure}
use claude_ops.Domain.Task.{Time}
use claude_ops.Domain.Calendar.{Calendar}
use claude_ops.Scheduler.BudgetGate.{
  BudgetCounters, BudgetLimits, BudgetReason, RateLimitBlock, allowed, rollover_counters,
}
use claude_ops.Usecase.Budget.{
  BudgetUseCase, BudgetSnapshot, read, store, persist_counters, task_counters_key, roll, snapshot,
  snapshot_of, answer, check_and_increment, count_up, counted, counters_eq, is_allowed,
  load_counters, effective_limits, load_block, decoded,
}
use claude_ops.Usecase.Budget.Store.{read-store, decoded-marshal}
use claude_ops.Usecase.Maintenance.{
  MaintenanceUseCase, MaintenanceSubCap, zero_sub_cap, load_sub_cap, persist_sub_cap, sub_cap_key,
}

starts_with : ℕ → String → Bool
starts_with n no_text = false
starts_with n (char_then c s) = code c == n

-- The key of a sub-cap is none of the budget's.
pub task_counters-sub_cap_key :
    (name : String) → str_eq task_counters_key (sub_cap_key name) ≡ false
unfolding sub_cap_key starts_with
task_counters-sub_cap_key name = elim (Bool-cases (str_eq task_counters_key (sub_cap_key name))) [
  | inl e ↦
      let same : task_counters_key ≡ sub_cap_key name =
        (eq_iff task_counters_key (sub_cap_key name)).0 e in
      absurd (differ (ap (starts_with b't') same))
  | inr e ↦ e
]
  where
    differ : ¬ (true ≡ false)
    differ h = cc

module _ {S : Type 0} {c : Calendar} (uc : BudgetUseCase S c) (k : String)
    (apart : str_eq task_counters_key k ≡ false) where
  open uc use {repo, counters_json}

  read-persist_counters :
      (n : BudgetCounters) (s : S) → read uc k (persist_counters uc n s).1 ≡ read uc k s
  unfolding persist_counters
  read-persist_counters n s =
      ground
        (arith, read-store uc (counters_json.marshal n) task_counters_key (repo.time_now s) s k)

  read-roll :
      (now : Time) (limits : BudgetLimits c) (n : BudgetCounters) (s : S)
      → read uc k (roll uc now limits n s).1 ≡ read uc k s
  unfolding roll
  read-roll now limits n s =
      let rolled = rollover_counters c now n limits in
      elim (Bool-cases (counters_eq rolled n)) [
        | inl p ↦ rw p refl
        | inr p ↦
            rw (p, state-then_pure (persist_counters uc rolled s) (λ _. rolled))
              (read-persist_counters rolled s)
      ]

  read-snapshot_of :
      (now : Time) (l : Result (BudgetLimits c)) (n : Result BudgetCounters)
      (b : Result RateLimitBlock) (s : S)
      → read uc k (snapshot_of uc now l n b s).1 ≡ read uc k s
  unfolding snapshot_of
  read-snapshot_of now (err e) n b s = refl
  read-snapshot_of now (ok l) (err e) b s = refl
  read-snapshot_of now (ok l) (ok n) (err e) s = refl
  read-snapshot_of now (ok l) (ok n) (ok b) s =
      rw (state-then_pure (roll uc now l n s) (answer uc now l b)) (read-roll now l n s)

  read-count_up :
      (r : Result (BudgetSnapshot c) × S)
      → read uc k
          (and_then r (λ snap.
            (if is_allowed snap.reason then count_up uc snap else pure (snap.reason, snap)))).1
        ≡ read uc k r.1
  unfolding count_up
  read-count_up (err e, s) = refl
  read-count_up (ok snap, s) = elim (Bool-cases (is_allowed snap.reason)) [
    | inl p ↦
        let m = counted uc snap.counters in
        rw
          (
            p,
            state-then_pure {B = BudgetReason × BudgetSnapshot c} (persist_counters uc m s)
                (λ _. (allowed, record snap { counters = m })),
          )
          (read-persist_counters m s)
    | inr p ↦ rw p refl
  ]

  -- The budget writes its own counters only.
  pub read-check_and_increment :
      (now : Time) (s : S) → read uc k (check_and_increment uc now s).1 ≡ read uc k s
  unfolding check_and_increment snapshot
  read-check_and_increment now s =
      read-count_up
        (snapshot_of uc now (effective_limits uc s) (load_counters uc s) (load_block uc s) s)
      ∙ read-snapshot_of now _ _ _ s

module _ {S : Type 0} {c : Calendar} (uc : MaintenanceUseCase S c) where
  open uc use {budget, sub_cap_json}

  pub load_sub_cap-check_and_increment :
      (name : String) (now : Time) (s : S)
      → load_sub_cap uc (sub_cap_key name) (check_and_increment budget now s).1
        ≡ load_sub_cap uc (sub_cap_key name) s
  unfolding load_sub_cap
  load_sub_cap-check_and_increment name now s =
      ap (decoded sub_cap_json zero_sub_cap (λ n. n))
        (read-check_and_increment budget (sub_cap_key name) (task_counters-sub_cap_key name) now s)

  module _ (key : String) (n : MaintenanceSubCap) (now : Time) (s : S) where
    persist_sub_cap-marshal :
        is_ok (persist_sub_cap uc key n now s).0 ≡ true → is_ok (sub_cap_json.marshal n) ≡ true
    unfolding persist_sub_cap store
    persist_sub_cap-marshal h = ground arith

    -- Counters that were persisted are the counters loaded next; a write that fails changes none.
    pub load_sub_cap-persist_sub_cap :
        is_ok (persist_sub_cap uc key n now s).0 ≡ true
        → load_sub_cap uc key (persist_sub_cap uc key n now s).1 ≡ ok n
    unfolding load_sub_cap persist_sub_cap
    load_sub_cap-persist_sub_cap h =
        rw (read-store budget (sub_cap_json.marshal n) key now s key, h, str_eq_self key)
          (decoded-marshal sub_cap_json zero_sub_cap (λ m. m) n (persist_sub_cap-marshal h))

    pub load_sub_cap-persist_failed :
        is_ok (persist_sub_cap uc key n now s).0 ≡ false
        → load_sub_cap uc key (persist_sub_cap uc key n now s).1 ≡ load_sub_cap uc key s
    unfolding load_sub_cap persist_sub_cap
    load_sub_cap-persist_failed h =
        rw (read-store budget (sub_cap_json.marshal n) key now s key, h) refl
