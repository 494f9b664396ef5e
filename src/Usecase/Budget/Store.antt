-- ===== src/Usecase/Budget/Store.antt =====
-- What the budget's writes change in the store, and what its reads see afterwards.
use claude_ops.Prelude.{
  String, ◌≡◌, refl, inl, inr, true, false, Result, ok, err, is_ok, arith, str_eq, if◌then◌else◌,
  Bool-cases, Result-cases,
}
use claude_ops.Domain.Task.{Time}
use claude_ops.Domain.Calendar.{Calendar}
use claude_ops.Scheduler.BudgetGate.{BudgetCounters, zero_counters}
use claude_ops.Usecase.AppState.{AppState, JsonCodec}
use claude_ops.Usecase.Budget.{
  BudgetUseCase, read, store, persist_counters, load_counters, load_block, effective_limits,
  task_counters_key, rate_limit_block_key, limits_override_key, decoded,
}

-- What is marshalled decodes to what it was made from.
pub decoded-marshal :
    {A B : Type 0} (json : JsonCodec A) (default : B) (f : A → B) (a : A)
    → is_ok (json.marshal a) ≡ true
    → decoded json default f (json.marshal a) ≡ ok (f a)
decoded-marshal json default f a h = elim (Result-cases (json.marshal a)) [
  | inl (text, e) ↦ rw e (rw (json.unmarshal-marshal a text e, decoded))
  | inr (x, e) ↦ ground (arith)
]

module _ {S : Type 0} {c : Calendar} (uc : BudgetUseCase S c) where
  open uc use {repo, counters_json}

  -- A write that succeeds changes the value of its key alone; one that fails changes none.
  pub read-store :
      (m : Result String) (key : String) (at : Time) (s : S) (k : String)
      → read uc k (store uc m key at s).1 ≡ (
          if is_ok (store uc m key at s).0
          then if str_eq key k then m else read uc k s
          else read uc k s)
  unfolding store read
  read-store (err e) key at s k = refl
  read-store (ok text) key at s k =
      let a : AppState = record { key = key; value_json = text; updated_at = at } in
      elim (Bool-cases (is_ok (repo.set a s).0)) [
        | inl p ↦ ground (arith, repo.get-set a s k p)
        | inr p ↦ ground (arith, repo.get-set_failed a s k p)
      ]

  module _ (n : BudgetCounters) (s : S) where
    stored :
        (k : String)
        → read uc k (persist_counters uc n s).1 ≡ (
            if is_ok (persist_counters uc n s).0
            then if str_eq task_counters_key k then counters_json.marshal n else read uc k s
            else read uc k s)
    unfolding persist_counters
    stored k = read-store (counters_json.marshal n) task_counters_key (repo.time_now s) s k

    stored_elsewhere :
        (k : String)
        → str_eq task_counters_key k ≡ false
        → read uc k (persist_counters uc n s).1 ≡ read uc k s
    stored_elsewhere k h = ground (arith, stored k)

    persist_counters-marshal :
        is_ok (persist_counters uc n s).0 ≡ true → is_ok (counters_json.marshal n) ≡ true
    unfolding persist_counters store
    persist_counters-marshal h = ground arith

    -- Counters that were persisted are the counters loaded next.
    pub load_counters-persist_counters :
        is_ok (persist_counters uc n s).0 ≡ true
        → load_counters uc (persist_counters uc n s).1 ≡ ok n
    unfolding load_counters
    load_counters-persist_counters h =
        rw (stored task_counters_key, h)
          (decoded-marshal counters_json zero_counters (λ m. m) n (persist_counters-marshal h))

    pub load_counters-persist_counters_failed :
        is_ok (persist_counters uc n s).0 ≡ false
        → load_counters uc (persist_counters uc n s).1 ≡ load_counters uc s
    unfolding load_counters
    load_counters-persist_counters_failed h = ground (arith, stored task_counters_key)

    pub load_block-persist_counters : load_block uc (persist_counters uc n s).1 ≡ load_block uc s
    unfolding load_block
    load_block-persist_counters = rw (stored_elsewhere rate_limit_block_key refl)

    pub effective_limits-persist_counters :
        effective_limits uc (persist_counters uc n s).1 ≡ effective_limits uc s
    unfolding effective_limits
    effective_limits-persist_counters = rw (stored_elsewhere limits_override_key refl)
