-- ===== src/Usecase/Budget.antt =====
-- internal/usecase/budget_usecase.go: the task budget. The mutex makes each method one step; a
-- method takes the state of the store and returns it beside its result.
pub mod Store
pub mod Snapshot
pub mod Reserve
pub mod Caps
pub mod Blocks
use claude_ops.Prelude.{
  ℕ, ◌+◌, ◌-◌, ◌*◌, ◌/◌, ◌^◌, String, Bool, true, false, ◌&&◌, ◌||◌, Option, none, some, ℤ, pos,
  negsuc, leb, wrap64, inc64, is_positive, leb_ℤ, ltb_ℤ, eq_ℤ, Result, ok, err, Error, message,
  wrap, is_not_found, ◌==◌, if◌then◌else◌, str_eq,
}
use claude_ops.Prelude.Exec.{Exec, and_then, reads, pure, fail, ◌>>=◌, ◌>>◌}
use claude_ops.Domain.Task.{Time}
use claude_ops.Domain.Calendar.{Calendar}
use claude_ops.Scheduler.BudgetGate.{
  BudgetCounters, zero_counters, BudgetLimits, BudgetReason, RateLimitBlock, no_block, allowed,
  evaluate_budget, rollover_counters,
}
use claude_ops.Usecase.AppState.{AppState, AppStateRepository, JsonCodec, value_of}

-- Seconds from the zero time to 1970.
abbrev pub unix_epoch : ℕ
unix_epoch = 62135596800

-- A number of seconds since the zero time. The zero time stands for every time before it: no time of the
-- clock is before either.
abbrev since_zero : ℤ → Time
since_zero (pos seconds) = seconds * 10 ^ 9
since_zero (negsuc n) = 0

-- time.Unix(seconds, 0): the sum with the seconds up to 1970 is an int64, which wraps.
unfoldable pub from_unix : ℤ → Time
from_unix (pos n) = since_zero (wrap64 (n + unix_epoch))
from_unix (negsuc n) = (unix_epoch - (n + 1)) * 10 ^ 9

-- t.Unix()
unfoldable pub to_unix : Time → ℤ
to_unix t =
    let seconds = t / 10 ^ 9 in
    if leb unix_epoch seconds then pos (seconds - unix_epoch) else negsuc (unix_epoch - seconds - 1)

pub record RateLimitBlockJson : Type 0 where
  pub blocked_until_unix : ℤ
  pub rate_limit_type : String
  pub observed_at_unix : ℤ

pub record LimitsOverrideJson : Type 0 where
  pub daily_max : ℤ
  pub weekly_max : ℤ

abbrev pub task_counters_key : String
task_counters_key = "task_counters"

abbrev pub rate_limit_block_key : String
rate_limit_block_key = "rate_limit_block"

abbrev pub limits_override_key : String
limits_override_key = "limits_override"

-- BudgetUseCase without the fields of the cost warnings, which Usecase.Warnings has. `taskCountersJSON` has the fields of BudgetCounters.
pub record BudgetUseCase (S : Type 0) (c : Calendar) : Type 0 where
  pub repo : AppStateRepository S
  pub counters_json : JsonCodec BudgetCounters
  pub block_json : JsonCodec RateLimitBlockJson
  pub override_json : JsonCodec LimitsOverrideJson
  pub config_limits : BudgetLimits c

pub record BudgetSnapshot (c : Calendar) : Type 0 where
  pub counters : BudgetCounters
  pub limits : BudgetLimits c
  pub block : RateLimitBlock
  pub reason : BudgetReason

-- `rolled != counters`
unfoldable pub counters_eq : BudgetCounters → BudgetCounters → Bool
counters_eq a b =
    eq_ℤ a.daily_count b.daily_count
    && str_eq a.daily_key b.daily_key
    && eq_ℤ a.weekly_count b.weekly_count
    && str_eq a.weekly_key b.weekly_key

-- What a read of one key decodes to: a missing key or a text that does not decode is the default.
abbrev pub decoded {ℓ} :
    {A : Type 0} {B : Type ℓ} → JsonCodec A → B → (A → B) → Result String → Result B
decoded json default f (err e) = if is_not_found e then ok default else err e
decoded json default f (ok text) = elim (json.unmarshal text) [
  | none ↦ ok default
  | some a ↦ ok (f a)
]

abbrev pub is_allowed : BudgetReason → Bool
is_allowed allowed = true
is_allowed _ = false

module _ {S : Type 0} {c : Calendar} (uc : BudgetUseCase S c) where
  open uc use {repo, counters_json, block_json, override_json, config_limits}

  unfoldable pub read : String → S → Result String
  read key s = value_of (repo.get key s)

  abbrev pub with_override : LimitsOverrideJson → BudgetLimits c
  with_override ov = record config_limits {
    daily_max = if is_positive ov.daily_max then ov.daily_max else config_limits.daily_max;
    weekly_max = if is_positive ov.weekly_max then ov.weekly_max else config_limits.weekly_max;
  }

  -- effectiveLimitsLocked
  unfoldable pub effective_limits : S → Result (BudgetLimits c)
  effective_limits s =
      decoded override_json config_limits with_override (read limits_override_key s)

  -- loadCountersLocked
  unfoldable pub load_counters : S → Result BudgetCounters
  load_counters s = decoded counters_json zero_counters (λ n. n) (read task_counters_key s)

  abbrev pub block_of : RateLimitBlockJson → RateLimitBlock
  block_of b = if eq_ℤ b.blocked_until_unix (pos 0) then no_block else record {
    blocked_until = from_unix b.blocked_until_unix;
    rate_limit_type = b.rate_limit_type;
  }

  -- loadBlockLocked
  unfoldable pub load_block : S → Result RateLimitBlock
  load_block s = decoded block_json no_block block_of (read rate_limit_block_key s)

  -- json.Marshal, then appStateRepo.Set
  unfoldable pub store : Result String → String → Time → Exec S (Unit {0})
  store marshalled key at = do
    text ← reads (λ s. marshalled)
    repo.set (record { key = key; value_json = text; updated_at = at })

  -- persistCountersLocked
  unfoldable pub persist_counters : BudgetCounters → Exec S (Unit {0})
  persist_counters counters s =
      store (counters_json.marshal counters) task_counters_key (repo.time_now s) s

  -- the rollover in snapshotLocked: the counters are written where it changed them
  unfoldable pub roll : Time → BudgetLimits c → BudgetCounters → Exec S BudgetCounters
  roll now limits counters =
      let rolled = rollover_counters c now counters limits in
      if counters_eq rolled counters then pure counters else do persist_counters rolled; pure rolled

  abbrev pub answer : Time → BudgetLimits c → RateLimitBlock → BudgetCounters → BudgetSnapshot c
  answer now limits block counters = record {
    counters = counters;
    limits = limits;
    block = block;
    reason = evaluate_budget c now counters limits block;
  }

  -- the three reads of snapshotLocked, of which the first that fails ends it, and the rest
  unfoldable pub snapshot_of :
      Time
      → Result (BudgetLimits c)
      → Result BudgetCounters
      → Result RateLimitBlock
      → Exec S (BudgetSnapshot c)
  snapshot_of now (err e) loaded block = fail e
  snapshot_of now (ok limits) (err e) block = fail e
  snapshot_of now (ok limits) (ok n) (err e) = fail e
  snapshot_of now (ok limits) (ok n) (ok block) = do
    counters ← roll now limits n
    pure (answer now limits block counters)

  -- snapshotLocked, which Snapshot calls under the mutex
  unfoldable pub snapshot : Time → Exec S (BudgetSnapshot c)
  snapshot now s = snapshot_of now (effective_limits s) (load_counters s) (load_block s) s

  abbrev pub counted : BudgetCounters → BudgetCounters
  counted n = record n { daily_count = inc64 n.daily_count; weekly_count = inc64 n.weekly_count }

  -- the end of CheckAndIncrement, where the gate allows the task
  unfoldable pub count_up : BudgetSnapshot c → Exec S (BudgetReason × BudgetSnapshot c)
  count_up snap = do
    persist_counters (counted snap.counters)
    pure (allowed, record snap { counters = counted snap.counters })

  -- CheckAndIncrement
  unfoldable pub check_and_increment : Time → Exec S (BudgetReason × BudgetSnapshot c)
  check_and_increment now = do
    snap ← snapshot now
    if is_allowed snap.reason then count_up snap else pure (snap.reason, snap)

  -- RecordRateLimitBlock
  unfoldable pub record_rate_limit_block : ℤ → String → Time → Exec S (Unit {0})
  record_rate_limit_block resets_at_unix rate_limit_type observed_at =
      store
        (block_json.marshal (record {
          blocked_until_unix = resets_at_unix;
          rate_limit_type = rate_limit_type;
          observed_at_unix = to_unix observed_at;
        }))
        rate_limit_block_key observed_at

  -- the end of SetLimits, for limits that it accepts
  unfoldable pub persist_override : LimitsOverrideJson → Exec S (BudgetLimits c)
  persist_override ov s =
      and_then (store (override_json.marshal ov) limits_override_key (repo.time_now s) s)
        (λ _. reads effective_limits)

  -- SetLimits
  unfoldable pub set_limits : ℤ → ℤ → Exec S (BudgetLimits c)
  set_limits daily_max weekly_max s =
      if ltb_ℤ daily_max (pos 0) || ltb_ℤ weekly_max (pos 0)
      then (err (message "limits must be >= 0"), s)
      else if is_positive daily_max && is_positive weekly_max && ltb_ℤ weekly_max daily_max
      then (err (message "daily_max must be <= weekly_max"), s)
      else persist_override (record { daily_max = daily_max; weekly_max = weekly_max }) s
