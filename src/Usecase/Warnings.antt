-- ===== src/Usecase/Warnings.antt =====
-- The cost warnings of internal/usecase/budget_usecase.go: EvaluateCostWarn.
pub mod Flags
pub mod Bounded
use claude_ops.Prelude.{
  ℕ, String, Bool, true, false, not, ◌&&◌, Option, none, some, Result, ok, err, wrap, ltb, leb,
  if◌then◌else◌, str_eq,
}
use claude_ops.Prelude.Exec.{Exec}
use claude_ops.Domain.Task.{Time}
use claude_ops.Domain.Calendar.{Calendar}
use claude_ops.Domain.Usage.{UsageRepository}
use claude_ops.Scheduler.BudgetGate.{BudgetLimits, date_key, week_key}
use claude_ops.Usecase.AppState.{JsonCodec}
use claude_ops.Usecase.Budget.{BudgetUseCase, read, decoded, store, effective_limits}

-- costWarnStateJSON
pub record CostWarnState : Type 0 where
  pub daily_key : String
  pub daily_warned80 : Bool
  pub daily_warned100 : Bool
  pub weekly_key : String
  pub weekly_warned80 : Bool
  pub weekly_warned100 : Bool

abbrev pub no_warnings : CostWarnState
no_warnings = record {
  daily_key = "";
  daily_warned80 = false;
  daily_warned100 = false;
  weekly_key = "";
  weekly_warned80 = false;
  weekly_warned100 = false;
}

abbrev pub cost_warn_state_key : String
cost_warn_state_key = "cost_warn_state"

-- A call of NotifyCostWarning, with the percent in tenths.
pub record CostWarning : Type 0 where
  pub scope : String
  pub percent : ℕ
  pub current : ℕ
  pub max : ℕ

-- The fields of BudgetUseCase that WithCostWarn sets. `tenths` is math.Round(cost/max*100*10), a
-- rounded quotient of floats, which is a parameter.
pub record CostWarn : Type 0 where
  pub usage_repo : Option UsageRepository
  pub has_notifier : Bool
  pub daily_max_cost_usd : ℕ
  pub weekly_max_cost_usd : ℕ
  pub state_json : JsonCodec CostWarnState
  pub tenths : ℕ → ℕ → ℕ

-- The flags that are reset when the bucket rolls over.
unfoldable pub rolled_warnings : String → String → CostWarnState → CostWarnState
rolled_warnings day week st =
    let st1 : CostWarnState =
      if str_eq st.daily_key day
      then st
      else record st { daily_key = day; daily_warned80 = false; daily_warned100 = false } in
    if str_eq st1.weekly_key week
    then st1
    else record st1 { weekly_key = week; weekly_warned80 = false; weekly_warned100 = false }

abbrev pub with_daily : CostWarnState → Bool × Bool → CostWarnState
with_daily st (w80, w100) = record st { daily_warned80 = w80; daily_warned100 = w100 }

abbrev pub with_weekly : CostWarnState → Bool × Bool → CostWarnState
with_weekly st (w80, w100) = record st { weekly_warned80 = w80; weekly_warned100 = w100 }

-- What EvaluateCostWarn returns, the store after it, and the warnings that it sends.
abbrev pub Evaluated : Type 0 → Type 0
Evaluated S = (Result (Unit {0}) × S) × (Option CostWarning × Option CostWarning)

module _ (warn : CostWarn) where
  open warn use {tenths, state_json}

  -- The warning that a cost makes due, with the flags after it: (80 %, 100 %).
  unfoldable pub due : String → ℕ → Result ℕ → Bool × Bool → Option ((Bool × Bool) × CostWarning)
  due scope max (err e) flags = none
  due scope max (ok cost) (w80, w100) =
      let percent = tenths cost max in
      let warning : CostWarning = record {
        scope = scope;
        percent = percent;
        current = cost;
        max = max;
      } in
      if not (ltb 0 max)
      then none
      else if leb 1000 percent && not w100
      then some ((w80, true), warning)
      else if leb 800 percent && not w80
      then some ((true, w100), warning)
      else none

  module _ {S : Type 0} {c : Calendar} (uc : BudgetUseCase S c) where
    -- loadCostWarnStateLocked
    unfoldable pub load_cost_warn_state : S → Result CostWarnState
    load_cost_warn_state s =
        decoded state_json no_warnings (λ st. st) (read uc cost_warn_state_key s)

    -- persistCostWarnStateLocked
    unfoldable pub persist_cost_warn_state : CostWarnState → Time → Exec S (Unit {0})
    persist_cost_warn_state st now = store uc (state_json.marshal st) cost_warn_state_key now

    -- A due warning: the flags are persisted before it is sent, and a failure of either is logged.
    unfoldable pub send :
        Time
        → (CostWarnState → Bool × Bool → CostWarnState)
        → CostWarnState
        → Option ((Bool × Bool) × CostWarning)
        → S
        → (CostWarnState × Option CostWarning) × S
    send now put st none s = ((st, none), s)
    send now put st (some (flags, warning)) s =
        ((put st flags, some warning), (persist_cost_warn_state (put st flags) now s).1)

    -- EvaluateCostWarn, once the limits and the flags are loaded
    unfoldable pub evaluate_loaded :
        UsageRepository → Time → Result (BudgetLimits c) → Result CostWarnState → S → Evaluated S
    evaluate_loaded usage now (err e) loaded s =
        ((err (wrap "evaluate cost warn: load limits" e), s), (none, none))
    evaluate_loaded usage now (ok limits) (err e) s =
        ((err (wrap "evaluate cost warn: load state" e), s), (none, none))
    evaluate_loaded usage now (ok limits) (ok st) s =
        let day = date_key c now limits.reset_tz in
        let week = week_key c now limits.reset_tz limits.week_starts_on in
        let st0 = rolled_warnings day week st in
        let r1 =
          send now with_daily st0
            (due "daily" warn.daily_max_cost_usd (usage.sum_daily_cost day)
              (st0.daily_warned80, st0.daily_warned100))
            s in
        let st1 = r1.0.0 in
        let r2 =
          send now with_weekly st1
            (due "weekly" warn.weekly_max_cost_usd (usage.sum_weekly_cost week)
              (st1.weekly_warned80, st1.weekly_warned100))
            r1.1 in
        (persist_cost_warn_state r2.0.0 now r2.1, (r1.0.1, r2.0.1))

    -- EvaluateCostWarn
    unfoldable pub evaluate_cost_warn : Time → S → Evaluated S
    evaluate_cost_warn now s = elim warn.usage_repo [
      | none ↦ ((ok tt, s), (none, none))
      | some usage ↦
          if warn.has_notifier
          then evaluate_loaded usage now (effective_limits uc s) (load_cost_warn_state s) s
          else ((ok tt, s), (none, none))
    ]
