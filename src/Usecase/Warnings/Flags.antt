-- ===== src/Usecase/Warnings/Flags.antt =====
-- The flags of cost warnings: what an evaluation sends is what its flags show (EvaluateCostWarn of
-- internal/usecase/budget_usecase.go).
use claude_ops.Prelude.{
  ℕ, ◌+◌, String, ◌≡◌, refl, ap, ◌∙◌, inl, inr, Bool, true, false, Option, none, some, Result, ok,
  err, is_ok, arith, if◌then◌else◌, str_eq, str_eq_self, Option-cases,
}
use claude_ops.Domain.Task.{Time}
use claude_ops.Domain.Calendar.{Calendar}
use claude_ops.Domain.Usage.{UsageRepository}
use claude_ops.Scheduler.BudgetGate.{BudgetLimits, date_key, week_key}
use claude_ops.Usecase.Budget.{BudgetUseCase}
use claude_ops.Usecase.Budget.Store.{decoded-marshal}
use claude_ops.Usecase.Budget.Blocks.{read-store_self, store-marshal}
use claude_ops.Usecase.Warnings.{
  CostWarn, CostWarnState, CostWarning, due, rolled_warnings, send, with_daily, with_weekly,
  no_warnings, cost_warn_state_key, load_cost_warn_state, persist_cost_warn_state, evaluate_loaded,
}
use claude_ops.Usecase.Budget.Caps.{Bucket, daily, weekly, key_at}

abbrev sends : Option CostWarning → ℕ
sends none = 0
sends (some w) = 1

-- The warnings of one evaluation in a scope.
abbrev pub sent_in : Bucket → Option CostWarning × Option CostWarning → ℕ
sent_in daily sent = sends sent.0
sent_in weekly sent = sends sent.1

abbrev flags_set : Bool × Bool → ℕ
flags_set (a, b) = (if a then 1 else 0) + (if b then 1 else 0)

-- The warnings that the flags show for the bucket of that key.
abbrev pub warned_in : Bucket → String → CostWarnState → ℕ
warned_in daily key st =
    if str_eq st.daily_key key then flags_set (st.daily_warned80, st.daily_warned100) else 0
warned_in weekly key st =
    if str_eq st.weekly_key key then flags_set (st.weekly_warned80, st.weekly_warned100) else 0

rolled_daily :
    (day week : String) (st : CostWarnState)
    → warned_in daily day (rolled_warnings day week st) ≡ warned_in daily day st
unfolding rolled_warnings
rolled_daily day week st = ground (arith, str_eq_self day)

rolled_weekly :
    (day week : String) (st : CostWarnState)
    → warned_in weekly week (rolled_warnings day week st) ≡ warned_in weekly week st
unfolding rolled_warnings
rolled_weekly day week st = ground (arith, str_eq_self week)

due-flags_set :
    (warn : CostWarn) (scope : String) (max : ℕ) (cost : Result ℕ) (flags : Bool × Bool)
    (after : Bool × Bool) (w : CostWarning)
    → due warn scope max cost flags ≡ some (after, w)
    → flags_set after ≡ flags_set flags + 1
unfolding due
due-flags_set warn scope max (err e) flags after w h = cc
due-flags_set warn scope max (ok cost) (true, true) after w h = ground arith
due-flags_set warn scope max (ok cost) (true, false) after w h = ground arith
due-flags_set warn scope max (ok cost) (false, true) after w h = ground arith
due-flags_set warn scope max (ok cost) (false, false) after w h = ground arith

module _ {S : Type 0} {c : Calendar} (warn : CostWarn) (uc : BudgetUseCase S c) where
  open warn use {state_json}

  -- A warning that is sent raises its scope's count of flags by one, and no other changes.
  send_daily :
      (now : Time) (day : String) (max : ℕ) (cost : Result ℕ) (st : CostWarnState) (s : S)
      → str_eq st.daily_key day ≡ true
      → (let r =
            send warn uc now with_daily st
              (due warn "daily" max cost (st.daily_warned80, st.daily_warned100))
              s in
          (warned_in daily day r.0.0 ≡ warned_in daily day st + sent_in daily (r.0.1, none))
          × (r.0.0.daily_key ≡ st.daily_key))
  unfolding send
  send_daily now day max cost st s e =
      let flags : Bool × Bool = (st.daily_warned80, st.daily_warned100) in
      elim (Option-cases (due warn "daily" max cost flags)) [
        | inl h ↦ rw h (omega arith, refl)
        | inr (((a, b), w), h) ↦
            rw (h, e) (due-flags_set warn "daily" max cost flags (a, b) w h, refl)
      ]

  send_weekly :
      (now : Time) (week : String) (max : ℕ) (cost : Result ℕ) (st : CostWarnState) (s : S)
      → str_eq st.weekly_key week ≡ true
      → (let r =
            send warn uc now with_weekly st
              (due warn "weekly" max cost (st.weekly_warned80, st.weekly_warned100))
              s in
          warned_in weekly week r.0.0 ≡ warned_in weekly week st + sent_in weekly (none, r.0.1))
  unfolding send
  send_weekly now week max cost st s e =
      let flags : Bool × Bool = (st.weekly_warned80, st.weekly_warned100) in
      elim (Option-cases (due warn "weekly" max cost flags)) [
        | inl h ↦ rw h (omega arith)
        | inr (((a, b), w), h) ↦ rw (h, e) (due-flags_set warn "weekly" max cost flags (a, b) w h)
      ]

  send_daily-weekly :
      (now : Time) (week : String) (st : CostWarnState) (o : Option ((Bool × Bool) × CostWarning))
      (s : S)
      → (warned_in weekly week (send warn uc now with_daily st o s).0.0 ≡ warned_in weekly week st)
        × ((send warn uc now with_daily st o s).0.0.weekly_key ≡ st.weekly_key)
  unfolding send
  send_daily-weekly now week st none s = (refl, refl)
  send_daily-weekly now week st (some ((a, b), w)) s = (refl, refl)

  send_weekly-daily :
      (now : Time) (day : String) (st : CostWarnState) (o : Option ((Bool × Bool) × CostWarning))
      (s : S)
      → warned_in daily day (send warn uc now with_weekly st o s).0.0 ≡ warned_in daily day st
  unfolding send
  send_weekly-daily now day st none s = refl
  send_weekly-daily now day st (some ((a, b), w)) s = refl

  -- The flags that were persisted are the flags loaded next.
  pub load-persist :
      (st : CostWarnState) (now : Time) (s : S)
      → is_ok (persist_cost_warn_state warn uc st now s).0 ≡ true
      → load_cost_warn_state warn uc (persist_cost_warn_state warn uc st now s).1 ≡ ok st
  unfolding load_cost_warn_state persist_cost_warn_state
  load-persist st now s h =
      let m = state_json.marshal st in
      rw (read-store_self uc m cost_warn_state_key now s refl h) (
        decoded-marshal state_json no_warnings (λ x. x) st
          (store-marshal uc m cost_warn_state_key now s h))

  rolled_keys :
      (day week : String) (st : CostWarnState)
      → (str_eq (rolled_warnings day week st).daily_key day ≡ true)
        × (str_eq (rolled_warnings day week st).weekly_key week ≡ true)
  unfolding rolled_warnings
  rolled_keys day week st = (
    ground (arith, str_eq_self day, str_eq_self week),
    ground (arith, str_eq_self day, str_eq_self week),
  )

  -- An evaluation ends with a write of flags that show the warnings shown before and those it sent.
  pub evaluate_loaded-warned :
      (b : Bucket) (usage : UsageRepository) (now : Time) (limits : BudgetLimits c)
      (st : CostWarnState) (s : S)
      → (let r = evaluate_loaded warn uc usage now (ok limits) (ok st) s in
          (st' : CostWarnState) × (s' : S) × (r.0 ≡ persist_cost_warn_state warn uc st' now s')
          × (warned_in b (key_at b limits now) st'
              ≡ warned_in b (key_at b limits now) st + sent_in b r.1))
  unfolding evaluate_loaded
  evaluate_loaded-warned b usage now limits st s =
      let day : String = date_key c now limits.reset_tz in
      let week : String = week_key c now limits.reset_tz limits.week_starts_on in
      let st0 = rolled_warnings day week st in
      let keys = rolled_keys day week st in
      let daily_cost = usage.sum_daily_cost day in
      let weekly_cost = usage.sum_weekly_cost week in
      let o1 =
        due warn "daily" warn.daily_max_cost_usd daily_cost
          (st0.daily_warned80, st0.daily_warned100) in
      let r1 = send warn uc now with_daily st0 o1 s in
      let st1 = r1.0.0 in
      let kept = send_daily-weekly now week st0 o1 s in
      let o2 =
        due warn "weekly" warn.weekly_max_cost_usd weekly_cost
          (st1.weekly_warned80, st1.weekly_warned100) in
      let r2 = send warn uc now with_weekly st1 o2 r1.1 in
      (
        r2.0.0,
        r2.1,
        refl,
        elim b
            as (λ k.
              warned_in k (key_at k limits now) r2.0.0
              ≡ warned_in k (key_at k limits now) st + sent_in k (r1.0.1, r2.0.1)) [
                | daily ↦
                    let d = send_daily now day warn.daily_max_cost_usd daily_cost st0 s keys.0 in
                    send_weekly-daily now day st1 o2 r1.1
                    ∙ d.0
                    ∙ ap (λ n. n + sends r1.0.1) (rolled_daily day week st)
                | weekly ↦
                    send_weekly now week warn.weekly_max_cost_usd weekly_cost st1 r1.1
                      (ap (λ k. str_eq k week) kept.1 ∙ keys.1)
                    ∙ ap (λ n. n + sends r2.0.1) (kept.0 ∙ rolled_weekly day week st)
              ],
      )
