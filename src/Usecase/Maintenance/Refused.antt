-- ===== src/Usecase/Maintenance/Refused.antt =====
-- What a refusal by the sub-cap costs (internal/usecase/maintenance_usecase.go).
use claude_ops.Prelude.{
  String, ◌≡◌, refl, ap, ◌∙◌, inl, inr, true, false, ◌&&◌, ◌||◌, ℤ, pos, eq_ℤ, ok, err, wrap,
  sub_cap_reached, arith, Bool-cases,
}
use claude_ops.Config.Settings.{MaintenanceTaskConfig}
use claude_ops.Domain.Task.{Time}
use claude_ops.Domain.Calendar.{Calendar}
use claude_ops.Repository.Tasks.{Tasks}
use claude_ops.Scheduler.BudgetGate.{allowed}
use claude_ops.Usecase.Budget.{BudgetSnapshot, check_and_increment}
use claude_ops.Usecase.Maintenance.{
  MaintenanceUseCase, MaintenanceSubCap, load_sub_cap, sub_cap_key, rolled_sub_cap, count_sub_cap,
  after_load, check_and_increment_sub_cap, is_full, enqueue_maintenance, after_budget,
  after_sub_cap,
}
use claude_ops.Usecase.Maintenance.Counters.{load_sub_cap-check_and_increment}

module _ {S : Type 0} {c : Calendar} (uc : MaintenanceUseCase S c) where
  open uc use {budget, limits}

  full-set : (d w n : ℤ) → is_full d n ≡ true → (eq_ℤ d (pos 0) && eq_ℤ w (pos 0)) ≡ false
  full-set d w n h = ground arith

  full-set_weekly : (d w n : ℤ) → is_full w n ≡ true → (eq_ℤ d (pos 0) && eq_ℤ w (pos 0)) ≡ false
  full-set_weekly d w n h = ground arith

  -- A firing that the budget of all tasks grants, and that the daily or weekly sub-cap of its name
  -- then refuses, fails and creates nothing, yet the counters of all tasks stay one task higher: they
  -- are those that the budget's grant left.
  pub enqueue_maintenance-sub_cap_reached :
      (mt : MaintenanceTaskConfig) (id title : String) (now : Time) (s s' : S) (ts : Tasks)
      (snap : BudgetSnapshot c) (n : MaintenanceSubCap)
      → check_and_increment budget now s ≡ (ok (allowed, snap), s')
      → load_sub_cap uc (sub_cap_key mt.name) s ≡ ok n
      → (is_full mt.budget_sub_cap.daily (rolled_sub_cap uc now n).daily_count
          || is_full mt.budget_sub_cap.weekly (rolled_sub_cap uc now n).weekly_count)
        ≡ true
      → (text : String) × (enqueue_maintenance uc mt id title now (s, ts)
          ≡ (err (wrap text sub_cap_reached), (s', ts)))
  unfolding enqueue_maintenance after_budget check_and_increment_sub_cap after_load count_sub_cap
      after_sub_cap
  enqueue_maintenance-sub_cap_reached mt id title now s s' ts snap n grant l full =
      let l' : load_sub_cap uc (sub_cap_key mt.name) s' ≡ ok n =
        rw (← ap (λ x. x.1) grant) (load_sub_cap-check_and_increment uc mt.name now s ∙ l) in
      let rolled = rolled_sub_cap uc now n in
      elim (Bool-cases (is_full mt.budget_sub_cap.daily rolled.daily_count)) [
        | inl p ↦
            let set : (eq_ℤ mt.budget_sub_cap.daily (pos 0)
                  && eq_ℤ mt.budget_sub_cap.weekly (pos 0))
                ≡ false =
              full-set mt.budget_sub_cap.daily mt.budget_sub_cap.weekly rolled.daily_count p in
            ("daily limit reached", rw (grant, set, l', after_load, p) refl)
        | inr p ↦
            let q : is_full mt.budget_sub_cap.weekly rolled.weekly_count ≡ true = rw p at full in
            let set : (eq_ℤ mt.budget_sub_cap.daily (pos 0)
                  && eq_ℤ mt.budget_sub_cap.weekly (pos 0))
                ≡ false =
              full-set_weekly mt.budget_sub_cap.daily mt.budget_sub_cap.weekly rolled.weekly_count
                q in
            ("weekly limit reached", rw (grant, set, l', after_load, p, q) refl)
      ]
