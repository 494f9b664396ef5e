-- ===== src/Usecase/Warnings/Bounded.antt =====
-- How many cost warnings are sent in one bucket (EvaluateCostWarn of
-- internal/usecase/budget_usecase.go).
use claude_ops.Prelude.{
  ℕ, ◌+◌, ◌≤◌, String, ◌≡◌, ◌⊎◌, subst, refl, ap, sym, ◌∙◌, inl, inr, true, none, Result, ok, err,
  is_ok, arith, Option-cases, Bool-cases,
}
use claude_ops.Domain.Task.{Time}
use claude_ops.Domain.Calendar.{Calendar}
use claude_ops.Domain.Usage.{UsageRepository}
use claude_ops.Scheduler.BudgetGate.{BudgetLimits}
use claude_ops.Usecase.Budget.{BudgetUseCase, effective_limits}
use claude_ops.Usecase.Warnings.{
  CostWarn, CostWarnState, due, send, load_cost_warn_state, persist_cost_warn_state,
  evaluate_loaded, evaluate_cost_warn,
}
use claude_ops.Usecase.Budget.Caps.{Bucket, daily, weekly, key_at}
use claude_ops.Usecase.Warnings.Flags.{sent_in, warned_in, load-persist, evaluate_loaded-warned}

module _ {S : Type 0} {c : Calendar} (warn : CostWarn) (uc : BudgetUseCase S c) where
  -- The states that evaluations at times of one bucket reach, each of which persisted its flags, with
  -- other changes of the store between them that keep the flags; and the warnings sent on the way.
  pub data Warned (b : Bucket) (key : String) : ℕ → S → Type 0 where
    start : (s : S) → Warned b key 0 s
    evaluated :
        (n : ℕ) (s : S) (now : Time) (limits : BudgetLimits c)
        → Warned b key n s
        → effective_limits uc s ≡ ok limits
        → key_at b limits now ≡ key
        → is_ok (evaluate_cost_warn warn uc now s).0.0 ≡ true
        → Warned b key
            (n + sent_in b (evaluate_cost_warn warn uc now s).1)
            (evaluate_cost_warn warn uc now s).0.1
    elsewhere :
        (n : ℕ) (s after : S)
        → Warned b key n s
        → load_cost_warn_state warn uc after ≡ load_cost_warn_state warn uc s
        → Warned b key n after

  warned_in-le : (b : Bucket) (key : String) (st : CostWarnState) → warned_in b key st ≤ 2
  warned_in-le daily key st = ground arith
  warned_in-le weekly key st = ground arith

  -- A number of warnings that the flags account for.
  abbrev Shown : Bucket → String → ℕ → S → Type 0
  Shown b key n s =
      (st : CostWarnState) × (load_cost_warn_state warn uc s ≡ ok st) × (n ≤ warned_in b key st)

  evaluate_loaded-Shown :
      (b : Bucket) (usage : UsageRepository) (now : Time) (limits : BudgetLimits c)
      (st : CostWarnState) (n : ℕ) (s : S)
      → n ≤ warned_in b (key_at b limits now) st
      → (let r = evaluate_loaded warn uc usage now (ok limits) (ok st) s in
          is_ok r.0.0 ≡ true → Shown b (key_at b limits now) (n + sent_in b r.1) r.0.1)
  evaluate_loaded-Shown b usage now limits st n s h k =
      let (st', s', e, w) = evaluate_loaded-warned warn uc b usage now limits st s in
      (
        st',
        ap (λ r. load_cost_warn_state warn uc r.1) e
            ∙ load-persist warn uc st' now s' (sym (ap (λ r. is_ok r.0) e) ∙ k),
        omega (arith, w),
      )

  -- Flags account for the warnings, or there were none.
  abbrev Counted : Bucket → String → ℕ → S → Type 0
  Counted b key n s = (n ≡ 0) ⊎ Shown b key n s

  unchanged :
      (b : Bucket) (key : String) (n : ℕ) (s : S)
      → Counted b key n s
      → Counted b key (n + sent_in b (none, none)) s
  unchanged daily key n s h =
      let e : n ≡ n + 0 = omega arith in subst (λ k. Counted daily key k s) e h
  unchanged weekly key n s h =
      let e : n ≡ n + 0 = omega arith in subst (λ k. Counted weekly key k s) e h

  shown_by :
      (b : Bucket) (key : String) (n : ℕ) (s : S) (st : CostWarnState)
      → load_cost_warn_state warn uc s ≡ ok st
      → Counted b key n s
      → n ≤ warned_in b key st
  shown_by b key n s st e (inl h) = omega (arith, h)
  shown_by b key n s st e (inr (x, e', h)) =
      subst (λ r. elim r [ ok y ↦ n ≤ warned_in b key y | err z ↦ Unit {0} ]) (sym e' ∙ e) h

  loaded-Counted :
      (b : Bucket) (usage : UsageRepository) (now : Time) (limits : BudgetLimits c) (n : ℕ) (s : S)
      (m : Result CostWarnState)
      → load_cost_warn_state warn uc s ≡ m
      → Counted b (key_at b limits now) n s
      → is_ok (evaluate_loaded warn uc usage now (ok limits) m s).0.0 ≡ true
      → Counted b
          (key_at b limits now)
          (n + sent_in b (evaluate_loaded warn uc usage now (ok limits) m s).1)
          (evaluate_loaded warn uc usage now (ok limits) m s).0.1
  unfolding evaluate_loaded
  loaded-Counted b usage now limits n s (ok st) e h k = inr (
      evaluate_loaded-Shown b usage now limits st n s (shown_by b (key_at b limits now) n s st e h)
        k)
  loaded-Counted b usage now limits n s (err x) e h k = cc

  evaluate_cost_warn-Counted :
      (b : Bucket) (now : Time) (limits : BudgetLimits c) (n : ℕ) (s : S)
      → effective_limits uc s ≡ ok limits
      → Counted b (key_at b limits now) n s
      → is_ok (evaluate_cost_warn warn uc now s).0.0 ≡ true
      → Counted b
          (key_at b limits now)
          (n + sent_in b (evaluate_cost_warn warn uc now s).1)
          (evaluate_cost_warn warn uc now s).0.1
  unfolding evaluate_cost_warn load_cost_warn_state evaluate_loaded due send persist_cost_warn_state
  evaluate_cost_warn-Counted b now limits n s e h =
      let key = key_at b limits now in
      elim (Option-cases warn.usage_repo) [
        | inl u ↦ rw u (λ k. unchanged b key n s h)
        | inr (usage, u) ↦ elim (Bool-cases warn.has_notifier) [
          | inl v ↦
              rw (u, v, e)
                (loaded-Counted b usage now limits n s (load_cost_warn_state warn uc s) refl h)
          | inr v ↦ rw (u, v) (λ k. unchanged b key n s h)
        ]
      ]

  Warned-Counted :
      (b : Bucket) (key : String) (n : ℕ) (s : S) → Warned b key n s → Counted b key n s
  Warned-Counted b key _ _ (start s) = inl refl
  Warned-Counted b key _ _ (evaluated n s now limits w e d k) =
      subst
        (λ x.
          Counted b x (n + sent_in b (evaluate_cost_warn warn uc now s).1)
            (evaluate_cost_warn warn uc now s).0.1)
        d
        (evaluate_cost_warn-Counted b now limits n s e
          (subst (λ x. Counted b x n s) (sym d) (Warned-Counted b key n s w)) k)
  Warned-Counted b key _ _ (elsewhere n s after w e) = elim (Warned-Counted b key n s w) [
    | inl h ↦ inl h
    | inr (st, l, h) ↦ inr (st, e ∙ l, h)
  ]

  -- Of evaluations at times of one day, or of one week, each of which persisted its flags, at most two
  -- send a warning of that scope, whatever the costs are and whatever else changes in the store.
  pub warnings-le : (b : Bucket) (key : String) (n : ℕ) (s : S) → Warned b key n s → n ≤ 2
  warnings-le b key n s w = elim (Warned-Counted b key n s w) [
    | inl h ↦ omega (arith, h)
    | inr (st, l, h) ↦ omega (arith, h, warned_in-le b key st)
  ]
