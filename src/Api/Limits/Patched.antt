-- ===== src/Api/Limits/Patched.antt =====
-- What an override of the limits leaves (internal/api/limits_handler.go with
-- internal/usecase/budget_usecase.go).
use claude_ops.Prelude.{
  ℤ, pos, ◌≡◌, refl, ap, ◌∙◌, Option, some, Result, ok, err, is_positive, if◌then◌else◌, or_default,
}
use claude_ops.Domain.Task.{Time}
use claude_ops.Domain.Calendar.{Calendar}
use claude_ops.Scheduler.BudgetGate.{BudgetLimits}
use claude_ops.Usecase.Budget.{
  BudgetUseCase, BudgetSnapshot, snapshot, set_limits, effective_limits, with_override,
}
use claude_ops.Usecase.Budget.Snapshot.{snapshot-Snapped}
use claude_ops.Usecase.Budget.Blocks.{Acceptable, set_limits-ok}
use claude_ops.Api.Limits.{
  LimitsResponse, LimitsPatchRequest, answered, patch_limits, get_limits, after_set, shown,
  snapshot_to_response,
}

module _ {S : Type 0} {c : Calendar} (uc : BudgetUseCase S c) where
  shown-answered :
      (later : Time) (q : Result (BudgetSnapshot c) × S) (r : LimitsResponse)
      → (shown uc later q).0 ≡ answered r
      → (snap : BudgetSnapshot c) × (q.0 ≡ ok snap)
        × (r ≡ snapshot_to_response uc later snap)
        × ((shown uc later q).1 ≡ q.1)
  unfolding shown
  shown-answered later (ok snap, s) r h = (snap, refl, cc, refl)
  shown-answered later (err e, s) r h = absurd (cc)

  set-answered :
      (now later : Time) (p : Result (BudgetLimits c) × S) (r : LimitsResponse)
      → (after_set uc now later p).0 ≡ answered r
      → (limits : BudgetLimits c) × (p.0 ≡ ok limits)
        × (effective_limits uc p.1 ≡ ok limits
            → (r.daily_max ≡ limits.daily_max)
              × (r.weekly_max ≡ limits.weekly_max)
              × (effective_limits uc (after_set uc now later p).1 ≡ ok limits))
  unfolding after_set get_limits
  set-answered now later (err e, s) r h = absurd (cc)
  set-answered now later (ok limits, s) r h =
      let (snap, e, f, g) = shown-answered later (snapshot uc now s) r h in
      (
        limits,
        refl,
        λ k.
            let seen = snapshot-Snapped uc now s snap e in
            let same : snap.limits ≡ limits = cc (seen.limits_read, k) in
            (
              ap (λ x. x.daily_max) f ∙ ap (λ l. l.daily_max) same,
              ap (λ x. x.weekly_max) f ∙ ap (λ l. l.weekly_max) same,
              ap (λ x. effective_limits uc x) g ∙ seen.limits_kept ∙ ap (λ l. ok l) same,
            ),
      )

  -- A limit that is given and positive, or else the configured one.
  abbrev pub in_effect : Option ℤ → ℤ → ℤ
  in_effect given configured =
      let d = or_default (pos 0) given in if is_positive d then d else configured

  -- PATCH that is answered by limits was given ones that SetLimits accepts; it shows, and leaves for later
  -- reads, each limit that was given and is positive, and the configured one for the other, whatever was
  -- overridden before.
  pub patch_limits-answered :
      (now later : Time) (req : LimitsPatchRequest) (s : S) (r : LimitsResponse)
      → (patch_limits uc now later (some req) s).0 ≡ answered r
      → (let d = or_default (pos 0) req.daily_max in
          let w = or_default (pos 0) req.weekly_max in
          Acceptable uc d w
          × (r.daily_max ≡ in_effect req.daily_max uc.config_limits.daily_max)
          × (r.weekly_max ≡ in_effect req.weekly_max uc.config_limits.weekly_max)
          × (effective_limits uc (patch_limits uc now later (some req) s).1
              ≡ ok (with_override uc (record { daily_max = d; weekly_max = w }))))
  unfolding patch_limits
  patch_limits-answered now later req s r h =
      let d : ℤ = or_default (pos 0) req.daily_max in
      let w : ℤ = or_default (pos 0) req.weekly_max in
      let (limits, e, rest) = set-answered now later (set_limits uc d w s) r h in
      let (accepted, same, kept) = set_limits-ok uc d w s limits e in
      let (x, y, z) = rest kept in
      (
        accepted,
        x ∙ ap (λ l. l.daily_max) same,
        y ∙ ap (λ l. l.weekly_max) same,
        z ∙ ap (λ l. ok l) same,
      )
