-- ===== src/Config/Bounds.antt =====
-- What holds of settings that internal/config/validate.go accepts.
use claude_ops.Prelude.{
  wrap64, ℕ, ◌+◌, ◌*◌, ◌≤◌, ◌≡◌, ◌↔◌, ◌⊎◌, inl, inr, refl, true, false, ◌&&◌, ℤ, pos, negsuc, ltb_ℤ,
  ◌≤ℤ◌, is_positive, max_int64, ok, arith, Bool-cases, to_ℕ,
}
use claude_ops.Config.Settings.{CiFixConfig, ConcurrencyConfig, LimitsConfig}
use claude_ops.Config.Checks.{validate_ci_fix, validate_concurrency, resolved_caps, seventh}
use claude_ops.Config.Validate.{TextRules, validate_limits}
use claude_ops.Domain.Calendar.{Calendar}

infix 50 ◌<ℤ◌
abbrev pub ◌<ℤ◌ : ℤ → ℤ → Type 0
a <ℤ b = ltb_ℤ a b ≡ true

abbrev pub IsConcurrency : ConcurrencyConfig → Type 0
IsConcurrency cfg =
    (pos 1 ≤ℤ cfg.max_parallel_tasks)
    × (cfg.max_parallel_tasks ≤ℤ pos 10)
    × (pos 0 <ℤ cfg.reclaim_interval)
    × (cfg.reclaim_interval <ℤ cfg.lease_timeout)

-- The settings of concurrency are accepted exactly if there are 1 to 10 slots and a reclaim comes
-- round, in a positive time, before a lease ends.
pub validate_concurrency-ok_iff :
    (cfg : ConcurrencyConfig) → (validate_concurrency cfg ≡ ok tt) ↔ IsConcurrency cfg
unfolding validate_concurrency
validate_concurrency-ok_iff cfg = (λ h. ground arith, λ h. ground arith)

abbrev pub IsCiFix : CiFixConfig → Type 0
IsCiFix cfg =
    (cfg.enabled ≡ false)
    ⊎ ((pos 1 ≤ℤ cfg.max_attempts)
        × (cfg.max_attempts ≤ℤ pos 5)
        × (pos 0 <ℤ cfg.poll_interval)
        × (cfg.poll_interval <ℤ cfg.poll_timeout))

-- The settings of auto-fixing are accepted exactly if it is disabled, or has 1 to 5 attempts and polls,
-- after a positive time, before its timeout.
pub validate_ci_fix-ok_iff : (cfg : CiFixConfig) → (validate_ci_fix cfg ≡ ok tt) ↔ IsCiFix cfg
unfolding validate_ci_fix
validate_ci_fix-ok_iff cfg = elim (Bool-cases cfg.enabled) [
  | inl e ↦ rw e (λ h. inr (ground arith), λ h. ground arith)
  | inr e ↦ rw e (λ h. inl refl, λ h. refl)
]

-- The first count is 0 or below the second, and so on: what a pair of caps promises.
abbrev pub AreCaps : ℤ × ℤ → Type 0
AreCaps (d, w) = (pos 0 ≤ℤ d) × (d ≤ℤ w) × ((d ≡ pos 0) ↔ (w ≡ pos 0))

caps-AreCaps :
    (cfg : LimitsConfig) (d w : ℕ)
    → cfg.daily_max_tasks ≡ pos d
    → cfg.weekly_max_tasks ≡ pos w
    → (d ≡ 0) ⊎ ((w ≡ 0) ⊎ (d ≤ w))
    → d * 7 ≤ max_int64
    → w + 6 ≤ max_int64
    → AreCaps (resolved_caps cfg)
unfolding resolved_caps wrap64 seventh
caps-AreCaps cfg d w e f order small_d small_w =
    rw (e, f) (ground arith, ground arith, (λ h. ground arith, λ h. ground arith))

-- What a limit check that succeeds found out.
limits_checked :
    (rules : TextRules) (c : Calendar) (cfg : LimitsConfig)
    → validate_limits rules c cfg ≡ ok tt
    → (ltb_ℤ cfg.daily_max_tasks (pos 0) ≡ false)
      × (ltb_ℤ cfg.weekly_max_tasks (pos 0) ≡ false)
      × ((is_positive cfg.daily_max_tasks
            && is_positive cfg.weekly_max_tasks
            && ltb_ℤ cfg.weekly_max_tasks cfg.daily_max_tasks)
          ≡ false)
unfolding validate_limits
limits_checked rules c cfg h = (ground arith, ground arith, ground arith)

not_negative : (z : ℤ) → ltb_ℤ z (pos 0) ≡ false → (n : ℕ) × (z ≡ pos n)
not_negative (pos n) h = (n, refl)
not_negative (negsuc n) h = absurd (differ h)
  where
    differ : ¬ (true ≡ false)
    differ x = cc

-- Of limits that are accepted, and small enough for an int, ResolvedLimits makes a daily cap that is
-- not negative and not above the weekly one, where one is 0, which is no cap, exactly if the other is.
pub resolved_caps-AreCaps :
    (rules : TextRules) (c : Calendar) (cfg : LimitsConfig)
    → validate_limits rules c cfg ≡ ok tt
    → to_ℕ cfg.daily_max_tasks * 7 ≤ max_int64
    → to_ℕ cfg.weekly_max_tasks + 6 ≤ max_int64
    → AreCaps (resolved_caps cfg)
resolved_caps-AreCaps rules c cfg h small_d small_w =
    let (d_ok, w_ok, order) = limits_checked rules c cfg h in
    let (d, e) = not_negative cfg.daily_max_tasks d_ok in
    let (w, f) = not_negative cfg.weekly_max_tasks w_ok in
    caps-AreCaps cfg d w e f (in_order cfg.daily_max_tasks cfg.weekly_max_tasks d w e f order)
      (rw e at small_d) (rw f at small_w)
  where
    in_order :
        (x y : ℤ) (d w : ℕ)
        → x ≡ pos d
        → y ≡ pos w
        → (is_positive x && is_positive y && ltb_ℤ y x) ≡ false
        → (d ≡ 0) ⊎ ((w ≡ 0) ⊎ (d ≤ w))
    in_order x y d w e f h = ground arith
