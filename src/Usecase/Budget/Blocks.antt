-- ===== src/Usecase/Budget/Blocks.antt =====
-- The rate-limit block, and the limits that SetLimits persists.
use claude_ops.Prelude.{
  ℕ, ◌+◌, ◌*◌, ◌^◌, wrap64, ◌<◌, String, ◌≡◌, refl, ap, ◌∙◌, inl, inr, Bool, true, false, ℤ, pos,
  is_positive, ltb_ℤ, ◌||◌, ◌&&◌, Error, Result, ok, err, is_ok, arith, str_eq, Result-cases,
  Bool-cases,
}
use claude_ops.Prelude.Exec.{and_then, reads}
use claude_ops.Domain.Task.{Time}
use claude_ops.Domain.Calendar.{Calendar}
use claude_ops.Scheduler.BudgetGate.{RateLimitBlock, no_block, active, BudgetLimits, BudgetCounters}
use claude_ops.Usecase.Budget.{
  BudgetUseCase, read, store, load_block, load_counters, effective_limits, snapshot, snapshot_of,
  check_and_increment, record_rate_limit_block, set_limits, persist_override, from_unix, to_unix,
  unix_epoch, block_of, RateLimitBlockJson, with_override, rate_limit_block_key,
  limits_override_key, LimitsOverrideJson,
}
use claude_ops.Usecase.Budget.Store.{read-store, decoded-marshal}
use claude_ops.Usecase.Budget.Reserve.{Reserved, granted_one, granted, check_and_increment-Reserved}

module _ {S : Type 0} {c : Calendar} (uc : BudgetUseCase S c) where
  open uc use {block_json, override_json}

  -- A store that succeeds marshalled its value.
  pub store-marshal :
      (m : Result String) (key : String) (at : Time) (s : S)
      → is_ok (store uc m key at s).0 ≡ true
      → is_ok m ≡ true
  unfolding store
  store-marshal m key at s h = ground arith

  pub read-store_self :
      (m : Result String) (key : String) (at : Time) (s : S)
      → str_eq key key ≡ true
      → is_ok (store uc m key at s).0 ≡ true
      → read uc key (store uc m key at s).1 ≡ m
  read-store_self m key at s e h = ground (arith, read-store uc m key at s key)

  -- The block that was recorded is the block loaded next.
  load_block-record :
      (n : ℕ) (kind : String) (at : Time) (s : S)
      → 0 < n
      → is_ok (record_rate_limit_block uc (pos n) kind at s).0 ≡ true
      → load_block uc (record_rate_limit_block uc (pos n) kind at s).1
        ≡ ok (record { blocked_until = from_unix (pos n); rate_limit_type = kind })
  unfolding load_block record_rate_limit_block
  load_block-record n kind at s p h =
      let b : RateLimitBlockJson = record {
        blocked_until_unix = pos n;
        rate_limit_type = kind;
        observed_at_unix = to_unix at;
      } in
      let m = block_json.marshal b in
      rw (read-store_self m rate_limit_block_key at s refl h) (
        decoded-marshal block_json no_block (block_of uc) b
          (store-marshal m rate_limit_block_key at s h)
        ∙ ground arith)

  granted-reads :
      (now : Time) (s : S)
      → granted uc (check_and_increment uc now s).0 ≡ true
      → (limits : BudgetLimits c) × (n : BudgetCounters) × (effective_limits uc s ≡ ok limits)
        × (load_counters uc s ≡ ok n)
  unfolding check_and_increment snapshot snapshot_of
  granted-reads now s h = elim (Result-cases (effective_limits uc s)) [
    | inr (e, p) ↦ absurd (not_granted (rw p at h))
    | inl (limits, p) ↦ elim (Result-cases (load_counters uc s)) [
      | inr (e, q) ↦ absurd (not_granted (rw (p, q) at h))
      | inl (n, q) ↦ (limits, n, p, q)
    ]
  ]
    where
      not_granted : false ≡ true → ⊥
      not_granted e = cc

  same_block : (x y : Bool) → x ≡ y → x ≡ false → y ≡ true → true ≡ false
  same_block x y e p q = cc

  blocked-Reserved :
      (now : Time) (limits : BudgetLimits c) (n : BudgetCounters) (s : S) (block : RateLimitBlock)
      {g : Bool} {m : Result BudgetCounters}
      → load_block uc s ≡ ok block
      → active block now ≡ true
      → Reserved uc now limits n s g m
      → g ≡ false
  blocked-Reserved now limits n s block b a (granted_one old e calm _ _ _) =
      same_block (active old now) (active block now) (ap (λ x. active x now) same) calm a
    where
      same : old ≡ block
      same = cc (e, b)
  blocked-Reserved now limits n s block b a _ = refl

  -- time.Unix, where its sum does not wrap.
  from_unix_lem : (n : ℕ) → n + unix_epoch < 2 ^ 63 → from_unix (pos n) ≡ (n + unix_epoch) * 10 ^ 9
  unfolding from_unix wrap64
  from_unix_lem n h = ground arith

  -- Once a rate limit was recorded, no task is granted before its reset time, which is given by a positive
  -- number of seconds since 1970 that is in the range of time.Unix: with the seconds up to 1970 it is an
  -- int64.
  pub granted-record_rate_limit_block :
      (n : ℕ) (kind : String) (at now : Time) (s : S)
      → 0 < n
      → n + unix_epoch < 2 ^ 63
      → is_ok (record_rate_limit_block uc (pos n) kind at s).0 ≡ true
      → now < (n + unix_epoch) * 10 ^ 9
      → granted uc (check_and_increment uc now (record_rate_limit_block uc (pos n) kind at s).1).0
        ≡ false
  granted-record_rate_limit_block n kind at now s p in_range h early =
      let s' = (record_rate_limit_block uc (pos n) kind at s).1 in
      elim (Bool-cases (granted uc (check_and_increment uc now s').0)) [
        | inr no_grant ↦ no_grant
        | inl grant ↦
            let (limits, m, l, k) = granted-reads now s' grant in
            blocked-Reserved now limits m s' _ (load_block-record n kind at s p h)
              (ground (arith, from_unix_lem n in_range))
              (check_and_increment-Reserved uc now limits m s' l k)
      ]

  -- What SetLimits accepts.
  abbrev pub Acceptable : ℤ → ℤ → Type 0
  Acceptable d w =
      (ltb_ℤ d (pos 0) ≡ false)
      × (ltb_ℤ w (pos 0) ≡ false)
      × (is_positive d ≡ true → is_positive w ≡ true → ltb_ℤ w d ≡ false)

  stored-override :
      (ov : LimitsOverrideJson) (limits : BudgetLimits c) (r : Result (Unit {0}) × S)
      → (is_ok r.0 ≡ true → effective_limits uc r.1 ≡ ok (with_override uc ov))
      → (and_then r (λ _. reads (effective_limits uc))).0 ≡ ok limits
      → (limits ≡ with_override uc ov)
        × (effective_limits uc (and_then r (λ _. reads (effective_limits uc))).1 ≡ ok limits)
  stored-override ov limits (err e, s) f h = absurd (cc)
  stored-override ov limits (ok a, s) f h = (cc (f refl, h), h)

  persist_override-ok :
      (ov : LimitsOverrideJson) (s : S) (limits : BudgetLimits c)
      → (persist_override uc ov s).0 ≡ ok limits
      → (limits ≡ with_override uc ov)
        × (effective_limits uc (persist_override uc ov s).1 ≡ ok limits)
  unfolding persist_override effective_limits
  persist_override-ok ov s limits =
      let m = override_json.marshal ov in
      let at = uc.repo.time_now s in
      stored-override ov limits (store uc m limits_override_key at s) λ good.
        rw (read-store_self m limits_override_key at s refl good) (
          decoded-marshal override_json uc.config_limits (with_override uc) ov
            (store-marshal m limits_override_key at s good))

  acceptable :
      (d w : ℤ)
      → (ltb_ℤ d (pos 0) || ltb_ℤ w (pos 0)) ≡ false
      → (is_positive d && is_positive w && ltb_ℤ w d) ≡ false
      → Acceptable d w
  acceptable d w p q = ground arith

  -- SetLimits that succeeds was given limits that are not negative, the daily one no larger than
  -- the weekly one where both are set; what it returns, and what every later read finds, is each
  -- given limit that is set and the configured one in place of each that is 0.
  pub set_limits-ok :
      (d w : ℤ) (s : S) (limits : BudgetLimits c)
      → (set_limits uc d w s).0 ≡ ok limits
      → Acceptable d w
        × (limits ≡ with_override uc (record { daily_max = d; weekly_max = w }))
        × (effective_limits uc (set_limits uc d w s).1 ≡ ok limits)
  unfolding set_limits
  set_limits-ok d w s limits h = elim (Bool-cases (ltb_ℤ d (pos 0) || ltb_ℤ w (pos 0))) [
    | inl p ↦ absurd (not_ok _ limits (rw p at h))
    | inr p ↦ elim (Bool-cases (is_positive d && is_positive w && ltb_ℤ w d)) [
      | inl q ↦ absurd (not_ok _ limits (rw (p, q) at h))
      | inr q ↦
          let ov : LimitsOverrideJson = record { daily_max = d; weekly_max = w } in
          let (same, kept) = persist_override-ok ov s limits (rw (p, q) at h) in
          (acceptable d w p q, same, rw (p, q) kept)
    ]
  ]
    where
      not_ok : (e : Error) (l : BudgetLimits c) → err e ≡ ok l → ⊥
      not_ok e l x = cc

  -- A pair of limits that is not acceptable is refused, and nothing is written.
  set_limits-refused :
      (d w : ℤ) (s : S)
      → ¬ Acceptable d w
      → (is_ok (set_limits uc d w s).0 ≡ false) × ((set_limits uc d w s).1 ≡ s)
  unfolding set_limits
  set_limits-refused d w s bad = elim (Bool-cases (ltb_ℤ d (pos 0) || ltb_ℤ w (pos 0))) [
    | inl p ↦ rw p (refl, refl)
    | inr p ↦ elim (Bool-cases (is_positive d && is_positive w && ltb_ℤ w d)) [
      | inl q ↦ rw (p, q) (refl, refl)
      | inr q ↦ absurd (bad (acceptable d w p q))
    ]
  ]
