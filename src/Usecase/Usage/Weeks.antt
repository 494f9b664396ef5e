-- ===== src/Usecase/Usage/Weeks.antt =====
-- The weekly report of internal/usecase/usage_usecase.go, whose keys come from WeekKey, on the rows of
-- the query, whose keys are ISO weeks in UTC.
use claude_ops.Prelude.{
  ℕ, zero, suc, ◌+◌, ◌-◌, ◌*◌, ◌/◌, ◌%◌, ◌≤◌, ◌<◌, String, ◌≡◌, refl, ap, ◌⊎◌, ◌≢◌, true, false,
  List, ◌∷◌, map, inl, inr, arith, ltb, ◌==◌, if◌then◌else◌, Bool-cases, eq_iff, mem_str,
  str_eq_self, none,
}
use claude_ops.Domain.Calendar.{Calendar}
use claude_ops.Domain.Usage.{UsageBucketRow, Dates}
use claude_ops.Scheduler.BudgetGate.{week_key, week_start}
use claude_ops.Usecase.Usage.{row_or_zero, fill_weeks}
use claude_ops.Usecase.Usage.Buckets.{run, IsInjective}

-- Where the loop over the days stands: `v` is the first week from here on that has no row yet, the
-- week of the day or the next.
abbrev Ahead : (ℕ → String) → ℕ → ℕ → ℕ → List String → Type 0
Ahead key v cur n seen =
    ((v ≡ cur / 7 + 1) × (mem_str (key (cur / 7)) seen ≡ true))
    ⊎ ((v ≡ cur / 7) × ((cur % 7 ≡ 0) ⊎ (0 < n)))

abbrev Fresh : (ℕ → String) → ℕ → List String → Type 0
Fresh key v seen = (w : ℕ) → v ≤ w → mem_str (key w) seen ≡ false

module _ (key : ℕ → String) (injective : IsInjective key) (rows : List UsageBucketRow) where
  Fresh-next : (v : ℕ) (seen : List String) → Fresh key v seen → Fresh key (v + 1) (key v ∷ seen)
  Fresh-next v seen fresh w h =
      ground (arith, fresh w (omega arith), eq_iff (key v) (key w), injective v w)

  Ahead-same :
      (v cur n : ℕ) (seen : List String)
      → v ≡ cur / 7 + 1
      → mem_str (key (cur / 7)) seen ≡ true
      → Ahead key v (cur + 1) n seen
  Ahead-same v cur n seen e m = elim (Bool-cases ((cur + 1) / 7 == cur / 7)) [
    | inl same ↦ let week : (cur + 1) / 7 ≡ cur / 7 = ground arith in inl (omega arith, rw week m)
    | inr later ↦
        let week : (cur + 1) / 7 ≢ cur / 7 = ground arith in inr (omega arith, inl (omega arith))
  ]

  -- The loop over days gives each week from `v` on one row.
  pub fill_weeks-run :
      (n cur last v : ℕ) (seen : List String)
      → cur + n ≡ last + 1
      → Fresh key v seen
      → Ahead key v cur n seen
      → fill_weeks (λ d. key (d / 7)) rows n cur last seen
        ≡ map (λ w. row_or_zero rows (key w)) (run (last / 7 + 1 - v) v)
  unfolding fill_weeks
  fill_weeks-run zero cur last v seen h fresh ahead =
      let no_more : last / 7 + 1 - v ≡ 0 = elim ahead [
        | inl (e, m) ↦ omega arith
        | inr (e, inl z) ↦ omega arith
        | inr (e, inr z) ↦ absurd (omega arith)
      ] in
      rw no_more refl
  fill_weeks-run (suc n) cur last v seen h fresh (inl (e, m)) =
      let more : ltb last cur ≡ false = ground arith in
      rw (more, m)
        (fill_weeks-run n (cur + 1) last v seen (omega arith) fresh (Ahead-same v cur n seen e m))
  fill_weeks-run (suc n) cur last v seen h fresh (inr (e, p)) =
      let more : ltb last cur ≡ false = ground arith in
      let new : mem_str (key (cur / 7)) seen ≡ false = fresh (cur / 7) (omega arith) in
      let left : last / 7 + 1 - v ≡ suc (last / 7 + 1 - (v + 1)) = omega arith in
      let met : mem_str (key (cur / 7)) (key (cur / 7) ∷ seen) ≡ true =
        rw (str_eq_self (key (cur / 7))) refl in
      let rest =
        fill_weeks-run n (cur + 1) last (cur / 7 + 1) (key (cur / 7) ∷ seen) (omega arith)
          (Fresh-next (cur / 7) seen (rw (← e) fresh))
          (Ahead-same (cur / 7 + 1) cur n (key (cur / 7) ∷ seen) refl met) in
      rw (more, new, left, e) (ap (λ xs. row_or_zero rows (key (cur / 7)) ∷ xs) rest)

pub fill_weeks-eq :
    (f g : ℕ → String) (rows : List UsageBucketRow) (n cur last : ℕ) (seen : List String)
    → ((d : ℕ) → cur ≤ d → f d ≡ g d)
    → fill_weeks f rows n cur last seen ≡ fill_weeks g rows n cur last seen
unfolding fill_weeks
fill_weeks-eq f g rows zero cur last seen h = refl
fill_weeks-eq f g rows (suc n) cur last seen h =
    let later = λ (d : ℕ) (k : cur + 1 ≤ d). h d (omega arith) in
    rw
      (
        h cur (omega arith),
        fill_weeks-eq f g rows n (cur + 1) last
            (if mem_str (g cur) seen then seen else g cur ∷ seen) later,
      )
      refl

module _ {c : Calendar} (dates : Dates c) where
  -- The key of a week, by the week's number.
  abbrev pub week_name : ℕ → String
  week_name w = c.format_week (c.iso_week (7 * w))

  pub week_name-IsInjective : IsInjective week_name
  week_name-IsInjective u v h =
      let e : 7 * u / 7 ≡ 7 * v / 7 =
        (c.iso_week_iff (7 * u) (7 * v)).0 (c.format_week-injective _ _ h) in
      omega arith

  pub iso_week-week_name : (d : ℕ) → c.format_week (c.iso_week d) ≡ week_name (d / 7)
  iso_week-week_name d = ap c.format_week ((c.iso_week_iff d (7 * (d / 7))).1 (omega arith))

  -- Where weeks start on Mondays, in UTC, WeekKey is the ISO week.
  pub week_key-monday : (d : ℕ) → 7 ≤ d → week_key c (dates.midnight d) none 1 ≡ week_name (d / 7)
  unfolding week_key
  week_key-monday d h =
      rw (dates.day-midnight d h, week_key)
        (ap c.format_week ((c.iso_week_iff (week_start d 1) (7 * (d / 7))).1 (omega arith)))

  -- Where they start on Sundays, it is the week before, but for Sundays.
  pub week_key-sunday :
      (d : ℕ) → 7 ≤ d → d % 7 < 6 → week_key c (dates.midnight d) none 0 ≡ week_name (d / 7 - 1)
  unfolding week_key
  week_key-sunday d h k =
      rw (dates.day-midnight d h, week_key)
        (ap c.format_week ((c.iso_week_iff (week_start d 0) (7 * (d / 7 - 1))).1 (omega arith)))
