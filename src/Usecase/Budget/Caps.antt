-- ===== src/Usecase/Budget/Caps.antt =====
-- The caps over a whole sequence of reservations, whatever fails and whatever is refused.
use claude_ops.Prelude.{
  ℕ, ◌+◌, ◌≤◌, ◌<◌, String, ◌≡◌, refl, ap, ◌∙◌, ◌⊎◌, inl, inr, Bool, true, false, List, [], ◌∷◌, ℤ,
  pos, inc64, inc64_pos, max_int64, Result, ok, arith, if◌then◌else◌, str_eq, eq_iff,
}
use claude_ops.Domain.Task.{Time}
use claude_ops.Domain.Calendar.{Calendar}
use claude_ops.Scheduler.BudgetGate.{
  BudgetCounters, BudgetLimits, date_key, week_key, rollover_counters,
}
use claude_ops.Scheduler.BudgetGate.Decision.{HasRoom}
use claude_ops.Usecase.Budget.{
  BudgetUseCase, load_counters, effective_limits, check_and_increment, counted,
}
use claude_ops.Usecase.Budget.Reserve.{
  Reserved, granted_one, refused_as_was, refused_rolled, granted, check_and_increment-Reserved,
  limits-check_and_increment,
}

-- The two buckets, each with its cap, its count and its key.
pub data Bucket : Type 0 where
  daily weekly : Bucket

abbrev pub count_in : Bucket → BudgetCounters → ℤ
count_in daily n = n.daily_count
count_in weekly n = n.weekly_count

abbrev pub key_in : Bucket → BudgetCounters → String
key_in daily n = n.daily_key
key_in weekly n = n.weekly_key

-- The tasks that the counters show for the bucket of that key.
abbrev pub tasks_in : Bucket → String → BudgetCounters → ℤ
tasks_in b key n = if str_eq (key_in b n) key then count_in b n else pos 0

tasks_in_current :
    (b : Bucket) (key : String) (n : BudgetCounters)
    → key_in b n ≡ key
    → tasks_in b key n ≡ count_in b n
tasks_in_current b key n h = rw ((eq_iff (key_in b n) key).1 h)

room_lt : (max : ℤ) (m a : ℕ) → max ≡ pos m → 0 < m → HasRoom max (pos a) → a < m
room_lt max m a e p h = ground (arith, h)

abbrev pub AllIn : (Time → String) → String → List Time → Type 0
AllIn f key [] = Unit
AllIn f key (t ∷ ts) = (f t ≡ key) × AllIn f key ts

module _ {c : Calendar} where
  abbrev pub max_of : Bucket → BudgetLimits c → ℤ
  max_of daily limits = limits.daily_max
  max_of weekly limits = limits.weekly_max

  -- The key of the bucket that a time falls in.
  abbrev pub key_at : Bucket → BudgetLimits c → Time → String
  key_at daily limits t = date_key c t limits.reset_tz
  key_at weekly limits t = week_key c t limits.reset_tz limits.week_starts_on

  rolled-tasks_in :
      (b : Bucket) (key : String) (t : Time) (n : BudgetCounters) (limits : BudgetLimits c)
      → key_at b limits t ≡ key
      → (key_in b (rollover_counters c t n limits) ≡ key)
        × (count_in b (rollover_counters c t n limits) ≡ tasks_in b key n)
  unfolding rollover_counters
  rolled-tasks_in daily key t n limits e =
      ground (arith, eq_iff n.daily_key (date_key c t limits.reset_tz), eq_iff n.daily_key key)
  rolled-tasks_in weekly key t n limits e = ground (
    arith,
    eq_iff n.weekly_key (week_key c t limits.reset_tz limits.week_starts_on),
    eq_iff n.weekly_key key,
  )

module _ {S : Type 0} {c : Calendar} (uc : BudgetUseCase S c) where
  -- CheckAndIncrement at each of the times in turn: how many tasks were granted.
  pub reserve_all : List Time → S → ℕ × S
  reserve_all [] s = (0, s)
  reserve_all (t ∷ ts) s =
      let (r, s') = check_and_increment uc t s in
      let (k, end) = reserve_all ts s' in (if granted uc r then k + 1 else k, end)

  counted-tasks_in :
      (b : Bucket) (key : String) (n : BudgetCounters) (a : ℕ)
      → key_in b n ≡ key
      → count_in b n ≡ pos a
      → a < max_int64
      → tasks_in b key (counted uc n) ≡ pos (a + 1)
  counted-tasks_in daily key n a k e h =
      tasks_in_current daily key (counted uc n) k ∙ ap inc64 e ∙ inc64_pos a h
  counted-tasks_in weekly key n a k e h =
      tasks_in_current weekly key (counted uc n) k ∙ ap inc64 e ∙ inc64_pos a h

  room_in :
      (b : Bucket) (limits : BudgetLimits c) (n : BudgetCounters)
      → HasRoom limits.daily_max n.daily_count
      → HasRoom limits.weekly_max n.weekly_count
      → HasRoom (max_of b limits) (count_in b n)
  room_in daily limits n day week = day
  room_in weekly limits n day week = week

  module _ (b : Bucket) (limits : BudgetLimits c) (key : String) (max : ℕ)
      (capped : max_of b limits ≡ pos max) (positive : 0 < max) (small : max ≤ max_int64) where
    -- After one reservation in the bucket the counters show one task more exactly if it was
    -- granted, and then there had been room.
    reserve_step :
        (t : Time) (n : BudgetCounters) (s : S) (a : ℕ) {g : Bool} {m : Result BudgetCounters}
        → key_at b limits t ≡ key
        → tasks_in b key n ≡ pos a
        → Reserved uc t limits n s g m
        → (n' : BudgetCounters) × (m ≡ ok n')
          × (((g ≡ true) × (tasks_in b key n' ≡ pos (a + 1)) × (a < max))
              ⊎ ((g ≡ false) × (tasks_in b key n' ≡ pos a)))
    reserve_step t n s a e d (granted_one block _ _ day week m) =
        let rolled = rollover_counters c t n limits in
        let (k, x) = rolled-tasks_in b key t n limits e in
        let fits : a < max =
          room_lt (max_of b limits) max a capped positive
            (rw (← (x ∙ d)) (room_in b limits rolled day week)) in
        let below : a < max_int64 = omega arith in
        (counted uc rolled, m, inl (refl, counted-tasks_in b key rolled a k (x ∙ d) below, fits))
    reserve_step t n s a e d (refused_as_was m) = (n, m, inr (refl, d))
    reserve_step t n s a e d (refused_rolled m) =
        let rolled = rollover_counters c t n limits in
        let (k, x) = rolled-tasks_in b key t n limits e in
        (rolled, m, inr (refl, tasks_in_current b key rolled k ∙ x ∙ d))

    -- The tasks granted in one day, or in one week, never exceed its cap: from counters that show
    -- `a` tasks in the bucket, reservations that all fall in it are granted `max - a` more at most,
    -- whatever else refuses them and whichever writes fail.
    pub cap-reserve_all :
        (ts : List Time) (n : BudgetCounters) (s : S) (a : ℕ)
        → effective_limits uc s ≡ ok limits
        → load_counters uc s ≡ ok n
        → tasks_in b key n ≡ pos a
        → a ≤ max
        → AllIn (key_at b limits) key ts
        → (reserve_all ts s).0 + a ≤ max
    unfolding reserve_all
    cap-reserve_all [] n s a l k d h on = omega arith
    cap-reserve_all (t ∷ ts) n s a l k d h (e, on) =
        let s' = (check_and_increment uc t s).1 in
        let l' : effective_limits uc s' ≡ ok limits = limits-check_and_increment uc t s ∙ l in
        let (n', k', step) =
          reserve_step t n s a e d (check_and_increment-Reserved uc t limits n s l k) in
        elim step [
          | inl (g, d', fits) ↦
              rw g (omega (arith, cap-reserve_all ts n' s' (a + 1) l' k' d' (omega arith) on))
          | inr (g, d') ↦ rw g (cap-reserve_all ts n' s' a l' k' d' h on)
        ]
