-- ===== src/Usecase/Maintenance/SubCap.antt =====
-- The sub-cap of a maintenance task (internal/usecase/maintenance_usecase.go) over a whole sequence of
-- firings, whatever fails.
use claude_ops.Prelude.{
  ℕ, ◌+◌, ◌≤◌, ◌<◌, String, ◌≡◌, refl, ◌∙◌, inl, inr, Bool, true, false, ◌&&◌, List, [], ◌∷◌, map,
  ℤ, pos, inc64_pos, max_int64, eq_ℤ, Result, ok, err, is_ok, arith, if◌then◌else◌, Bool-cases,
  str_eq, str_eq_self, eq_iff,
}
use claude_ops.Config.Settings.{MaintenanceTaskConfig, SubCapConfig}
use claude_ops.Domain.Task.{Time, Task}
use claude_ops.Domain.Calendar.{Calendar}
use claude_ops.Repository.Tasks.{Tasks, create}
use claude_ops.Scheduler.BudgetGate.{BudgetReason, date_key, week_key}
use claude_ops.Usecase.Budget.{BudgetSnapshot, check_and_increment, is_allowed}
use claude_ops.Usecase.Budget.Caps.{Bucket, daily, weekly, key_at, AllIn}
use claude_ops.Usecase.Maintenance.{
  MaintenanceUseCase, MaintenanceSubCap, load_sub_cap, persist_sub_cap, sub_cap_key, rolled_sub_cap,
  count_sub_cap, after_load, check_and_increment_sub_cap, incremented, is_full, enqueue_maintenance,
  after_budget, after_sub_cap, created, maintenance_task, Stores,
}
use claude_ops.Usecase.Maintenance.Counters.{
  load_sub_cap-check_and_increment, load_sub_cap-persist_sub_cap, load_sub_cap-persist_failed,
}

abbrev pub cap_in : Bucket → SubCapConfig → ℤ
cap_in daily cap = cap.daily
cap_in weekly cap = cap.weekly

-- The tasks that the counters of a sub-cap show for the bucket of that key.
abbrev pub used_in : Bucket → String → MaintenanceSubCap → ℤ
used_in daily key n = if str_eq n.daily_key key then n.daily_count else pos 0
used_in weekly key n = if str_eq n.weekly_key key then n.weekly_count else pos 0

module _ {S : Type 0} {c : Calendar} (uc : MaintenanceUseCase S c) where
  open uc use {budget, limits}

  -- EnqueueMaintenance at each of the times in turn, each under its id: how many tasks it created.
  pub enqueue_all :
      MaintenanceTaskConfig → String → List (String × Time) → Stores uc → ℕ × Stores uc
  enqueue_all mt title [] st = (0, st)
  enqueue_all mt title ((id, t) ∷ firings) st =
      let (r, st') = enqueue_maintenance uc mt id title t st in
      let (k, end) = enqueue_all mt title firings st' in (if is_ok r then k + 1 else k, end)

  -- A rollover to the bucket of `t` keeps what the counters show for it.
  rolled-used_in :
      (b : Bucket) (key : String) (t : Time) (n : MaintenanceSubCap)
      → key_at b limits t ≡ key
      → used_in b key (rolled_sub_cap uc t n) ≡ used_in b key n
  unfolding rolled_sub_cap
  rolled-used_in daily key t n e = rw (e, str_eq_self key) refl
  rolled-used_in weekly key t n e = rw (e, str_eq_self key) refl

  incremented-used_in :
      (b : Bucket) (key : String) (t : Time) (n : MaintenanceSubCap) (a : ℕ)
      → key_at b limits t ≡ key
      → used_in b key n ≡ pos a
      → a < max_int64
      → used_in b key (incremented (rolled_sub_cap uc t n)) ≡ pos (a + 1)
  unfolding rolled_sub_cap
  incremented-used_in daily key t n a e d h = rw (e, str_eq_self key, d) (inc64_pos a h)
  incremented-used_in weekly key t n a e d h = rw (e, str_eq_self key, d) (inc64_pos a h)

  -- Neither cap is used up: that of the bucket has room.
  room_in :
      (b : Bucket) (key : String) (cap : SubCapConfig) (t : Time) (n : MaintenanceSubCap)
      (a max : ℕ)
      → key_at b limits t ≡ key
      → used_in b key n ≡ pos a
      → cap_in b cap ≡ pos max
      → 0 < max
      → is_full cap.daily (rolled_sub_cap uc t n).daily_count ≡ false
      → is_full cap.weekly (rolled_sub_cap uc t n).weekly_count ≡ false
      → a < max
  unfolding rolled_sub_cap
  room_in daily key cap t n a max e d capped positive day week = ground (
    arith,
    eq_iff n.daily_key (date_key c t limits.reset_tz),
    eq_iff n.daily_key key,
    str_eq_self key,
  )
  room_in weekly key cap t n a max e d capped positive day week = ground (
    arith,
    eq_iff n.weekly_key (week_key c t limits.reset_tz limits.week_starts_on),
    eq_iff n.weekly_key key,
    str_eq_self key,
  )

  has_cap :
      (b : Bucket) (cap : SubCapConfig) (max : ℕ)
      → cap_in b cap ≡ pos max
      → 0 < max
      → (eq_ℤ cap.daily (pos 0) && eq_ℤ cap.weekly (pos 0)) ≡ false
  has_cap daily cap max capped positive = ground arith
  has_cap weekly cap max capped positive = ground arith

  module _ (b : Bucket) (mt : MaintenanceTaskConfig) (key : String) (max : ℕ)
      (capped : cap_in b mt.budget_sub_cap ≡ pos max) (positive : 0 < max)
      (small : max ≤ max_int64) where
    -- From counters that show `a` tasks: after a step that made a task or not, the counters can be
    -- read, count the task, and stay within the cap.
    abbrev Counted : ℕ → Bool → Result MaintenanceSubCap → Type 0
    Counted a made m =
        (n : MaintenanceSubCap) × (a' : ℕ) × (m ≡ ok n)
        × (used_in b key n ≡ pos a')
        × (a' ≤ max)
        × (a + (if made then 1 else 0) ≤ a')

    count_sub_cap-Counted :
        (t : Time) (n : MaintenanceSubCap) (s : S) (a : ℕ)
        → key_at b limits t ≡ key
        → load_sub_cap uc (sub_cap_key mt.name) s ≡ ok n
        → used_in b key n ≡ pos a
        → a ≤ max
        → let r =
            count_sub_cap uc mt.budget_sub_cap (sub_cap_key mt.name) t (rolled_sub_cap uc t n) s in
          Counted a (is_ok r.0) (load_sub_cap uc (sub_cap_key mt.name) r.1)
    unfolding count_sub_cap
    count_sub_cap-Counted t n s a e l d h =
        let rolled = rolled_sub_cap uc t n in
        let name = sub_cap_key mt.name in
        elim (Bool-cases (is_full mt.budget_sub_cap.daily rolled.daily_count)) [
          | inl p ↦ rw p (n, a, l, d, h, omega arith)
          | inr p ↦ elim (Bool-cases (is_full mt.budget_sub_cap.weekly rolled.weekly_count)) [
            | inl q ↦ rw (p, q) (n, a, l, d, h, omega arith)
            | inr q ↦
                let fits = room_in b key mt.budget_sub_cap t n a max e d capped positive p q in
                let r = persist_sub_cap uc name (incremented rolled) t s in
                rw (p, q)
                  elim (Bool-cases (is_ok r.0)) [
                    | inl w ↦ rw w (
                      incremented rolled,
                      a + 1,
                      load_sub_cap-persist_sub_cap uc name (incremented rolled) t s w,
                      incremented-used_in b key t n a e d (omega arith),
                      omega arith,
                      omega arith,
                    )
                    | inr w ↦ rw w (
                      n,
                      a,
                      load_sub_cap-persist_failed uc name (incremented rolled) t s w ∙ l,
                      d,
                      h,
                      omega arith,
                    )
                  ]
          ]
        ]

    sub_cap-Counted :
        (t : Time) (n : MaintenanceSubCap) (s : S) (a : ℕ)
        → key_at b limits t ≡ key
        → load_sub_cap uc (sub_cap_key mt.name) s ≡ ok n
        → used_in b key n ≡ pos a
        → a ≤ max
        → let r = check_and_increment_sub_cap uc mt t s in
          Counted a (is_ok r.0) (load_sub_cap uc (sub_cap_key mt.name) r.1)
    unfolding check_and_increment_sub_cap after_load
    sub_cap-Counted t n s a e l d h =
        rw (has_cap b mt.budget_sub_cap max capped positive, l, after_load)
          (count_sub_cap-Counted t n s a e l d h)

    weaker : (a : ℕ) {m : Result MaintenanceSubCap} → Counted a true m → Counted a false m
    weaker a (n, a', l, d, h, k) = (n, a', l, d, h, omega arith)

    created-Counted :
        (task : Task) (ts : Tasks) (a : ℕ) (r : Result (Unit {0}) × S)
        → Counted a (is_ok r.0) (load_sub_cap uc (sub_cap_key mt.name) r.1)
        → let end = after_sub_cap uc task ts r in
          Counted a (is_ok end.0) (load_sub_cap uc (sub_cap_key mt.name) end.1.0)
    unfolding after_sub_cap
    created-Counted task ts a (err e, s) h = h
    created-Counted task ts a (ok u, s) h = created_or_not (create task ts)
      where
        created_or_not :
            (r : Result Tasks)
            → Counted a
                (is_ok (created uc task s ts r).0)
                (load_sub_cap uc (sub_cap_key mt.name) (created uc task s ts r).1.0)
        created_or_not (ok ts') = h
        created_or_not (err e) = weaker a h

    budget-Counted :
        (task : Task) (t : Time) (ts : Tasks) (n : MaintenanceSubCap) (a : ℕ)
        (r : Result (BudgetReason × BudgetSnapshot c) × S)
        → key_at b limits t ≡ key
        → load_sub_cap uc (sub_cap_key mt.name) r.1 ≡ ok n
        → used_in b key n ≡ pos a
        → a ≤ max
        → let end = after_budget uc mt task t ts r in
          Counted a (is_ok end.0) (load_sub_cap uc (sub_cap_key mt.name) end.1.0)
    unfolding after_budget
    budget-Counted task t ts n a (err x, s) e l d h = (n, a, l, d, h, omega arith)
    budget-Counted task t ts n a (ok (reason, snap), s) e l d h =
        elim (Bool-cases (is_allowed reason)) [
          | inl p ↦ rw p (
              created-Counted task ts a (check_and_increment_sub_cap uc mt t s)
                (sub_cap-Counted t n s a e l d h))
          | inr p ↦ rw p (n, a, l, d, h, omega arith)
        ]

    -- The maintenance tasks of a name that are created in one day, or in one week, never exceed the
    -- sub-cap that is set for it: from counters that show `a` tasks in the bucket, firings that all
    -- fall in it create `max - a` more at most, whatever else refuses them and whichever calls fail.
    pub cap-enqueue_all :
        (title : String) (firings : List (String × Time)) (n : MaintenanceSubCap) (st : Stores uc)
        (a : ℕ)
        → load_sub_cap uc (sub_cap_key mt.name) st.0 ≡ ok n
        → used_in b key n ≡ pos a
        → a ≤ max
        → AllIn (key_at b limits) key (map (λ firing. firing.1) firings)
        → (enqueue_all mt title firings st).0 + a ≤ max
    unfolding enqueue_all enqueue_maintenance
    cap-enqueue_all title [] n st a l d h on = omega arith
    cap-enqueue_all title ((id, t) ∷ firings) n (s, ts) a l d h (e, on) =
        let l' = load_sub_cap-check_and_increment uc mt.name t s ∙ l in
        let r = check_and_increment budget t s in
        let (n', a', m, d', h', k) =
          budget-Counted (maintenance_task id title t mt) t ts n a r e l' d h in
        let st' = (enqueue_maintenance uc mt id title t (s, ts)).1 in
        let rest = cap-enqueue_all title firings n' st' a' m d' h' on in ground (arith, k, rest)
