-- ===== src/Domain/Window/Bounds.antt =====
-- What a validated window guarantees, and when it is open.
use claude_ops.Prelude.{
  ℕ, ◌+◌, ◌*◌, ◌≤◌, ◌<◌, ◌≡◌, ◌≢◌, Bool, true, false, List, [], ◌∷◌, ok, arith, any, ◌==◌, refl,
  ◌++◌, ◌||◌,
}
use claude_ops.Domain.Task.{Time}
use claude_ops.Domain.Calendar.{Calendar, weekday}
use claude_ops.Domain.Window.{parse_days, ActiveWindow, validate, contains, allow_now}

module _ (c : Calendar) where
  -- The parsed fields of a window that was accepted.
  record IsValid (w : ActiveWindow c) : Type 0 where
    pub start_h-le : w.start_h ≤ 23
    pub start_m-le : w.start_m ≤ 59
    pub end_h-le : w.end_h ≤ 23
    pub end_m-le : w.end_m ≤ 59
    pub ordered : w.start_h * 60 + w.start_m < w.end_h * 60 + w.end_m
    pub some_day : w.weekdays ≢ []

  -- A window that Validate accepts has hours and minutes in range, a start before its end and at
  -- least one weekday.
  validate-IsValid : (w v : ActiveWindow c) → validate c w ≡ ok v → IsValid v
  unfolding validate
  validate-IsValid w v h = ground arith

  -- The weekdays of an accepted window are those that its days name, all of them valid.
  pub validate-weekdays :
      (w v : ActiveWindow c) → validate c w ≡ ok v → parse_days c w.days ≡ ok v.weekdays
  unfolding validate
  validate-weekdays w v h = ground arith

  -- On an accepted window and one of its weekdays: closed before the start, open from the start
  -- on, and closed from the end on. On any other weekday it is closed.
  contains_of_validate :
      (w v : ActiveWindow c) (t : Time) (minutes : ℕ)
      → validate c w ≡ ok v
      → c.hour v.loc t * 60 + c.minute v.loc t ≡ minutes
      → (minutes ≡ v.start_h * 60 + v.start_m
          → contains c v t ≡ any (λ wd. wd == weekday (c.day v.loc t)) v.weekdays)
        × (minutes < v.start_h * 60 + v.start_m → contains c v t ≡ false)
        × (v.end_h * 60 + v.end_m ≤ minutes → contains c v t ≡ false)
        × (any (λ wd. wd == weekday (c.day v.loc t)) v.weekdays ≡ false → contains c v t ≡ false)
  unfolding contains
  contains_of_validate w v t minutes h e = ground (arith, validate-IsValid w v h)

  -- Without full mode a time is allowed exactly when one of the windows contains it, so a further
  -- window only adds times; with full mode every time is allowed.
  pub allow_now_append :
      (t : Time) (full : Bool) (ws vs : List (ActiveWindow c))
      → allow_now c t full (ws ++ vs) ≡ (allow_now c t full ws || allow_now c t full vs)
  unfolding allow_now
  allow_now_append t true ws vs = refl
  allow_now_append t false [] vs = refl
  allow_now_append t false (w ∷ ws) vs = ground (arith, allow_now_append t false ws vs)
