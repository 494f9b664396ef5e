-- ===== src/Domain/Window.antt =====
-- internal/domain/window.go, and scheduler.AllowNow of internal/scheduler/window_gate.go.
pub mod Bounds
use claude_ops.Prelude.{
  ℕ, ◌+◌, ◌*◌, String, Bool, true, false, ◌&&◌, ◌||◌, Option, none, some, List, [], ◌∷◌, ℤ, pos,
  negsuc, Result, ok, err, Error, message, wrap, ltb, leb, ◌==◌, any, if◌then◌else◌, str_eq, ◌>>=◌,
}
use claude_ops.Domain.Task.{Time}
use claude_ops.Domain.Calendar.{Calendar, weekday}

-- weekdayMap
unfoldable pub weekday_of : String → Option ℕ
weekday_of d =
    if str_eq d "sun"
    then some 0
    else if str_eq d "mon"
    then some 1
    else if str_eq d "tue"
    then some 2
    else if str_eq d "wed"
    then some 3
    else if str_eq d "thu"
    then some 4
    else if str_eq d "fri"
    then some 5
    else if str_eq d "sat"
    then some 6
    else none

module _ (c : Calendar) where
  open c use {Location}

  pub record ActiveWindow : Type 0 where
    pub days : List String
    pub start : String
    pub end : String
    pub tz : String
    pub weekdays : List ℕ
    pub start_h : ℕ
    pub start_m : ℕ
    pub end_h : ℕ
    pub end_m : ℕ
    pub loc : Location

  -- `hour < 0 || hour > 23`, then the minutes
  hhmm_in_range : ℤ × ℤ → Result (ℕ × ℕ)
  hhmm_in_range (negsuc h, m) = err (message "hour out of range [0,23]")
  hhmm_in_range (pos h, negsuc m) =
      if ltb 23 h
      then err (message "hour out of range [0,23]")
      else err (message "minute out of range [0,59]")
  hhmm_in_range (pos h, pos m) =
      if ltb 23 h
      then err (message "hour out of range [0,23]")
      else if ltb 59 m
      then err (message "minute out of range [0,59]")
      else ok (h, m)

  scanned : Option (ℤ × ℤ) → Result (ℕ × ℕ)
  scanned none = err (message "expected HH:MM format")
  scanned (some p) = hhmm_in_range p

  parse_hhmm : String → Result (ℕ × ℕ)
  parse_hhmm s = scanned (c.scan_hhmm s)

  -- the loop over w.Days; the map of weekdays is a list read by membership
  unfoldable pub parse_days : List String → Result (List ℕ)
  parse_days [] = ok []
  parse_days (d ∷ ds) = elim (weekday_of (c.to_lower d)) [
    | none ↦ err (message "invalid day abbreviation")
    | some wd ↦ parse_days ds >>= λ rest. ok (wd ∷ rest)
  ]

  or_invalid {ℓ} : {A : Type ℓ} → String → Option A → Result A
  or_invalid m none = err (message m)
  or_invalid m (some a) = ok a

  annotated {ℓ} : {A : Type ℓ} → String → Result A → Result A
  annotated m (ok a) = ok a
  annotated m (err e) = err (wrap m e)

  non_empty : List ℕ → Result (List ℕ)
  non_empty [] = err (message "at least one day must be specified")
  non_empty (d ∷ ds) = ok (d ∷ ds)

  -- ActiveWindow.Validate: the window with its parsed fields
  unfoldable pub validate : ActiveWindow → Result ActiveWindow
  unfolding parse_hhmm scanned hhmm_in_range or_invalid annotated non_empty
  validate w = do
    loc ← or_invalid "invalid timezone" (c.load_location w.tz)
    (start_h, start_m) ← annotated "invalid start time" (parse_hhmm w.start)
    (end_h, end_m) ← annotated "invalid end time" (parse_hhmm w.end)
    if leb (end_h * 60 + end_m) (start_h * 60 + start_m)
        then err (message "end time must be after start time")
        else do
          found ← parse_days w.days
          weekdays ← non_empty found
          ok (record w {
            weekdays = weekdays;
            start_h = start_h;
            start_m = start_m;
            end_h = end_h;
            end_m = end_m;
            loc = loc;
          })

  -- ActiveWindow.Contains
  unfoldable pub contains : ActiveWindow → Time → Bool
  contains w t =
      any (λ wd. wd == weekday (c.day w.loc t)) w.weekdays
      && (let total_min = c.hour w.loc t * 60 + c.minute w.loc t in
          leb (w.start_h * 60 + w.start_m) total_min && ltb total_min (w.end_h * 60 + w.end_m))

  -- scheduler.AllowNow
  unfoldable pub allow_now : Time → Bool → List ActiveWindow → Bool
  allow_now now full_mode windows = if full_mode then true else any (λ w. contains w now) windows
