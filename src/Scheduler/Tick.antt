-- ===== src/Scheduler/Tick.antt =====
-- internal/scheduler/scheduler.go: the tick, which fills the slots of workers. What the poller, the
-- budget and the database answer in one tick is given by an environment.
pub mod Slots
pub mod Filling
use claude_ops.Prelude.{
  zero, ℕ, suc, ◌+◌, ◌-◌, String, Bool, true, false, ◌||◌, Option, none, some, List, [], ◌∷◌,
  Result, ok, err, leb, if◌then◌else◌, Error, not_found, any, keep, not, str_eq,
}
use text.Mathlib.Text.{starts_with}
use claude_ops.Domain.Task.{Time, Task}
use claude_ops.Domain.Calendar.{Calendar}
use claude_ops.Domain.Window.{ActiveWindow, allow_now}
use claude_ops.Scheduler.BudgetGate.{BudgetReason, allowed}
use claude_ops.Repository.Tasks.{Tasks, claim_next}

-- `slots` is the fill of the channel `sem`, `workers` the tasks of the goroutines that hold one.
pub record State : Type 0 where
  pub tasks : Tasks
  pub slots : ℕ
  pub workers : List String

pub record Config : Type 0 where
  pub worker_id : String
  pub max_parallel : ℕ

-- New: the defaults
abbrev pub capacity : Config → ℕ
capacity cfg = if leb 1 cfg.max_parallel then cfg.max_parallel else 1

-- One call of ClaimNext: NOW(3), and whether the query fails.
pub record Claim : Type 0 where
  pub db_now : Time
  pub fails : Bool

spawned : Result (Option Task) × Tasks → State → Bool × State
spawned (err e, ts) s = (false, record s { tasks = ts })
spawned (ok none, ts) s = (false, record s { tasks = ts })
spawned (ok (some t), ts) s = (true, record s { tasks = ts; workers = t.id ∷ s.workers })

-- dispatchOne
unfoldable pub dispatch_one : Config → Claim → State → Bool × State
unfolding spawned
dispatch_one cfg call s =
    if call.fails then (false, s) else spawned (claim_next cfg.worker_id call.db_now s.tasks) s

-- A slot goes back where nothing was dispatched.
settled : Bool × State → Bool × State
settled (true, s) = (true, s)
settled (false, s) = (false, record s { slots = s.slots - 1 })

-- One round of the loop of tick: a slot is reserved first.
unfoldable pub fill_one : Config → Claim → State → Bool × State
unfolding settled
fill_one cfg call s =
    if leb (capacity cfg) s.slots
    then (false, s)
    else settled (dispatch_one cfg call (record s { slots = s.slots + 1 }))

-- The loop of tick, on fuel; the calls are counted down.
unfoldable pub fill : ℕ → Config → (ℕ → Claim) → State → State
fill zero cfg calls s = s
fill (suc n) cfg calls s =
    let (more, after) = fill_one cfg (calls n) s in
    let rest = fill n cfg calls after in if more then rest else after

-- containsTrue: whether "true" stands at some place of the text
unfoldable pub contains_true : String → Bool
contains_true String.[] = false
contains_true (String.◌∷◌ c s) = starts_with (String.◌∷◌ c s) "true" || contains_true s

-- isFullMode; `none` where no repository is wired
unfoldable pub is_full_mode : Option (Result String) → Bool
unfolding contains_true
is_full_mode none = false
is_full_mode (some (err e)) = false
is_full_mode (some (ok value_json)) = contains_true value_json

-- whether the budget's answer ends the tick; `none` where no gate is wired
unfoldable pub is_blocked : Option (Result BudgetReason) → Bool
is_blocked none = false
is_blocked (some (err e)) = false
is_blocked (some (ok BudgetReason.allowed)) = false
is_blocked (some (ok _)) = true

module _ (c : Calendar) where
  pub record Env : Type 0 where
    pub now : Time
    pub full_mode : Option (Result String)
    pub windows : List (ActiveWindow c)
    -- what the poller, if there is one, does to the table
    pub poll : Tasks → Tasks
    pub budget : Option (Result BudgetReason)
    pub claims : ℕ → Claim

  -- tick
  unfoldable pub tick : Config → Env → State → State
  tick cfg env s =
      if not (allow_now c env.now (is_full_mode env.full_mode) env.windows)
      then s
      else let polled = record s { tasks = env.poll s.tasks } in
        if is_blocked env.budget then polled else fill (capacity cfg + 1) cfg env.claims polled
