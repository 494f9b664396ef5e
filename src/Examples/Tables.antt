-- ===== src/Examples/Tables.antt =====
-- internal/repository/task_repository.go and internal/scheduler/scheduler.go: the theorems at
-- concrete inputs.
use claude_ops.Prelude.{
  ◌≡◌, refl, true, false, [], ◌∷◌, none, some, ok, arith, any, keep, count, ltb,
}
use claude_ops.Domain.Task.{Task, zero_task, is_queued}
use claude_ops.Repository.Tasks.{
  Tasks, stored, create, running_in, eligible, claim_next_task, claimed, claim_of, first_by,
  preferred,
}
use claude_ops.Repository.Tasks.Claims.{
  IsExclusive, claim_next_task-IsExclusive, claim_next_task-oldest,
}
use claude_ops.Repository.Tasks.Writes.{create-IsExclusive}
use claude_ops.Scheduler.Tick.{State, Config, Claim, fill_one, tick, Env, is_full_mode, is_blocked}
use claude_ops.Scheduler.Tick.Slots.{IsSound, here, then_, filled, Reach-IsSound}
use claude_ops.Scheduler.Tick.Filling.{IsFilled, tick-IsFilled}
use claude_ops.Domain.Window.{allow_now}
use claude_ops.Examples.Surroundings.{minutes}

abbrev first : Task
first =
    stored
      (record zero_task { id = "a"; repo_full_name = "o/r"; issue_number = 1; created_at = 10 })

abbrev second : Task
second =
    stored
      (record zero_task { id = "b"; repo_full_name = "o/r"; issue_number = 2; created_at = 20 })

abbrev queue : Tasks
queue = first ∷ second ∷ []

empty-IsExclusive : IsExclusive []
empty-IsExclusive = record { keys = λ id. omega arith; running_once = λ repo. omega arith }

queue-IsExclusive : IsExclusive queue
unfolding create
queue-IsExclusive =
    create-IsExclusive second (first ∷ []) queue refl refl
      (create-IsExclusive first [] (first ∷ []) refl refl empty-IsExclusive)

claim_next_task-IsExclusive_example : IsExclusive (claim_next_task (some "w") 30 queue).1
claim_next_task-IsExclusive_example =
    claim_next_task-IsExclusive (some "w") 30 queue queue-IsExclusive

claim_next_task-oldest_example :
    (is_queued first.status ≡ true)
    × (any (running_in first.repo_full_name) queue ≡ false)
    × (count (λ u. ltb u.created_at first.created_at) (keep (eligible queue) queue) ≡ 0)
unfolding claim_next_task claim_of first_by preferred
claim_next_task-oldest_example = claim_next_task-oldest (some "w") 30 queue first refl

abbrev at_work : Tasks
at_work = claimed (some "w") 30 first ∷ second ∷ []

abbrev two_slots : Config
two_slots = record { worker_id = "w"; max_parallel = 2 }

abbrev idle : State
idle = record { tasks = queue; slots = 0; workers = [] }

idle-IsSound : IsSound two_slots idle
idle-IsSound = record { held = refl; within = omega arith; exclusive = queue-IsExclusive }

abbrev at_30 : Claim
at_30 = record { db_now = 30; fails = false }

Reach-IsSound_example :
    IsSound two_slots (fill_one two_slots at_30 (fill_one two_slots at_30 idle).1).1
Reach-IsSound_example =
    Reach-IsSound two_slots idle (fill_one two_slots at_30 (fill_one two_slots at_30 idle).1).1
      idle-IsSound
      (then_ (fill_one two_slots at_30 idle).1 _
        (then_ idle (fill_one two_slots at_30 idle).1 here (filled idle at_30))
        (filled (fill_one two_slots at_30 idle).1 at_30))

abbrev full_mode_env : Env minutes
full_mode_env = record {
  now = 5;
  full_mode = some (ok "{\"enabled\":true}");
  windows = [];
  poll = λ ts. ts;
  budget = none;
  claims = λ i. at_30;
}

tick-IsFilled_example : IsFilled two_slots (tick minutes two_slots full_mode_env idle)
unfolding allow_now is_full_mode is_blocked
tick-IsFilled_example = tick-IsFilled two_slots refl full_mode_env idle refl refl (λ i. refl)
