-- ===== src/Api/Commands.antt =====
-- The handlers that change a task or the mode: EnqueueTask and StopTask of internal/api/task_handler.go,
-- internal/api/mode_handler.go and health_handler.go. Requests come decoded.
pub mod Created
use claude_ops.Prelude.{ℕ, String, Bool, true, false, Option, none, some, Result, ok, err, Error}
use claude_ops.Domain.Task.{Time, Task}
use claude_ops.Repository.Tasks.{Tasks}
use claude_ops.Usecase.Tasks.{Env, EnqueueRequest, enqueue_from_issue, stop_task}
use claude_ops.Usecase.Mode.{ModeUseCase, FullModeState, get_full_mode, set_full_mode}
use claude_ops.Api.Tasks.{TaskResponse, to_task_response}
use claude_ops.Api.Errors.{map_error}

-- An answer with status 201, 202 or 200 and its body, or with the status of an error.
pub data Response {ℓ} (A : Type ℓ) : Type ℓ where
  done : A → Response A
  failed : ℕ → Response A

abbrev pub is_done {ℓ} : {A : Type ℓ} → Response A → Bool
is_done (done a) = true
is_done (failed n) = false

created : Result (Task × Tasks) → Tasks → Response TaskResponse × Tasks
created (ok (t, after)) ts = (done (to_task_response t), after)
created (err e) ts = (failed (map_error e), ts)

-- EnqueueTask; `none` is a body that does not bind
unfoldable pub enqueue_task : Env → Option EnqueueRequest → Tasks → Response TaskResponse × Tasks
unfolding created
enqueue_task env none ts = (failed 400, ts)
enqueue_task env (some req) ts = created (enqueue_from_issue env req ts) ts

stopped : Result (Unit {0}) × Tasks → Response (Unit {0}) × Tasks
stopped (ok u, ts) = (done tt, ts)
stopped (err e, ts) = (failed (map_error e), ts)

-- StopTask
unfoldable pub stop :
    (String → Result (Unit {0})) → Bool → Time → String → Tasks → Response (Unit {0}) × Tasks
unfolding stopped
stop cancel saved now id ts = stopped (stop_task cancel saved now id ts)

shown : Result FullModeState → Response FullModeState
shown (ok state) = done state
shown (err e) = failed (map_error e)

module _ {S : Type 0} (uc : ModeUseCase S) where
  -- GetFullMode
  unfoldable pub show_full_mode : S → Response FullModeState
  unfolding shown
  show_full_mode s = shown (get_full_mode uc s)

  -- SetFullMode; `none` is a body that does not bind
  unfoldable pub change_full_mode : Option Bool → S → Response FullModeState × S
  unfolding shown
  change_full_mode none s = (failed 400, s)
  change_full_mode (some enabled) s =
      let (r, after) = set_full_mode uc enabled s in (shown r, after)

-- Health: whether the mode is on
unfoldable pub health : {S : Type 0} → Option (ModeUseCase S) → S → Bool
health none s = false
health (some uc) s = elim (get_full_mode uc s) [ ok state ↦ state.enabled | err e ↦ false ]
