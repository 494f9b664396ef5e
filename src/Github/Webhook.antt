-- ===== src/Github/Webhook.antt =====
-- internal/github/webhook_handler.go: HandleWebhook, from the headers to the answer.
pub mod Retry
use claude_ops.Prelude.{
  ℕ, String, ◌≡◌, refl, Bool, true, false, not, ◌&&◌, ◌||◌, Option, none, some, List, [], ◌∷◌,
  Result, ok, err, find, is_some, str_eq, if◌then◌else◌,
}
use claude_ops.Domain.Task.{Time, Task}
use claude_ops.Repository.Tasks.{Tasks, exists_by_repo_and_issue}
use claude_ops.Usecase.Tasks.{RepoConfig, EnqueueRequest, Env, enqueue_from_issue}
use claude_ops.Github.Dedup.{Deliveries, check_and_add}
use claude_ops.Github.Poller.{has_all_labels}

-- The payload: issueWebhookPayload
pub record Payload : Type 0 where
  pub action : String
  pub issue_number : ℕ
  pub issue_title : String
  pub is_pull_request : Bool
  pub labels : List String
  pub repo_full_name : String

-- A request, its body read and, where it decodes, decoded; `none` is an error.
pub record Request : Type 0 where
  pub readable : Bool
  pub event : String
  pub delivery : String
  pub signature : String
  pub verified : Bool
  pub payload : Option Payload

pub data Reason : Type 0 where
  ping event_not_supported duplicate pr_event action not_in_allowlist label_mismatch : Reason
  queued_as : String → Reason

-- The status of the answer, and its reason
pub data Response : Type 0 where
  bad_request unauthorized internal_error : Response
  answered : Reason → Response

-- The cache of deliveries, and the table
pub record State : Type 0 where
  pub seen : Deliveries
  pub tasks : Tasks

abbrev pub find_repo_cfg : List RepoConfig → String → Option RepoConfig
find_repo_cfg repos name = find (λ r. str_eq r.name name) repos

after_enqueue : Result (Task × Tasks) → State → Response × State
after_enqueue (err e) s = (internal_error, s)
after_enqueue (ok (t, ts)) s = (answered (queued_as t.id), record s { tasks = ts })

-- from the check for a task of the issue on
unfoldable pub enqueue : Env → Bool → Payload → State → Response × State
unfolding after_enqueue
enqueue env exists_fails p s =
    if exists_fails
    then (internal_error, s)
    else if exists_by_repo_and_issue p.repo_full_name p.issue_number s.tasks
    then (answered duplicate, s)
    else after_enqueue
        (enqueue_from_issue env
          (record {
            repo_full_name = p.repo_full_name;
            issue_number = p.issue_number;
            issue_title = p.issue_title;
          })
          s.tasks)
        s

with_repo : Env → Bool → Payload → Option RepoConfig → State → Response × State
with_repo env exists_fails p none s = (answered not_in_allowlist, s)
with_repo env exists_fails p (some repo) s =
    if has_all_labels p.labels repo.labels
    then enqueue env exists_fails p s
    else (answered label_mismatch, s)

-- from the payload on
unfoldable pub handle_payload : Env → Bool → Option Payload → State → Response × State
unfolding with_repo
handle_payload env exists_fails none s = (bad_request, s)
handle_payload env exists_fails (some p) s =
    if p.is_pull_request
    then (answered pr_event, s)
    else if not (str_eq p.action "opened") && not (str_eq p.action "labeled")
    then (answered action, s)
    else with_repo env exists_fails p (find_repo_cfg env.repos p.repo_full_name) s

after_dedup : Env → Bool → Request → Bool × Deliveries → State → Response × State
after_dedup env exists_fails r (false, seen) s = (answered duplicate, record s { seen = seen })
after_dedup env exists_fails r (true, seen) s =
    handle_payload env exists_fails r.payload (record s { seen = seen })

-- HandleWebhook. `env` is what the call of EnqueueFromIssue meets, and `env.now` the clock;
-- `exists_fails` is the handler's own query.
unfoldable pub handle_webhook : ℕ → Env → Bool → Request → State → Response × State
unfolding after_dedup
handle_webhook ttl env exists_fails r s =
    if not r.readable || str_eq r.event "" || str_eq r.delivery ""
    then (bad_request, s)
    else if str_eq r.signature "" || not r.verified
    then (unauthorized, s)
    else if str_eq r.event "ping"
    then (answered ping, s)
    else if not (str_eq r.event "issues")
    then (answered event_not_supported, s)
    else after_dedup env exists_fails r (check_and_add ttl env.now r.delivery s.seen) s
