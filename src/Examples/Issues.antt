-- ===== src/Examples/Issues.antt =====
-- internal/github and internal/usecase/task_usecase.go: the theorems at concrete inputs.
use claude_ops.Prelude.{
  ◌⊎◌, ap, length, ◌≢◌, ℕ, ◌≡◌, refl, Bool, true, false, [], ◌∷◌, none, some, ok, arith,
}
use claude_ops.Repository.Tasks.{create, exists_by_repo_and_issue}
use claude_ops.Usecase.Tasks.{
  RepoConfig, EnqueueRequest, Env, issue_task, enqueue_from_issue, enqueue_new, is_full_mode,
}
use claude_ops.Usecase.Tasks.Accepted.{wanted}
use claude_ops.Api.Commands.{is_done, enqueue_task}
use claude_ops.Api.Commands.Created.{IsCreated, enqueue_task-IsCreated}
use claude_ops.Github.Verifier.{Crypto, IsSigned, receive, verify, receive-IsSigned}
use claude_ops.Github.Dedup.{
  check_and_add, check_and_add-duplicate, run, sweep, check, AllBefore, expires_at,
}
use claude_ops.Github.Poller.{Issue, poll, has_all_labels}
use claude_ops.Github.Poller.Repeats.{NoRepeats, poll-NoRepeats}
use claude_ops.Github.Webhook.{
  Request, State, answered, duplicate, handle_webhook, handle_payload, enqueue,
}
use claude_ops.Github.Webhook.Retry.{handle_webhook-retry_lost}

abbrev repo : RepoConfig
repo = record { name = "o/r"; labels = "claude" ∷ [] }

abbrev env_at : ℕ → Bool → Env
env_at now fails = record {
  repos = repo ∷ [];
  full_mode = none;
  enabled = λ text. none;
  window_open = some true;
  exists_fails = false;
  create_fails = fails;
  now = now;
  new_id = "n";
}

abbrev request : EnqueueRequest
request = record { repo_full_name = "o/r"; issue_number = 3; issue_title = "bug" }

enqueue_task-IsCreated_example :
    let (r, after) = enqueue_task (env_at 5 false) (some request) [] in
    (wanted (env_at 5 false) request [] ≡ true) × IsCreated request [] after r
    ⊎ (wanted (env_at 5 false) request [] ≡ false) × (is_done r ≡ false) × (after ≡ [])
enqueue_task-IsCreated_example = enqueue_task-IsCreated (env_at 5 false) request []

check_and_add-duplicate_example :
    (check_and_add 300 200 "d"
      (run 300 (sweep 150 ∷ check 160 "e" ∷ []) (check_and_add 300 10 "d" []).1)).0
    ≡ false
unfolding check_and_add expires_at AllBefore
check_and_add-duplicate_example =
    check_and_add-duplicate 300 10 "d" [] (sweep 150 ∷ check 160 "e" ∷ []) 200 refl
      (omega arith, (omega arith, tt)) (omega arith)

abbrev an_issue : Issue
an_issue = record {
  number = 3;
  title = "bug";
  is_pull_request = false;
  labels = "claude" ∷ [];
  exists_fails = false;
  create_fails = false;
  new_id = "n";
  now = 5;
}

nothing-NoRepeats : NoRepeats []
unfolding NoRepeats
nothing-NoRepeats r i = omega arith

poll-NoRepeats_example :
    NoRepeats (poll (λ name. true) (λ r. ok (an_issue ∷ an_issue ∷ [])) (repo ∷ []) [])
poll-NoRepeats_example =
    poll-NoRepeats (λ name. true) (λ r. ok (an_issue ∷ an_issue ∷ [])) (repo ∷ []) []
      nothing-NoRepeats

abbrev delivery : Request
delivery = record {
  readable = true;
  event = "issues";
  delivery = "d";
  signature = "sha256=00";
  verified = true;
  payload = some (record {
    action = "labeled";
    issue_number = 3;
    issue_title = "bug";
    is_pull_request = false;
    labels = "claude" ∷ [];
    repo_full_name = "o/r";
  });
}

abbrev at_start : State
at_start = record { seen = []; tasks = [] }

abbrev after_failure : State
after_failure = (handle_webhook 300 (env_at 10 true) false delivery at_start).1

handle_webhook-retry_lost_example :
    ((handle_webhook 300 (env_at 70 false) false delivery after_failure).0 ≡ answered duplicate)
    × ((handle_webhook 300 (env_at 70 false) false delivery after_failure).1.tasks
        ≡ after_failure.tasks)
unfolding handle_webhook handle_payload enqueue enqueue_from_issue enqueue_new is_full_mode
    exists_by_repo_and_issue has_all_labels check_and_add expires_at AllBefore run
handle_webhook-retry_lost_example =
    handle_webhook-retry_lost 300 (env_at 10 true) (env_at 70 false) false false delivery at_start
      [] refl tt (omega arith) after_failure refl

-- A digest is the text "digest", and so is the secret's digest of any body.
abbrev crypto : Crypto
crypto = record { decode_hex = λ hex. some "digest"; mac = λ secret body. "digest" }

signed_delivery :
    (receive crypto "s" "{}" 300 (env_at 10 false) false delivery at_start).1 ≢ at_start
unfolding receive verify handle_webhook handle_payload enqueue enqueue_from_issue enqueue_new
    is_full_mode exists_by_repo_and_issue has_all_labels check_and_add expires_at create issue_task
signed_delivery h =
    let e : ◌≡◌ {A = ℕ} 1 0 = ap (λ (s : State). length s.seen) h in absurd (omega arith)

receive-IsSigned_example : IsSigned crypto "s" "{}" delivery.signature
receive-IsSigned_example =
    receive-IsSigned crypto "s" "{}" 300 (env_at 10 false) false delivery at_start signed_delivery
