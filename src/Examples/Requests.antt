-- ===== src/Examples/Requests.antt =====
-- The theorems on requests (internal/api, internal/slack and internal/github) at concrete inputs.
use Prim.Native.String.{len}
use claude_ops.Prelude.{
  ◌*◌, ◌<◌, ◌≡◌, refl, String, true, false, some, Option, List, [], ◌∷◌, ltb, count, arith, ℤ, pos,
}
use claude_ops.Domain.Task.{zero_task}
use claude_ops.Repository.Tasks.{Tasks, sort_by, insert_by}
use claude_ops.Repository.Listing.{IdOrder, list}
use claude_ops.Scheduler.Cancel.{Running, cancel_task}
use claude_ops.Slack.{
  Packages, handle_interactions, handle_form, handle_interaction, handle_actions, verify_signature,
  age, trim_task,
}
use claude_ops.Slack as Slack
use claude_ops.Slack.Trusted.{Asked, handle_interactions-Asked}
use claude_ops.Api.Tasks.{ListQuery, TaskResponse, filter_of, last_id, list_tasks, follow}
use claude_ops.Api.Tasks.Pages.{selected, follow-total, follow-lost, listed}

abbrev packages : Packages
packages = record {
  parse_int = λ s. some (pos 100);
  mac = λ secret base. secret;
  payload = λ body. some body;
  actions = λ raw. some (record { action_id = "stop_task"; value = "task:a" } ∷ []);
}

abbrev click : Slack.Request packages
click = record { timestamp = "100"; signature = "v0=s"; body = some "p" }

abbrev one_running : Running
one_running = record { cancel_map = "a" ∷ []; cancelled = [] }

handle_interactions-Asked_example :
    Asked packages (62135596800 * 1000000000) "s" click one_running "a"
unfolding handle_interactions handle_form handle_interaction handle_actions verify_signature age
    trim_task cancel_task
handle_interactions-Asked_example =
    handle_interactions-Asked packages (62135596800 * 1000000000) "s" click one_running "a" refl
      refl

not_below_itself : (a : String) → ltb (len a) (len a) ≡ false
not_below_itself a = ground arith

below_below :
    (a b c : String)
    → ltb (len a) (len b) ≡ true
    → ltb (len b) (len c) ≡ true
    → ltb (len a) (len c) ≡ true
below_below a b c h k = ground arith

abbrev ids_by_length : IdOrder
ids_by_length = record {
  lt = λ a b. ltb (len a) (len b);
  irreflexive = not_below_itself;
  transitive = below_below;
}

-- The oldest task has the longest id.
abbrev three_tasks : Tasks
three_tasks =
    record zero_task { id = "aaa"; created_at = 1 }
    ∷ record zero_task { id = "b"; created_at = 3 }
    ∷ record zero_task { id = "cc"; created_at = 2 }
    ∷ []

abbrev one_at_a_time : ListQuery
one_at_a_time = record { status = ""; source = ""; limit = "1"; cursor = "" }

abbrev one : String → Option ℤ
one s = some (pos 1)

four_requests : count (selected one ids_by_length one_at_a_time) three_tasks < 4
unfolding filter_of
four_requests = omega arith

follow-total_example :
    (pages : List (List TaskResponse)) × (follow one ids_by_length 4 one_at_a_time three_tasks
      ≡ some pages)
follow-total_example = follow-total one ids_by_length 4 one_at_a_time three_tasks four_requests

abbrev followed :
    (pages : List (List TaskResponse)) × (follow one ids_by_length 4 one_at_a_time three_tasks
      ≡ some pages)
followed = follow-total one ids_by_length 4 one_at_a_time three_tasks four_requests

-- The second newest task has a longer id than the newest.
follow-lost_example : listed one ids_by_length "cc" followed.0 ≡ false
unfolding list_tasks filter_of list sort_by insert_by last_id
follow-lost_example =
    follow-lost one ids_by_length 4 one_at_a_time "cc" three_tasks followed.0 refl refl followed.1
