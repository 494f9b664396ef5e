-- ===== src/Examples/Control.antt =====
-- The theorems on the mode, the quality gate, the reclaimer and the sweep of worktrees at concrete inputs.
use Prim.Native.String
use Prim.Native.String.append
use Prim.Native.Char.{code}
use claude_ops.Prelude.{
  ℕ, zero, suc, ◌+◌, ◌-◌, ◌≡◌, refl, subst, String, Bool, true, false, none, some, Option, List, [],
  ◌∷◌, any, find, arith, pos, ok, err, message, Result, not, str_eq, if◌then◌else◌, ◌==◌, ltb,
}
use claude_ops.Domain.Task.{Time, Task, zero_task, running, failed, is_running}
use claude_ops.Repository.Tasks.{
  Tasks, has_id, update, update_where, list_by_status, sort_by, insert_by,
}
use claude_ops.Scheduler.Reclaimer.{Round, start}
use claude_ops.Scheduler.Reclaimer.Leases.{ends_lease, start-row}
use claude_ops.Gc.{Env, World, sweep_worktrees, remove_worktree, sweep_tasks, sweep_status}
use claude_ops.Gc.Swept.{due, sweep_worktrees-due}
use claude_ops.Scheduler.Tick
use claude_ops.Scheduler.Tick.{contains_true}
use claude_ops.Usecase.Tasks
use claude_ops.Usecase.AppState.{JsonCodec, value_of}
use claude_ops.Usecase.Mode.{
  FullModeState, ModeUseCase, set_full_mode, get_full_mode, full_mode_key, store_full_mode,
}
use claude_ops.Usecase.Mode.Seen.{WritesMode, enabled_of, contains_true-append, set_full_mode-seen}
use claude_ops.Examples.Surroundings.{Memory, memory, no_values, tally}
use claude_ops.Quality.{Runner, run}
use claude_ops.Quality.Gate.{Reports, commands, run-Reports}
use claude_ops.Claude.Canceller.{Kernel, Sent, delivered, default_grace, cancel}
use claude_ops.Claude.Canceller.Escalation.{Outcome, cancel-Outcome}

abbrev claimed_at_10 : Tasks
claimed_at_10 = record zero_task { id = "a"; status = running; claimed_at = some 10 } ∷ []

abbrev two_rounds : List Round
two_rounds =
    record { clock = 60; db_now = 60; fails = false }
    ∷ record { clock = 80; db_now = 80; fails = false }
    ∷ []

start-row_example :
    (u : Task) × (find (has_id "a") (start true (pos 20) (pos 60) two_rounds claimed_at_10)
      ≡ some u)
    × (is_running u.status ≡ not (any (ends_lease 60 10) two_rounds))
start-row_example =
    start-row 20 60 10 "a" two_rounds claimed_at_10
      (record zero_task { id = "a"; status = running; claimed_at = some 10 }) (omega arith)
      (omega arith) refl refl refl

abbrev old_failure : World
old_failure = record {
  tasks =
      record zero_task { id = "a"; status = failed; finished_at = some 5; worktree_path = "/w/a" }
      ∷ [];
  removed = [];
}

abbrev after_a_week : Env
after_a_week = record {
  now = 13;
  days_before = λ n t. t - n;
  retention_days = pos 7;
  exists = λ path. true;
  git_status = λ path. none;
  git_removes = λ path. false;
  rm_removes = λ path. true;
  get_running_fails = false;
  list_fails = λ status. false;
  update_fails = λ id. false;
}

sweep_worktrees-due_example :
    any (due (after_a_week.days_before 7 after_a_week.now) "/w/a") old_failure.tasks ≡ true
unfolding sweep_worktrees sweep_status sweep_tasks remove_worktree list_by_status sort_by insert_by
    update update_where
sweep_worktrees-due_example = sweep_worktrees-due after_a_week 7 "/w/a" old_failure refl refl refl

-- The second command fails.
abbrev machine : Runner ℕ
machine = record {
  trim = λ s. s;
  exec = λ timeout cmd w. (
    record {
      exit_code = if str_eq cmd "go test" then pos 1 else pos 0;
      failed = false;
      output = "ok\nFAIL\n";
    },
    w + 1,
  );
}

abbrev checks : List String
checks = "go vet" ∷ "" ∷ "go test" ∷ "go build" ∷ []

run-Reports_example :
    Reports machine
      (pos 60)
      0
      (commands machine (pos 60) checks)
      50
      (run machine 50 checks (pos 60) 0)
run-Reports_example = run-Reports machine 50 checks (pos 60) 0

marks : String → ℕ
marks String.[] = 0
marks (String.◌∷◌ c s) = (if code c == b'x' then 1 else 0) + marks s

marks-append : (s t : String) → marks (String.◌++◌ s t) ≡ marks s + marks t
unfolding marks
marks-append String.[] t = rw (append.nil t) (omega arith)
marks-append (String.◌∷◌ c s) t = rw (append.cons c s t) (omega (arith, marks-append s t))

marks-tally : (n : ℕ) → marks (tally n) ≡ n
unfolding marks tally
marks-tally zero = refl
marks-tally (suc n) = omega (arith, marks-tally n)

-- The text of a mode that is enabled, with its time in unary.
abbrev enabled_text : Time → String
enabled_text t = String.◌++◌ "{\"enabled\": " (String.◌++◌ "true" (tally t))

marks-enabled_text : (t : Time) → marks (enabled_text t) ≡ t
unfolding marks
marks-enabled_text t = omega (
  arith,
  marks-append "{\"enabled\": " (String.◌++◌ "true" (tally t)),
  marks-append "true" (tally t),
  marks-tally t,
)

text_of : Bool → Option Time → Result String
text_of true (some t) = ok (enabled_text t)
text_of false none = ok "{\"enabled\": false}"
text_of enabled since = err (message "unsupported value")

mode_value : String → Option FullModeState
mode_value text = some (
    if contains_true text
    then record { enabled = true; since = some (marks text) }
    else record { enabled = false; since = none })

mode_value-text :
    (enabled : Bool) (since : Option Time) (text : String)
    → text_of enabled since ≡ ok text
    → mode_value text ≡ some (record { enabled = enabled; since = since })
unfolding text_of mode_value contains_true
mode_value-text true (some t) text h =
    let same : enabled_text t ≡ text = cc in
    subst (λ (s : String). mode_value s ≡ some (record { enabled = true; since = some t })) same
      (rw (contains_true-append "{\"enabled\": " (tally t), marks-enabled_text t) refl)
mode_value-text false none text h =
    let same : "{\"enabled\": false}" ≡ text = cc in rw (← same) refl
mode_value-text true none text h = cc
mode_value-text false (some t) text h = cc

unfoldable mode_json : JsonCodec FullModeState
unfolding mode_value mode_value-text text_of
mode_json = record {
  marshal = λ fs. text_of fs.enabled fs.since;
  unmarshal = mode_value;
  unmarshal-marshal = λ fs text h. mode_value-text fs.enabled fs.since text h;
}

abbrev modes : ModeUseCase Memory
modes = record { repo = memory; json = mode_json }

writes : WritesMode mode_json
unfolding mode_json
writes = record {
  before = λ t. "{\"enabled\": ";
  rest = tally;
  marshal-enabled = λ t text h. cc;
  marshal-disabled = λ t text h. cc;
}

abbrev mode_env : Tasks.Env
mode_env = record {
  repos = [];
  full_mode = none;
  enabled = λ text. enabled_of (mode_json.unmarshal text);
  window_open = none;
  exists_fails = false;
  create_fails = false;
  now = 0;
  new_id = "n";
}

abbrev switched_on : Memory
switched_on = (set_full_mode modes true no_values).1

set_full_mode-seen_example :
    (get_full_mode modes switched_on ≡ (set_full_mode modes true no_values).0)
    × (Tasks.is_full_mode mode_env (some (value_of (memory.get full_mode_key switched_on)))
        ≡ ok true)
    × (Tick.is_full_mode (some (value_of (memory.get full_mode_key switched_on))) ≡ true)
unfolding set_full_mode store_full_mode memory mode_json text_of
set_full_mode-seen_example =
    set_full_mode-seen modes writes mode_env (λ text. refl) true no_values refl

-- A group that goes away within a second of SIGTERM.
abbrev obedient : Kernel
obedient = record {
  kill = λ t s. delivered;
  exists = λ t. ltb t 1000000000;
  wake = λ now length. now + length;
  wake-le = λ now length. omega arith;
}

cancel-Outcome_example :
    (q : Result (Unit {0}) × Sent) × (cancel obedient default_grace (pos 7) 0 ≡ some q)
    × Outcome obedient default_grace (pos 7) 0 q
cancel-Outcome_example = cancel-Outcome obedient default_grace (pos 7) 0
