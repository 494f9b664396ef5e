-- ===== src/Examples/Runs.antt =====
-- Runs of Claude, a rate limit that a result reports, and the recovery of running tasks: the theorems
-- at concrete inputs.
use claude_ops.Prelude.{
  String, ◌≡◌, refl, Bool, true, false, none, some, [], ◌∷◌, map, ok, pos, str_eq, if◌then◌else◌,
  mem_str, ◌&&◌, arith, eq_iff, ◌-◌, eq_ℤ, eq_ℤ_iff, negsuc,
}
use claude_ops.Claude.Stream.{
  Decoder, Line, ResultEvent, parse_line, parse_stream, on_event, send_texts, result_step,
  error_step,
}
use claude_ops.Claude.Runner.{
  Process, RunError, run, start, collect, after_wait, parse_error, join, text_parts, last_result,
}
use claude_ops.Claude.Runner.Success.{IsReport, reported, run-IsReport}
use claude_ops.Claude.Stream.Signals.{transcript}
use claude_ops.Domain.Task.{zero_task, running, done}
use claude_ops.Gc.{Env, recover_orphans}
use claude_ops.Gc.Recovered.{get_running-recover_orphans}
use claude_ops.Repository.Tasks.{Tasks, get_running, get_by_id}
use claude_ops.Scheduler.BudgetGate.{no_block}
use claude_ops.Scheduler.RateLimit.{maybe_record_rate_limit}
use claude_ops.Scheduler.RateLimit.Cleared.{writing, load_block-rate_limit_result}
use claude_ops.Usecase.Budget.{
  BudgetUseCase, RateLimitBlockJson, load_block, record_rate_limit_block, store, to_unix,
}
use claude_ops.Examples.Surroundings.{minutes, Memory, memory, no_values, budget, only}

abbrev finished : ResultEvent
finished = record {
  subtype = "success";
  is_error = false;
  result = "";
  duration_ms = 5;
  total_cost_usd = 7;
  input_tokens = 1;
  output_tokens = 2;
  cache_read_input_tokens = 3;
  cache_creation_input_tokens = 4;
  model_usage = "";
}

abbrev refused : ResultEvent
refused = record finished { is_error = true; result = "rate limit" }

-- Lines of one letter.
abbrev letters : Decoder
letters = record {
  trim = λ s. s;
  event_type = λ s. if str_eq s "a" then some "assistant" else some "result";
  api_key_source = λ s. "";
  assistant = λ s. some (("text", "hi") ∷ []);
  rate_limit = λ s. none;
  result_event = λ s. if str_eq s "r" then some finished else some refused;
  to_lower = λ s. s;
  contains = str_eq;
}

abbrev line : String → Line
line s = record { raw = s; context_done = λ n. false }

abbrev process : Process
process = record {
  window_open = some true;
  start_failure = none;
  lines = line "a" ∷ line "a" ∷ line "r" ∷ [];
  read_failure = none;
  stderr_tail = "";
  exit_code = pos 0;
  wait_failed = false;
}

run-IsReport_example : IsReport letters process (reported process ("hi" ∷ "hi" ∷ [], some finished))
unfolding run start collect after_wait parse_error join text_parts last_result parse_stream
    parse_line on_event send_texts result_step error_step transcript
run-IsReport_example =
    run-IsReport letters process (reported process ("hi" ∷ "hi" ∷ [], some finished)) refl

-- A codec of blocks without an end.
abbrev no_end : RateLimitBlockJson
no_end = record {
  blocked_until_unix = pos 0;
  rate_limit_type = "unknown";
  observed_at_unix = negsuc 62135596799;
}

is_no_end : RateLimitBlockJson → Bool
is_no_end b =
    eq_ℤ b.blocked_until_unix (pos 0)
    && str_eq b.rate_limit_type "unknown"
    && eq_ℤ b.observed_at_unix (negsuc 62135596799)

is_no_end-sound : (b : RateLimitBlockJson) → is_no_end b ≡ true → b ≡ no_end
unfolding is_no_end
is_no_end-sound b h = ground (
  arith,
  eq_iff b.rate_limit_type "unknown",
  eq_ℤ_iff b.blocked_until_unix (pos 0),
  eq_ℤ_iff b.observed_at_unix (negsuc 62135596799),
)

endless : BudgetUseCase Memory minutes
unfolding is_no_end is_no_end-sound
endless = record budget { block_json = only is_no_end no_end is_no_end-sound }

load_block-rate_limit_result_example :
    (e : RunError) × ((run letters (writing process (line "a" ∷ line "x" ∷ line "r" ∷ []))).1
      ≡ some e)
    × (load_block endless (maybe_record_rate_limit endless e 0 no_values) ≡ ok no_block)
unfolding endless budget memory only record_rate_limit_block store to_unix parse_line on_event
    send_texts
load_block-rate_limit_result_example =
    load_block-rate_limit_result endless letters process (line "a" ∷ []) (line "x") (line "r" ∷ [])
      refused 0 no_values (refl, tt) refl refl refl refl

abbrev cut_off : Tasks
cut_off =
    record zero_task { id = "a"; status = running; worktree_path = "/w/a" }
    ∷ record zero_task { id = "b"; status = done }
    ∷ []

abbrev all_answers : Env
all_answers = record {
  now = 9;
  retention_days = pos 7;
  days_before = λ n t. t - n;
  exists = λ path. true;
  git_status = λ path. some " M file";
  git_removes = λ path. true;
  rm_removes = λ path. true;
  get_running_fails = false;
  list_fails = λ status. false;
  update_fails = λ id. false;
}

get_running-recover_orphans_example :
    (get_running (recover_orphans all_answers cut_off) ≡ [])
    × ((k : String)
        → mem_str k (map (λ t. t.id) (get_running cut_off)) ≡ false
        → get_by_id k (recover_orphans all_answers cut_off) ≡ get_by_id k cut_off)
get_running-recover_orphans_example =
    get_running-recover_orphans all_answers (λ id. refl) cut_off refl
