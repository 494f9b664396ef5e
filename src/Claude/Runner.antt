-- ===== src/Claude/Runner.antt =====
-- Run of internal/claude/runner.go: the window is checked again, the process is started, its stream
-- collected, and its end read. What the process and the operating system answer is an environment.
pub mod Success
use Prim.Native.String.{◌∷◌ as char_then, [] as no_text}
use claude_ops.Prelude.{
  ℕ, ℤ, pos, eq_ℤ, String, Bool, true, false, not, ◌&&◌, ◌||◌, Option, none, some, is_some, List,
  [], ◌∷◌, if◌then◌else◌, str_eq, ◌==◌,
}
use claude_ops.Claude.Stream.{
  Decoder, Line, Signal, text, usage_warning, result, StreamError, ResultEvent, parse_stream,
}

pub record RunResult : Type 0 where
  pub text_output : String
  pub input_tokens : ℕ
  pub output_tokens : ℕ
  pub cache_read_input_tokens : ℕ
  pub cache_creation_input_tokens : ℕ
  pub total_cost_usd : ℕ
  pub duration_ms : ℕ
  pub exit_code : ℤ
  pub stderr_tail : String
  pub model_usage : String

pub data RunError : Type 0 where
  outside_active_window domain_session_missing : RunError
  not_started : String → RunError
  stream_error : StreamError → RunError
  exited : ℤ → RunError

-- One run: the answer of the window's gate where one is given, the failure of the pipes or of the
-- start, the lines and the end of the output, the tail of the other output, and what Wait gives.
pub record Process : Type 0 where
  pub window_open : Option Bool
  pub start_failure : Option String
  pub lines : List Line
  pub read_failure : Option String
  pub stderr_tail : String
  pub exit_code : ℤ
  pub wait_failed : Bool

-- strings.Join(parts, "")
abbrev append : String → String → String
append no_text t = t
append (char_then c s) t = char_then c (append s t)

unfoldable pub join : List String → String
join [] = ""
join (part ∷ parts) = append part (join parts)

-- The texts that the collector keeps.
unfoldable pub text_parts : List Signal → List String
text_parts [] = []
text_parts (text chunk ∷ signals) = chunk ∷ text_parts signals
text_parts (usage_warning ∷ signals) = text_parts signals
text_parts (result re ∷ signals) = text_parts signals

-- The result that the collector keeps: the last one.
unfoldable pub last_result : List Signal → Option ResultEvent
last_result [] = none
last_result (text chunk ∷ signals) = last_result signals
last_result (usage_warning ∷ signals) = last_result signals
last_result (result re ∷ signals) = elim (last_result signals) [
  | none ↦ some re
  | some later ↦ some later
]

-- RunResult{ExitCode, StderrTail}
abbrev pub bare_result : Process → RunResult
bare_result p = record {
  text_output = "";
  input_tokens = 0;
  output_tokens = 0;
  cache_read_input_tokens = 0;
  cache_creation_input_tokens = 0;
  total_cost_usd = 0;
  duration_ms = 0;
  exit_code = p.exit_code;
  stderr_tail = p.stderr_tail;
  model_usage = "";
}

abbrev pub with_usage : Option ResultEvent → RunResult → RunResult
with_usage none r = r
with_usage (some re) r = record r {
  input_tokens = re.input_tokens;
  output_tokens = re.output_tokens;
  cache_read_input_tokens = re.cache_read_input_tokens;
  cache_creation_input_tokens = re.cache_creation_input_tokens;
  total_cost_usd = re.total_cost_usd;
  duration_ms = re.duration_ms;
  model_usage = re.model_usage;
}

-- from cmd.Wait on
unfoldable pub after_wait :
    Process → List Signal → Option RunError → Option RunResult × Option RunError
after_wait p signals (some e) = (some (bare_result p), some e)
after_wait p signals none =
    let res =
      with_usage (last_result signals)
        (record (bare_result p) { text_output = join (text_parts signals) }) in
    (
      some res,
      if not (eq_ℤ p.exit_code (pos 0)) && p.wait_failed then some (exited p.exit_code) else none,
    )

module _ (d : Decoder) where
  -- the error of the parser, or the one that the other output shows
  unfoldable pub parse_error : Process → Option StreamError → Option RunError
  parse_error p (some e) = some (stream_error e)
  parse_error p none =
      if d.contains p.stderr_tail "please login" || d.contains p.stderr_tail "not logged in"
      then some domain_session_missing
      else none

  -- once the process is started
  unfoldable pub collect : Process → Option RunResult × Option RunError
  collect p =
      let (signals, e) = parse_stream d p.lines p.read_failure in
      after_wait p signals (parse_error p e)

  unfoldable pub start : Process → Option String → Option RunResult × Option RunError
  start p (some failure) = (none, some (not_started failure))
  start p none = collect p

  -- Run
  unfoldable pub run : Process → Option RunResult × Option RunError
  run p = elim p.window_open [
    | none ↦ start p p.start_failure
    | some true ↦ start p p.start_failure
    | some false ↦ (none, some outside_active_window)
  ]
