-- ===== src/Scheduler/RateLimit/Cleared.antt =====
-- A rate limit that a result reports in its text (internal/claude/stream/parser.go) has no time at
-- which it ends, and what that does to the block that the budget keeps.
use claude_ops.Prelude.{
  pos, String, ◌≡◌, refl, ◌∙◌, true, Option, none, some, List, [], ◌∷◌, ◌++◌, ok, is_ok, arith,
}
use claude_ops.Claude.Runner.{
  Process, RunError, stream_error, run, start, collect, after_wait, parse_error,
}
use claude_ops.Claude.Stream.{
  Decoder, Line, Signal, StreamError, ResultEvent, Step, next, stop, rate_limited, result_step,
  error_step, parse_line, parse_stream, then_rest,
}
use claude_ops.Domain.Task.{Time}
use claude_ops.Domain.Calendar.{Calendar}
use claude_ops.Scheduler.BudgetGate.{no_block}
use claude_ops.Scheduler.RateLimit.{maybe_record_rate_limit}
use claude_ops.Usecase.Budget.{
  BudgetUseCase, record_rate_limit_block, load_block, RateLimitBlockJson, rate_limit_block_key,
  to_unix, block_of,
}
use claude_ops.Usecase.Budget.Blocks.{read-store_self, store-marshal}
use claude_ops.Usecase.Budget.Store.{decoded-marshal}

-- The lines of a stream that do not end it.
abbrev pub AllNext : Decoder → List Line → Type 0
AllNext d [] = Unit {0}
AllNext d (l ∷ lines) = ((parse_line d l).1 ≡ next) × AllNext d lines

stopped :
    (r : List Signal × Step) (rest : List Signal × Option StreamError) (e : Option StreamError)
    → r.1 ≡ stop e
    → (then_rest r rest).1 ≡ e
stopped (sent, stop x) rest e h = cc
stopped (sent, next) rest e h = absurd (cc)

passed :
    (r : List Signal × Step) (rest : List Signal × Option StreamError)
    → r.1 ≡ next
    → (then_rest r rest).1 ≡ rest.1
passed (sent, stop x) rest h = absurd (cc)
passed (sent, next) rest h = refl

parse_stream-stopped :
    (d : Decoder) (before : List Line) (l : Line) (after : List Line) (failure : Option String)
    (e : Option StreamError)
    → AllNext d before
    → (parse_line d l).1 ≡ stop e
    → (parse_stream d (before ++ l ∷ after) failure).1 ≡ e
unfolding parse_stream
parse_stream-stopped d [] l after failure e all h =
    stopped (parse_line d l) (parse_stream d after failure) e h
parse_stream-stopped d (b ∷ before) l after failure e (a, all) h =
    passed (parse_line d b) (parse_stream d (before ++ l ∷ after) failure) a
    ∙ parse_stream-stopped d before l after failure e all h

-- The process whose output is these lines.
abbrev pub writing : Process → List Line → Process
writing p lines = record p { window_open = none; start_failure = none; lines = lines }

run-stopped :
    (d : Decoder) (p : Process) (lines : List Line) (e : StreamError)
    → (parse_stream d lines p.read_failure).1 ≡ some e
    → (run d (writing p lines)).1 ≡ some (stream_error e)
unfolding run start collect parse_error after_wait
run-stopped d p lines e h = rw h refl

is_limited :
    (d : Decoder) (re : ResultEvent)
    → re.is_error ≡ true
    → d.contains (d.to_lower re.result) "rate limit" ≡ true
    → result_step d re ≡ stop (some (rate_limited (pos 0) "unknown"))
unfolding result_step error_step
is_limited d re bad limit = ground arith

module _ {S : Type 0} {c : Calendar} (uc : BudgetUseCase S c) where
  load_block-cleared :
      (kind : String) (now : Time) (s : S)
      → is_ok (record_rate_limit_block uc (pos 0) kind now s).0 ≡ true
      → load_block uc (record_rate_limit_block uc (pos 0) kind now s).1 ≡ ok no_block
  unfolding load_block record_rate_limit_block
  load_block-cleared kind now s h =
      let b : RateLimitBlockJson = record {
        blocked_until_unix = pos 0;
        rate_limit_type = kind;
        observed_at_unix = to_unix now;
      } in
      let m = uc.block_json.marshal b in
      rw (read-store_self uc m rate_limit_block_key now s refl h) (
        decoded-marshal uc.block_json no_block (block_of uc) b
          (store-marshal uc m rate_limit_block_key now s h))

  -- A run whose output comes to a result that is an error and mentions a rate limit in its text ends
  -- with a rate limit that has no end, and once the worker has recorded it, where the write succeeds,
  -- the budget has no block any more, whatever block it had before.
  pub load_block-rate_limit_result :
      (d : Decoder) (p : Process) (before : List Line) (l : Line) (after : List Line)
      (re : ResultEvent) (now : Time) (s : S)
      → AllNext d before
      → (parse_line d l).1 ≡ result_step d re
      → re.is_error ≡ true
      → d.contains (d.to_lower re.result) "rate limit" ≡ true
      → is_ok (record_rate_limit_block uc (pos 0) "unknown" now s).0 ≡ true
      → (e : RunError) × ((run d (writing p (before ++ l ∷ after))).1 ≡ some e)
        × (load_block uc (maybe_record_rate_limit uc e now s) ≡ ok no_block)
  unfolding maybe_record_rate_limit
  load_block-rate_limit_result d p before l after re now s all reads bad limit written =
      let limited : result_step d re ≡ stop (some (rate_limited (pos 0) "unknown")) =
        is_limited d re bad limit in
      (
        stream_error (rate_limited (pos 0) "unknown"),
        run-stopped d p (before ++ l ∷ after) (rate_limited (pos 0) "unknown") (
            parse_stream-stopped d before l after p.read_failure
              (some (rate_limited (pos 0) "unknown")) all (reads ∙ limited)),
        load_block-cleared "unknown" now s written,
      )
