-- ===== src/Claude/Runner/Success.antt =====
-- A run of internal/claude/runner.go that succeeds, and a rate limit that a result reports.
use claude_ops.Prelude.{
  String, ◌≡◌, ◌≢◌, refl, ap, ◌∙◌, Bool, true, false, Option, none, some, List,
}
use claude_ops.Claude.Stream.{Decoder, Signal, StreamError, ResultEvent, parse_stream}
use claude_ops.Claude.Stream.Signals.{transcript, parse_stream-IsTold}
use claude_ops.Claude.Runner.{
  Process, RunResult, RunError, run, start, collect, after_wait, parse_error, with_usage,
  bare_result, join, text_parts, last_result, outside_active_window,
}

-- The result that a transcript stands for.
abbrev pub reported : Process → List String × Option ResultEvent → RunResult
reported p (texts, re) = with_usage re (record (bare_result p) { text_output = join texts })

-- What a run that succeeds shows.
abbrev pub IsReport : Decoder → Process → RunResult → Type 0
IsReport d p r =
    (p.window_open ≢ some false)
    × (p.start_failure ≡ none)
    × (r ≡ reported p (transcript d p.lines))
    × ((re : ResultEvent) → (transcript d p.lines).1 ≡ some re → re.is_error ≡ false)

module _ (d : Decoder) (p : Process) (r : RunResult) where
  after_wait-ok :
      (signals : List Signal) (e : Option RunError)
      → after_wait p signals e ≡ (some r, none)
      → (e ≡ none)
        × (r
            ≡ with_usage
                (last_result signals)
                (record (bare_result p) { text_output = join (text_parts signals) }))
  unfolding after_wait
  after_wait-ok signals (some x) h =
      absurd (failed (ap (λ (y : Option RunResult × Option RunError). y.1) h))
    where
      failed : ¬ (◌≡◌ {A = Option RunError} (some x) none)
      failed y = cc
  after_wait-ok signals none h = (refl, cc (ap (λ (y : Option RunResult × Option RunError). y.0) h))

  parse_error-none : (e : Option StreamError) → parse_error d p e ≡ none → e ≡ none
  unfolding parse_error
  parse_error-none none h = refl
  parse_error-none (some x) h = absurd (cc)

  collect-ok :
      collect d p ≡ (some r, none)
      → (r ≡ reported p (transcript d p.lines))
        × ((re : ResultEvent) → (transcript d p.lines).1 ≡ some re → re.is_error ≡ false)
  unfolding collect
  collect-ok h =
      let sent = parse_stream d p.lines p.read_failure in
      let (quiet, same) = after_wait-ok sent.0 (parse_error d p sent.1) h in
      let (a, b, c) =
        parse_stream-IsTold d p.lines p.read_failure (parse_error-none sent.1 quiet) in
      (same ∙ rw (a, b) refl, c)

  start-ok :
      (failure : Option String)
      → start d p failure ≡ (some r, none)
      → (failure ≡ none)
        × (r ≡ reported p (transcript d p.lines))
        × ((re : ResultEvent) → (transcript d p.lines).1 ≡ some re → re.is_error ≡ false)
  unfolding start
  start-ok none h = let (a, b) = collect-ok h in (refl, a, b)
  start-ok (some x) h = absurd (failed (ap (λ (y : Option RunResult × Option RunError). y.0) h))
    where
      failed : ¬ (◌≡◌ {A = Option RunResult} none (some r))
      failed y = cc

  -- A run that succeeds was started, with the window open where it is asked, and returns the joined
  -- texts of the assistant's lines up to the first result, and the usage of that result, or none where
  -- the stream ended without one; and that result is no error.
  pub run-IsReport : run d p ≡ (some r, none) → IsReport d p r
  unfolding run
  run-IsReport h = by_window p.window_open refl h
    where
      failed : ¬ (◌≡◌ {A = Option RunResult} none (some r))
      failed y = cc

      by_window :
          (w : Option Bool)
          → p.window_open ≡ w
          → (elim w [
            | none ↦ start d p p.start_failure
            | some true ↦ start d p p.start_failure
            | some false ↦ (none, some outside_active_window)
          ])
            ≡ (some r, none)
          → IsReport d p r
      by_window none e q = let (a, b, c) = start-ok p.start_failure q in (rw e (cc), a, b, c)
      by_window (some true) e q = let (a, b, c) = start-ok p.start_failure q in (rw e (cc), a, b, c)
      by_window (some false) e q =
          absurd (failed (ap (λ (y : Option RunResult × Option RunError). y.0) q))
