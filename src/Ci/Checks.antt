-- ===== src/Ci/Checks.antt =====
-- internal/ci/checks.go: the aggregate of the check runs of a pull request.
use claude_ops.Prelude.{
  ℕ, String, Bool, true, false, not, List, [], ◌∷◌, ◌++◌, str_eq, if◌then◌else◌,
}

pub data CheckConclusion : Type 0 where
  none_yet success failure timed_out cancelled action_required skipped neutral stale :
      CheckConclusion

pub record CheckRun : Type 0 where
  pub name : String
  pub status : String
  pub conclusion : CheckConclusion
  pub workflow_run : ℕ

pub data Aggregate : Type 0 where
  undecided failed stuck passed : Aggregate

abbrev pub is_failure : CheckConclusion → Bool
is_failure failure = true
is_failure timed_out = true
is_failure cancelled = true
is_failure _ = false

abbrev pub needs_action : CheckConclusion → Bool
needs_action action_required = true
needs_action _ = false

abbrev pub is_completed : CheckRun → Bool
is_completed c = str_eq c.status "completed"

-- The variables of the loop of AggregateConclusion.
pub record Tally : Type 0 where
  pub all_terminal : Bool
  pub has_failure : Bool
  pub has_action_required : Bool
  pub failed_runs : List CheckRun

-- the body of the loop
tally_one : Tally → CheckRun → Tally
tally_one t c =
    let t' = if is_completed c then t else record t { all_terminal = false } in
    if is_failure c.conclusion
    then record t' { has_failure = true; failed_runs = t'.failed_runs ++ c ∷ [] }
    else if needs_action c.conclusion
    then record t' { has_action_required = true }
    else t'

tally : Tally → List CheckRun → Tally
tally t [] = t
tally t (c ∷ cs) = tally (tally_one t c) cs

verdict : Tally → Aggregate × List CheckRun
verdict t =
    if not t.all_terminal
    then (undecided, [])
    else if t.has_failure
    then (failed, t.failed_runs)
    else if t.has_action_required
    then (stuck, [])
    else (passed, [])

-- AggregateConclusion
unfoldable pub aggregate_conclusion : List CheckRun → Aggregate × List CheckRun
unfolding tally verdict tally_one
aggregate_conclusion [] = (undecided, [])
aggregate_conclusion (c ∷ cs) = verdict (
    tally
      (record {
        all_terminal = true;
        has_failure = false;
        has_action_required = false;
        failed_runs = [];
      })
      (c ∷ cs))

abbrev pub failing : CheckRun → Bool
failing c = is_failure c.conclusion

abbrev pub blocked : CheckRun → Bool
blocked c = needs_action c.conclusion
