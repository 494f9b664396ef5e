-- ===== src/Quality/Gate.antt =====
-- What a run of the quality gate shows (internal/qualitygate/gate.go).
use mathlib.Core.List.{append-nil}
use claude_ops.Prelude.{
  ltb→lt, ℕ, ◌-◌, ◌≤◌, String, ◌≡◌, ◌⊎◌, refl, sym, ap, inl, inr, true, false, not, List, [], ◌∷◌,
  ◌++◌, map, keep, arith, ltb, length, take, drop, take-drop, length-drop, if◌then◌else◌, str_eq, ℤ,
  is_positive, Bool-cases,
}
use claude_ops.Prelude.Lines.{join}
use claude_ops.Quality.{
  Result, Outcome, Runner, is_failure, run, run_from, tail_lines, lines_of, five_minutes,
}

-- Of the lines of an output, without its newlines at the end, the last `n`, or all if they are fewer, joined.
pub record IsTail (output : String) (n : ℕ) (tail : String) : Type 0 where
  pub front : List String
  pub kept : List String
  pub split : lines_of output ≡ front ++ kept
  pub joined : tail ≡ join kept
  pub within : length kept ≤ n
  pub full : (front ≡ []) ⊎ (length kept ≡ n)

tail_lines-IsTail : (s : String) (n : ℕ) → IsTail s n (tail_lines s n)
unfolding tail_lines join
tail_lines-IsTail s ℕ.zero = record {
  front = lines_of s;
  kept = [];
  split = sym (append-nil (lines_of s));
  joined = refl;
  within = omega arith;
  full = inr refl;
}
tail_lines-IsTail s (ℕ.suc n) = elim (Bool-cases (ltb (ℕ.suc n) (length (lines_of s)))) [
  | inl e ↦
      let k = length (lines_of s) - ℕ.suc n in
      let size : length (drop k (lines_of s)) ≡ ℕ.suc n =
        omega (arith, length-drop k (lines_of s), ltb→lt (ℕ.suc n) (length (lines_of s)) e) in
      record {
        front = take k (lines_of s);
        kept = drop k (lines_of s);
        split = take-drop k (lines_of s);
        joined = rw e refl;
        within = omega (arith, size);
        full = inr size;
      }
  | inr e ↦ record {
    front = [];
    kept = lines_of s;
    split = refl;
    joined = rw e refl;
    within = ground arith;
    full = inl refl;
  }
]

module _ {W : Type 0} (runner : Runner W) (timeout : ℤ) where
  open runner use {trim, exec}

  -- The commands that are run: those that are not blank, without the blanks around them.
  abbrev pub commands : List String → List String
  commands lines = keep (λ c. not (str_eq c "")) (map trim lines)

  -- Each command succeeds, run where the ones before it left off; and where the last leaves off.
  pub data Passes : W → List String → W → Type 0 where
    done : (w : W) → Passes w [] w
    then_ :
        (w after end : W) (cmd : String) (more : List String) (o : Outcome)
        → exec timeout cmd w ≡ (o, after)
        → is_failure o ≡ false
        → Passes after more end
        → Passes w (cmd ∷ more) end

  -- The first command that fails, after those that pass and before those that are not run.
  pub record Fails (w : W) (cmds : List String) (tail_size : ℕ) (r : Result) (end : W)
      : Type 0 where
    pub before : List String
    pub skipped : List String
    pub at : W
    pub outcome : Outcome
    pub split : cmds ≡ before ++ r.failed_command ∷ skipped
    pub passed : Passes w before at
    pub ran : exec timeout r.failed_command at ≡ (outcome, end)
    pub failed : is_failure outcome ≡ true
    pub code : r.exit_code ≡ outcome.exit_code
    pub tail : IsTail outcome.output tail_size r.output_tail

  -- A run that passes ran each command, all of which succeed; one that does not, up to the first that fails.
  abbrev pub Reports : W → List String → ℕ → Result × W → Type 0
  Reports w cmds n (r, end) =
      (r.passed ≡ true → Passes w cmds end) × (r.passed ≡ false → Fails w cmds n r end)

  Reports-then :
      (w after : W) (cmd : String) (cmds : List String) (n : ℕ) (o : Outcome) (r : Result × W)
      → exec timeout cmd w ≡ (o, after)
      → is_failure o ≡ false
      → Reports after cmds n r
      → Reports w (cmd ∷ cmds) n r
  Reports-then w after cmd cmds n o r ran good (p, f) = (
    λ h. then_ w after r.1 cmd cmds o ran good (p h),
    λ h.
        let g = f h in
        record {
          before = cmd ∷ g.before;
          skipped = g.skipped;
          at = g.at;
          outcome = g.outcome;
          split = ap (λ cs. cmd ∷ cs) g.split;
          passed = then_ w after g.at cmd g.before o ran good g.passed;
          ran = g.ran;
          failed = g.failed;
          code = g.code;
          tail = g.tail;
        },
  )

  run_from-Reports :
      (lines : List String) (n : ℕ) (w : W)
      → Reports w (commands lines) n (run_from runner n timeout lines w)
  unfolding run_from
  run_from-Reports [] n w = (λ h. done w, λ h. absurd (ground arith))
  run_from-Reports (line ∷ more) n w =
      let cmd = trim line in
      let (o, after) = exec timeout cmd w in
      elim (Bool-cases (str_eq cmd "")) [
        | inl blank ↦ rw blank (run_from-Reports more n w)
        | inr e ↦ elim (Bool-cases (is_failure o)) [
          | inl bad ↦
              rw (e, bad)
                (
                  λ h. absurd (ground arith),
                  λ h. record {
                    before = [];
                    skipped = commands more;
                    at = w;
                    outcome = o;
                    split = refl;
                    passed = done w;
                    ran = refl;
                    failed = bad;
                    code = refl;
                    tail = tail_lines-IsTail o.output n;
                  },
                )
          | inr good ↦
              rw (e, good)
                (Reports-then w after cmd (commands more) n o (run_from runner n timeout more after)
                  refl good (run_from-Reports more n after))
        ]
      ]

-- Each command has the timeout that is given, or five minutes. A run that passes ran each of the
-- commands that are not blank, in turn, with success. One that does not ran those before the command that
-- it reports with success, then that command, which failed, and none after it; it reports its exit code
-- and the last lines of its output.
pub run-Reports :
    {W : Type 0} (runner : Runner W) (n : ℕ) (lines : List String) (timeout : ℤ) (w : W)
    → (let used = if is_positive timeout then timeout else five_minutes in
        Reports runner used w (commands runner used lines) n (run runner n lines timeout w))
unfolding run
run-Reports runner n [] timeout w = (λ h. done w, λ h. absurd (ground arith))
run-Reports runner n (line ∷ more) timeout w =
    run_from-Reports runner (if is_positive timeout then timeout else five_minutes) (line ∷ more) n
      w
