-- ===== src/Quality.antt =====
-- internal/qualitygate/gate.go and adapter.go: the commands of a repository are run in its worktree,
-- one after the other, up to the first that fails. What a command does is a parameter.
pub mod Gate
use claude_ops.Prelude.{
  ℕ, ◌*◌, ◌-◌, ◌^◌, String, Bool, true, false, not, ◌&&◌, ◌||◌, Option, none, some, List, [], ◌∷◌,
  ◌++◌, ltb, ◌==◌, if◌then◌else◌, str_eq, ℤ, pos, negsuc, eq_ℤ, is_positive, length, drop,
}
use claude_ops.Prelude.Lines.{split_from, trim_right, join}
use claude_ops.Config.Settings.{RepoConfig}

-- `duration` is left out: it is only reported.
pub record Result : Type 0 where
  pub passed : Bool
  pub failed_command : String
  pub exit_code : ℤ
  pub output_tail : String

-- What a command ended with: `failed` is an error of CommandRunner, such as its timeout.
pub record Outcome : Type 0 where
  pub exit_code : ℤ
  pub failed : Bool
  pub output : String

-- `W` is the state of the worktree and of the machine. A command runs under a timeout, in nanoseconds.
pub record Runner (W : Type 0) : Type 0 where
  pub trim : String → String  -- strings.TrimSpace
  pub exec : ℤ → String → W → Outcome × W

-- NewGate
abbrev pub tail_size_of : ℤ → ℕ
tail_size_of (pos (ℕ.suc n)) = ℕ.suc n
tail_size_of n = 50

abbrev pub lines_of : String → List String
lines_of s = split_from "" (trim_right s)

-- tailLines
unfoldable pub tail_lines : String → ℕ → String
tail_lines s ℕ.zero = ""
tail_lines s (ℕ.suc n) =
    let lines = lines_of s in
    if ltb (ℕ.suc n) (length lines) then join (drop (length lines - ℕ.suc n) lines) else join lines

abbrev pub is_failure : Outcome → Bool
is_failure o = o.failed || not (eq_ℤ o.exit_code (pos 0))

abbrev pub pass : Result
pass = record { passed = true; failed_command = ""; exit_code = pos 0; output_tail = "" }

abbrev pub five_minutes : ℤ
five_minutes = pos (300 * 10 ^ 9)

module _ {W : Type 0} (runner : Runner W) (tail_size : ℕ) where
  open runner use {trim, exec}

  -- The loop of Run.
  unfoldable pub run_from : ℤ → List String → W → Result × W
  run_from timeout [] w = (pass, w)
  run_from timeout (line ∷ more) w =
      let cmdline = trim line in
      let (o, w') = exec timeout cmdline w in
      let next = run_from timeout more w' in
      let skipped = run_from timeout more w in
      if str_eq cmdline ""
      then skipped
      else if is_failure o
      then (
        record {
          passed = false;
          failed_command = cmdline;
          exit_code = o.exit_code;
          output_tail = tail_lines o.output tail_size;
        },
        w',
      )
      else next

  -- Run
  unfoldable pub run : List String → ℤ → W → Result × W
  run [] timeout w = (pass, w)
  run (line ∷ more) timeout w =
      run_from (if is_positive timeout then timeout else five_minutes) (line ∷ more) w

-- The map of NewAdapterWithGate: of repositories of one name, the last stays.
unfoldable pub repo_of : String → List RepoConfig → Option RepoConfig
repo_of name [] = none
repo_of name (r ∷ repos) = elim (repo_of name repos) [
  | some found ↦ some found
  | none ↦ if str_eq r.name name then some r else none
]

lookup_in : Option RepoConfig → Option (List String × ℤ)
lookup_in none = none
lookup_in (some r) = elim r.checks.commands [
  | [] ↦ none
  | c ∷ more ↦
      some (c ∷ more, if is_positive r.checks.timeout then r.checks.timeout else five_minutes)
]

-- Lookup
unfoldable pub lookup : List RepoConfig → String → Option (List String × ℤ)
unfolding lookup_in
lookup repos name = lookup_in (repo_of name repos)
