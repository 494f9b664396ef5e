-- ===== src/Config/Validate.antt =====
-- internal/config/validate.go: what is checked of the settings, in its order, and the limits that
-- follow from those that are set. strings.TrimSpace and the cron parser are parameters.
use Prim.Native.String.{◌∷◌ as char_then, [] as no_text}
use Prim.Native.Char.{code}
use claude_ops.Prelude.{
  ℕ, ◌*◌, ◌^◌, String, Bool, true, false, not, ◌&&◌, Option, none, some, List, [], ◌∷◌, map, ℤ, pos,
  leb_ℤ, ltb_ℤ, is_positive, Result, ok, err, message, wrap, ◌==◌, if◌then◌else◌, str_eq, mem_str,
  is_some, ◌>>=◌,
}
use claude_ops.Config.Settings.{
  LimitsConfig, MaintenanceTaskConfig, RepoConfig, WindowConfig, Config,
}
use claude_ops.Domain.Calendar.{Calendar}
use claude_ops.Domain.Window.{ActiveWindow, validate}
use claude_ops.Config.Checks.{
  refuse, ◌>>◌, validate_ci_fix, validate_concurrency, week_start_of, resolved_caps,
}

-- strings.SplitN(name, "/", 2) has two parts that are not empty.
unfoldable pub has_owner : String → Bool
has_owner no_text = false
has_owner (char_then c no_text) = false
has_owner (char_then c (char_then d rest)) =
    if code c == b'/'
    then false
    else if code d == b'/'
    then not (str_eq rest "")
    else has_owner (char_then d rest)

-- The texts that strings.TrimSpace and the parser of cron specs take.
pub record TextRules : Type 0 where
  pub trim : String → String
  pub is_cron : String → Bool

abbrev pub five_minutes : ℤ
five_minutes = pos (300 * 10 ^ 9)

module _ (rules : TextRules) where
  open rules use {trim, is_cron}

  -- one round of the loop of validateMaintenanceTasks, for the names seen before
  unfoldable pub validate_maintenance_task :
      List String → List String → MaintenanceTaskConfig → Result (Unit {0})
  validate_maintenance_task allowlist seen mt = do
    refuse (str_eq (trim mt.name) "") "name is required"
    refuse (mem_str (trim mt.name) seen) "duplicate name"
    refuse (str_eq mt.cron "") "cron is required"
    refuse (not (is_cron mt.cron)) "invalid cron spec"
    refuse (str_eq (trim mt.repo) "") "repo is required"
    refuse (not (mem_str (trim mt.repo) allowlist)) "repo not in github.repos allowlist"
    refuse (str_eq mt.prompt_template "") "prompt_template is required"
    refuse (ltb_ℤ mt.budget_sub_cap.daily (pos 0)) "budget_sub_cap.daily must be >= 0"
    refuse (ltb_ℤ mt.budget_sub_cap.weekly (pos 0)) "budget_sub_cap.weekly must be >= 0"

  unfoldable pub validate_maintenance_from :
      List String → List String → List MaintenanceTaskConfig → Result (Unit {0})
  validate_maintenance_from allowlist seen [] = ok tt
  validate_maintenance_from allowlist seen (mt ∷ more) =
      validate_maintenance_task allowlist seen mt
      >> validate_maintenance_from allowlist (trim mt.name ∷ seen) more

  -- validateMaintenanceTasks
  unfoldable pub validate_maintenance_tasks : Config → Result (Unit {0})
  validate_maintenance_tasks cfg =
      validate_maintenance_from (map (λ r. r.name) cfg.repos) [] cfg.maintenance_tasks

  unfoldable pub validate_commands : List String → Result (Unit {0})
  validate_commands [] = ok tt
  validate_commands (cmd ∷ more) =
      refuse (str_eq (trim cmd) "") "command cannot be empty" >> validate_commands more

  abbrev pub is_empty {ℓ} : {A : Type ℓ} → List A → Bool
  is_empty [] = true
  is_empty (x ∷ xs) = false

  -- the defaults that validateRepos sets
  unfoldable pub with_defaults : RepoConfig → RepoConfig
  with_defaults r = record r {
    default_branch = if str_eq r.default_branch "" then "main" else r.default_branch;
    checks = record {
      commands = r.checks.commands;
      timeout =
          if not (is_empty r.checks.commands) && leb_ℤ r.checks.timeout (pos 0)
          then five_minutes
          else r.checks.timeout;
    };
  }

  -- one round of the loop of validateRepos, for the names seen before
  unfoldable pub validate_repo : List String → RepoConfig → Result (Unit {0})
  validate_repo seen r = do
    refuse (str_eq (trim r.name) "") "name is required"
    refuse (not (has_owner (trim r.name))) "name must be in owner/repo format"
    refuse (mem_str (trim r.name) seen) "duplicate repo"
    validate_commands r.checks.commands

  unfoldable pub validate_repos_from : List String → List RepoConfig → Result (List RepoConfig)
  validate_repos_from seen [] = ok []
  validate_repos_from seen (r ∷ more) =
      validate_repo seen r
      >> (validate_repos_from (trim r.name ∷ seen) more >>= λ rest. ok (with_defaults r ∷ rest))

  -- validateRepos
  unfoldable pub validate_repos : Config → Result Config
  validate_repos cfg =
      validate_repos_from [] cfg.repos >>= λ repos. ok (record cfg { repos = repos })

  module _ (c : Calendar) where
    open c use {Location, load_location, to_lower}

    abbrev lowered : String → Option ℕ
    lowered s = week_start_of (to_lower s)

    -- validateLimits
    unfoldable pub validate_limits : LimitsConfig → Result (Unit {0})
    validate_limits cfg = do
      refuse (ltb_ℤ cfg.daily_max_tasks (pos 0)) "limits.daily_max_tasks must be >= 0"
      refuse (ltb_ℤ cfg.weekly_max_tasks (pos 0)) "limits.weekly_max_tasks must be >= 0"
      refuse (not (str_eq cfg.week_starts_on "") && not (is_some (lowered cfg.week_starts_on)))
          "limits.week_starts_on must be mon|tue|wed|thu|fri|sat|sun"
      refuse (not (str_eq cfg.reset_tz "") && not (is_some (load_location cfg.reset_tz)))
          "limits.reset_tz"
      refuse
          (is_positive cfg.daily_max_tasks
            && is_positive cfg.weekly_max_tasks
            && ltb_ℤ cfg.weekly_max_tasks cfg.daily_max_tasks)
          "limits.daily_max_tasks must be <= weekly_max_tasks"
      refuse cfg.daily_max_cost_negative "limits.daily_max_cost_usd must be >= 0"
      refuse cfg.weekly_max_cost_negative "limits.weekly_max_cost_usd must be >= 0"

    abbrev unparsed : WindowConfig → ActiveWindow c
    unparsed w = record {
      days = w.days;
      start = w.start;
      end = w.end;
      tz = w.tz;
      weekdays = [];
      start_h = 0;
      start_m = 0;
      end_h = 0;
      end_m = 0;
      loc = c.utc;
    }

    -- ActiveWindows: the windows, each validated
    unfoldable pub active_windows : List WindowConfig → Result (List (ActiveWindow c))
    active_windows [] = ok []
    active_windows (w ∷ more) =
        validate c (unparsed w) >>= λ window. active_windows more >>= λ rest. ok (window ∷ rest)

    -- validateWindows, which drops what it made
    unfoldable pub validate_windows : List WindowConfig → Result (Unit {0})
    validate_windows windows = active_windows windows >>= λ made. ok tt

    -- Validate: the settings with their defaults
    unfoldable pub validate_config : Config → Result Config
    validate_config given =
        validate_windows given.windows
        >> (validate_repos given >>= λ cfg.
            refuse (leb_ℤ cfg.tick_interval (pos 0)) "runtime.tick_interval must be positive"
            >> refuse (leb_ℤ cfg.github_poll_interval (pos 0))
                "github.poll_interval must be positive"
            >> validate_limits cfg.limits
            >> validate_maintenance_tasks cfg
            >> validate_concurrency cfg.concurrency
            >> validate_ci_fix cfg.ci_fix
            >> ok cfg)

    abbrev resolved_week_start : String → Option ℕ
    resolved_week_start s =
        let name = to_lower s in week_start_of (if str_eq name "" then "mon" else name)

    -- ResolvedLimits: the caps, the start of the week and the time zone
    unfoldable pub resolved_limits : LimitsConfig → Result ((ℤ × ℤ) × ℕ × Location)
    resolved_limits cfg = elim (resolved_week_start cfg.week_starts_on) [
      | none ↦ err (message "invalid week_starts_on")
      | some start ↦ elim (load_location (if str_eq cfg.reset_tz "" then "UTC" else cfg.reset_tz)) [
        | none ↦ err (wrap "load tz" (message "unknown time zone"))
        | some loc ↦ ok (resolved_caps cfg, start, loc)
      ]
    ]
