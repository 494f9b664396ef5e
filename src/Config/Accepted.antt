-- ===== src/Config/Accepted.antt =====
-- The whole check of internal/config/validate.go: what holds of settings that it accepts.
use claude_ops.Prelude.{
  ◌≡◌, refl, sym, subst, ap, ◌∙◌, String, true, false, List, [], ◌∷◌, map, ℤ, pos, leb_ℤ, Result,
  ok, err, arith, str_eq_self, eq_iff, mem_str, ◌>>=◌,
}
use claude_ops.Config.Settings.{RepoConfig, Config}
use claude_ops.Config.Checks.{refuse, ◌>>◌, validate_ci_fix, validate_concurrency}
use claude_ops.Config.Validate.{
  TextRules, validate_repo, validate_repos_from, validate_repos, validate_config, validate_windows,
  validate_maintenance_tasks, validate_limits, with_defaults, has_owner,
}
use claude_ops.Domain.Calendar.{Calendar}
use claude_ops.Config.Defaults.{AllDefaulted, map-AllDefaulted}
use claude_ops.Config.Bounds.{
  IsConcurrency, IsCiFix, validate_concurrency-ok_iff, validate_ci_fix-ok_iff, ◌<ℤ◌,
}

-- Both parts of a check that succeeds do.
both_ok {ℓ} :
    {B : Type ℓ} (m : Result (Unit {0})) (k : Result B) (b : B)
    → (m >> k) ≡ ok b
    → (m ≡ ok tt) × (k ≡ ok b)
both_ok (ok tt) k b h = (refl, h)
both_ok (err e) k b h = absurd (failed h)
  where
    failed : ¬ ((err e >> k) ≡ ok b)
    failed x = cc

bind_ok {ℓ κ} :
    {A : Type ℓ} {B : Type κ} (m : Result A) (f : A → Result B) (b : B)
    → (m >>= f) ≡ ok b
    → (a : A) × (m ≡ ok a) × (f a ≡ ok b)
bind_ok (ok a) f b h = (a, refl, h)
bind_ok (err e) f b h = absurd (failed h)
  where
    failed : ¬ ((err e >>= f) ≡ ok b)
    failed x = cc

-- No text occurs twice.
abbrev pub IsNodup : List String → Type 0
IsNodup [] = Unit {0}
IsNodup (x ∷ xs) = (mem_str x xs ≡ false) × IsNodup xs

past_refuse : (z : ℤ) (text : String) → refuse (leb_ℤ z (pos 0)) text ≡ ok tt → pos 0 <ℤ z
past_refuse z text h = ground arith

module _ (rules : TextRules) where
  open rules use {trim}

  abbrev pub names : List RepoConfig → List String
  names repos = map (λ r. trim r.name) repos

  abbrev pub AllOwned : List RepoConfig → Type 0
  AllOwned [] = Unit {0}
  AllOwned (r ∷ more) = (has_owner (trim r.name) ≡ true) × AllOwned more

  repo_checked :
      (seen : List String) (r : RepoConfig)
      → validate_repo rules seen r ≡ ok tt
      → (has_owner (trim r.name) ≡ true) × (mem_str (trim r.name) seen ≡ false)
  unfolding validate_repo
  repo_checked seen r h = (ground arith, ground arith)

  repos_step :
      (seen : List String) (r : RepoConfig) (more out : List RepoConfig)
      → validate_repos_from rules seen (r ∷ more) ≡ ok out
      → (validate_repo rules seen r ≡ ok tt)
        × ((rest : List RepoConfig) × (validate_repos_from rules (trim r.name ∷ seen) more
              ≡ ok rest)
            × (out ≡ with_defaults rules r ∷ rest))
  unfolding validate_repos_from
  repos_step seen r more out h =
      let (a, b) = both_ok (validate_repo rules seen r) _ out h in
      (a, parts (validate_repos_from rules (trim r.name ∷ seen) more) b)
    where
      parts :
          (m : Result (List RepoConfig))
          → (m >>= λ rest. ok (with_defaults rules r ∷ rest)) ≡ ok out
          → (rest : List RepoConfig) × (m ≡ ok rest) × (out ≡ with_defaults rules r ∷ rest)
      parts (ok rest) h = (rest, refl, cc)
      parts (err e) h = absurd (cc)

  -- The names that were seen do not come again.
  repos_fresh :
      (seen : List String) (repos out : List RepoConfig) (s : String)
      → validate_repos_from rules seen repos ≡ ok out
      → mem_str s seen ≡ true
      → mem_str s (names repos) ≡ false
  repos_fresh seen [] out s h m = refl
  repos_fresh seen (r ∷ more) out s h m =
      let (a, (rest, b, e)) = repos_step seen r more out h in
      ground (
        arith,
        eq_iff (trim r.name) s,
        repo_checked seen r a,
        repos_fresh (trim r.name ∷ seen) more rest s b,
        ap (λ x. mem_str x seen),
      )

  repos_checked :
      (seen : List String) (repos out : List RepoConfig)
      → validate_repos_from rules seen repos ≡ ok out
      → IsNodup (names repos) × AllOwned repos × (out ≡ map (with_defaults rules) repos)
  unfolding validate_repos_from
  repos_checked seen [] out h = (tt, tt, cc)
  repos_checked seen (r ∷ more) out h =
      let (a, (rest, b, e)) = repos_step seen r more out h in
      let (distinct, owned, same) = repos_checked (trim r.name ∷ seen) more rest b in
      let mine : mem_str (trim r.name) (trim r.name ∷ seen) ≡ true =
        rw (str_eq_self (trim r.name)) refl in
      (
        (repos_fresh (trim r.name ∷ seen) more rest (trim r.name) b mine, distinct),
        ((repo_checked seen r a).0, owned),
        e ∙ ap (λ xs. with_defaults rules r ∷ xs) same,
      )

  repos_of :
      (given cfg : Config)
      → validate_repos rules given ≡ ok cfg
      → (out : List RepoConfig) × (validate_repos_from rules [] given.repos ≡ ok out)
        × (record given { repos = out } ≡ cfg)
  unfolding validate_repos
  repos_of given cfg h =
      let (out, a, b) = bind_ok (validate_repos_from rules [] given.repos) _ cfg h in (out, a, cc)

  -- Settings that are accepted are those that were given, with defaults set in their repositories: the
  -- branch main where none is given, and five minutes for the checks of one that has commands and no
  -- positive timeout. The repositories have an owner and a name each, and no two the same once trimmed; the
  -- concurrency, the auto-fixing and the two intervals are within their bounds.
  pub validate_config-IsValid :
      (c : Calendar) (given cfg : Config)
      → validate_config rules c given ≡ ok cfg
      → (cfg ≡ record given { repos = cfg.repos })
        × AllDefaulted given.repos cfg.repos
        × IsNodup (names given.repos)
        × AllOwned given.repos
        × IsConcurrency cfg.concurrency
        × IsCiFix cfg.ci_fix
        × (pos 0 <ℤ cfg.tick_interval)
        × (pos 0 <ℤ cfg.github_poll_interval)
  unfolding validate_config
  validate_config-IsValid c given cfg h =
      let (_, h1) = both_ok (validate_windows rules c given.windows) _ cfg h in
      let (mid, repos_ok, h2) = bind_ok (validate_repos rules given) _ cfg h1 in
      let (h3, same) = both_ok _ (ok mid) cfg h2 in
      let (h4, fix_ok) = both_ok _ (validate_ci_fix mid.ci_fix) tt h3 in
      let (h5, slots_ok) = both_ok _ (validate_concurrency mid.concurrency) tt h4 in
      let (h6, tasks_ok) = both_ok _ (validate_maintenance_tasks rules mid) tt h5 in
      let (h7, limits_ok) = both_ok _ (validate_limits rules c mid.limits) tt h6 in
      let (tick_ok, poll_ok) =
        both_ok (refuse (leb_ℤ mid.tick_interval (pos 0)) "runtime.tick_interval must be positive")
          (refuse (leb_ℤ mid.github_poll_interval (pos 0)) "github.poll_interval must be positive")
          tt h7 in
      let (out, made, stored) = repos_of given mid repos_ok in
      let (distinct, owned, defaults) = repos_checked [] given.repos out made in
      let is_mid : mid ≡ cfg = cc in
      let is_given : mid ≡ record given { repos = map (with_defaults rules) given.repos } =
        rw (← defaults) (sym stored) in
      subst
        (λ (x : Config).
          (x ≡ record given { repos = x.repos })
          × AllDefaulted given.repos x.repos
          × IsNodup (names given.repos)
          × AllOwned given.repos
          × IsConcurrency x.concurrency
          × IsCiFix x.ci_fix
          × (pos 0 <ℤ x.tick_interval)
          × (pos 0 <ℤ x.github_poll_interval))
        is_mid
        (
          is_given ∙ rw is_given refl,
          rw is_given (map-AllDefaulted rules given.repos),
          distinct,
          owned,
          (validate_concurrency-ok_iff mid.concurrency).0 slots_ok,
          (validate_ci_fix-ok_iff mid.ci_fix).0 fix_ok,
          past_refuse mid.tick_interval _ tick_ok,
          past_refuse mid.github_poll_interval _ poll_ok,
        )
