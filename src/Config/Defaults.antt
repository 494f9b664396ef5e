-- ===== src/Config/Defaults.antt =====
-- The defaults that validateRepos of internal/config/validate.go sets in the repositories it accepts.
use claude_ops.Prelude.{
  ◌*◌, ◌^◌, ◌≡◌, ◌≢◌, ◌⊎◌, refl, inl, inr, String, not, ◌&&◌, List, [], ◌∷◌, map, ℤ, pos, leb_ℤ,
  ◌≤ℤ◌, arith, str_eq, eq_iff, if◌then◌else◌, Bool-cases,
}
use claude_ops.Config.Settings.{RepoConfig}
use claude_ops.Config.Validate.{TextRules, with_defaults, is_empty, five_minutes}
use claude_ops.Config.Bounds.{◌<ℤ◌}

-- What is accepted of a repository: what was given, with the branch main and five minutes for its checks
-- where these are left out.
pub record IsDefaulted (r out : RepoConfig) : Type 0 where
  pub kept : out ≡ record r {
    default_branch = out.default_branch;
    checks = record { commands = r.checks.commands; timeout = out.checks.timeout };
  }
  pub branch :
      (r.default_branch ≡ "") × (out.default_branch ≡ "main")
      ⊎ (r.default_branch ≢ "") × (out.default_branch ≡ r.default_branch)
  pub timeout :
      (r.checks.commands ≢ [])
        × (r.checks.timeout ≤ℤ pos 0)
        × (out.checks.timeout ≡ pos (300 * 10 ^ 9))
      ⊎ ((r.checks.commands ≡ []) ⊎ (pos 0 <ℤ r.checks.timeout))
        × (out.checks.timeout ≡ r.checks.timeout)

abbrev pub AllDefaulted : List RepoConfig → List RepoConfig → Type 0
AllDefaulted [] [] = Unit {0}
AllDefaulted (r ∷ more) (out ∷ rest) = IsDefaulted r out × AllDefaulted more rest
AllDefaulted repos outs = ⊥

branch-cases :
    (given : String)
    → (let out = if str_eq given "" then "main" else given in
        (given ≡ "") × (out ≡ "main") ⊎ (given ≢ "") × (out ≡ given))
branch-cases given = elim (Bool-cases (str_eq given "")) [
  | inl e ↦ inl ((eq_iff given "").0 e, rw e refl)
  | inr e ↦ inr (λ h. absurd (ground (arith, eq_iff given "", h)), rw e refl)
]

timeout-cases :
    (rules : TextRules) (commands : List String) (t : ℤ)
    → (let out = if not (is_empty rules commands) && leb_ℤ t (pos 0) then five_minutes else t in
        (commands ≢ []) × (t ≤ℤ pos 0) × (out ≡ pos (300 * 10 ^ 9))
        ⊎ ((commands ≡ []) ⊎ (pos 0 <ℤ t)) × (out ≡ t))
timeout-cases rules [] t = inr (inl refl, refl)
timeout-cases rules (x ∷ xs) t = elim (Bool-cases (leb_ℤ t (pos 0))) [
  | inl e ↦ inl (λ h. absurd (cc), e, rw e refl)
  | inr e ↦ inr (inr (ground arith), rw e refl)
]

module _ (rules : TextRules) where
  with_defaults-IsDefaulted : (r : RepoConfig) → IsDefaulted r (with_defaults rules r)
  unfolding with_defaults
  with_defaults-IsDefaulted r = record {
    kept = refl;
    branch = branch-cases r.default_branch;
    timeout = timeout-cases rules r.checks.commands r.checks.timeout;
  }

  pub map-AllDefaulted :
      (repos : List RepoConfig) → AllDefaulted repos (map (with_defaults rules) repos)
  map-AllDefaulted [] = tt
  map-AllDefaulted (r ∷ more) = (with_defaults-IsDefaulted r, map-AllDefaulted more)
