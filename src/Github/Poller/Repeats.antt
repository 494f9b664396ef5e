-- ===== src/Github/Poller/Repeats.antt =====
-- internal/github/poller.go: polling again, and the rules of the table.
use claude_ops.Prelude.{
  ℕ, ◌≤◌, String, ◌≡◌, subst, Bool, true, false, not, ◌&&◌, ◌||◌, ◌==◌, List, [], ◌∷◌, ◌++◌, Result,
  ok, err, arith, count, count-append, eq_iff, Bool-cases, Result-cases, inl, inr,
}
use claude_ops.Domain.Task.{Task}
use claude_ops.Repository.Tasks.{Tasks, stored, create, exists_by_repo_and_issue, of_repo}
use claude_ops.Usecase.Tasks.{RepoConfig}
use claude_ops.Usecase.Tasks.Duplicates.{is_active, exists-count, create-appends}
use claude_ops.Github.Poller.{
  Issue, has_all_labels, polled_task, or_unchanged, poll_issue, poll_issues, poll_repo, poll,
}

-- At most one task of an issue waits or runs.
unfoldable pub NoRepeats : Tasks → Type 0
NoRepeats ts = (repo : String) (issue : ℕ) → count (is_active repo issue) ts ≤ 1

appended-NoRepeats :
    (row : Task) (ts : Tasks)
    → exists_by_repo_and_issue row.repo_full_name row.issue_number ts ≡ false
    → NoRepeats ts
    → NoRepeats (ts ++ row ∷ [])
unfolding NoRepeats
appended-NoRepeats row ts new h repo issue =
    elim (Bool-cases (of_repo repo row && row.issue_number == issue)) [
      | inl e ↦
          let repos : row.repo_full_name ≡ repo =
            (eq_iff row.repo_full_name repo).0 (ground arith) in
          let issues : row.issue_number ≡ issue = ground arith in
          let fresh : exists_by_repo_and_issue repo issue ts ≡ false =
            subst (λ (r : String). exists_by_repo_and_issue r issue ts ≡ false) repos
              (subst (λ (i : ℕ). exists_by_repo_and_issue row.repo_full_name i ts ≡ false) issues
                new) in
          ground (
            arith,
            count-append (is_active repo issue) ts (row ∷ []),
            exists-count repo issue ts fresh,
          )
      | inr e ↦ ground (arith, count-append (is_active repo issue) ts (row ∷ []), h repo issue)
    ]

or_unchanged-NoRepeats :
    (row : Task) (ts : Tasks)
    → exists_by_repo_and_issue row.repo_full_name row.issue_number ts ≡ false
    → NoRepeats ts
    → NoRepeats (or_unchanged ts (create row ts))
unfolding or_unchanged
or_unchanged-NoRepeats row ts new h = elim (Result-cases (create row ts)) [
  | inl (after, e) ↦
      rw e
        (subst NoRepeats (create-appends row ts after e) (appended-NoRepeats (stored row) ts new h))
  | inr (x, e) ↦ rw e h
]

poll_issue-NoRepeats :
    (repo : RepoConfig) (i : Issue) (ts : Tasks) → NoRepeats ts → NoRepeats (poll_issue repo i ts)
unfolding poll_issue polled_task
poll_issue-NoRepeats repo i ts h =
    elim (Bool-cases (i.is_pull_request || not (has_all_labels i.labels repo.labels))) [
      | inl e ↦ rw e h
      | inr e ↦
          elim (Bool-cases
            (i.exists_fails || exists_by_repo_and_issue repo.name i.number ts || i.create_fails)) [
              | inl f ↦ rw (e, f) h
              | inr f ↦ rw (e, f) (or_unchanged-NoRepeats (polled_task repo i) ts (ground arith) h)
            ]
    ]

poll_issues-NoRepeats :
    (repo : RepoConfig) (is : List Issue) (ts : Tasks)
    → NoRepeats ts
    → NoRepeats (poll_issues repo is ts)
unfolding poll_issues
poll_issues-NoRepeats repo [] ts h = h
poll_issues-NoRepeats repo (i ∷ is) ts h =
    poll_issues-NoRepeats repo is (poll_issue repo i ts) (poll_issue-NoRepeats repo i ts h)

poll_repo-NoRepeats :
    (repo : RepoConfig) (named : Bool) (r : Result (List Issue)) (ts : Tasks)
    → NoRepeats ts
    → NoRepeats (poll_repo repo named r ts)
unfolding poll_repo
poll_repo-NoRepeats repo named (err e) ts h = h
poll_repo-NoRepeats repo true (ok is) ts h = poll_issues-NoRepeats repo is ts h
poll_repo-NoRepeats repo false (ok is) ts h = h

-- A poll keeps it that at most one task of an issue waits or runs, whatever GitHub lists, however
-- often it lists an issue, and whichever calls of the database fail.
pub poll-NoRepeats :
    (named : String → Bool) (listed : RepoConfig → Result (List Issue)) (repos : List RepoConfig)
    (ts : Tasks)
    → NoRepeats ts
    → NoRepeats (poll named listed repos ts)
unfolding poll
poll-NoRepeats named listed [] ts h = h
poll-NoRepeats named listed (r ∷ rs) ts h =
    poll-NoRepeats named listed rs (poll_repo r (named r.name) (listed r) ts)
      (poll_repo-NoRepeats r (named r.name) (listed r) ts h)
