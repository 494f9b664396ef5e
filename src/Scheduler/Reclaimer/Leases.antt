-- ===== src/Scheduler/Reclaimer/Leases.antt =====
-- How long a claim lasts under the reclaimer (internal/scheduler/reclaimer.go).
use claude_ops.Prelude.{
  ℕ, ◌+◌, ◌<◌, String, ◌≡◌, refl, ◌∙◌, Bool, true, not, ◌&&◌, some, List, [], ◌∷◌, any, find, ltb,
  arith, pos, Bool-cases, inl, inr,
}
use claude_ops.Domain.Task.{Time, Task, is_running}
use claude_ops.Repository.Tasks.{Tasks, has_id, is_stale, reclaimed, reclaim_stale}
use claude_ops.Repository.Tasks.Lookup.{find-update_where}
use claude_ops.Scheduler.Reclaimer.{Round, cutoff_of, reclaim_round, reclaim_rounds, start}

-- A round that reaches the database after the lease of a claim.
abbrev pub ends_lease : ℕ → Time → Round → Bool
ends_lease lease claimed r = not r.fails && ltb (claimed + lease) r.clock

-- The row of a task after some rounds.
abbrev Row : ℕ → Time → List Round → Task → Task → Type 0
Row lease claimed rounds t u =
    is_running u.status ≡ (is_running t.status && not (any (ends_lease lease claimed) rounds))

rounds-Row :
    (lease : ℕ) (claimed : Time) (id : String) (rounds : List Round) (ts : Tasks) (t : Task)
    → t.claimed_at ≡ some claimed
    → find (has_id id) ts ≡ some t
    → (u : Task) × (find (has_id id) (reclaim_rounds (pos lease) rounds ts) ≡ some u)
      × Row lease claimed rounds t u
unfolding reclaim_rounds reclaim_round reclaim_stale
rounds-Row lease claimed id [] ts t h f = (t, f, ground arith)
rounds-Row lease claimed id (r ∷ more) ts t h f =
    let cutoff = cutoff_of r.clock (pos lease) in
    let kept = rounds-Row lease claimed id more ts t h f in
    elim (Bool-cases r.fails) [
      | inl e ↦ rw e kept
      | inr e ↦
          let found =
            find-update_where (is_stale cutoff) (reclaimed r.db_now) id ts t (λ u. refl) f in
          elim (Bool-cases (is_stale cutoff t)) [
            | inl stale ↦
                let (u, g, row) =
                  rounds-Row lease claimed id more (reclaim_stale cutoff r.db_now ts)
                    (reclaimed r.db_now t) h (found ∙ rw stale refl) in
                (u, rw e g, ground arith)
            | inr live ↦
                let (u, g, row) =
                  rounds-Row lease claimed id more (reclaim_stale cutoff r.db_now ts) t h
                    (found ∙ rw live refl) in
                (u, rw e g, ground arith)
          ]
    ]

-- A running task with a time of claim, in a table where it is found by its id, is there after the rounds
-- of a configured reclaimer, and is running exactly if no round reached the database more than the lease
-- after the claim.
pub start-row :
    (interval lease : ℕ) (claimed : Time) (id : String) (rounds : List Round) (ts : Tasks)
    (t : Task)
    → 0 < interval
    → 0 < lease
    → is_running t.status ≡ true
    → t.claimed_at ≡ some claimed
    → find (has_id id) ts ≡ some t
    → (u : Task) × (find (has_id id) (start true (pos interval) (pos lease) rounds ts) ≡ some u)
      × (is_running u.status ≡ not (any (ends_lease lease claimed) rounds))
unfolding start
start-row interval lease claimed id rounds ts t hi hl running h f =
    let (u, g, row) = rounds-Row lease claimed id rounds ts t h f in
    (u, ground (arith), row ∙ rw running refl)
