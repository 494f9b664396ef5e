-- ===== src/Repository/Usage/Sums.antt =====
-- The sums of the usage queries, each described by the tasks that it adds up.
use claude_ops.Prelude.{
  ℕ, ◌+◌, ◌≤◌, ◌<◌, String, ◌≡◌, refl, Bool, false, ◌&&◌, List, [], ◌∷◌, inl, inr, arith, leb,
  Bool-cases, str_eq, eq_iff, keep, mem_str,
}
use claude_ops.Domain.Task.{Task}
use claude_ops.Domain.Calendar.{Calendar}
use claude_ops.Domain.Usage.{Dates, zero_row}
use claude_ops.Repository.Tasks.{Tasks}
use claude_ops.Repository.Usage.{ended_at, null_time, between, row_sum, distinct_keys, ended_day}

pub keep-eq {ℓ} :
    {A : Type ℓ} (p q : A → Bool) → ((a : A) → p a ≡ q a) → (xs : List A) → keep p xs ≡ keep q xs
keep-eq p q h [] = refl
keep-eq p q h (x ∷ xs) = rw (h x, keep-eq p q h xs) refl

pub keep-keep {ℓ} :
    {A : Type ℓ} (p q : A → Bool) (xs : List A) → keep p (keep q xs) ≡ keep (λ a. q a && p a) xs
keep-keep p q [] = refl
keep-keep p q (x ∷ xs) = elim (Bool-cases (q x)) [
  | inl e ↦ rw (e, keep-keep p q xs) refl
  | inr e ↦ rw (e, keep-keep p q xs) refl
]

-- A key that no row has is the key of an empty sum.
pub row_sum-absent :
    (key : Task → String) (k j : String) (ts : Tasks)
    → mem_str k (distinct_keys key ts) ≡ false
    → row_sum j (keep (λ t. str_eq (key t) k) ts) ≡ zero_row j
unfolding row_sum distinct_keys
row_sum-absent key k j [] h = refl
row_sum-absent key k j (t ∷ ts) h = ground (arith, eq_iff (key t) k, row_sum-absent key k j ts)

-- The tasks of the days from `from` to `to`.
abbrev pub in_days : {c : Calendar} → Dates c → ℕ → ℕ → Task → Bool
in_days dates from to t = leb from (ended_day dates t) && leb (ended_day dates t) to

pub between-in_days :
    {c : Calendar} (dates : Dates c) (from to : ℕ) (t : Task)
    → 0 < dates.midnight from
    → from ≤ to
    → between (null_time (dates.midnight from)) (null_time (dates.midnight (to + 1))) t
      ≡ in_days dates from to t
unfolding between null_time
between-in_days {c} dates from to t h k = ground (
  arith,
  dates.midnight-le_iff from (ended_at t),
  dates.midnight-le_iff (to + 1) (ended_at t),
  dates.midnight-mono from (to + 1) (omega arith),
)
