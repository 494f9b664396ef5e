-- ===== src/Repository/Usage/Models.antt =====
-- SumByModel of internal/repository/usage_repository.go: the order of the rows, and their sums.
use claude_ops.Prelude.{
  ℕ, zero, suc, ◌+◌, ◌≤◌, String, ◌≡◌, refl, ap, List, [], ◌∷◌, inl, inr, arith, ltb, if◌then◌else◌,
  Bool-cases, length, ok,
}
use claude_ops.Domain.Calendar.{Calendar}
use claude_ops.Domain.Usage.{UsageModelRow, Dates}
use claude_ops.Repository.Tasks.{Tasks}
use claude_ops.Repository.Usage.{sum_by_model, sum_usage_by_model, null_time}
use claude_ops.Repository.Usage.Aggregate.{
  ModelDecoder, aggregate_models, exchange_pass, exchange_sort,
}
use claude_ops.Repository.Usage.Booked.{
  total, booked_all, IsBooked, IsBooked-sorted, aggregate_models-IsBooked,
}

-- No row costs more than `n`.
abbrev AllWithin : ℕ → List UsageModelRow → Type 0
AllWithin n [] = Unit {0}
AllWithin n (r ∷ rows) = (r.cost_usd ≤ n) × AllWithin n rows

-- Each row costs at least as much as every later one.
abbrev pub IsDescending : List UsageModelRow → Type 0
IsDescending [] = Unit {0}
IsDescending (r ∷ rows) = AllWithin r.cost_usd rows × IsDescending rows

first_costs :
    (top r : UsageModelRow)
    → (top.cost_usd ≤ (if ltb top.cost_usd r.cost_usd then r else top).cost_usd)
      × ((if ltb top.cost_usd r.cost_usd then top else r).cost_usd
          ≤ (if ltb top.cost_usd r.cost_usd then r else top).cost_usd)
first_costs top r = elim (Bool-cases (ltb top.cost_usd r.cost_usd)) [
  | inl e ↦ rw e (ground arith)
  | inr e ↦ rw e (ground arith)
]

exchange_pass-within :
    (top : UsageModelRow) (rows : List UsageModelRow)
    → (top.cost_usd ≤ (exchange_pass top rows).0.cost_usd)
      × AllWithin (exchange_pass top rows).0.cost_usd (exchange_pass top rows).1
unfolding exchange_pass
exchange_pass-within top [] = (omega arith, tt)
exchange_pass-within top (r ∷ rows) =
    let first = if ltb top.cost_usd r.cost_usd then r else top in
    let (a, b) = exchange_pass-within first rows in
    let (x, y) = first_costs top r in (omega (arith, x, a), (omega (arith, y, a), b))

exchange_pass-AllWithin :
    (n : ℕ) (top : UsageModelRow) (rows : List UsageModelRow)
    → top.cost_usd ≤ n
    → AllWithin n rows
    → ((exchange_pass top rows).0.cost_usd ≤ n) × AllWithin n (exchange_pass top rows).1
unfolding exchange_pass
exchange_pass-AllWithin n top [] h k = (h, tt)
exchange_pass-AllWithin n top (r ∷ rows) h k = elim (Bool-cases (ltb top.cost_usd r.cost_usd)) [
  | inl e ↦ rw e (ground (arith, exchange_pass-AllWithin n r rows k.0 k.1))
  | inr e ↦ rw e (ground (arith, exchange_pass-AllWithin n top rows h k.1))
]

exchange_pass-length :
    (top : UsageModelRow) (rows : List UsageModelRow)
    → length (exchange_pass top rows).1 ≡ length rows
unfolding exchange_pass
exchange_pass-length top [] = refl
exchange_pass-length top (r ∷ rows) =
    ap suc (exchange_pass-length (if ltb top.cost_usd r.cost_usd then r else top) rows)

exchange_sort-AllWithin :
    (n k : ℕ) (rows : List UsageModelRow) → AllWithin n rows → AllWithin n (exchange_sort k rows)
unfolding exchange_sort
exchange_sort-AllWithin n zero [] h = h
exchange_sort-AllWithin n zero (r ∷ rows) h = h
exchange_sort-AllWithin n (suc k) [] h = h
exchange_sort-AllWithin n (suc k) (r ∷ rows) h =
    let (a, b) = exchange_pass-AllWithin n r rows h.0 h.1 in
    (a, exchange_sort-AllWithin n k (exchange_pass r rows).1 b)

-- As many rounds as there are rows put them in order.
pub exchange_sort-IsDescending :
    (k : ℕ) (rows : List UsageModelRow) → length rows ≤ k → IsDescending (exchange_sort k rows)
unfolding exchange_sort
exchange_sort-IsDescending zero [] h = tt
exchange_sort-IsDescending zero (r ∷ rows) h = absurd (omega arith)
exchange_sort-IsDescending (suc k) [] h = tt
exchange_sort-IsDescending (suc k) (r ∷ rows) h = (
  exchange_sort-AllWithin (exchange_pass r rows).0.cost_usd k (exchange_pass r rows).1
      (exchange_pass-within r rows).1,
  exchange_sort-IsDescending k (exchange_pass r rows).1
      (omega (arith, exchange_pass-length r rows)),
)

exchange_pass-total :
    (f : UsageModelRow → ℕ) (top : UsageModelRow) (rows : List UsageModelRow)
    → f (exchange_pass top rows).0 + total f (exchange_pass top rows).1 ≡ f top + total f rows
unfolding exchange_pass
exchange_pass-total f top [] = refl
exchange_pass-total f top (r ∷ rows) = elim (Bool-cases (ltb top.cost_usd r.cost_usd)) [
  | inl e ↦ rw e (omega (arith, exchange_pass-total f r rows))
  | inr e ↦ rw e (omega (arith, exchange_pass-total f top rows))
]

-- Sorting neither loses nor repeats a row: every sum over the rows stays.
pub exchange_sort-total :
    (f : UsageModelRow → ℕ) (k : ℕ) (rows : List UsageModelRow)
    → total f (exchange_sort k rows) ≡ total f rows
unfolding exchange_sort
exchange_sort-total f zero [] = refl
exchange_sort-total f zero (r ∷ rows) = refl
exchange_sort-total f (suc k) [] = refl
exchange_sort-total f (suc k) (r ∷ rows) =
    omega (arith, exchange_pass-total f r rows, exchange_sort-total f k (exchange_pass r rows).1)

-- The report by model never fails on a database that answers, and its rows stand by falling cost. What is
-- booked are the entries of the done tasks that ended in the range, where a task without entries books its
-- own columns under unknown, as an entry without a name is; each model has at most one row, which has its
-- tokens and its number of entries added up, and its costs by the sums of floats in the order of the entries.
pub sum_by_model-IsDescending :
    {c : Calendar} (dates : Dates c) (d : ModelDecoder) (ts : Tasks) (from to : ℕ)
    → (let tasks =
          sum_usage_by_model (null_time (dates.midnight from)) (null_time (dates.midnight to)) ts in
        (rows : List UsageModelRow) × (sum_by_model dates d ts from to ≡ ok rows)
        × IsDescending rows
        × ((model : String) → IsBooked d (booked_all d tasks) model rows))
unfolding sum_by_model
sum_by_model-IsDescending dates d ts from to =
    let tasks =
      sum_usage_by_model (null_time (dates.midnight from)) (null_time (dates.midnight to)) ts in
    let rows = aggregate_models d tasks [] in
    (
      exchange_sort (length rows) rows,
      refl,
      exchange_sort-IsDescending (length rows) rows (omega arith),
      λ model.
          IsBooked-sorted d (booked_all d tasks) model rows (exchange_sort (length rows) rows)
            (λ f. exchange_sort-total f (length rows) rows)
            (aggregate_models-IsBooked d tasks model),
    )
