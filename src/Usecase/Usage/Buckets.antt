-- ===== src/Usecase/Usage/Buckets.antt =====
-- gapFill and computeTotals over the rows of a usage query: the buckets and their sum.
use claude_ops.Prelude.{
  ℕ, zero, suc, ◌+◌, String, ◌≡◌, refl, sym, ap, ◌∙◌, Bool, true, ◌&&◌, List, [], ◌∷◌, map, inl,
  inr, arith, ltb, leb, ◌==◌, if◌then◌else◌, Bool-cases, str_eq, eq_iff, keep, mem_str, Option,
  none, some,
}
use claude_ops.Domain.Task.{Task, Time}
use claude_ops.Domain.Usage.{UsageBucketRow, zero_row, plus_row}
use claude_ops.Repository.Tasks.{Tasks}
use claude_ops.Repository.Usage.{between, row_sum, distinct_keys, sum_usage}
use claude_ops.Repository.Usage.Sums.{keep-eq, keep-keep, row_sum-absent}
use claude_ops.Usecase.Usage.{by_key, row_or_zero, fill, totals_from}

-- The numbers from `first` on.
abbrev pub run : ℕ → ℕ → List ℕ
run zero first = []
run (suc n) first = first ∷ run n (first + 1)

-- Rows that are given by their keys are found by them.
by_key-map :
    (f : String → UsageBucketRow) (k : String) (keys : List String)
    → ((j : String) → (f j).bucket ≡ j)
    → by_key k (map f keys) ≡ (if mem_str k keys then some (f k) else none)
unfolding by_key
by_key-map f k [] named = refl
by_key-map f k (j ∷ keys) named = elim (Bool-cases (mem_str k keys)) [
  | inl e ↦ ground (arith, by_key-map f k keys named, named j)
  | inr e ↦ ground (arith, by_key-map f k keys named, named j, eq_iff j k)
]

row_sum-bucket : (k : String) (ts : Tasks) → (row_sum k ts).bucket ≡ k
unfolding row_sum
row_sum-bucket k [] = refl
row_sum-bucket k (t ∷ ts) = row_sum-bucket k ts

-- The row of a key is the sum of the tasks in range with that key, also where there is none.
pub row_or_zero-sum_usage :
    (key : Task → String) (from to : Option Time) (ts : Tasks) (k : String)
    → row_or_zero (sum_usage key from to ts) k
      ≡ row_sum k (keep (λ t. between from to t && str_eq (key t) k) ts)
unfolding row_or_zero sum_usage
row_or_zero-sum_usage key from to ts k =
    let rows = keep (between from to) ts in
    rw
      (by_key-map (λ j. row_sum j (keep (λ t. str_eq (key t) j) rows)) k (distinct_keys key rows)
        (λ j. row_sum-bucket j (keep (λ t. str_eq (key t) j) rows)))
      elim (Bool-cases (mem_str k (distinct_keys key rows))) [
        | inl e ↦ rw e (ap (row_sum k) (keep-keep _ _ ts))
        | inr e ↦ rw e (sym (row_sum-absent key k k rows e) ∙ ap (row_sum k) (keep-keep _ _ ts))
      ]

-- The loop over a count of steps gives one row for each.
pub fill-run :
    (key : ℕ → String) (rows : List UsageBucketRow) (n cur last : ℕ)
    → cur + n ≡ last + 1
    → fill key rows n cur last ≡ map (λ u. row_or_zero rows (key u)) (run n cur)
unfolding fill
fill-run key rows zero cur last h = refl
fill-run key rows (suc n) cur last h =
    ground (arith, fill-run key rows n (cur + 1) last (omega arith))

map-eq {ℓ κ} :
    {A : Type ℓ} {B : Type κ} (f g : A → B)
    → ((a : A) → f a ≡ g a)
    → (xs : List A) → map f xs ≡ map g xs
map-eq f g h [] = refl
map-eq f g h (x ∷ xs) = rw (h x, map-eq f g h xs) refl

abbrev pub IsInjective : (ℕ → String) → Type 0
IsInjective key = (u v : ℕ) → key u ≡ key v → u ≡ v

-- For a key of numbers: the row of a number sums up the tasks of that number.
module _ (key : ℕ → String) (injective : IsInjective key) (unit : Task → ℕ) where
  same_key : (u v : ℕ) → str_eq (key u) (key v) ≡ (u == v)
  same_key u v = elim (Bool-cases (u == v)) [
    | inl e ↦ ground (arith, eq_iff (key u) (key v), ap key (e' u v e))
    | inr e ↦ ground (arith, eq_iff (key u) (key v), injective u v)
  ]
    where
      e' : (a b : ℕ) → (a == b) ≡ true → a ≡ b
      e' a b h = ground arith

  pub fill-sum_usage :
      (from to : Option Time) (p : Task → Bool) (ts : Tasks) (n cur last : ℕ)
      → ((t : Task) → between from to t ≡ p t)
      → cur + n ≡ last + 1
      → fill key (sum_usage (λ t. key (unit t)) from to ts) n cur last
        ≡ map (λ u. row_sum (key u) (keep (λ t. p t && unit t == u) ts)) (run n cur)
  fill-sum_usage from to p ts n cur last range h =
      let row = λ (u : ℕ).
        row_or_zero-sum_usage (λ t. key (unit t)) from to ts (key u)
        ∙ ap (row_sum (key u)) (
            keep-eq (λ t. between from to t && str_eq (key (unit t)) (key u))
              (λ t. p t && unit t == u) (λ t. rw (range t, same_key (unit t) u) refl) ts) in
      fill-run key (sum_usage (λ t. key (unit t)) from to ts) n cur last h
      ∙ map-eq (λ u. row_or_zero (sum_usage (λ t. key (unit t)) from to ts) (key u))
          (λ u. row_sum (key u) (keep (λ t. p t && unit t == u) ts)) row (run n cur)

plus_row-zero : (acc : UsageBucketRow) → acc ≡ plus_row acc (zero_row "")
plus_row-zero acc = ground arith

none_below :
    (unit : Task → ℕ) (p : Task → Bool) (first : ℕ) (ts : Tasks)
    → row_sum "" (keep (λ t. p t && leb first (unit t) && ltb (unit t) (first + 0)) ts)
      ≡ zero_row ""
unfolding row_sum
none_below unit p first [] = refl
none_below unit p first (t ∷ ts) = ground (arith, none_below unit p first ts)

-- The sum over a run is the sum over its first number and over the rest.
row_sum-split :
    (unit : Task → ℕ) (p : Task → Bool) (k : String) (acc : UsageBucketRow) (n first : ℕ)
    (ts : Tasks)
    → plus_row (plus_row acc (row_sum k (keep (λ t. p t && unit t == first) ts))) (
        row_sum "" (keep (λ t. p t && leb (first + 1) (unit t) && ltb (unit t) (first + 1 + n)) ts))
      ≡ plus_row acc
          (row_sum "" (keep (λ t. p t && leb first (unit t) && ltb (unit t) (first + suc n)) ts))
unfolding row_sum
row_sum-split unit p k acc n first [] = ground arith
row_sum-split unit p k acc n first (t ∷ ts) = ground (arith, row_sum-split unit p k acc n first ts)

-- Adding up the rows of a run of numbers is adding up the tasks of the run.
pub totals_from-run :
    (key : ℕ → String) (unit : Task → ℕ) (p : Task → Bool) (ts : Tasks) (acc : UsageBucketRow)
    (n first : ℕ)
    → totals_from acc (map (λ u. row_sum (key u) (keep (λ t. p t && unit t == u) ts)) (run n first))
      ≡ plus_row acc
          (row_sum "" (keep (λ t. p t && leb first (unit t) && ltb (unit t) (first + n)) ts))
unfolding totals_from
totals_from-run key unit p ts acc zero first =
    plus_row-zero acc ∙ ap (plus_row acc) (sym (none_below unit p first ts))
totals_from-run key unit p ts acc (suc n) first =
    totals_from-run key unit p ts
      (plus_row acc (row_sum (key first) (keep (λ t. p t && unit t == first) ts))) n (first + 1)
    ∙ row_sum-split unit p (key first) acc n first ts
