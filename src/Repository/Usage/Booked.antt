-- ===== src/Repository/Usage/Booked.antt =====
-- The map of the models that SumByModel of internal/repository/usage_repository.go builds: what is booked
-- under each model.
use claude_ops.Prelude.{
  ℕ, ◌+◌, ◌≤◌, String, ◌≡◌, refl, sym, ap, ◌∙◌, List, [], ◌∷◌, ◌++◌, inl, inr, true, false, arith,
  ◌&&◌, ◌==◌, if◌then◌else◌, Bool-cases, str_eq, eq_iff,
}
use claude_ops.Domain.Task.{Task}
use claude_ops.Domain.Usage.{UsageModelRow}
use claude_ops.Repository.Tasks.{Tasks}
use claude_ops.Repository.Usage.Aggregate.{
  ModelUsageEntry, ModelDecoder, add_entry, no_usage, aggregate_entry, aggregate_entries,
  aggregate_models, entries_of, or_unknown, task_entry,
}

abbrev pub Bookings : Type 0
Bookings = List (String × ModelUsageEntry)

-- A sum over the rows of a list.
abbrev pub total : (UsageModelRow → ℕ) → List UsageModelRow → ℕ
total f [] = 0
total f (r ∷ rows) = f r + total f rows

-- A number of the rows of a model.
abbrev pub of_model : String → (UsageModelRow → ℕ) → UsageModelRow → ℕ
of_model model f r = if str_eq r.model_id model then f r else 0

-- What a task books.
abbrev named : Bookings → Bookings
named [] = []
named ((key, e) ∷ more) = (if str_eq key "" then "unknown" else key, e) ∷ named more

abbrev booked : ModelDecoder → Task → Bookings
booked d t = elim (d.entries t.model_usage_json) [
  | [] ↦
      (
        "unknown",
        record {
          input_tokens = t.total_input_tokens;
          output_tokens = t.total_output_tokens;
          cache_read_input_tokens = t.cache_read_input_tokens;
          cache_creation_input_tokens = t.cache_creation_input_tokens;
          cost_usd = d.to_float t.cost_usd;
        },
      )
      ∷ []
  | e ∷ more ↦ named (e ∷ more)
]

abbrev pub booked_all : ModelDecoder → Tasks → Bookings
booked_all d [] = []
booked_all d (t ∷ ts) = booked d t ++ booked_all d ts

-- A number of the entries of a model, added up, and its costs, after a cost.
abbrev pub added : String → (ModelUsageEntry → ℕ) → Bookings → ℕ
added model g [] = 0
added model g ((key, e) ∷ more) = (if str_eq key model then g e else 0) + added model g more

abbrev pub cost_from : ModelDecoder → String → ℕ → Bookings → ℕ
cost_from d model cost [] = cost
cost_from d model cost ((key, e) ∷ more) =
    cost_from d model (if str_eq key model then d.plus cost e.cost_usd else cost) more

-- The rows of a model have what is booked under it.
pub record IsBooked (d : ModelDecoder) (es : Bookings) (model : String) (rows : List UsageModelRow)
    : Type 0 where
  pub one_row : total (of_model model (λ r. 1)) rows ≤ 1
  pub costs : total (of_model model (λ r. r.cost_usd)) rows ≡ cost_from d model 0 es
  pub tasks : total (of_model model (λ r. r.task_count)) rows ≡ added model (λ e. 1) es
  pub inputs :
      total (of_model model (λ r. r.input_tokens)) rows ≡ added model (λ e. e.input_tokens) es
  pub outputs :
      total (of_model model (λ r. r.output_tokens)) rows ≡ added model (λ e. e.output_tokens) es
  pub cache_reads :
      total (of_model model (λ r. r.cache_read_tokens)) rows
      ≡ added model (λ e. e.cache_read_input_tokens) es
  pub cache_creations :
      total (of_model model (λ r. r.cache_creation_tokens)) rows
      ≡ added model (λ e. e.cache_creation_input_tokens) es

-- It says nothing of the order of the rows.
pub IsBooked-sorted :
    (d : ModelDecoder) (es : Bookings) (model : String) (rows sorted : List UsageModelRow)
    → ((f : UsageModelRow → ℕ) → total f sorted ≡ total f rows)
    → IsBooked d es model rows
    → IsBooked d es model sorted
IsBooked-sorted d es model rows sorted same h = record {
  one_row = omega (arith, same (of_model model (λ r. 1)), h.one_row);
  costs = same (of_model model (λ r. r.cost_usd)) ∙ h.costs;
  tasks = same (of_model model (λ r. r.task_count)) ∙ h.tasks;
  inputs = same (of_model model (λ r. r.input_tokens)) ∙ h.inputs;
  outputs = same (of_model model (λ r. r.output_tokens)) ∙ h.outputs;
  cache_reads = same (of_model model (λ r. r.cache_read_tokens)) ∙ h.cache_reads;
  cache_creations = same (of_model model (λ r. r.cache_creation_tokens)) ∙ h.cache_creations;
}

add_nothing : (n : ℕ) → n + 0 ≡ n
add_nothing n = omega arith

nothing_first : (n : ℕ) → 0 + n ≡ n
nothing_first n = omega arith

module _ (d : ModelDecoder) where
  book : Bookings → List UsageModelRow → List UsageModelRow
  book [] rows = rows
  book ((key, e) ∷ more) rows = book more (aggregate_entry d key e rows)

  book-append :
      (xs ys : Bookings) (rows : List UsageModelRow) → book (xs ++ ys) rows ≡ book ys (book xs rows)
  unfolding book
  book-append [] ys rows = refl
  book-append ((key, e) ∷ xs) ys rows = book-append xs ys (aggregate_entry d key e rows)

  aggregate_entries-book :
      (es : Bookings) (rows : List UsageModelRow)
      → aggregate_entries d es rows ≡ book (named es) rows
  unfolding aggregate_entries book
  aggregate_entries-book [] rows = refl
  aggregate_entries-book ((key, e) ∷ more) rows =
      aggregate_entries-book more (aggregate_entry d (or_unknown key) e rows)

  entries_of-booked :
      (t : Task) (rows : List UsageModelRow)
      → aggregate_entries d (entries_of d t) rows ≡ book (booked d t) rows
  entries_of-booked t rows =
      elim (d.entries t.model_usage_json)
        as (λ es.
          aggregate_entries d
            (elim es [ [] ↦ ("unknown", task_entry d t) ∷ [] | e ∷ more ↦ e ∷ more ]) rows
          ≡ book (elim es [ [] ↦ ("unknown", task_entry d t) ∷ [] | e ∷ more ↦ named (e ∷ more) ])
              rows) [
                | [] ↦ aggregate_entries-book (("unknown", task_entry d t) ∷ []) rows
                | e ∷ more ↦ aggregate_entries-book (e ∷ more) rows
              ]

  aggregate_models-book :
      (ts : Tasks) (rows : List UsageModelRow)
      → aggregate_models d ts rows ≡ book (booked_all d ts) rows
  unfolding aggregate_models book
  aggregate_models-book [] rows = refl
  aggregate_models-book (t ∷ ts) rows =
      aggregate_models-book ts (aggregate_entries d (entries_of d t) rows)
      ∙ ap (book (booked_all d ts)) (entries_of-booked t rows)
      ∙ sym (book-append (booked d t) (booked_all d ts) rows)

  -- A number that is added up entry by entry.
  book-added :
      (model : String) (f : UsageModelRow → ℕ) (g : ModelUsageEntry → ℕ)
      → ((e : ModelUsageEntry) (r : UsageModelRow) → f (add_entry d e r) ≡ f r + g e)
      → ((key : String) → f (no_usage key) ≡ 0)
      → (es : Bookings) (rows : List UsageModelRow)
      → total (of_model model f) (book es rows) ≡ total (of_model model f) rows + added model g es
  unfolding book aggregate_entry
  book-added model f g step zero_first [] rows = omega arith
  book-added model f g step zero_first ((key, e) ∷ more) rows = omega (
    arith,
    book-added model f g step zero_first more (aggregate_entry d key e rows),
    entry-added rows,
  )
    where
      entry-added :
          (rows : List UsageModelRow)
          → total (of_model model f) (aggregate_entry d key e rows)
            ≡ total (of_model model f) rows + (if str_eq key model then g e else 0)
      entry-added [] = ground (arith, step e (no_usage key), zero_first key)
      entry-added (a ∷ rest) = elim (Bool-cases (str_eq a.model_id key)) [
        | inl h ↦ rw h (ground (arith, step e a, (eq_iff a.model_id key).0 h))
        | inr h ↦ rw h (ground (arith, entry-added rest))
      ]

  book-added_all :
      (model : String) (f : UsageModelRow → ℕ) (g : ModelUsageEntry → ℕ)
      → ((e : ModelUsageEntry) (r : UsageModelRow) → f (add_entry d e r) ≡ f r + g e)
      → ((key : String) → f (no_usage key) ≡ 0)
      → (es : Bookings) → total (of_model model f) (book es []) ≡ added model g es
  book-added_all model f g step zero_first es =
      omega (arith, book-added model f g step zero_first es [])

  module _ (model key : String) (e : ModelUsageEntry) where
    abbrev ones : List UsageModelRow → ℕ
    ones rows = total (of_model model (λ r. 1)) rows

    abbrev cost : List UsageModelRow → ℕ
    cost rows = total (of_model model (λ r. r.cost_usd)) rows

    no_cost : (rows : List UsageModelRow) → ones rows ≡ 0 → cost rows ≡ 0
    no_cost [] h = refl
    no_cost (a ∷ rows) h = ground (arith, no_cost rows)

    entry-ones :
        (rows : List UsageModelRow)
        → ones (aggregate_entry d key e rows)
          ≡ (if str_eq key model && ones rows == 0 then 1 else ones rows)
    unfolding aggregate_entry
    entry-ones [] = ground arith
    entry-ones (a ∷ rows) = elim (Bool-cases (str_eq a.model_id key)) [
      | inl h ↦ rw h (ground (arith, (eq_iff a.model_id key).0 h))
      | inr h ↦ rw h (
          ground (
            arith,
            entry-ones rows,
            eq_iff a.model_id model,
            eq_iff key model,
            eq_iff a.model_id key,
          ))
    ]

    entry-one :
        (rows : List UsageModelRow) → ones rows ≤ 1 → ones (aggregate_entry d key e rows) ≤ 1
    entry-one rows h = ground (arith, entry-ones rows)

    same_name : (name : String) → str_eq name key ≡ true → str_eq name model ≡ str_eq key model
    same_name name h = ap (λ s. str_eq s model) ((eq_iff name key).0 h)

    other_name :
        (name : String)
        → str_eq name key ≡ false
        → str_eq key model ≡ true
        → str_eq name model ≡ false
    other_name name h k = sym (ap (λ s. str_eq name s) ((eq_iff key model).0 k)) ∙ h

    only_row :
        (a : UsageModelRow) (rows : List UsageModelRow)
        → str_eq a.model_id model ≡ true
        → ones (a ∷ rows) ≤ 1
        → ones rows ≡ 0
    only_row a rows am h = ground arith

    later_rows :
        (a : UsageModelRow) (rows : List UsageModelRow)
        → str_eq a.model_id model ≡ false
        → ones (a ∷ rows) ≤ 1
        → ones rows ≤ 1
    later_rows a rows h k = ground arith

    no_more : (m n : ℕ) → d.plus n m + 0 ≡ d.plus (n + 0) m
    no_more m n = add_nothing (d.plus n m) ∙ ap (λ k. d.plus k m) (sym (add_nothing n))

    entry-cost :
        (rows : List UsageModelRow)
        → ones rows ≤ 1
        → cost (aggregate_entry d key e rows)
          ≡ (if str_eq key model then d.plus (cost rows) e.cost_usd else cost rows)
    unfolding aggregate_entry
    entry-cost [] h = ground arith
    entry-cost (a ∷ rows) h = elim (Bool-cases (str_eq a.model_id key)) [
      | inl k ↦ rw k (elim (Bool-cases (str_eq key model)) [
        | inl m ↦
            let am = same_name a.model_id k ∙ m in
            rw am (rw m (rw (no_cost rows (only_row a rows am h)) (no_more e.cost_usd a.cost_usd)))
        | inr m ↦ rw (same_name a.model_id k ∙ m) (rw m refl)
      ])
      | inr k ↦ rw k (elim (Bool-cases (str_eq key model)) [
        | inl m ↦ rw (other_name a.model_id k m) (
            rw m (
              rw (nothing_first (cost rows)) (
                rw (nothing_first (cost (aggregate_entry d key e rows)))
                  (entry-cost rows (later_rows a rows (other_name a.model_id k m) h) ∙ rw m refl))))
        | inr m ↦ rw m (ground (arith, entry-cost rows))
      ])
    ]

  book-ones :
      (model : String) (es : Bookings) (rows : List UsageModelRow)
      → total (of_model model (λ r. 1)) rows ≤ 1
      → total (of_model model (λ r. 1)) (book es rows) ≤ 1
  unfolding book
  book-ones model [] rows h = h
  book-ones model ((key, e) ∷ more) rows h =
      book-ones model more (aggregate_entry d key e rows) (entry-one model key e rows h)

  book-cost :
      (model : String) (es : Bookings) (rows : List UsageModelRow)
      → total (of_model model (λ r. 1)) rows ≤ 1
      → total (of_model model (λ r. r.cost_usd)) (book es rows)
        ≡ cost_from d model (total (of_model model (λ r. r.cost_usd)) rows) es
  unfolding book
  book-cost model [] rows h = refl
  book-cost model ((key, e) ∷ more) rows h =
      book-cost model more (aggregate_entry d key e rows) (entry-one model key e rows h)
      ∙ ap (λ cost. cost_from d model cost more) (entry-cost model key e rows h)

-- The map of the models has, for each model, what the tasks book under it.
pub aggregate_models-IsBooked :
    (d : ModelDecoder) (ts : Tasks) (model : String)
    → IsBooked d (booked_all d ts) model (aggregate_models d ts [])
aggregate_models-IsBooked d ts model =
    let es = booked_all d ts in
    rw (aggregate_models-book d ts []) (record {
      one_row = book-ones d model es [] (omega arith);
      costs = book-cost d model es [] (omega arith);
      tasks = book-added_all d model (λ r. r.task_count) (λ e. 1) (λ e r. refl) (λ key. refl) es;
      inputs =
          book-added_all d model (λ r. r.input_tokens) (λ e. e.input_tokens) (λ e r. refl)
            (λ key. refl) es;
      outputs =
          book-added_all d model (λ r. r.output_tokens) (λ e. e.output_tokens) (λ e r. refl)
            (λ key. refl) es;
      cache_reads =
          book-added_all d model (λ r. r.cache_read_tokens) (λ e. e.cache_read_input_tokens)
            (λ e r. refl) (λ key. refl) es;
      cache_creations =
          book-added_all d model (λ r. r.cache_creation_tokens) (λ e. e.cache_creation_input_tokens)
            (λ e r. refl) (λ key. refl) es;
    })
