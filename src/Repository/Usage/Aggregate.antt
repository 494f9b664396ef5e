-- ===== src/Repository/Usage/Aggregate.antt =====
-- The map of the models and its sort, of SumByModel in internal/repository/usage_repository.go.
use claude_ops.Prelude.{ℕ, zero, suc, ◌+◌, String, List, [], ◌∷◌, ltb, if◌then◌else◌, str_eq}
use claude_ops.Domain.Task.{Task}
use claude_ops.Domain.Usage.{UsageModelRow}
use claude_ops.Repository.Tasks.{Tasks}

pub record ModelUsageEntry : Type 0 where
  pub input_tokens : ℕ
  pub output_tokens : ℕ
  pub cache_read_input_tokens : ℕ
  pub cache_creation_input_tokens : ℕ
  pub cost_usd : ℕ

-- What the packages do here. A cost is a float64 that is not negative, given by its bits as a number, whose
-- order is that of the floats; 0 is 0.
pub record ModelDecoder : Type 0 where
  -- The entries that json.Unmarshal gives for a row, in the order that the map is read; `[]` is a text
  -- that does not decode, or an empty map.
  pub entries : String → List (String × ModelUsageEntry)
  -- the sum of two floats, rounded
  pub plus : ℕ → ℕ → ℕ
  -- the float of a cost in the table, in millionths
  pub to_float : ℕ → ℕ

-- a.TaskCount++, a.CostUSD += …
abbrev pub add_entry : ModelDecoder → ModelUsageEntry → UsageModelRow → UsageModelRow
add_entry d e a = record {
  model_id = a.model_id;
  task_count = a.task_count + 1;
  cost_usd = d.plus a.cost_usd e.cost_usd;
  input_tokens = a.input_tokens + e.input_tokens;
  output_tokens = a.output_tokens + e.output_tokens;
  cache_read_tokens = a.cache_read_tokens + e.cache_read_input_tokens;
  cache_creation_tokens = a.cache_creation_tokens + e.cache_creation_input_tokens;
}

abbrev pub no_usage : String → UsageModelRow
no_usage key = record {
  model_id = key;
  task_count = 0;
  cost_usd = 0;
  input_tokens = 0;
  output_tokens = 0;
  cache_read_tokens = 0;
  cache_creation_tokens = 0;
}

-- The map `aggregated` as a list of its entries, which get a new one at the end.
unfoldable pub aggregate_entry :
    ModelDecoder → String → ModelUsageEntry → List UsageModelRow → List UsageModelRow
aggregate_entry d key e [] = add_entry d e (no_usage key) ∷ []
aggregate_entry d key e (a ∷ rows) =
    let rest = aggregate_entry d key e rows in
    if str_eq a.model_id key then add_entry d e a ∷ rows else a ∷ rest

abbrev pub or_unknown : String → String
or_unknown key = if str_eq key "" then "unknown" else key

-- the range over modelMap
unfoldable pub aggregate_entries :
    ModelDecoder → List (String × ModelUsageEntry) → List UsageModelRow → List UsageModelRow
aggregate_entries d [] rows = rows
aggregate_entries d ((key, e) ∷ more) rows =
    aggregate_entries d more (aggregate_entry d (or_unknown key) e rows)

-- The columns of a task, which count where its map is not there.
abbrev pub task_entry : ModelDecoder → Task → ModelUsageEntry
task_entry d t = record {
  input_tokens = t.total_input_tokens;
  output_tokens = t.total_output_tokens;
  cache_read_input_tokens = t.cache_read_input_tokens;
  cache_creation_input_tokens = t.cache_creation_input_tokens;
  cost_usd = d.to_float t.cost_usd;
}

abbrev pub entries_of : ModelDecoder → Task → List (String × ModelUsageEntry)
entries_of d t = elim (d.entries t.model_usage_json) [
  | [] ↦ ("unknown", task_entry d t) ∷ []
  | e ∷ more ↦ e ∷ more
]

unfoldable pub aggregate_models : ModelDecoder → Tasks → List UsageModelRow → List UsageModelRow
aggregate_models d [] rows = rows
aggregate_models d (t ∷ ts) rows = aggregate_models d ts (aggregate_entries d (entries_of d t) rows)

-- The inner loop for one i: result[i] against each later row, exchanged where that costs more. The
-- row that ends at i, and the rows after it.
unfoldable pub exchange_pass :
    UsageModelRow → List UsageModelRow → UsageModelRow × List UsageModelRow
exchange_pass top [] = (top, [])
exchange_pass top (r ∷ rows) =
    let over = ltb top.cost_usd r.cost_usd in
    let (best, rest) = exchange_pass (if over then r else top) rows in
    (best, (if over then top else r) ∷ rest)

-- The outer loop, for a count of rows.
unfoldable pub exchange_sort : ℕ → List UsageModelRow → List UsageModelRow
exchange_sort n [] = []
exchange_sort zero (r ∷ rows) = r ∷ rows
exchange_sort (suc n) (r ∷ rows) =
    let (best, rest) = exchange_pass r rows in best ∷ exchange_sort n rest
