-- ===== src/Budget/Usage.antt =====
-- The use that a ledger records: `_usage`, `_aggregate_usage` and `_usage_dimension` of
-- src/axiom/runtime/budget.py.
use axiom_agent.Prelude.{
  ℕ, ◌+◌, String, Bool, true, false, ◌&&◌, Option, none, some, List, [], ◌∷◌, all, str_eq,
  if◌then◌else◌,
}
use axiom_agent.Dict.{Dict, lookup, values}
use axiom_agent.Budget.Types.{
  Dimension, RawUsage, RunBudgetUsage, Operation, OperationStatus, RunEntry, Ledger, Clock,
  no_run_entry, Result, ok, err, ◌>>=◌, ◌>>◌,
}

unfoldable pub empty_usage : Bool → RawUsage
empty_usage cost_known = record {
  steps = 0;
  model_calls = 0;
  tool_calls = 0;
  input_tokens = 0;
  output_tokens = 0;
  cached_input_tokens = 0;
  reasoning_tokens = 0;
  cost_usd = if cost_known then some 0 else none;
  cost_known = cost_known;
}

unfoldable pub run_entry : Ledger → String → Result RunEntry
run_entry data' run_id = elim (lookup run_id data'.runs) [
  | none ↦ err (no_run_entry run_id)
  | some run ↦ ok run
]

abbrev pub is_reserved : OperationStatus → Bool
is_reserved OperationStatus.reserved = true
is_reserved OperationStatus.completed = false

-- `value or 0`
abbrev pub or_zero : Option ℕ → ℕ
or_zero none = 0
or_zero (some n) = n

-- `operation.get("run_id") == run_id and operation.get("status") == "reserved"`
abbrev pub is_open_for : String → Operation → Bool
is_open_for run_id o = str_eq o.run_id run_id && is_reserved o.status

unfoldable pub reserved_input : String → List Operation → ℕ
reserved_input run_id [] = 0
reserved_input run_id (o ∷ os) =
    (if is_open_for run_id o then o.reserved_input_tokens else 0) + reserved_input run_id os

unfoldable pub reserved_cost : String → List Operation → ℕ
reserved_cost run_id [] = 0
reserved_cost run_id (o ∷ os) =
    (if is_open_for run_id o then or_zero o.reserved_cost_usd else 0) + reserved_cost run_id os

-- `_usage` of a run's entry; the flag is `include_reservations`.
unfoldable pub usage_of : Clock → Bool → Dict Operation → String → RunEntry → RunBudgetUsage
usage_of clock include operations run_id run =
    let raw = run.usage in
    let input = if include then reserved_input run_id (values operations) else 0 in
    let open_cost = if include then reserved_cost run_id (values operations) else 0 in
    record {
      steps = raw.steps;
      model_calls = raw.model_calls;
      tool_calls = raw.tool_calls;
      input_tokens = raw.input_tokens + input;
      output_tokens = raw.output_tokens;
      cached_input_tokens = raw.cached_input_tokens;
      reasoning_tokens = raw.reasoning_tokens;
      cost_usd = if raw.cost_known then some (or_zero raw.cost_usd + open_cost) else none;
      cost_known = raw.cost_known;
      elapsed_seconds = clock.elapsed run_id;
    }

unfoldable pub usage : Clock → Bool → Ledger → String → Result RunBudgetUsage
usage clock include data' run_id = do
  run ← run_entry data' run_id
  ok (usage_of clock include data'.operations run_id run)

-- The list `usages`.
unfoldable pub usages : Clock → Bool → Dict Operation → Dict RunEntry → List RunBudgetUsage
usages clock include operations [] = []
usages clock include operations ((run_id, run) ∷ runs) =
    usage_of clock include operations run_id run ∷ usages clock include operations runs

unfoldable pub total : (RunBudgetUsage → ℕ) → List RunBudgetUsage → ℕ
total field [] = 0
total field (u ∷ us) = field u + total field us

-- `bool(usages) and all(item.cost_known for item in usages)`
unfoldable pub all_costs_known : List RunBudgetUsage → Bool
all_costs_known [] = false
all_costs_known (u ∷ us) = all (λ v. v.cost_known) (u ∷ us)

unfoldable pub aggregate_usage : Clock → Bool → Ledger → Result RunBudgetUsage
aggregate_usage clock include data' = do
  run_entry data' data'.owner_run_id
  let us = usages clock include data'.operations data'.runs
  let known = all_costs_known us
  ok (record {
    steps = total (λ u. u.steps) us;
    model_calls = total (λ u. u.model_calls) us;
    tool_calls = total (λ u. u.tool_calls) us;
    input_tokens = total (λ u. u.input_tokens) us;
    output_tokens = total (λ u. u.output_tokens) us;
    cached_input_tokens = total (λ u. u.cached_input_tokens) us;
    reasoning_tokens = total (λ u. u.reasoning_tokens) us;
    cost_usd = if known then some (total (λ u. or_zero u.cost_usd) us) else none;
    cost_known = known;
    elapsed_seconds = clock.elapsed data'.owner_run_id;
  })

-- `_usage_dimension`
unfoldable pub used_in : RunBudgetUsage → Dimension → ℕ
used_in u Dimension.steps = u.steps
used_in u Dimension.model_calls = u.model_calls
used_in u Dimension.tool_calls = u.tool_calls
used_in u Dimension.input_tokens = u.input_tokens
used_in u Dimension.output_tokens = u.output_tokens
used_in u Dimension.total_tokens = u.input_tokens + u.output_tokens
used_in u Dimension.elapsed_seconds = u.elapsed_seconds
used_in u Dimension.cost_usd = or_zero u.cost_usd
