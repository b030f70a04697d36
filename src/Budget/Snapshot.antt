-- ===== src/Budget/Snapshot.antt =====
-- `_snapshot`, `preflight_child`, `remaining_wall_time` and `ensure_wall_time` of
-- src/axiom/runtime/budget.py, on a ledger that has an entry for the run. The readings of the clocks
-- are those of one moment.
pub mod WallTime
use axiom_agent.Prelude.{
  ℕ, ◌-◌, min, max, String, Bool, true, false, Option, none, some, List, [], ◌∷◌, leb, ltb, is_some,
  if◌then◌else◌,
}
use axiom_agent.Budget.Types.{
  Dimension, RunBudgetPolicy, RunBudgetUsage, Ledger, Clock, Exceeded, Result, ok, err, ◌>>=◌, ◌>>◌,
}
use axiom_agent.Budget.Policy.{limit_of}
use axiom_agent.Budget.Usage.{run_entry, usage, aggregate_usage, used_in}
use axiom_agent.Budget.Operations.{record_hard}

pub record RunBudgetState : Type 0 where
  pub owner_run_id : String
  pub run_id : String
  pub policy : RunBudgetPolicy
  pub local_usage : RunBudgetUsage
  pub aggregate_usage : RunBudgetUsage
  pub remaining : Dimension → Option ℕ
  pub aggregate_remaining : Dimension → Option ℕ
  pub soft_limit_reached : Bool
  pub soft_dimensions : List Dimension
  pub hard_limit_reached : Bool
  pub exceeded_dimension : Option Dimension

-- One turn of the loops that fill `remaining` and `aggregate_remaining`.
unfoldable pub remaining_of : RunBudgetPolicy → RunBudgetUsage → Dimension → Option ℕ
remaining_of policy u dimension = elim (limit_of policy dimension) [
  | none ↦ none
  | some limit ↦ some (limit - used_in u dimension)
]

abbrev pub is_marked : List Dimension → Bool
is_marked [] = false
is_marked (d ∷ ds) = true

unfoldable pub snapshot_of : Clock → Ledger → String → Result RunBudgetState
snapshot_of clock data' run_id = do
  run ← run_entry data' run_id
  recorded ← usage clock false data' run_id
  summed ← aggregate_usage clock false data'
  owner ← run_entry data' data'.owner_run_id
  let local : RunBudgetUsage = record recorded { elapsed_seconds = clock.elapsed_for run_id }
  let aggregate : RunBudgetUsage = record summed {
    elapsed_seconds = clock.elapsed_for data'.owner_run_id;
  }
  ok (record {
    owner_run_id = data'.owner_run_id;
    run_id = run_id;
    policy = run.policy;
    local_usage = local;
    aggregate_usage = aggregate;
    remaining = remaining_of run.policy local;
    aggregate_remaining = remaining_of owner.policy aggregate;
    soft_limit_reached = is_marked run.soft_dimensions;
    soft_dimensions = run.soft_dimensions;
    hard_limit_reached = is_some run.hard_dimension;
    exceeded_dimension = run.hard_dimension;
  })

-- The dimensions in the order of `_DIMENSION_LIMIT`.
abbrev pub all_dimensions : List Dimension
all_dimensions =
    Dimension.steps ∷ Dimension.model_calls ∷ Dimension.tool_calls ∷ Dimension.input_tokens
    ∷ Dimension.output_tokens ∷ Dimension.total_tokens ∷ Dimension.elapsed_seconds
    ∷ Dimension.cost_usd ∷ []

-- The loop of `preflight_child`: the first dimension with nothing left for a child.
unfoldable pub first_spent : RunBudgetUsage → RunBudgetPolicy → List Dimension → Option Dimension
first_spent u policy [] = none
first_spent u policy (d ∷ ds) =
    let later = first_spent u policy ds in
    elim (limit_of policy d) [
      | none ↦ later
      | some limit ↦ if leb limit (used_in u d) then some d else later
    ]

-- The dimension of the error, if it raises one.
unfoldable pub preflight_child : RunBudgetState → Option Dimension
unfolding first_spent
preflight_child s = first_spent s.aggregate_usage s.policy all_dimensions

unfoldable pub remaining_wall_time : RunBudgetState → Option ℕ
remaining_wall_time s = elim (s.remaining Dimension.elapsed_seconds) [
  | none ↦ s.aggregate_remaining Dimension.elapsed_seconds
  | some a ↦ elim (s.aggregate_remaining Dimension.elapsed_seconds) [
    | none ↦ some a
    | some b ↦ some (min a b)
  ]
]

-- `ensure_wall_time` returned, or it recorded a hard limit and raised.
pub data Ensured : Type 0 where
  within : Option ℕ → Ensured
  stopped : Exceeded → Ledger → Ensured

unfoldable pub wall_time_error : RunBudgetState → Exceeded
wall_time_error s =
    let used = max s.local_usage.elapsed_seconds s.aggregate_usage.elapsed_seconds in
    record {
      dimension = Dimension.elapsed_seconds;
      limit = elim s.policy.max_wall_time_seconds [ none ↦ used | some limit ↦ limit ];
      used = used;
      run_id = s.run_id;
    }

abbrev pub is_spent : Option ℕ → Bool
is_spent none = false
is_spent (some n) = leb n 0

unfoldable pub ensure_wall_time : Clock → Ledger → String → Result Ensured
ensure_wall_time clock data' run_id = do
  s ← snapshot_of clock data' run_id
  let remaining = remaining_wall_time s
  if is_spent remaining
      then (record_hard clock run_id Dimension.elapsed_seconds data' >>= λ marked.
          ok (stopped (wall_time_error s) marked))
      else ok (within remaining)
