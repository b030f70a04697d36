-- ===== src/Budget/Checks.antt =====
-- The checks of a ledger against its policies: `_check_wall_time`, `_preflight`,
-- `_first_violation`, `_mark_soft` and `_mark_owner_hard_if_exhausted` of
-- src/axiom/runtime/budget.py.
pub mod Preflight
pub mod Marks
pub mod Counted
use axiom_agent.Prelude.{
  ℕ, ◌+◌, ◌*◌, String, Bool, true, false, ◌||◌, Option, none, some, List, [], ◌∷◌, keep, ltb, leb,
  ◌==◌, str_eq, if◌then◌else◌,
}
use axiom_agent.Dict.{insert}
use axiom_agent.Budget.Types.{
  Dimension, RunBudgetPolicy, RunBudgetUsage, RunEntry, Ledger, Clock, Exceeded, exceeded, Result,
  ok, err, ◌>>=◌, ◌>>◌,
}
use axiom_agent.Budget.Policy.{limit_of}
use axiom_agent.Budget.Usage.{run_entry, usage, aggregate_usage, used_in}

-- One turn of the loop in `_check_wall_time`.
unfoldable pub check_elapsed : Clock → String → String → RunEntry → Result (Unit {0})
check_elapsed clock run_id target run = elim run.policy.max_wall_time_seconds [
  | none ↦ ok tt
  | some limit ↦
      if leb limit (clock.elapsed_for target)
      then err (
          exceeded (record {
            dimension = Dimension.elapsed_seconds;
            limit = limit;
            used = clock.elapsed_for target;
            run_id = run_id;
          }))
      else ok tt
]

unfoldable pub check_wall_time : Clock → Ledger → String → Result (Unit {0})
check_wall_time clock data' run_id = do
  run ← run_entry data' run_id
  check_elapsed clock run_id run_id run
  owner ← run_entry data' data'.owner_run_id
  check_elapsed clock run_id data'.owner_run_id owner

-- `projected >= limit if amount == 0 else projected > limit`
abbrev pub is_exhausted : ℕ → ℕ → ℕ → Bool
is_exhausted limit used amount =
    if amount == 0 then leb limit (used + amount) else ltb limit (used + amount)

-- One turn of the loop in `_preflight`.
unfoldable pub check_limit :
    String → Dimension → ℕ → RunBudgetUsage → RunBudgetPolicy → Result (Unit {0})
check_limit run_id dimension amount u policy = elim (limit_of policy dimension) [
  | none ↦ ok tt
  | some limit ↦
      if is_exhausted limit (used_in u dimension) amount
      then err (
          exceeded (record {
            dimension = dimension;
            limit = limit;
            used = used_in u dimension;
            run_id = run_id;
          }))
      else ok tt
]

unfoldable pub preflight : Clock → Ledger → String → Dimension → ℕ → Result (Unit {0})
preflight clock data' run_id dimension amount = do
  check_wall_time clock data' run_id
  local ← usage clock true data' run_id
  aggregate ← aggregate_usage clock true data'
  run ← run_entry data' run_id
  owner ← run_entry data' data'.owner_run_id
  check_limit run_id dimension amount local run.policy
  check_limit run_id dimension amount aggregate owner.policy

-- The dimensions that `_first_violation` looks at, in the order of the table.
abbrev pub violation_dimensions : List Dimension
violation_dimensions =
    Dimension.steps ∷ Dimension.model_calls ∷ Dimension.tool_calls ∷ Dimension.input_tokens
    ∷ Dimension.output_tokens ∷ Dimension.total_tokens ∷ Dimension.cost_usd ∷ []

unfoldable pub is_over : RunBudgetUsage → RunBudgetPolicy → Dimension → Bool
is_over u policy dimension = elim (limit_of policy dimension) [
  | none ↦ false
  | some limit ↦ ltb limit (used_in u dimension)
]

-- The first dimension of the list that is over its limit.
unfoldable pub first_over : RunBudgetUsage → RunBudgetPolicy → List Dimension → Option Dimension
first_over u policy [] = none
first_over u policy (d ∷ ds) = if is_over u policy d then some d else first_over u policy ds

abbrev pub or_else : Option Dimension → Option Dimension → Option Dimension
or_else none b = b
or_else (some a) b = some a

-- The dimension of the error that `_first_violation` returns.
unfoldable pub first_violation : Clock → Ledger → String → Result (Option Dimension)
unfolding first_over
first_violation clock data' run_id = do
  local ← usage clock false data' run_id
  run ← run_entry data' run_id
  aggregate ← aggregate_usage clock false data'
  owner ← run_entry data' data'.owner_run_id
  ok (
      or_else (first_over local run.policy violation_dimensions)
        (first_over aggregate owner.policy violation_dimensions))

-- All dimensions in alphabetical order, which is that of `sorted`.
abbrev pub sorted_dimensions : List Dimension
sorted_dimensions =
    Dimension.cost_usd ∷ Dimension.elapsed_seconds ∷ Dimension.input_tokens ∷ Dimension.model_calls
    ∷ Dimension.output_tokens ∷ Dimension.steps ∷ Dimension.tool_calls ∷ Dimension.total_tokens ∷ []

-- `used >= limit * soft_limit_ratio`
unfoldable pub is_soft : RunBudgetUsage → RunBudgetPolicy → Dimension → Bool
is_soft u policy dimension = elim (limit_of policy dimension) [
  | none ↦ false
  | some limit ↦
      leb (limit * policy.soft_limit_ratio.numerator)
        (used_in u dimension * policy.soft_limit_ratio.denominator)
]

-- One turn of the loop in `_mark_soft`.
unfoldable pub mark_soft_one : Clock → Ledger → String → Result Ledger
unfolding is_soft
mark_soft_one clock data' target = do
  run ← run_entry data' target
  u ←
      if str_eq target data'.owner_run_id
      then aggregate_usage clock true data'
      else usage clock true data' target
  ok (record data' {
    runs =
        insert target
          (record run { soft_dimensions = keep (is_soft u run.policy) sorted_dimensions })
          data'.runs;
  })

-- The two turns do not read what the other writes, so the order of the set does not matter.
unfoldable pub mark_soft : Clock → Ledger → String → Result Ledger
mark_soft clock data' run_id = do
  marked ← mark_soft_one clock data' run_id
  mark_soft_one clock marked marked.owner_run_id

unfoldable pub mark_owner_hard_if_exhausted : Clock → Ledger → Dimension → Result Ledger
mark_owner_hard_if_exhausted clock data' dimension = do
  owner ← run_entry data' data'.owner_run_id
  u ← aggregate_usage clock false data'
  elim (limit_of owner.policy dimension) [
    | none ↦ ok data'
    | some limit ↦
        if leb limit (used_in u dimension)
        then ok (record data' {
          runs =
              insert data'.owner_run_id (record owner { hard_dimension = some dimension })
                data'.runs;
        })
        else ok data'
  ]
