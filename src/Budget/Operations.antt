-- ===== src/Budget/Operations.antt =====
-- What the methods of `BudgetManager` in src/axiom/runtime/budget.py do to a ledger: the bodies of
-- their `mutate`. A method reads the clock at each check, so it is given a clock for each.
pub mod Steps
pub mod Calls
pub mod Limits
use axiom_agent.Prelude.{
  ℕ, ◌+◌, ◌*◌, String, Bool, true, false, Option, none, some, min, is_some, [], if◌then◌else◌,
}
use axiom_agent.Prelude.Int.{ℤ, pos, pos_part}
use axiom_agent.Dict.{Dict, lookup, insert}
use axiom_agent.Budget.Types.{
  Dimension, RunBudgetPolicy, ModelPricing, RawUsage, OperationKind, OperationStatus, Operation,
  RunEntry, Ledger, Clock, BudgetError, no_reservation, Result, ok, err, ◌>>=◌, ◌>>◌,
}
use axiom_agent.Budget.Policy.{cost}
use axiom_agent.Budget.Usage.{empty_usage, run_entry, or_zero}
use axiom_agent.Budget.Checks.{preflight, first_violation, mark_soft, mark_owner_hard_if_exhausted}

-- The ledger that `_mutate` makes where none is stored.
unfoldable pub new_ledger : String → Ledger
new_ledger owner_run_id = record { owner_run_id = owner_run_id; runs = []; operations = [] }

-- `initialize`: an entry that is there stays.
unfoldable pub initialize : String → RunBudgetPolicy → Option ModelPricing → Ledger → Ledger
unfolding empty_usage
initialize run_id policy pricing data' = elim (lookup run_id data'.runs) [
  | some _ ↦ data'
  | none ↦ record data' {
    runs =
        insert run_id
          (record {
            policy = policy;
            pricing = pricing;
            usage = empty_usage (is_some pricing);
            soft_dimensions = [];
            hard_dimension = none;
          })
          data'.runs;
  }
]

-- The two dimensions of `_consume_discrete`.
pub data DiscreteDimension : Type 0 where
  step tool_call : DiscreteDimension

abbrev pub dimension_of : DiscreteDimension → Dimension
dimension_of DiscreteDimension.step = Dimension.steps
dimension_of DiscreteDimension.tool_call = Dimension.tool_calls

abbrev pub kind_of : DiscreteDimension → OperationKind
kind_of DiscreteDimension.step = OperationKind.step
kind_of DiscreteDimension.tool_call = OperationKind.tool_call

-- `run["usage"][dimension] += 1`
abbrev pub bump : DiscreteDimension → RawUsage → RawUsage
bump DiscreteDimension.step u = record u { steps = u.steps + 1 }
bump DiscreteDimension.tool_call u = record u { tool_calls = u.tool_calls + 1 }

-- The entry of an operation with no reservation.
abbrev pub plain_operation : String → OperationKind → OperationStatus → Operation
plain_operation run_id kind status = record {
  run_id = run_id;
  kind = kind;
  status = status;
  reserved_input_tokens = 0;
  reserved_cost_usd = none;
  input_tokens = 0;
  output_tokens = 0;
  cached_input_tokens = 0;
  reasoning_tokens = 0;
}

abbrev pub put_usage : String → RunEntry → RawUsage → Dict RunEntry → Dict RunEntry
put_usage run_id run u runs = insert run_id (record run { usage = u }) runs

unfoldable pub consume_discrete :
    Clock → String → String → DiscreteDimension → Ledger → Result Ledger
consume_discrete clock run_id operation_id d data' = elim (lookup operation_id data'.operations) [
  | some _ ↦ ok data'
  | none ↦ do
    preflight clock data' run_id (dimension_of d) 1
    run ← run_entry data' run_id
    mark_soft clock
        (record data' {
          runs = put_usage run_id run (bump d run.usage) data'.runs;
          operations =
              insert operation_id (plain_operation run_id (kind_of d) OperationStatus.completed)
                data'.operations;
        })
        run_id
]

-- `pricing.cost(input_tokens=estimate, output_tokens=0) if pricing is not None else None`
abbrev pub reserved_cost_of : Option ModelPricing → ℕ → Option ℕ
reserved_cost_of none estimate = none
reserved_cost_of (some p) estimate = some (cost p (pos estimate) (pos 0) (pos 0))

-- `if reserved_cost is not None: self._preflight(…)`
abbrev pub preflight_cost : Clock → Ledger → String → Option ℕ → Result (Unit {0})
preflight_cost clock data' run_id none = ok tt
preflight_cost clock data' run_id (some c) = preflight clock data' run_id Dimension.cost_usd c

unfoldable pub reserve_model_call : (ℕ → Clock) → String → String → ℤ → Ledger → Result Ledger
reserve_model_call clocks run_id operation_id estimated data' =
    elim (lookup operation_id data'.operations) [
      | some _ ↦ ok data'
      | none ↦
          let estimate = pos_part estimated in
          do
            preflight (clocks 0) data' run_id Dimension.model_calls 1
            preflight (clocks 1) data' run_id Dimension.input_tokens estimate
            preflight (clocks 2) data' run_id Dimension.output_tokens 0
            preflight (clocks 3) data' run_id Dimension.total_tokens estimate
            run ← run_entry data' run_id
            let reserved = reserved_cost_of run.pricing estimate
            preflight_cost (clocks 4) data' run_id reserved
            mark_soft (clocks 5)
                (record data' {
                  runs =
                      put_usage run_id run
                        (record run.usage { model_calls = run.usage.model_calls + 1 }) data'.runs;
                  operations =
                      insert operation_id
                        (record (plain_operation run_id OperationKind.model
                          OperationStatus.reserved) {
                            reserved_input_tokens = estimate;
                            reserved_cost_usd = reserved;
                          })
                        data'.operations;
                })
                run_id
    ]

-- The counts of a call's response, as they came.
pub record Response : Type 0 where
  pub input_tokens : ℤ
  pub output_tokens : ℤ
  pub cached_input_tokens : ℤ
  pub reasoning_tokens : ℤ

-- The `usage` object after the call.
unfoldable pub charge : Option ModelPricing → Response → RawUsage → RawUsage
charge pricing r u =
    let actual_input = pos_part r.input_tokens in
    let actual_output = pos_part r.output_tokens in
    let cached = min (pos_part r.cached_input_tokens) actual_input in
    let counted : RawUsage = record u {
      input_tokens = u.input_tokens + actual_input;
      output_tokens = u.output_tokens + actual_output;
      cached_input_tokens = u.cached_input_tokens + cached;
      reasoning_tokens = u.reasoning_tokens + pos_part r.reasoning_tokens;
    } in
    elim pricing [
      | none ↦ counted
      | some p ↦ record counted {
        cost_usd =
            some (or_zero u.cost_usd + cost p (pos actual_input) (pos actual_output) (pos cached));
        cost_known = true;
      }
    ]

abbrev pub complete_operation : Response → Operation → Operation
complete_operation r o = record o {
  status = OperationStatus.completed;
  input_tokens = pos_part r.input_tokens;
  output_tokens = pos_part r.output_tokens;
  cached_input_tokens = min (pos_part r.cached_input_tokens) (pos_part r.input_tokens);
  reasoning_tokens = pos_part r.reasoning_tokens;
}

-- `run["hard_dimension"] = …` and the owner's mark, where a limit is passed.
unfoldable pub record_hard : Clock → String → Dimension → Ledger → Result Ledger
record_hard clock run_id dimension data' = do
  run ← run_entry data' run_id
  mark_owner_hard_if_exhausted clock
      (record data' {
        runs = insert run_id (record run { hard_dimension = some dimension }) data'.runs;
      })
      dimension

abbrev pub record_violation : Clock → String → Option Dimension → Ledger → Result Ledger
record_violation clock run_id none data' = ok data'
record_violation clock run_id (some dimension) data' = record_hard clock run_id dimension data'

-- The new ledger, and the dimension of the error that is raised once it is saved.
unfoldable pub complete_model_call :
    Clock → String → String → Response → Ledger → Result (Ledger × Option Dimension)
complete_model_call clock run_id operation_id r data' =
    elim (lookup operation_id data'.operations) [
      | none ↦ err (no_reservation operation_id)
      | some operation ↦ elim operation.status [
        | OperationStatus.completed ↦ ok (data', none)
        | OperationStatus.reserved ↦ do
          run ← run_entry data' run_id
          let charged : Ledger = record data' {
            runs = put_usage run_id run (charge run.pricing r run.usage) data'.runs;
            operations = insert operation_id (complete_operation r operation) data'.operations;
          }
          violation ← first_violation clock charged run_id
          marked ← record_violation clock run_id violation charged
          final ← mark_soft clock marked run_id
          ok (final, violation)
      ]
    ]
