-- ===== src/Tests/BudgetTests.antt =====
-- A budget ledger of src/axiom/runtime/budget.py at concrete inputs: a root Run with two model calls
-- at most, and its ledger in a store.
use axiom_agent.Prelude.{◌≡◌, refl, true, false, Option, none, some, []}
use axiom_agent.Prelude.Int.{pos, negsuc}
use axiom_agent.Dict.{lookup, insert, values}
use axiom_agent.Budget.Types.{
  Dimension, RunBudgetPolicy, RunBudgetUsage, ModelPricing, Operation, OperationKind,
  OperationStatus, RunEntry, Ledger, Clock, Result, ok, err,
}
use axiom_agent.Budget.Policy.{limit_of, cost}
use axiom_agent.Budget.Usage.{
  empty_usage, run_entry, reserved_input, reserved_cost, usage_of, usage, usages, total,
  all_costs_known, aggregate_usage, used_in,
}
use axiom_agent.Budget.Checks.{
  check_elapsed, check_wall_time, check_limit, preflight, is_over, first_over, first_violation,
  is_soft, mark_soft_one, mark_soft, mark_owner_hard_if_exhausted,
}
use axiom_agent.Budget.Counts.{IsBounded}
use axiom_agent.Budget.Operations.{
  DiscreteDimension, Response, new_ledger, initialize, consume_discrete, reserve_model_call,
  complete_model_call, charge, record_hard,
}
use axiom_agent.Budget.Operations.Limits.{
  IsCallDimension, HasBothRooms, reserve_model_call-has_room, complete_model_call_once,
}
use axiom_agent.Budget.Snapshot.{RunBudgetState, remaining_of, snapshot_of}
use axiom_agent.Budget.Reach.{
  start, next, initialized, consumed, reserved, completed, Reachable-IsBounded,
}

abbrev policy : RunBudgetPolicy
policy = record {
  max_steps = some 3;
  max_model_calls = some 2;
  max_tool_calls = none;
  max_input_tokens = some 100;
  max_output_tokens = some 50;
  max_total_tokens = some 120;
  max_wall_time_seconds = some 60;
  max_cost_usd = none;
  soft_limit_ratio = record { numerator = 4; denominator = 5 };
}

abbrev pricing : ModelPricing
pricing = record {
  provider = "p";
  model = "m";
  input_per_million_usd = 3;
  output_per_million_usd = 15;
  cached_input_per_million_usd = some 1;
}

abbrev at_start : Clock
at_start = record { elapsed_for = λ _. 1; elapsed = λ _. 1 }

abbrev ledger_of : Result Ledger → Ledger
ledger_of (ok l) = l
ledger_of (err _) = new_ledger "root"

abbrev final_of : Result (Ledger × Option Dimension) → Ledger
final_of (ok (l, _)) = l
final_of (err _) = new_ledger "root"

abbrev begun : Ledger
begun = initialize "root" policy (some pricing) (new_ledger "root")

abbrev stepped : Ledger
stepped = ledger_of (consume_discrete at_start "root" "step:1" DiscreteDimension.step begun)

abbrev called : Ledger
called = ledger_of (reserve_model_call (λ _. at_start) "root" "call:1" (pos 40) stepped)

abbrev response : Response
response = record {
  input_tokens = pos 45;
  output_tokens = pos 60;
  cached_input_tokens = pos 5;
  reasoning_tokens = negsuc 3;
}

abbrev answered : Ledger
answered = final_of (complete_model_call at_start "root" "call:1" response called)

stepped_ok : consume_discrete at_start "root" "step:1" DiscreteDimension.step begun ≡ ok stepped
unfolding new_ledger initialize empty_usage consume_discrete preflight check_wall_time check_elapsed
    run_entry usage usage_of usages total aggregate_usage all_costs_known used_in limit_of
    check_limit mark_soft mark_soft_one is_soft reserved_input reserved_cost lookup insert values
stepped_ok = refl

begun_root : (lookup "call:1" stepped.operations ≡ none)
unfolding new_ledger initialize empty_usage consume_discrete preflight check_wall_time check_elapsed
    run_entry usage usage_of usages total aggregate_usage all_costs_known used_in limit_of
    check_limit mark_soft mark_soft_one is_soft reserved_input reserved_cost lookup insert values
begun_root = refl

called_ok : reserve_model_call (λ _. at_start) "root" "call:1" (pos 40) stepped ≡ ok called
unfolding new_ledger initialize empty_usage consume_discrete preflight check_wall_time check_elapsed
    run_entry usage usage_of usages total aggregate_usage all_costs_known used_in limit_of
    check_limit mark_soft mark_soft_one is_soft reserved_input reserved_cost lookup insert values
    reserve_model_call cost
called_ok = refl

answered_ok :
    complete_model_call at_start "root" "call:1" response called
    ≡ ok (answered, some Dimension.output_tokens)
unfolding new_ledger initialize empty_usage consume_discrete preflight check_wall_time check_elapsed
    run_entry usage usage_of usages total aggregate_usage all_costs_known used_in limit_of
    check_limit mark_soft mark_soft_one is_soft reserved_input reserved_cost lookup insert values
    reserve_model_call cost complete_model_call charge first_violation first_over is_over
    record_hard mark_owner_hard_if_exhausted
answered_ok = refl

Reachable-IsBounded_example : IsBounded answered
Reachable-IsBounded_example = Reachable-IsBounded "root" answered (
    next
      (next
        (next
          (next (start (new_ledger "root") refl) (initialized "root" policy (some pricing) refl))
          (consumed at_start "root" "step:1" DiscreteDimension.step stepped_ok))
        (reserved (λ _. at_start) "root" "call:1" (pos 40) called_ok))
      (completed at_start "root" "call:1" response (some Dimension.output_tokens) answered_ok))

reserve_model_call-has_room_example : HasBothRooms stepped "root" Dimension.model_calls
reserve_model_call-has_room_example =
    reserve_model_call-has_room (λ _. at_start) "root" "call:1" (pos 40) stepped called begun_root
      called_ok Dimension.model_calls IsCallDimension.model_calls

abbrev open_call : Operation
open_call = record {
  run_id = "root";
  kind = OperationKind.model;
  status = OperationStatus.reserved;
  reserved_input_tokens = 40;
  reserved_cost_usd = some 120;
  input_tokens = 0;
  output_tokens = 0;
  cached_input_tokens = 0;
  reasoning_tokens = 0;
}

abbrev counted_run : RunEntry
counted_run = record {
  policy = policy;
  pricing = some pricing;
  usage = record (empty_usage true) { steps = 1; model_calls = 1 };
  soft_dimensions = [];
  hard_dimension = none;
}

open_call_found : lookup "call:1" called.operations ≡ some open_call
unfolding new_ledger initialize empty_usage consume_discrete preflight check_wall_time check_elapsed
    run_entry usage usage_of usages total aggregate_usage all_costs_known used_in limit_of
    check_limit mark_soft mark_soft_one is_soft reserved_input reserved_cost lookup insert values
    reserve_model_call cost
open_call_found = refl

counted_run_found : lookup "root" called.runs ≡ some counted_run
unfolding new_ledger initialize empty_usage consume_discrete preflight check_wall_time check_elapsed
    run_entry usage usage_of usages total aggregate_usage all_costs_known used_in limit_of
    check_limit mark_soft mark_soft_one is_soft reserved_input reserved_cost lookup insert values
    reserve_model_call cost
counted_run_found = refl

complete_model_call_once_example :
    ((run' : RunEntry) × (lookup "root" answered.runs ≡ some run')
      × (run'.usage ≡ charge (some pricing) response counted_run.usage))
    × (complete_model_call at_start "root" "call:1" response answered ≡ ok (answered, none))
complete_model_call_once_example =
    complete_model_call_once at_start "root" "call:1" response called answered
      (some Dimension.output_tokens) open_call counted_run at_start response open_call_found refl
      counted_run_found answered_ok

abbrev bare_usage : RunBudgetUsage
bare_usage = record {
  steps = 1;
  model_calls = 0;
  tool_calls = 0;
  input_tokens = 0;
  output_tokens = 0;
  cached_input_tokens = 0;
  reasoning_tokens = 0;
  cost_usd = some 0;
  cost_known = true;
  elapsed_seconds = 1;
}

abbrev stepped_state : RunBudgetState
stepped_state = record {
  owner_run_id = "root";
  run_id = "root";
  policy = policy;
  local_usage = bare_usage;
  aggregate_usage = bare_usage;
  remaining = remaining_of policy bare_usage;
  aggregate_remaining = remaining_of policy bare_usage;
  soft_limit_reached = false;
  soft_dimensions = [];
  hard_limit_reached = false;
  exceeded_dimension = none;
}

stepped_state_ok : snapshot_of at_start stepped "root" ≡ ok stepped_state
unfolding new_ledger initialize empty_usage consume_discrete preflight check_wall_time check_elapsed
    run_entry usage usage_of usages total aggregate_usage all_costs_known used_in limit_of
    check_limit mark_soft mark_soft_one is_soft reserved_input reserved_cost lookup insert values
    snapshot_of
stepped_state_ok = refl
