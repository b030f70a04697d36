-- ===== src/Budget/Operations/Limits.antt =====
-- What a caller of the operations can rely on: no call past a limit, and no use counted twice.
use axiom_agent.Prelude.{
  ℕ, String, ◌≡◌, true, ap, ◌∙◌, Option, none, some, arith, Option-cases, inl, inr, subst, eq_refl,
}
use axiom_agent.Prelude.Int.{ℤ, pos_part}
use axiom_agent.Dict.{lookup, lookup-insert}
use axiom_agent.Budget.Types.{
  Dimension, RunBudgetUsage, OperationStatus, Operation, RunEntry, Ledger, Clock, ok, >>=-eq-ok,
}
use axiom_agent.Budget.Policy.{limit_of}
use axiom_agent.Budget.Usage.{run_entry, usage_of, aggregate_usage, used_in}
use axiom_agent.Budget.Checks.{preflight}
use axiom_agent.Budget.Checks.Preflight.{Passed, HasRoom, ok-injective}
use axiom_agent.Budget.Checks.Marks.{OnlyMarks, mark_soft-OnlyMarks}
use axiom_agent.Budget.Operations.{
  DiscreteDimension, dimension_of, consume_discrete, reserve_model_call, Response, charge,
  complete_operation, complete_model_call,
}
use axiom_agent.Budget.Operations.Calls.{
  Reserved, reserve_model_call-Reserved, complete_model_call-Completed, charged_ledger,
}

-- The dimensions that a new model call is checked against, whatever its estimate.
pub data IsCallDimension : Dimension → Type 0 where
  model_calls : IsCallDimension Dimension.model_calls
  input_tokens : IsCallDimension Dimension.input_tokens
  output_tokens : IsCallDimension Dimension.output_tokens
  total_tokens : IsCallDimension Dimension.total_tokens

abbrev pub HasBothRooms : Ledger → String → Dimension → Type 0
HasBothRooms l k d =
    (clock : Clock) × (run : RunEntry) × (owner : RunEntry) × (u : RunBudgetUsage) × (lookup k
        l.runs
      ≡ some run)
    × (lookup l.owner_run_id l.runs ≡ some owner)
    × (aggregate_usage clock true l ≡ ok u)
    × HasRoom (limit_of run.policy d) (used_in (usage_of clock true l.operations k run) d)
    × HasRoom (limit_of owner.policy d) (used_in u d)

rooms :
    (clock : Clock) (l : Ledger) (k : String) (d : Dimension) (n : ℕ)
    → Passed clock l k d n
    → HasBothRooms l k d
rooms clock l k d n p = (
  clock, p.run, p.owner, p.aggregate, p.found, p.owner_found, p.added_up, p.local_room,
  p.aggregate_room,
)

-- A new model call is let through only while the calls, the input tokens, the output tokens and
-- the total tokens, with all open reservations, are below the limits of the run and of the owner.
pub reserve_model_call-has_room :
    (clocks : ℕ → Clock) (run_id operation_id : String) (estimated : ℤ) (l l' : Ledger)
    → lookup operation_id l.operations ≡ none
    → reserve_model_call clocks run_id operation_id estimated l ≡ ok l'
    → (d : Dimension) → IsCallDimension d
    → HasBothRooms l run_id d
reserve_model_call-has_room clocks k op estimated l l' new e d which =
    pick which (reserve_model_call-Reserved clocks k op estimated l l' new e)
  where
    pick :
        {d : Dimension}
        → IsCallDimension d
        → Reserved clocks l k (pos_part estimated)
        → HasBothRooms l k d
    pick model_calls r = rooms (clocks 0) l k Dimension.model_calls 1 r.calls
    pick input_tokens r = rooms (clocks 1) l k Dimension.input_tokens (pos_part estimated) r.input
    pick output_tokens r = rooms (clocks 2) l k Dimension.output_tokens 0 r.output
    pick total_tokens r =
        rooms (clocks 3) l k Dimension.total_tokens (pos_part estimated) r.all_tokens

-- An operation that was counted is not counted again: the second call, at any time, leaves the
-- ledger as it is.
pub consume_discrete_twice :
    (clock clock' : Clock) (run_id operation_id : String) (d : DiscreteDimension) (l l' : Ledger)
    → consume_discrete clock run_id operation_id d l ≡ ok l'
    → consume_discrete clock' run_id operation_id d l' ≡ ok l'
unfolding consume_discrete
consume_discrete_twice clock clock' k op d l l' e = elim (Option-cases (lookup op l.operations)) [
  | inr (o, old) ↦
      let same : l ≡ l' = ok-injective (rw (old, consume_discrete) at e) in
      let there : lookup op l'.operations ≡ some o =
        subst (λ (m : Ledger). lookup op m.operations ≡ some o) same old in
      rw (there, consume_discrete)
  | inl new ↦
      let (t, passed, e₁) =
        >>=-eq-ok (preflight clock l k (dimension_of d) 1) _ (rw (new, consume_discrete) at e) in
      let (run, at_run, e₂) = >>=-eq-ok (run_entry l k) _ e₁ in
      let kept = (mark_soft-OnlyMarks clock _ l' k e₂).operations in
      let there = ap (lookup op) kept ∙ lookup-insert op op _ l.operations in
      ground (arith, there, eq_refl op)
]

-- A response is charged to its run exactly once. The first completion of an open reservation adds
-- its cost to the run's use, and each later one changes nothing.
pub complete_model_call_once :
    (clock : Clock) (run_id operation_id : String) (r : Response) (l l' : Ledger)
    (violation : Option Dimension) (o : Operation) (run : RunEntry) (clock' : Clock) (r' : Response)
    → lookup operation_id l.operations ≡ some o
    → o.status ≡ OperationStatus.reserved
    → lookup run_id l.runs ≡ some run
    → complete_model_call clock run_id operation_id r l ≡ ok (l', violation)
    → ((run' : RunEntry) × (lookup run_id l'.runs ≡ some run')
        × (run'.usage ≡ charge run.pricing r run.usage))
      × (complete_model_call clock' run_id operation_id r' l' ≡ ok (l', none))
unfolding complete_model_call
complete_model_call_once clock k op r l l' v o run clock' r' there open_call at_run e =
    let c = complete_model_call-Completed clock k op r l l' v o there open_call e in
    let same : c.run ≡ run = cc (c.found, at_run) in
    let new_run = record run { usage = charge run.pricing r run.usage } in
    let m = subst (λ q. OnlyMarks (charged_ledger k op r q o l) l') same c.marks in
    let (run', at_run', kept) =
      m.runs k new_run (lookup-insert k k new_run l.runs ∙ ground (arith, eq_refl k)) in
    let done_op = complete_operation r o in
    let closed : lookup op l'.operations ≡ some done_op =
      ap (lookup op) m.operations
      ∙ lookup-insert op op done_op l.operations
      ∙ ground (arith, eq_refl op) in
    ((run', at_run', kept.usage), rw (closed, complete_model_call))
