-- ===== src/Budget/Reach.antt =====
-- The ledgers that the methods of `BudgetManager` in src/axiom/runtime/budget.py can make, whatever
-- the order of the calls, the runs that make them, and the readings of the clocks.
use axiom_agent.Prelude.{
  ℕ, String, ◌≡◌, refl, Option, some, arith, Option-cases, inl, inr, subst, ap,
}
use axiom_agent.Prelude.Int.{ℤ}
use axiom_agent.Dict.{lookup}
use axiom_agent.Budget.Types.{
  Dimension, RunBudgetPolicy, ModelPricing, OperationStatus, Operation, Ledger, Clock, ok,
}
use axiom_agent.Budget.Counts.{IsBounded, totals}
use axiom_agent.Budget.Checks.Preflight.{ok-injective}
use axiom_agent.Budget.Operations.{
  DiscreteDimension, Response, new_ledger, initialize, consume_discrete, reserve_model_call,
  complete_model_call, record_hard,
}
use axiom_agent.Budget.Operations.Steps.{consume_discrete-IsBounded, initialize-IsBounded}
use axiom_agent.Budget.Operations.Calls.{
  reserve_model_call-IsBounded, record_hard-IsBounded, complete_model_call-Completed,
}

-- One successful call of a method.
pub data LedgerStep (l l' : Ledger) : Type 0 where
  initialized :
      (run_id : String) (policy : RunBudgetPolicy) (pricing : Option ModelPricing)
      → initialize run_id policy pricing l ≡ l'
      → LedgerStep l l'
  consumed :
      (clock : Clock) (run_id operation_id : String) (d : DiscreteDimension)
      → consume_discrete clock run_id operation_id d l ≡ ok l'
      → LedgerStep l l'
  reserved :
      (clocks : ℕ → Clock) (run_id operation_id : String) (estimated : ℤ)
      → reserve_model_call clocks run_id operation_id estimated l ≡ ok l'
      → LedgerStep l l'
  completed :
      (clock : Clock) (run_id operation_id : String) (r : Response) (violation : Option Dimension)
      → complete_model_call clock run_id operation_id r l ≡ ok (l', violation)
      → LedgerStep l l'
  stopped :
      (clock : Clock) (run_id : String) (d : Dimension)
      → record_hard clock run_id d l ≡ ok l'
      → LedgerStep l l'

pub data Reachable (owner_run_id : String) : Ledger → Type 0 where
  start : (l : Ledger) → new_ledger owner_run_id ≡ l → Reachable owner_run_id l
  next : {l l' : Ledger} → Reachable owner_run_id l → LedgerStep l l' → Reachable owner_run_id l'

new_ledger-IsBounded : (owner_run_id : String) → IsBounded (new_ledger owner_run_id)
unfolding new_ledger lookup totals
new_ledger-IsBounded owner = record {
  each = λ k run e. cc;
  together = λ run e. cc;
  unowned = λ e. refl;
}

complete-IsBounded :
    (clock : Clock) (k op : String) (r : Response) (l l' : Ledger) (violation : Option Dimension)
    → IsBounded l
    → complete_model_call clock k op r l ≡ ok (l', violation)
    → IsBounded l'
unfolding complete_model_call
complete-IsBounded clock k op r l l' v h e = elim (Option-cases (lookup op l.operations)) [
  | inl missing ↦ absurd (ground (arith, rw (missing, complete_model_call) at e))
  | inr (o, there) ↦ by_status o there o.status refl
]
  where
    by_status :
        (o : Operation)
        → lookup op l.operations ≡ some o
        → (s : OperationStatus) → o.status ≡ s
        → IsBounded l'
    by_status o there OperationStatus.reserved s =
        (complete_model_call-Completed clock k op r l l' v o there s e).bounded h
    by_status o there OperationStatus.completed s =
        subst IsBounded
          (ap (λ (p : Ledger × Option Dimension). p.0)
            (ok-injective (rw (there, complete_model_call, s) at e)))
          h

LedgerStep-IsBounded : (l l' : Ledger) → LedgerStep l l' → IsBounded l → IsBounded l'
LedgerStep-IsBounded l l' (initialized k p q e) h =
    subst IsBounded e (initialize-IsBounded k p q l h)
LedgerStep-IsBounded l l' (consumed clock k op d e) h =
    consume_discrete-IsBounded clock k op d l l' h e
LedgerStep-IsBounded l l' (reserved clocks k op n e) h =
    reserve_model_call-IsBounded clocks k op n l l' h e
LedgerStep-IsBounded l l' (completed clock k op r v e) h =
    complete-IsBounded clock k op r l l' v h e
LedgerStep-IsBounded l l' (stopped clock k d e) h = record_hard-IsBounded clock k d l l' h e

-- However the calls of a root Run and its descendants are ordered, no run ever passes its own limits
-- on steps, model calls and tool calls, and all runs together never pass the root's.
pub Reachable-IsBounded :
    (owner_run_id : String) (l : Ledger) → Reachable owner_run_id l → IsBounded l
Reachable-IsBounded owner l (start m e) = subst IsBounded e (new_ledger-IsBounded owner)
Reachable-IsBounded owner l (next {l = m} r s) =
    LedgerStep-IsBounded m l s (Reachable-IsBounded owner m r)
