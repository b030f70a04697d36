-- ===== src/Budget/Operations/Steps.antt =====
-- `initialize` and `_consume_discrete` keep the counts within their limits.
use axiom_agent.Prelude.{
  String, ◌≡◌, refl, sym, ◌∙◌, Option, none, arith, Option-cases, inl, inr, subst, str_eq, eq_iff,
  Bool-cases,
}
use axiom_agent.Dict.{lookup, insert, lookup-insert}
use axiom_agent.Budget.Types.{
  RunBudgetPolicy, ModelPricing, RawUsage, RunEntry, Ledger, Clock, ok, >>=-eq-ok,
}
use axiom_agent.Budget.Usage.{run_entry}
use axiom_agent.Budget.Checks.{preflight}
use axiom_agent.Budget.Checks.Preflight.{preflight-Passed, run_entry-eq-ok, ok-injective}
use axiom_agent.Budget.Checks.Marks.{mark_soft-IsBounded}
use axiom_agent.Budget.Counts.{
  counts_of, add_counts, no_counts, totals, IsWithin, IsBounded, totals-insert_new,
}
use axiom_agent.Budget.Operations.{
  DiscreteDimension, dimension_of, bump, consume_discrete, initialize,
}
use axiom_agent.Budget.Checks.Counted.{
  IsCounted, steps, tool_calls, one_of, Passed-IsBounded, Fits-none,
}

dimension_of-IsCounted : (d : DiscreteDimension) → IsCounted (dimension_of d)
dimension_of-IsCounted DiscreteDimension.step = steps
dimension_of-IsCounted DiscreteDimension.tool_call = tool_calls

counts-bump :
    (d : DiscreteDimension) (u : RawUsage)
    → counts_of (bump d u) ≡ add_counts (counts_of u) (one_of (dimension_of d))
counts-bump DiscreteDimension.step u = ground arith
counts-bump DiscreteDimension.tool_call u = ground arith

-- A step or a tool call that is let through leaves every run within its own limits on steps, model
-- calls and tool calls, and all runs together within the owner's.
pub consume_discrete-IsBounded :
    (clock : Clock) (run_id operation_id : String) (d : DiscreteDimension) (l l' : Ledger)
    → IsBounded l
    → consume_discrete clock run_id operation_id d l ≡ ok l'
    → IsBounded l'
unfolding consume_discrete
consume_discrete-IsBounded clock k op d l l' h e = elim (Option-cases (lookup op l.operations)) [
  | inr (o, old) ↦ subst IsBounded (ok-injective (rw (old, consume_discrete) at e)) h
  | inl new ↦
      let e' = rw (new, consume_discrete) at e in
      let (t, passed, e₁) = >>=-eq-ok (preflight clock l k (dimension_of d) 1) _ e' in
      let (run, at_run, e₂) = >>=-eq-ok (run_entry l k) _ e₁ in
      mark_soft-IsBounded clock _ l' k
        (Passed-IsBounded clock l k (dimension_of d) run (record run { usage = bump d run.usage }) _
          (dimension_of-IsCounted d) h (preflight-Passed clock l k (dimension_of d) 1 passed)
          (run_entry-eq-ok l k at_run) refl (counts-bump d run.usage))
        e₂
]

IsWithin-no_counts : (p : RunBudgetPolicy) → IsWithin p no_counts
IsWithin-no_counts p = record {
  steps = Fits-none p.max_steps;
  model_calls = Fits-none p.max_model_calls;
  tool_calls = Fits-none p.max_tool_calls;
}

insert_new-IsBounded :
    (k : String) (new : RunEntry) (l : Ledger)
    → IsBounded l
    → lookup k l.runs ≡ none
    → counts_of new.usage ≡ no_counts
    → IsBounded (record l { runs = insert k new l.runs })
insert_new-IsBounded k new l h absent zero_use =
    let kept : totals (insert k new l.runs) ≡ totals l.runs =
      ground (arith, totals-insert_new k new l.runs absent, zero_use) in
    record {
      each = λ j run at_j. elim (Bool-cases (str_eq k j)) [
        | inl here ↦
            let same : new ≡ run = ground (arith, at_j, here, lookup-insert j k new l.runs) in
            subst (λ r. IsWithin r.policy (counts_of r.usage)) same
              (subst (IsWithin new.policy) (sym zero_use) (IsWithin-no_counts new.policy))
        | inr there ↦ h.each j run (ground (arith, at_j, there, lookup-insert j k new l.runs))
      ];
      together = λ owner at_owner. elim (Bool-cases (str_eq k l.owner_run_id)) [
        | inl here ↦
            let none_yet : lookup l.owner_run_id l.runs ≡ none =
              subst (λ j. lookup j l.runs ≡ none) ((eq_iff k l.owner_run_id).0 here) absent in
            subst (IsWithin owner.policy) (sym (kept ∙ h.unowned none_yet))
              (IsWithin-no_counts owner.policy)
        | inr there ↦ subst (IsWithin owner.policy) (sym kept) (
            h.together owner
              (ground (arith, at_owner, there, lookup-insert l.owner_run_id k new l.runs)))
      ];
      unowned =
          λ e. kept ∙ h.unowned (ground (arith, e, lookup-insert l.owner_run_id k new l.runs));
    }

-- A new entry counts nothing.
pub initialize-IsBounded :
    (run_id : String) (policy : RunBudgetPolicy) (pricing : Option ModelPricing) (l : Ledger)
    → IsBounded l
    → IsBounded (initialize run_id policy pricing l)
unfolding initialize
initialize-IsBounded k policy pricing l h = elim (Option-cases (lookup k l.runs)) [
  | inr (run, there) ↦ rw (there, initialize) h
  | inl absent ↦ rw (absent, initialize) (insert_new-IsBounded k _ l h absent refl)
]
