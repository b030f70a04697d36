-- ===== src/Budget/Counts.antt =====
-- The counted uses of a ledger, of src/axiom/runtime/budget.py: steps, model calls and tool calls,
-- by run and in all.
use axiom_agent.Prelude.{
  ℕ, ◌+◌, ◌≤◌, String, ◌≡◌, refl, ap, sym, ◌∙◌, Bool, Option, none, some, [], ◌∷◌, arith, str_eq,
  eq_iff, Bool-cases, inl, inr, subst,
}
use axiom_agent.Dict.{Dict, lookup, insert, lookup-insert}
use axiom_agent.Budget.Types.{RunBudgetPolicy, RawUsage, Operation, RunEntry, Ledger, Clock}
use axiom_agent.Budget.Usage.{usage_of, usages, total}

pub record Counts : Type 0 where
  pub steps : ℕ
  pub model_calls : ℕ
  pub tool_calls : ℕ

abbrev pub counts_of : RawUsage → Counts
counts_of u = record { steps = u.steps; model_calls = u.model_calls; tool_calls = u.tool_calls }

abbrev pub add_counts : Counts → Counts → Counts
add_counts a b = record {
  steps = a.steps + b.steps;
  model_calls = a.model_calls + b.model_calls;
  tool_calls = a.tool_calls + b.tool_calls;
}

abbrev pub no_counts : Counts
no_counts = record { steps = 0; model_calls = 0; tool_calls = 0 }

-- The counts of all runs together.
unfoldable pub totals : Dict RunEntry → Counts
totals [] = no_counts
totals ((_, run) ∷ runs) = add_counts (counts_of run.usage) (totals runs)

abbrev pub Fits : Option ℕ → ℕ → Type 0
Fits none n = Unit
Fits (some limit) n = n ≤ limit

-- No count is over its limit.
pub record IsWithin (p : RunBudgetPolicy) (c : Counts) : Type 0 where
  pub steps : Fits p.max_steps c.steps
  pub model_calls : Fits p.max_model_calls c.model_calls
  pub tool_calls : Fits p.max_tool_calls c.tool_calls

-- Every run is within its own policy, and all runs together are within the owner's. Before the
-- owner has an entry nothing is counted.
pub record IsBounded (l : Ledger) : Type 0 where
  pub each :
      (k : String) (run : RunEntry)
      → lookup k l.runs ≡ some run
      → IsWithin run.policy (counts_of run.usage)
  pub together :
      (owner : RunEntry)
      → lookup l.owner_run_id l.runs ≡ some owner
      → IsWithin owner.policy (totals l.runs)
  pub unowned : lookup l.owner_run_id l.runs ≡ none → totals l.runs ≡ no_counts

pub totals-insert :
    (k : String) (old new : RunEntry) (runs : Dict RunEntry)
    → lookup k runs ≡ some old
    → add_counts (totals (insert k new runs)) (counts_of old.usage)
      ≡ add_counts (totals runs) (counts_of new.usage)
unfolding totals insert lookup
totals-insert k old new [] h = cc
totals-insert k old new ((j, run) ∷ runs) h = ground (arith, totals-insert k old new runs)

-- A change that leaves the counts of its run alone leaves the totals alone.
pub totals-insert_same :
    (k : String) (old new : RunEntry) (runs : Dict RunEntry)
    → lookup k runs ≡ some old
    → counts_of new.usage ≡ counts_of old.usage
    → totals (insert k new runs) ≡ totals runs
totals-insert_same k old new runs h same = ground (arith, totals-insert k old new runs h, same)

pub totals-insert_new :
    (k : String) (new : RunEntry) (runs : Dict RunEntry)
    → lookup k runs ≡ none
    → totals (insert k new runs) ≡ add_counts (totals runs) (counts_of new.usage)
unfolding totals insert lookup
totals-insert_new k new [] h = ground arith
totals-insert_new k new ((j, run) ∷ runs) h = ground (arith, totals-insert_new k new runs)

-- The totals are what `_aggregate_usage` adds up.
pub totals-usages :
    (clock : Clock) (include : Bool) (operations : Dict Operation) (runs : Dict RunEntry)
    → let us = usages clock include operations runs in
      (total (λ u. u.steps) us ≡ (totals runs).steps)
      × (total (λ u. u.model_calls) us ≡ (totals runs).model_calls)
      × (total (λ u. u.tool_calls) us ≡ (totals runs).tool_calls)
unfolding usages usage_of total totals
totals-usages clock include operations [] = (refl, refl, refl)
totals-usages clock include operations ((k, run) ∷ runs) =
    let ih = totals-usages clock include operations runs in
    (
      ap (λ (n : ℕ). run.usage.steps + n) ih.0,
      ap (λ (n : ℕ). run.usage.model_calls + n) ih.1,
      ap (λ (n : ℕ). run.usage.tool_calls + n) ih.2,
    )

-- An entry may be replaced under the same policy by one that is within it, if the new totals are
-- within the owner's.
pub insert-IsBounded :
    (l : Ledger) (k : String) (old new : RunEntry) (operations : Dict Operation)
    → IsBounded l
    → lookup k l.runs ≡ some old
    → new.policy ≡ old.policy
    → IsWithin old.policy (counts_of new.usage)
    → ((owner : RunEntry)
        → lookup l.owner_run_id l.runs ≡ some owner
        → IsWithin owner.policy (totals (insert k new l.runs)))
    → (lookup l.owner_run_id l.runs ≡ none → totals (insert k new l.runs) ≡ no_counts)
    → IsBounded (record l { runs = insert k new l.runs; operations = operations })
insert-IsBounded l k old new operations h found policy within together unowned = record {
  each = λ j run at_j. elim (Bool-cases (str_eq k j)) [
    | inl here ↦
        let same : new ≡ run = ground (arith, at_j, here, lookup-insert j k new l.runs) in
        subst (λ r. IsWithin r.policy (counts_of r.usage)) same
          (subst (λ p. IsWithin p (counts_of new.usage)) (sym policy) within)
    | inr there ↦ h.each j run (ground (arith, at_j, there, lookup-insert j k new l.runs))
  ];
  together = λ owner at_owner. elim (Bool-cases (str_eq k l.owner_run_id)) [
    | inl here ↦
        let same : new ≡ owner =
          ground (arith, at_owner, here, lookup-insert l.owner_run_id k new l.runs) in
        let old_owner : lookup l.owner_run_id l.runs ≡ some old =
          subst (λ j. lookup j l.runs ≡ some old) ((eq_iff k l.owner_run_id).0 here) found in
        subst (λ p. IsWithin p (totals (insert k new l.runs)))
          (sym policy ∙ ap (λ (r : RunEntry). r.policy) same) (together old old_owner)
    | inr there ↦
        together owner (ground (arith, at_owner, there, lookup-insert l.owner_run_id k new l.runs))
  ];
  unowned = λ e. unowned (ground (arith, e, lookup-insert l.owner_run_id k new l.runs));
}

-- So may it be by one with the same counts.
pub mark-IsBounded :
    (l : Ledger) (k : String) (old new : RunEntry)
    → IsBounded l
    → lookup k l.runs ≡ some old
    → new.policy ≡ old.policy
    → counts_of new.usage ≡ counts_of old.usage
    → IsBounded (record l { runs = insert k new l.runs })
mark-IsBounded l k old new h found policy same =
    let kept = totals-insert_same k old new l.runs found same in
    insert-IsBounded l k old new l.operations h found policy
      (subst (IsWithin old.policy) (sym same) (h.each k old found))
      (λ owner at_owner. subst (IsWithin owner.policy) (sym kept) (h.together owner at_owner))
      (λ e. kept ∙ h.unowned e)
