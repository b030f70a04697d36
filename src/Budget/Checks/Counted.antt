-- ===== src/Budget/Checks/Counted.antt =====
-- A passed `_preflight` for one use of a counted dimension makes room for it.
use axiom_agent.Prelude.{
  ℕ, ◌+◌, String, ◌≡◌, refl, ap, sym, ◌∙◌, true, Option, none, some, arith, subst,
}
use axiom_agent.Dict.{Dict, lookup, insert}
use axiom_agent.Budget.Types.{
  Dimension, RunBudgetPolicy, RunEntry, Ledger, Clock, Operation, ok, >>=-eq-ok, RunBudgetUsage,
}
use axiom_agent.Budget.Policy.{limit_of}
use axiom_agent.Budget.Usage.{run_entry, usage_of, aggregate_usage, used_in}
use axiom_agent.Budget.Checks.Preflight.{Passed, ok-injective}
use axiom_agent.Budget.Counts.{
  Counts, counts_of, add_counts, no_counts, totals, Fits, IsWithin, IsBounded, totals-usages,
  totals-insert, insert-IsBounded,
}

-- The count of a dimension that is counted.
abbrev pub count_in : Counts → Dimension → ℕ
count_in c Dimension.steps = c.steps
count_in c Dimension.model_calls = c.model_calls
count_in c Dimension.tool_calls = c.tool_calls
count_in c _ = 0

pub used-totals :
    (clock : Clock) (l : Ledger) (u : RunBudgetUsage)
    → aggregate_usage clock true l ≡ ok u
    → (used_in u Dimension.steps ≡ (totals l.runs).steps)
      × (used_in u Dimension.model_calls ≡ (totals l.runs).model_calls)
      × (used_in u Dimension.tool_calls ≡ (totals l.runs).tool_calls)
unfolding aggregate_usage used_in
used-totals clock l u e =
    let (owner, e₀, h₀) = >>=-eq-ok (run_entry l l.owner_run_id) _ e in
    let t = totals-usages clock true l.operations l.runs in
    let same = ok-injective h₀ in
    (
      sym (ap (λ (v : RunBudgetUsage). v.steps) same) ∙ t.0,
      sym (ap (λ (v : RunBudgetUsage). v.model_calls) same) ∙ t.1,
      sym (ap (λ (v : RunBudgetUsage). v.tool_calls) same) ∙ t.2,
    )

Fits-add_zero : (limit : Option ℕ) (n : ℕ) → Fits limit n → Fits limit (n + 0)
Fits-add_zero none n h = tt
Fits-add_zero (some m) n h = omega arith

pub Fits-none : (limit : Option ℕ) → Fits limit 0
Fits-none none = tt
Fits-none (some n) = omega arith

-- One use of a dimension that is counted.
abbrev pub one_of : Dimension → Counts
one_of Dimension.steps = record { steps = 1; model_calls = 0; tool_calls = 0 }
one_of Dimension.model_calls = record { steps = 0; model_calls = 1; tool_calls = 0 }
one_of Dimension.tool_calls = record { steps = 0; model_calls = 0; tool_calls = 1 }
one_of _ = no_counts

IsWithin-one_of :
    (d : Dimension) (p : RunBudgetPolicy) (c : Counts)
    → IsWithin p c
    → Fits (limit_of p d) (count_in c d + 1)
    → IsWithin p (add_counts c (one_of d))
unfolding limit_of
IsWithin-one_of Dimension.steps p c h fits = record {
  steps = fits;
  model_calls = Fits-add_zero p.max_model_calls c.model_calls h.model_calls;
  tool_calls = Fits-add_zero p.max_tool_calls c.tool_calls h.tool_calls;
}
IsWithin-one_of Dimension.model_calls p c h fits = record {
  steps = Fits-add_zero p.max_steps c.steps h.steps;
  model_calls = fits;
  tool_calls = Fits-add_zero p.max_tool_calls c.tool_calls h.tool_calls;
}
IsWithin-one_of Dimension.tool_calls p c h fits = record {
  steps = Fits-add_zero p.max_steps c.steps h.steps;
  model_calls = Fits-add_zero p.max_model_calls c.model_calls h.model_calls;
  tool_calls = fits;
}
IsWithin-one_of _ p c h fits = record {
  steps = Fits-add_zero p.max_steps c.steps h.steps;
  model_calls = Fits-add_zero p.max_model_calls c.model_calls h.model_calls;
  tool_calls = Fits-add_zero p.max_tool_calls c.tool_calls h.tool_calls;
}

totals-one_of :
    (k : String) (old new : RunEntry) (runs : Dict RunEntry) (by : Counts)
    → lookup k runs ≡ some old
    → counts_of new.usage ≡ add_counts (counts_of old.usage) by
    → totals (insert k new runs) ≡ add_counts (totals runs) by
totals-one_of k old new runs by found more =
    ground (arith, totals-insert k old new runs found, more)

-- The three dimensions that are counted.
pub data IsCounted : Dimension → Type 0 where
  steps : IsCounted Dimension.steps
  model_calls : IsCounted Dimension.model_calls
  tool_calls : IsCounted Dimension.tool_calls

used-count_in :
    (clock : Clock) (l : Ledger) (u : RunBudgetUsage) (d : Dimension)
    → IsCounted d
    → aggregate_usage clock true l ≡ ok u
    → used_in u d ≡ count_in (totals l.runs) d
used-count_in clock l u d steps e = (used-totals clock l u e).0
used-count_in clock l u d model_calls e = (used-totals clock l u e).1
used-count_in clock l u d tool_calls e = (used-totals clock l u e).2

local-count_in :
    (clock : Clock) (operations : Dict Operation) (k : String) (run : RunEntry) (d : Dimension)
    → IsCounted d
    → used_in (usage_of clock true operations k run) d ≡ count_in (counts_of run.usage) d
unfolding used_in usage_of
local-count_in clock operations k run d steps = refl
local-count_in clock operations k run d model_calls = refl
local-count_in clock operations k run d tool_calls = refl

-- What a passed check has made room for may be counted.
pub Passed-IsBounded :
    (clock : Clock) (l : Ledger) (k : String) (d : Dimension) (old new : RunEntry)
    (operations : Dict Operation)
    → IsCounted d
    → IsBounded l
    → Passed clock l k d 1
    → lookup k l.runs ≡ some old
    → new.policy ≡ old.policy
    → counts_of new.usage ≡ add_counts (counts_of old.usage) (one_of d)
    → IsBounded (record l { runs = insert k new l.runs; operations = operations })
Passed-IsBounded clock l k d old new operations counted h passed found policy more =
    let bumped = totals-one_of k old new l.runs (one_of d) found more in
    let same : passed.run ≡ old = cc (passed.found, found) in
    insert-IsBounded l k old new operations h found policy
      (subst (IsWithin old.policy) (sym more) (
        IsWithin-one_of d old.policy (counts_of old.usage) (h.each k old found) (
          subst (λ n. Fits (limit_of old.policy d) (n + 1))
            (local-count_in clock l.operations k old d counted)
            (subst
              (λ (r : RunEntry).
                Fits (limit_of r.policy d) (used_in (usage_of clock true l.operations k r) d + 1))
              same passed.local_fits))))
      (λ owner at_owner.
        let same_owner : passed.owner ≡ owner = cc (passed.owner_found, at_owner) in
        subst (IsWithin owner.policy) (sym bumped) (
          IsWithin-one_of d owner.policy (totals l.runs) (h.together owner at_owner) (
            subst (λ n. Fits (limit_of owner.policy d) (n + 1))
              (used-count_in clock l passed.aggregate d counted passed.added_up)
              (subst (λ (r : RunEntry). Fits (limit_of r.policy d) (used_in passed.aggregate d + 1))
                same_owner passed.aggregate_fits))))
      (λ none_owned. absurd (ground (arith, none_owned, passed.owner_found)))
