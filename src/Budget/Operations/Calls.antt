-- ===== src/Budget/Operations/Calls.antt =====
-- Model calls: `reserve_model_call`, `complete_model_call` and `record_hard_limit` keep the counts
-- within their limits, and a completed call is charged once.
use axiom_agent.Prelude.{
  ℕ, ◌+◌, String, ◌≡◌, refl, ap, Option, none, some, arith, Option-cases, inl, inr, subst,
}
use axiom_agent.Prelude.Int.{ℤ, pos_part}
use axiom_agent.Dict.{Dict, lookup, insert}
use axiom_agent.Budget.Types.{
  Dimension, ModelPricing, RawUsage, OperationStatus, Operation, RunEntry, Ledger, Clock, ok,
  >>=-eq-ok,
}
use axiom_agent.Budget.Usage.{run_entry}
use axiom_agent.Budget.Checks.{preflight, first_violation, mark_soft}
use axiom_agent.Budget.Checks.Preflight.{Passed, preflight-Passed, run_entry-eq-ok, ok-injective}
use axiom_agent.Budget.Checks.Marks.{
  mark_soft-IsBounded, mark_owner_hard-IsBounded, OnlyMarks, mark_soft-OnlyMarks,
  mark_owner_hard-OnlyMarks, OnlyMarks-trans, OnlyMarks-refl, OnlyMarks-insert,
}
use axiom_agent.Budget.Checks.Counted.{model_calls, Passed-IsBounded}
use axiom_agent.Budget.Counts.{counts_of, IsBounded, mark-IsBounded}
use axiom_agent.Budget.Operations.{
  reserve_model_call, reserved_cost_of, preflight_cost, Response, charge, complete_operation,
  put_usage, record_hard, record_violation, complete_model_call,
}

-- The bounds say nothing of the operations.
IsBounded-operations :
    (l : Ledger) (operations : Dict Operation)
    → IsBounded l
    → IsBounded (record l { operations = operations })
IsBounded-operations l operations h = record {
  each = h.each;
  together = h.together;
  unowned = h.unowned;
}

counts-charge :
    (pricing : Option ModelPricing) (r : Response) (u : RawUsage)
    → counts_of (charge pricing r u) ≡ counts_of u
unfolding charge
counts-charge none r u = refl
counts-charge (some p) r u = refl

-- What a successful new reservation has checked.
pub record Reserved (clocks : ℕ → Clock) (l : Ledger) (k : String) (estimate : ℕ) : Type 0 where
  pub calls : Passed (clocks 0) l k Dimension.model_calls 1
  pub input : Passed (clocks 1) l k Dimension.input_tokens estimate
  pub output : Passed (clocks 2) l k Dimension.output_tokens 0
  pub all_tokens : Passed (clocks 3) l k Dimension.total_tokens estimate

module _ (clocks : ℕ → Clock) (k op : String) (estimated : ℤ) (l l' : Ledger) where
  pub reserve_model_call-Reserved :
      lookup op l.operations ≡ none
      → reserve_model_call clocks k op estimated l ≡ ok l'
      → Reserved clocks l k (pos_part estimated)
  unfolding reserve_model_call
  reserve_model_call-Reserved new e =
      let n = pos_part estimated in
      let (t₀, p₀, e₀) =
        >>=-eq-ok (preflight (clocks 0) l k Dimension.model_calls 1) _
          (rw (new, reserve_model_call) at e) in
      let (t₁, p₁, e₁) = >>=-eq-ok (preflight (clocks 1) l k Dimension.input_tokens n) _ e₀ in
      let (t₂, p₂, e₂) = >>=-eq-ok (preflight (clocks 2) l k Dimension.output_tokens 0) _ e₁ in
      let (t₃, p₃, e₃) = >>=-eq-ok (preflight (clocks 3) l k Dimension.total_tokens n) _ e₂ in
      record {
        calls = preflight-Passed (clocks 0) l k Dimension.model_calls 1 p₀;
        input = preflight-Passed (clocks 1) l k Dimension.input_tokens n p₁;
        output = preflight-Passed (clocks 2) l k Dimension.output_tokens 0 p₂;
        all_tokens = preflight-Passed (clocks 3) l k Dimension.total_tokens n p₃;
      }

  -- A reservation that is let through keeps the bounds, with the new model call counted.
  pub reserve_model_call-IsBounded :
      IsBounded l → reserve_model_call clocks k op estimated l ≡ ok l' → IsBounded l'
  unfolding reserve_model_call
  reserve_model_call-IsBounded h e = elim (Option-cases (lookup op l.operations)) [
    | inr (o, old) ↦ subst IsBounded (ok-injective (rw (old, reserve_model_call) at e)) h
    | inl new ↦
        let n = pos_part estimated in
        let (t₀, p₀, e₀) =
          >>=-eq-ok (preflight (clocks 0) l k Dimension.model_calls 1) _
            (rw (new, reserve_model_call) at e) in
        let (t₁, p₁, e₁) = >>=-eq-ok (preflight (clocks 1) l k Dimension.input_tokens n) _ e₀ in
        let (t₂, p₂, e₂) = >>=-eq-ok (preflight (clocks 2) l k Dimension.output_tokens 0) _ e₁ in
        let (t₃, p₃, e₃) = >>=-eq-ok (preflight (clocks 3) l k Dimension.total_tokens n) _ e₂ in
        let (run, at_run, e₄) = >>=-eq-ok (run_entry l k) _ e₃ in
        let (t₅, p₅, e₅) =
          >>=-eq-ok (preflight_cost (clocks 4) l k (reserved_cost_of run.pricing n)) _ e₄ in
        mark_soft-IsBounded (clocks 5) _ l' k
          (Passed-IsBounded (clocks 0) l k Dimension.model_calls run
            (record run { usage = record run.usage { model_calls = run.usage.model_calls + 1 } }) _
            model_calls h (preflight-Passed (clocks 0) l k Dimension.model_calls 1 p₀)
            (run_entry-eq-ok l k at_run) refl (ground arith))
          e₅
  ]

-- `record_hard_limit` keeps the bounds.
pub record_hard-IsBounded :
    (clock : Clock) (k : String) (d : Dimension) (l l' : Ledger)
    → IsBounded l
    → record_hard clock k d l ≡ ok l'
    → IsBounded l'
unfolding record_hard
record_hard-IsBounded clock k d l l' h e =
    let (run, at_run, e₀) = >>=-eq-ok (run_entry l k) _ e in
    mark_owner_hard-IsBounded clock _ l' d
      (mark-IsBounded l k run (record run { hard_dimension = some d }) h
        (run_entry-eq-ok l k at_run) refl refl)
      e₀

record_hard-OnlyMarks :
    (clock : Clock) (k : String) (d : Dimension) (l l' : Ledger)
    → record_hard clock k d l ≡ ok l'
    → OnlyMarks l l'
unfolding record_hard
record_hard-OnlyMarks clock k d l l' e =
    let (run, at_run, e₀) = >>=-eq-ok (run_entry l k) _ e in
    let marked = record run { hard_dimension = some d } in
    OnlyMarks-trans l (record l { runs = insert k marked l.runs }) l'
      (OnlyMarks-insert l k run marked (run_entry-eq-ok l k at_run)
        (record { policy = refl; pricing = refl; usage = refl }))
      (mark_owner_hard-OnlyMarks clock _ l' d e₀)

record_violation-IsBounded :
    (clock : Clock) (k : String) (d : Option Dimension) (l l' : Ledger)
    → IsBounded l
    → record_violation clock k d l ≡ ok l'
    → IsBounded l'
record_violation-IsBounded clock k none l l' h e = subst IsBounded (ok-injective e) h
record_violation-IsBounded clock k (some d) l l' h e = record_hard-IsBounded clock k d l l' h e

record_violation-OnlyMarks :
    (clock : Clock) (k : String) (d : Option Dimension) (l l' : Ledger)
    → record_violation clock k d l ≡ ok l'
    → OnlyMarks l l'
record_violation-OnlyMarks clock k none l l' e =
    subst (OnlyMarks l) (ok-injective e) (OnlyMarks-refl l)
record_violation-OnlyMarks clock k (some d) l l' e = record_hard-OnlyMarks clock k d l l' e

-- The ledger once the response is charged, before any mark.
abbrev pub charged_ledger : String → String → Response → RunEntry → Operation → Ledger → Ledger
charged_ledger k op r run o l = record l {
  runs = put_usage k run (charge run.pricing r run.usage) l.runs;
  operations = insert op (complete_operation r o) l.operations;
}

-- What the completion of an open reservation does.
pub record Completed (k op : String) (r : Response) (o : Operation) (l l' : Ledger) : Type 0 where
  pub run : RunEntry
  pub found : lookup k l.runs ≡ some run
  pub marks : OnlyMarks (charged_ledger k op r run o l) l'
  pub bounded : IsBounded l → IsBounded l'

module _ (clock : Clock) (k op : String) (r : Response) (l l' : Ledger)
    (violation : Option Dimension) where
  pub complete_model_call-Completed :
      (o : Operation)
      → lookup op l.operations ≡ some o
      → o.status ≡ OperationStatus.reserved
      → complete_model_call clock k op r l ≡ ok (l', violation)
      → Completed k op r o l l'
  unfolding complete_model_call
  complete_model_call-Completed o there open_call e =
      let (run, at_run, e₀) =
        >>=-eq-ok (run_entry l k) _ (rw (there, complete_model_call, open_call) at e) in
      let charged = charged_ledger k op r run o l in
      let (v, e_v, e₁) = >>=-eq-ok (first_violation clock charged k) _ e₀ in
      let (marked, e_m, e₂) = >>=-eq-ok (record_violation clock k v charged) _ e₁ in
      let (final, e_f, e₃) = >>=-eq-ok (mark_soft clock marked k) _ e₂ in
      let is_final : final ≡ l' = ap (λ (p : Ledger × Option Dimension). p.0) (ok-injective e₃) in
      let found = run_entry-eq-ok l k at_run in
      record {
        run = run;
        found = found;
        marks = subst (OnlyMarks charged) is_final (
            OnlyMarks-trans charged marked final
              (record_violation-OnlyMarks clock k v charged marked e_m)
              (mark_soft-OnlyMarks clock marked final k e_f));
        bounded = λ h. subst IsBounded is_final (
            mark_soft-IsBounded clock marked final k
              (record_violation-IsBounded clock k v charged marked
                (IsBounded-operations _ _ (
                  mark-IsBounded l k run (record run { usage = charge run.pricing r run.usage }) h
                    found refl (counts-charge run.pricing r run.usage)))
                e_m)
              e_f);
      }
