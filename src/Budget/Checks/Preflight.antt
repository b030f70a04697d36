-- ===== src/Budget/Checks/Preflight.antt =====
-- What a passed `_preflight` tells of a ledger.
use axiom_agent.Prelude.{
  ℕ, ◌+◌, ◌<◌, String, ◌≡◌, ap, sym, ◌∙◌, true, Option, none, some, arith, Option-cases, inl, inr,
  subst,
}
use axiom_agent.Dict.{lookup}
use axiom_agent.Budget.Types.{
  Dimension, RunBudgetPolicy, RunBudgetUsage, RunEntry, Ledger, Clock, ok, >>=-eq-ok,
}
use axiom_agent.Budget.Policy.{limit_of}
use axiom_agent.Budget.Usage.{run_entry, usage, usage_of, aggregate_usage, used_in}
use axiom_agent.Budget.Checks.{check_wall_time, check_limit, preflight}
use axiom_agent.Budget.Counts.{Fits}

pub run_entry-eq-ok :
    (l : Ledger) (k : String) {run : RunEntry} → run_entry l k ≡ ok run → lookup k l.runs ≡ some run
unfolding run_entry
run_entry-eq-ok l k h = ground arith

pub ok-injective {ℓ} : {A : Type ℓ} {a b : A} → ok a ≡ ok b → a ≡ b
ok-injective h = cc

-- The limit has not been reached.
abbrev pub HasRoom : Option ℕ → ℕ → Type 0
HasRoom none used = Unit
HasRoom (some limit) used = used < limit

-- What passes leaves room for the amount.
check_limit-Fits :
    (run_id : String) (d : Dimension) (n : ℕ) (u : RunBudgetUsage) (p : RunBudgetPolicy)
    → check_limit run_id d n u p ≡ ok tt
    → Fits (limit_of p d) (used_in u d + n)
unfolding check_limit
check_limit-Fits run_id d n u p h = elim (Option-cases (limit_of p d)) [
  | inl e ↦ rw e tt
  | inr (limit, e) ↦ rw e (ground (arith, h, e))
]

-- So does the dimension itself, even for an amount of zero.
check_limit-HasRoom :
    (run_id : String) (d : Dimension) (n : ℕ) (u : RunBudgetUsage) (p : RunBudgetPolicy)
    → check_limit run_id d n u p ≡ ok tt
    → HasRoom (limit_of p d) (used_in u d)
unfolding check_limit
check_limit-HasRoom run_id d n u p h = elim (Option-cases (limit_of p d)) [
  | inl e ↦ rw e tt
  | inr (limit, e) ↦ rw e (ground (arith, h, e))
]

pub record Passed (clock : Clock) (l : Ledger) (run_id : String) (d : Dimension) (n : ℕ)
    : Type 0 where
  pub run : RunEntry
  pub found : lookup run_id l.runs ≡ some run
  pub owner : RunEntry
  pub owner_found : lookup l.owner_run_id l.runs ≡ some owner
  pub aggregate : RunBudgetUsage
  pub added_up : aggregate_usage clock true l ≡ ok aggregate
  pub local_fits :
      Fits (limit_of run.policy d) (used_in (usage_of clock true l.operations run_id run) d + n)
  pub aggregate_fits : Fits (limit_of owner.policy d) (used_in aggregate d + n)
  pub local_room :
      HasRoom (limit_of run.policy d) (used_in (usage_of clock true l.operations run_id run) d)
  pub aggregate_room : HasRoom (limit_of owner.policy d) (used_in aggregate d)

pub preflight-Passed :
    (clock : Clock) (l : Ledger) (run_id : String) (d : Dimension) (n : ℕ)
    → preflight clock l run_id d n ≡ ok tt
    → Passed clock l run_id d n
unfolding preflight usage
preflight-Passed clock l run_id d n h =
    let (t₀, e₀, h₀) = >>=-eq-ok (check_wall_time clock l run_id) _ h in
    let (local, e₁, h₁) = >>=-eq-ok (usage clock true l run_id) _ h₀ in
    let (aggregate, e₂, h₂) = >>=-eq-ok (aggregate_usage clock true l) _ h₁ in
    let (run, e₃, h₃) = >>=-eq-ok (run_entry l run_id) _ h₂ in
    let (owner, e₄, h₄) = >>=-eq-ok (run_entry l l.owner_run_id) _ h₃ in
    let (t₅, e₅, h₅) = >>=-eq-ok (check_limit run_id d n local run.policy) _ h₄ in
    let (run', e₆, e₇) = >>=-eq-ok (run_entry l run_id) _ e₁ in
    let same : run' ≡ run = cc in
    let is_local : local ≡ usage_of clock true l.operations run_id run =
      sym (ok-injective e₇) ∙ ap (usage_of clock true l.operations run_id) same in
    record {
      run = run;
      found = run_entry-eq-ok l run_id e₃;
      owner = owner;
      owner_found = run_entry-eq-ok l l.owner_run_id e₄;
      aggregate = aggregate;
      added_up = e₂;
      local_fits =
          subst (λ u. Fits (limit_of run.policy d) (used_in u d + n)) is_local
            (check_limit-Fits run_id d n local run.policy e₅);
      aggregate_fits = check_limit-Fits run_id d n aggregate owner.policy h₅;
      local_room =
          subst (λ u. HasRoom (limit_of run.policy d) (used_in u d)) is_local
            (check_limit-HasRoom run_id d n local run.policy e₅);
      aggregate_room = check_limit-HasRoom run_id d n aggregate owner.policy h₅;
    }
