-- ===== src/Tests/LedgerTests.antt =====
-- The rounds of `_mutate` of src/axiom/runtime/budget.py at concrete inputs.
use axiom_agent.Prelude.{
  ℕ, ◌≡◌, refl, none, some, List, [], ◌∷◌, arith, Option-cases, inl, inr, eq_refl,
}
use axiom_agent.Dict.{lookup, insert, lookup-insert}
use axiom_agent.Checkpoints.{BudgetLedgerRecord, save_budget_ledger, load_budget_ledger}
use axiom_agent.Budget.Types.{RunBudgetPolicy, Ledger, Result, ok}
use axiom_agent.Budget.Operations.{new_ledger, initialize}
use axiom_agent.Budget.Store.{
  saved, LedgerStore, load_or_new, mutate_rounds, mutate, OnlyAdvances, IsAtomic, mutate-IsAtomic,
}

abbrev policy : RunBudgetPolicy
policy = record {
  max_steps = some 3;
  max_model_calls = some 2;
  max_tool_calls = none;
  max_input_tokens = none;
  max_output_tokens = none;
  max_total_tokens = none;
  max_wall_time_seconds = none;
  max_cost_usd = none;
  soft_limit_ratio = record { numerator = 4; denominator = 5 };
}

abbrev add_root : Ledger → Result (Ledger × List ℕ)
add_root l = ok (initialize "root" policy none l, [])

abbrev disk : LedgerStore ℕ ℕ
disk = record { checkpoints = []; tool_executions = []; budget_ledgers = [] }

abbrev quiet : ℕ → LedgerStore ℕ ℕ → LedgerStore ℕ ℕ
quiet n s = s

abbrev root_ledger : Ledger
root_ledger = initialize "root" policy none (new_ledger "root")

abbrev empty_ledger : Ledger
empty_ledger = new_ledger "root"

-- Another worker saves a ledger where there is none, so the first round is lost.
abbrev racing : ℕ → LedgerStore ℕ ℕ → LedgerStore ℕ ℕ
racing n s = elim (lookup "root" s.budget_ledgers) [
  | some _ ↦ s
  | none ↦ record s {
    budget_ledgers = insert "root" (record { version = 1; state = empty_ledger }) s.budget_ledgers;
  }
]

abbrev root_record : BudgetLedgerRecord Ledger
root_record = record { owner_run_id = "root"; version = 2; state = root_ledger }

abbrev written : LedgerStore ℕ ℕ
written = record disk {
  budget_ledgers = ("root", record { version = 2; state = root_ledger }) ∷ [];
}

racing-OnlyAdvances : OnlyAdvances "root" add_root racing
racing-OnlyAdvances n s e = elim (Option-cases (lookup "root" s.budget_ledgers)) [
  | inr (row, there) ↦ ground (arith, there)
  | inl absent ↦ absurd (
      ground (
        arith,
        absent,
        e,
        lookup-insert "root" "root" (record { version = 1; state = empty_ledger }) s.budget_ledgers,
        eq_refl "root",
      ))
]

written_ok : mutate {Note = ℕ} "root" add_root racing disk ≡ (saved root_record [], written)
unfolding mutate mutate_rounds load_or_new load_budget_ledger save_budget_ledger lookup insert
    new_ledger
written_ok = refl

mutate-IsAtomic_example : IsAtomic "root" add_root racing disk root_record written
mutate-IsAtomic_example = mutate-IsAtomic "root" add_root racing racing-OnlyAdvances disk written_ok
