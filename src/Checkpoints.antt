-- ===== src/Checkpoints.antt =====
-- `MemoryCheckpointStore` of src/axiom/runtime/checkpoints.py. Its lock makes every method atomic,
-- so a method is a function from the store to a result and a store. `deepcopy` is what values do.
-- Instants are numbers of ticks. `ownership`, which this store refuses, is not modelled.
pub mod History
pub mod Tools
use axiom_agent.Prelude.{
  ℕ, zero, suc, ◌+◌, String, Bool, true, false, Option, none, some, List, [], ◌∷◌, ◌++◌, keep, leb,
  ◌==◌, str_eq, map, if◌then◌else◌,
}
use axiom_agent.Dict.{Dict, lookup, insert, values}
use axiom_agent.Models.{RunStatus, ToolExecutionRecord, ToolRow, to_dict, from_dict}

-- The fields of `RunState` that the stores read or write, and the others as `Body`.
pub record Checkpoint (Body : Type 0) : Type 0 where
  pub run_id : String
  pub thread_id : String
  pub status : RunStatus
  pub sequence : ℕ
  pub created_at : ℕ
  pub updated_at : ℕ
  pub body : Body

pub record BudgetRow (State : Type 0) : Type 0 where
  pub version : ℕ
  pub state : State

pub record BudgetLedgerRecord (State : Type 0) : Type 0 where
  pub owner_run_id : String
  pub version : ℕ
  pub state : State

pub record Store (Body Tool State : Type 0) : Type 0 where
  pub checkpoints : Dict (List (Checkpoint Body))
  pub tool_executions : Dict (ToolRow Tool)
  pub budget_ledgers : Dict (BudgetRow State)

-- `CheckpointConflictError`, the `ValueError` of a reused invocation, `BudgetLedgerConflictError`.
pub data StoreError : Type 0 where
  checkpoint_conflict arguments_changed budget_conflict : StoreError

pub data Result {ℓ} (A : Type ℓ) : Type ℓ where
  ok : A → Result A
  err : StoreError → Result A

module _ {ℓ} {A : Type ℓ} where
  -- `rows[-1] if rows else None`
  unfoldable pub last_row : List A → Option A
  last_row [] = none
  last_row (x ∷ []) = some x
  last_row (x ∷ y ∷ xs) = last_row (y ∷ xs)

  -- `d.setdefault(k, [])`
  unfoldable pub rows_of : String → Dict (List A) → List A
  rows_of k d = elim (lookup k d) [ none ↦ [] | some rows ↦ rows ]

module _ {Body : Type 0} where
  abbrev pub latest_sequence : List (Checkpoint Body) → ℕ
  latest_sequence rows = elim (last_row rows) [ none ↦ 0 | some c ↦ c.sequence ]

  -- The checkpoint as `save` leaves it.
  abbrev pub advanced : ℕ → Checkpoint Body → Checkpoint Body
  advanced now c = record c { sequence = c.sequence + 1; updated_at = now }

  -- `sorted(…, key=created_at)`, which keeps the order of equal keys.
  unfoldable pub insert_sorted : Checkpoint Body → List (Checkpoint Body) → List (Checkpoint Body)
  insert_sorted c [] = c ∷ []
  insert_sorted c (d ∷ ds) =
      if leb c.created_at d.created_at then c ∷ d ∷ ds else d ∷ insert_sorted c ds

  unfoldable pub latest_of_thread : String → List (List (Checkpoint Body)) → List (Checkpoint Body)
  latest_of_thread thread_id [] = []
  latest_of_thread thread_id (rows ∷ rest) =
      let others = latest_of_thread thread_id rest in
      elim (last_row rows) [
        | none ↦ others
        | some c ↦ if str_eq c.thread_id thread_id then insert_sorted c others else others
      ]

-- `current and current.get("arguments_hash") != record.arguments_hash`
abbrev pub hash_differs : {Tool : Type 0} → Option (ToolRow Tool) → String → Bool
hash_differs none hash = false
hash_differs (some row) hash = if str_eq row.arguments_hash hash then false else true

abbrev pub current_version : {State : Type 0} → Option (BudgetRow State) → ℕ
current_version none = 0
current_version (some row) = row.version

module _ {Body Tool State : Type 0} where
  -- On a conflict the empty list of `setdefault` stays behind.
  unfoldable pub save :
      ℕ → Checkpoint Body → Store Body Tool State → Result (Checkpoint Body) × Store Body Tool State
  unfolding last_row rows_of
  save now c s =
      let rows = rows_of c.run_id s.checkpoints in
      if latest_sequence rows == c.sequence
      then (
        ok (advanced now c),
        record s { checkpoints = insert c.run_id (rows ++ advanced now c ∷ []) s.checkpoints },
      )
      else (err checkpoint_conflict, record s { checkpoints = insert c.run_id rows s.checkpoints })

  unfoldable pub load : String → Store Body Tool State → Option (Checkpoint Body)
  unfolding last_row rows_of
  load run_id s = last_row (rows_of run_id s.checkpoints)

  unfoldable pub list_thread : String → Store Body Tool State → List (Checkpoint Body)
  unfolding latest_of_thread insert_sorted
  list_thread thread_id s = latest_of_thread thread_id (values s.checkpoints)

  unfoldable pub save_tool_execution :
      ℕ
      → ToolExecutionRecord Tool
      → Store Body Tool State
      → Result (ToolExecutionRecord Tool) × Store Body Tool State
  save_tool_execution now r s =
      if hash_differs (lookup r.invocation_id s.tool_executions) r.arguments_hash
      then (err arguments_changed, s)
      else (let r' = record r { updated_at = now } in
          (
            ok r',
            record s { tool_executions = insert r.invocation_id (to_dict r') s.tool_executions },
          ))

  unfoldable pub load_tool_execution :
      String → Store Body Tool State → Option (ToolExecutionRecord Tool)
  load_tool_execution invocation_id s = elim (lookup invocation_id s.tool_executions) [
    | none ↦ none
    | some row ↦ some (from_dict row)
  ]

  unfoldable pub load_budget_ledger :
      String → Store Body Tool State → Option (BudgetLedgerRecord State)
  load_budget_ledger owner_run_id s = elim (lookup owner_run_id s.budget_ledgers) [
    | none ↦ none
    | some row ↦
        some (record { owner_run_id = owner_run_id; version = row.version; state = row.state })
  ]

  unfoldable pub save_budget_ledger :
      BudgetLedgerRecord State
      → Store Body Tool State
      → Result (BudgetLedgerRecord State) × Store Body Tool State
  save_budget_ledger r s =
      if current_version (lookup r.owner_run_id s.budget_ledgers) == r.version
      then (
        ok (record r { version = r.version + 1 }),
        record s {
          budget_ledgers =
              insert r.owner_run_id (record { version = r.version + 1; state = r.state })
                s.budget_ledgers;
        },
      )
      else (err budget_conflict, s)
