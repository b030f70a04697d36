-- ===== src/Tests/StoreTests.antt =====
-- The checkpoint store of src/axiom/runtime/checkpoints.py and the rounds of `_mutate` of
-- src/axiom/runtime/budget.py at concrete inputs.
use axiom_agent.Prelude.{
  ℕ, String, ◌≡◌, ◌≢◌, refl, none, some, [], ◌∷◌, ◌++◌, ◌⊎◌, str_eq, arith, if◌then◌else◌,
  Bool-cases, inl, inr, eq_iff,
}
use axiom_agent.Dict.{lookup, insert, values}
use axiom_agent.Models.{
  RunStatus, ToolExecutionStatus, ToolRetryState, ToolExecutionRecord, to_dict, from_dict,
}
use axiom_agent.Checkpoints.{
  Checkpoint, Store, ok, err, checkpoint_conflict, arguments_changed, last_row, rows_of,
  latest_sequence, advanced, save, load, list_thread, save_tool_execution, load_tool_execution,
}
use axiom_agent.Checkpoints.History.{save_outcome, save-stale, HasHistories, save-HasHistories}
use axiom_agent.Checkpoints.Tools.{
  stored_hash, save_tool_execution_outcome, save_tool_execution-hash,
}

abbrev Disk : Type 0
Disk = Store ℕ ℕ ℕ

abbrev empty_store : Disk
empty_store = record { checkpoints = []; tool_executions = []; budget_ledgers = [] }

abbrev first_checkpoint : Checkpoint ℕ
first_checkpoint = record {
  run_id = "run";
  thread_id = "thread";
  status = RunStatus.running;
  sequence = 0;
  created_at = 5;
  updated_at = 5;
  body = 1;
}

abbrev late_checkpoint : Checkpoint ℕ
late_checkpoint = record first_checkpoint { body = 2 }

abbrev one_row : Disk
one_row = record empty_store { checkpoints = ("run", advanced 7 first_checkpoint ∷ []) ∷ [] }

first_save : save 7 first_checkpoint empty_store ≡ (ok (advanced 7 first_checkpoint), one_row)
unfolding save last_row rows_of lookup insert
first_save = refl

thread_listed : list_thread "thread" one_row ≡ advanced 7 first_checkpoint ∷ []
unfolding list_thread last_row values
thread_listed = refl

save-stale_example : (save 9 late_checkpoint one_row).0 ≡ err checkpoint_conflict
save-stale_example =
    save-stale 7 9 first_checkpoint late_checkpoint empty_store one_row
      (advanced 7 first_checkpoint) first_save refl refl

one_row-HasHistories : HasHistories one_row
unfolding rows_of lookup
one_row-HasHistories k = elim (Bool-cases (str_eq "run" k)) [
  | inl here ↦ ground (arith, here, eq_iff "run" k)
  | inr other ↦ ground (arith, other)
]

save-HasHistories_example : HasHistories (save 9 (advanced 7 first_checkpoint) one_row).1
save-HasHistories_example =
    save-HasHistories 9 (advanced 7 first_checkpoint) one_row one_row-HasHistories

save_outcome_example :
    let (r, s) = save 9 late_checkpoint one_row in
    ((r ≡ err checkpoint_conflict)
      × ((k : String) → rows_of k s.checkpoints ≡ rows_of k one_row.checkpoints))
    ⊎ ((r ≡ ok (advanced 9 late_checkpoint))
        × (latest_sequence (rows_of "run" one_row.checkpoints) ≡ 0)
        × (load "run" s ≡ some (advanced 9 late_checkpoint))
        × ((k : String)
            → rows_of k s.checkpoints ≡ (
                if str_eq "run" k
                then rows_of "run" one_row.checkpoints ++ advanced 9 late_checkpoint ∷ []
                else rows_of k one_row.checkpoints)))
save_outcome_example = save_outcome 9 late_checkpoint one_row

abbrev execution : ToolExecutionRecord ℕ
execution = record {
  invocation_id = "call";
  run_id = "run";
  arguments_hash = "hash";
  status = ToolExecutionStatus.failed;
  attempt = 1;
  retry_state = ToolRetryState.retry_pending;
  retry_suppressed_reason = none;
  next_retry_at = some "later";
  updated_at = 3;
  body = 0;
}

abbrev with_execution : Disk
with_execution = (save_tool_execution 4 execution empty_store).1

other_arguments :
    (save_tool_execution 5 (record execution { arguments_hash = "other" }) with_execution).0
    ≡ err arguments_changed
unfolding save_tool_execution lookup insert to_dict
other_arguments = refl

save_tool_execution_outcome_example :
    let (result, s') = save_tool_execution 5 execution with_execution in
    ((result ≡ err arguments_changed)
      × (s' ≡ with_execution)
      × ((hash : String) × (stored_hash "call" with_execution ≡ some hash) × (hash ≢ "hash")))
    ⊎ ((result ≡ ok (record execution { updated_at = 5 }))
        × ((stored_hash "call" with_execution ≡ none)
            ⊎ (stored_hash "call" with_execution ≡ some "hash"))
        × (load_tool_execution "call" s'
            ≡ some (from_dict (to_dict (record execution { updated_at = 5 })))))
save_tool_execution_outcome_example = save_tool_execution_outcome 5 execution with_execution

execution_hash : stored_hash "call" with_execution ≡ some "hash"
unfolding save_tool_execution lookup insert to_dict
execution_hash = refl

save_tool_execution-hash_example :
    stored_hash "call"
      (save_tool_execution 5 (record execution { arguments_hash = "other" }) with_execution).1
    ≡ some "hash"
save_tool_execution-hash_example =
    save_tool_execution-hash 5 (record execution { arguments_hash = "other" }) with_execution "call"
      "hash" execution_hash
