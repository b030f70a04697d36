-- ===== src/Tests/LeaseTests.antt =====
-- Leases of src/axiom/runtime/postgres.py at concrete inputs.
use axiom_agent.Prelude.{
  ℕ, ◌+◌, ◌≤◌, ◌<◌, ◌≡◌, ◌↔◌, refl, Bool, true, false, none, some, [], ◌∷◌, arith, str_eq,
  if◌then◌else◌, List,
}
use axiom_agent.Dict.{Dict, lookup, insert}
use axiom_agent.Models.{RunStatus}
use axiom_agent.Distributed.Rows.{
  RunState, Row, Submission, Database, Ownership, StoreError, returned, raised, is_claimable,
  is_active, active_count, count_rows, ancestors, ancestors_not_cancelled, is_cancelled,
  deadline_is_live,
}
use axiom_agent.Distributed.Ancestors.{Reaches, ancestors_not_cancelled-Reaches}
use axiom_agent.Distributed.Claims.{
  is_below, delivery_is_exhausted, principal_has_room, claimed_row, claim_locked_candidate,
  claim_candidate, claim_run, next_attempt,
}
use axiom_agent.Distributed.Leases.{renew_lease, release_lease, validate_ownership}
use axiom_agent.Distributed.Queue.{Aging, claim_next}
use axiom_agent.Distributed.Saves.{no_delivery, new_row, next_state, save}
use axiom_agent.Distributed.Admission.{admit_submission, admit, insert_initial_run, find_submission}
use axiom_agent.Distributed.Machine.{Refines}
use axiom_agent.Distributed.Fencing.{DbStep, Later, DbStep-Refines}
use axiom_agent.Distributed.Capacity.{claim_next-active}
use axiom_agent.Distributed.Granting.{claim_run-outcome}
use axiom_agent.Distributed.Exclusion.{claim_run-fences}
use axiom_agent.Distributed.Rates.{
  Buckets, Rate, consume_submission_tokens, open_bucket, take_token, tokens_at, refilled,
}
use axiom_agent.Distributed.Throttle.{Call, passed}
use axiom_agent.Distributed.Replay.{admit_submission_again}

abbrev new_run : RunState ℕ
new_run = record {
  run_id = "run";
  thread_id = "thread";
  parent_run_id = none;
  principal_key = "default";
  status = RunStatus.running;
  sequence = 0;
  created_at = 3;
  updated_at = 3;
  max_wall_time_seconds = none;
  base_priority = none;
  runnable_since = some 3;
  error_type = none;
  delivery = no_delivery;
  body = 0;
}

abbrev no_rows : Database ℕ
no_rows = record {
  runs = [];
  checkpoints = [];
  submissions = [];
  counters = record {
    admission_rejections = 0;
    capacity_blocked_claims = 0;
    idempotent_submission_replays = 0;
    idempotency_conflicts = 0;
    manual_requeues = 0;
  };
}

abbrev submission : Submission
submission = record {
  thread_id = "thread";
  idempotency_key = "key";
  request_fingerprint = "print";
  run_id = "run";
}

abbrev row : Row ℕ
row = new_row 4 true new_run

abbrev one_row : Database ℕ
one_row = record no_rows {
  runs = ("run", row) ∷ [];
  checkpoints = next_state 4 new_run ∷ [];
  submissions = submission ∷ [];
}

first_submission :
    admit_submission 4 4 new_run "key" "print" (some 5) (some 5) no_rows
    ≡ (returned (next_state 4 new_run, true), one_row)
unfolding admit_submission admit insert_initial_run find_submission count_rows lookup insert
first_submission = refl

admit_submission_again_example :
    let (answer, after) =
      admit_submission 9 9 (record new_run { run_id = "again" }) "key" "other" none none one_row in
    (after.runs ≡ one_row.runs)
    × (after.checkpoints ≡ one_row.checkpoints)
    × (after.submissions ≡ one_row.submissions)
    × (answer ≡ (
        if str_eq "print" "other"
        then returned (record (next_state 4 new_run) { delivery = no_delivery }, false)
        else raised StoreError.idempotency_conflict))
admit_submission_again_example =
    admit_submission_again 4 9 4 9 new_run (record new_run { run_id = "again" })
      (next_state 4 new_run) "key" "print" (some 5) (some 5) none none no_rows one_row
      first_submission refl refl refl "other"

abbrev claimed : Database ℕ
claimed = record one_row { runs = ("run", claimed_row 10 "a" 30 row) ∷ [] }

abbrev first_lease : Ownership
first_lease = record {
  run_id = "run";
  worker_id = "a";
  fencing_token = 1;
  lease_until = 40;
  takeover = false;
  delivery_attempt = 1;
}

first_claim : claim_run 10 "run" "a" 30 (some 1) (some 3) none one_row ≡ (some first_lease, claimed)
unfolding claim_run claim_candidate claim_locked_candidate claimed_row is_claimable
    ancestors_not_cancelled ancestors deadline_is_live principal_has_room count_rows is_active
    lookup insert active_count next_attempt new_row
first_claim = refl

claim_run-outcome_example :
    (is_claimable 10 one_row.runs row ≡ true)
    × (is_active 10 row ≡ false)
    × (principal_has_room 10 one_row.runs row none ≡ true)
    × (is_below (active_count 10 one_row.runs) (some 1) ≡ true)
    × (delivery_is_exhausted row (some 3) ≡ false)
    × (first_lease.fencing_token ≡ row.fencing_token + 1)
    × (validate_ownership 39 first_lease
          (claim_run 10 "run" "a" 30 (some 1) (some 3) none one_row).1
        ≡ returned tt)
unfolding lookup
claim_run-outcome_example =
    claim_run-outcome 10 39 "run" "a" 30 (some 1) (some 3) none row one_row first_lease refl
      (ground (arith, first_claim)) (omega arith)

-- The lease of "a" runs out at 40, and "b" takes over.
abbrev taken : Database ℕ
taken = record one_row { runs = ("run", claimed_row 50 "b" 30 (claimed_row 10 "a" 30 row)) ∷ [] }

abbrev second_lease : Ownership
second_lease = record {
  run_id = "run";
  worker_id = "b";
  fencing_token = 2;
  lease_until = 80;
  takeover = true;
  delivery_attempt = 2;
}

second_claim : claim_run 50 "run" "b" 30 (some 1) (some 3) none claimed ≡ (some second_lease, taken)
unfolding claim_run claim_candidate claim_locked_candidate claimed_row is_claimable
    ancestors_not_cancelled ancestors deadline_is_live principal_has_room count_rows is_active
    lookup insert active_count next_attempt new_row
second_claim = refl

claim_run-fences_example :
    (first_lease.fencing_token < second_lease.fencing_token)
    × ((written : ℕ) (c : RunState ℕ)
        → save 60 written c (some first_lease) taken ≡ (raised StoreError.ownership_lost, taken))
    × ((seconds : ℕ) → renew_lease 60 seconds first_lease taken ≡ (none, taken))
    × ((runnable : Bool) → release_lease 60 first_lease runnable taken ≡ (false, taken))
claim_run-fences_example =
    claim_run-fences "run" one_row claimed claimed taken taken 10 50 60 first_lease second_lease "a"
      "b" 30 30 (some 1) (some 3) none (some 1) (some 3) none first_claim
      (Later.wait Later.start (omega arith)) second_claim (Later.wait Later.start (omega arith))

DbStep-Refines_example : Refines 10 none one_row.runs claimed.runs
DbStep-Refines_example =
    DbStep-Refines 10 one_row claimed
      (DbStep.claimed "run" "a" 30 (some 1) (some 3) none (ground (arith, first_claim)))

abbrev aging : Aging
aging = record { interval = 60; boost_cap = 5 }

claim_next-active_example :
    active_count 50
      (claim_next 50 (λ k. false) (λ j k. false) aging "b" 30 (some 1) none none claimed).1.runs
    ≤ 1
unfolding active_count is_active claimed_row new_row count_rows
claim_next-active_example =
    claim_next-active 50 (λ k. false) (λ j k. false) aging "b" 30 1 none none claimed (omega arith)

-- Two Runs that are each other's parent.
abbrev cyclic_rows : Dict (Row ℕ)
cyclic_rows =
    ("a", record row { parent_run_id = some "b" })
    ∷ ("b", record row { parent_run_id = some "a"; status = RunStatus.cancelled })
    ∷ []

ancestors_not_cancelled-Reaches_example :
    (ancestors_not_cancelled cyclic_rows (record row { parent_run_id = some "b" }) ≡ false)
    ↔ ((n : ℕ) × (r : Row ℕ) × Reaches cyclic_rows n (some "b") r × (is_cancelled r.status ≡ true))
ancestors_not_cancelled-Reaches_example =
    ancestors_not_cancelled-Reaches cyclic_rows (record row { parent_run_id = some "b" })

-- Two tokens of 10 units at most, and a unit for a tick: the third call at once is refused.
abbrev limit_of_all : Rate
limit_of_all = record { rate = 1; burst = 20 }

abbrev call_at : ℕ → Call
call_at t = record { now = t; principal_key = "default"; principal = none }

abbrev calls : List Call
calls = call_at 5 ∷ call_at 5 ∷ call_at 5 ∷ call_at 15 ∷ []

abbrev no_buckets : Buckets
no_buckets = record { global_scope = []; principal_scope = [] }

three_pass : passed 10 limit_of_all calls no_buckets ≡ 3
unfolding passed consume_submission_tokens open_bucket take_token tokens_at refilled lookup insert
three_pass = refl
