-- ===== src/Distributed/Fencing.antt =====
-- The databases that transactions of src/axiom/runtime/postgres.py lead to as time passes, and what a
-- worker can still do in them with an old ownership.
use axiom_agent.Prelude.{ℕ, ◌≤◌, ◌<◌, String, ◌≡◌, ap, Bool, false, Option, none, some, arith}
use axiom_agent.Dict.{lookup}
use axiom_agent.Distributed.Rows.{RunState, Row, Database, Ownership, StoreError, raised, owns}
use axiom_agent.Distributed.Claims.{claim_run}
use axiom_agent.Distributed.Leases.{renew_lease, release_lease, validate_ownership}
use axiom_agent.Distributed.Queue.{Aging, claim_next}
use axiom_agent.Distributed.Saves.{save, mark_runnable}
use axiom_agent.Distributed.Admission.{
  admit_run, admit_submission, requeue_delivery_exhausted, is_in_failure_queue, with_delivery,
}
use axiom_agent.Distributed.Machine.{lease_of, acting, LeaseStep-token, Refines}
use axiom_agent.Distributed.Refinement.{
  via, claim_run-Refines, renew_lease-Refines, release_lease-Refines,
}
use axiom_agent.Distributed.Refinement.Next.{claim_next-Refines}
use axiom_agent.Distributed.Refinement.Saves.{save-Refines}
use axiom_agent.Distributed.Refinement.States.{
  mark_runnable-Refines, admit_run-Refines, admit_submission-Refines, requeue-Refines,
}

-- One transaction at the time `now`, whether it raises or not.
pub data DbStep {Body : Type 0} (now : ℕ) (db db' : Database Body) : Type 0 where
  claimed :
      (k worker : String) (seconds : ℕ) (max_active max_attempts max_principal : Option ℕ)
      → (claim_run now k worker seconds max_active max_attempts max_principal db).1 ≡ db'
      → DbStep now db db'
  claimed_next :
      (locked : String → Bool) (precedes : String → String → Bool) (aging : Aging) (worker : String)
      (seconds : ℕ) (max_active max_attempts max_principal : Option ℕ)
      → (claim_next now locked precedes aging worker seconds max_active max_attempts max_principal
          db).1
        ≡ db'
      → DbStep now db db'
  renewed :
      (seconds : ℕ) (o : Ownership) → (renew_lease now seconds o db).1 ≡ db' → DbStep now db db'
  released :
      (o : Ownership) (runnable : Bool)
      → (release_lease now o runnable db).1 ≡ db'
      → DbStep now db db'
  saved :
      (written : ℕ) (c : RunState Body) (ownership : Option Ownership)
      → (save now written c ownership db).1 ≡ db'
      → DbStep now db db'
  marked : (k : String) → (mark_runnable now k db).1 ≡ db' → DbStep now db db'
  admitted :
      (written : ℕ) (c : RunState Body) (max_queued max_principal : Option ℕ)
      → (admit_run now written c max_queued max_principal db).1 ≡ db'
      → DbStep now db db'
  submitted :
      (written : ℕ) (c : RunState Body) (key fingerprint : String)
      (max_queued max_principal : Option ℕ)
      → (admit_submission now written c key fingerprint max_queued max_principal db).1 ≡ db'
      → DbStep now db db'
  requeued : (k : String) → (requeue_delivery_exhausted now k db).1 ≡ db' → DbStep now db db'

pub data Later {Body : Type 0} (t : ℕ) (db : Database Body) : ℕ → Database Body → Type 0 where
  start : Later t db t db
  wait : {t₁ t₂ : ℕ} {db₁ : Database Body} → Later t db t₁ db₁ → t₁ ≤ t₂ → Later t db t₂ db₁
  act :
      {t₁ : ℕ} {db₁ db₂ : Database Body} → Later t db t₁ db₁ → DbStep t₁ db₁ db₂ → Later t db t₁ db₂

-- The ownership that a transaction acts with.
abbrev pub actor :
    {Body : Type 0} {now : ℕ} {db db' : Database Body} → DbStep now db db' → Option Ownership
actor (claimed k w s a b c e) = none
actor (claimed_next l p g w s a b c e) = none
actor (renewed s o e) = some o
actor (released o r e) = some o
actor (saved w c o e) = o
actor (marked k e) = none
actor (admitted w c a b e) = none
actor (submitted w c k f a b e) = none
actor (requeued k e) = none

module _ {Body : Type 0} where
  -- Every claim, renewal, release, save, marking, admission, submission and requeueing, refused or not,
  -- keeps each Run's row, and does to its lease at most one step of the abstract lease: it is granted
  -- only when it is free or has run out, then with a new token; it is renewed or freed only by an
  -- ownership of that Run, with its holder and its token, that the transaction acts with, and renewed
  -- only while it runs; it is revoked, with a new token, only when it is free or has run out or the Run
  -- waits in the failure queue.
  pub DbStep-Refines :
      (now : ℕ) (db db' : Database Body) (step : DbStep now db db')
      → Refines now (actor step) db.runs db'.runs
  DbStep-Refines now db db' (claimed k w s a b c e) =
      via now none _ _ _ (ap (λ x. x.runs) e) (claim_run-Refines now k w s a b c db)
  DbStep-Refines now db db' (claimed_next l p g w s a b c e) =
      via now none _ _ _ (ap (λ x. x.runs) e) (claim_next-Refines now l p g w s a b c db)
  DbStep-Refines now db db' (renewed s o e) =
      via now (some o) _ _ _ (ap (λ x. x.runs) e) (renew_lease-Refines now s o db)
  DbStep-Refines now db db' (released o r e) =
      via now (some o) _ _ _ (ap (λ x. x.runs) e) (release_lease-Refines now o r db)
  DbStep-Refines now db db' (saved w c o e) =
      via now o _ _ _ (ap (λ x. x.runs) e) (save-Refines now w c o db)
  DbStep-Refines now db db' (marked k e) =
      via now none _ _ _ (ap (λ x. x.runs) e) (mark_runnable-Refines now k db)
  DbStep-Refines now db db' (admitted w c a b e) =
      via now none _ _ _ (ap (λ x. x.runs) e) (admit_run-Refines now w c a b db)
  DbStep-Refines now db db' (submitted w c k f a b e) =
      via now none _ _ _ (ap (λ x. x.runs) e) (admit_submission-Refines now w c k f a b db)
  DbStep-Refines now db db' (requeued k e) =
      via now none _ _ _ (ap (λ x. x.runs) e) (requeue-Refines now k db)

  -- The token of a Run never falls.
  pub Later-token :
      (t : ℕ) (db : Database Body) (k : String) (row : Row Body)
      → lookup k db.runs ≡ some row
      → (t' : ℕ) (db' : Database Body) → Later t db t' db'
      → (row' : Row Body) × (lookup k db'.runs ≡ some row')
        × (row.fencing_token ≤ row'.fencing_token)
  Later-token t db k row there t' db' start = (row, there, omega arith)
  Later-token t db k row there t' db' (wait {t₁ = t₁} h le) = Later-token t db k row there t₁ db' h
  Later-token t db k row there t' db' (act {db₁ = db₁} h step) =
      let (row₁, there₁, le₁) = Later-token t db k row there t' db₁ h in
      let (row₂, there₂, moved) = DbStep-Refines t' db₁ db' step k row₁ there₁ in
      let le₂ =
        LeaseStep-token t' (acting (actor step) k) (is_in_failure_queue (with_delivery row₁))
          (lease_of row₁) (lease_of row₂) moved in
      (row₂, there₂, omega (arith, le₁, le₂))

  lost :
      (now : ℕ) (o : Ownership) (db : Database Body) (row : Row Body)
      → lookup o.run_id db.runs ≡ some row
      → o.fencing_token < row.fencing_token
      → validate_ownership now o db ≡ raised StoreError.ownership_lost
  unfolding validate_ownership owns
  lost now o db row there old = ground (arith, there, old)

  -- Once a Run has a token above that of an ownership, as after any later claim, a worker with that
  -- ownership can save nothing, renew nothing and release nothing, in every database from then on.
  pub stale_ownership :
      (t t' : ℕ) (db db' : Database Body) (o : Ownership) (row : Row Body)
      → lookup o.run_id db.runs ≡ some row
      → o.fencing_token < row.fencing_token
      → Later t db t' db'
      → ((written : ℕ) (c : RunState Body)
          → save t' written c (some o) db' ≡ (raised StoreError.ownership_lost, db'))
        × ((seconds : ℕ) → renew_lease t' seconds o db' ≡ (none, db'))
        × ((runnable : Bool) → release_lease t' o runnable db' ≡ (false, db'))
  unfolding save renew_lease release_lease owns
  stale_ownership t t' db db' o row there old later =
      let (row', there', le) = Later-token t db o.run_id row there t' db' later in
      let refused = lost t' o db' row' there' (omega (arith, old, le)) in
      (
        (λ written c. ground (arith, refused)),
        (λ seconds. ground (arith, there', old, le)),
        (λ runnable. ground (arith, there', old, le)),
      )
