-- ===== src/Distributed/Granting.antt =====
-- What a claim of src/axiom/runtime/postgres.py grants, and when.
use axiom_agent.Prelude.{ℕ, ◌+◌, ◌<◌, String, ◌≡◌, true, false, Option, some, arith, eq_refl}
use axiom_agent.Dict.{Dict, lookup, lookup-insert}
use axiom_agent.Distributed.Rows.{
  Row, Database, Ownership, returned, is_open_status, is_claimable, is_active, active_count, owns,
}
use axiom_agent.Distributed.Claims.{
  is_below, delivery_is_exhausted, principal_has_room, claimed_row, claim_locked_candidate,
  claim_candidate, no_candidate, claim_run,
}
use axiom_agent.Distributed.Leases.{validate_ownership}

module _ {Body : Type 0} where
  -- The claim of a row that is open holds until its lease ends.
  claim_locked_candidate-validate_ownership :
      (now later : ℕ) (k : String) (row : Row Body) (worker : String) (seconds : ℕ)
      (db : Database Body)
      → is_open_status row.status ≡ true
      → later < now + seconds
      → let (o, db') = claim_locked_candidate now k row worker seconds db in
        validate_ownership later o db' ≡ returned tt
  unfolding claim_locked_candidate claimed_row validate_ownership owns
  claim_locked_candidate-validate_ownership now later k row worker seconds db is_open lt = ground (
    arith,
    is_open,
    lookup-insert k k (claimed_row now worker seconds row) db.runs,
    eq_refl k,
    eq_refl worker,
    lt,
  )

  is_claimable-is_active :
      (now : ℕ) (runs : Dict (Row Body)) (row : Row Body)
      → is_claimable now runs row ≡ true
      → (is_open_status row.status ≡ true) × (is_active now row ≡ false)
  unfolding is_claimable is_active
  is_claimable-is_active now runs row h = ground (arith, h)

  -- A claim that gives a lease changes the row it read, whatever the branch.
  pub claim_run-granted :
      (now : ℕ) (k worker : String) (seconds : ℕ) (max_active max_attempts max_principal : Option ℕ)
      (row : Row Body) (db : Database Body) (o : Ownership)
      → lookup k db.runs ≡ some row
      → (claim_run now k worker seconds max_active max_attempts max_principal db).0 ≡ some o
      → (is_claimable now db.runs row ≡ true)
        × (principal_has_room now db.runs row max_principal ≡ true)
        × (delivery_is_exhausted row max_attempts ≡ false)
        × (is_below (active_count now db.runs) max_active ≡ true)
        × (claim_run now k worker seconds max_active max_attempts max_principal db ≡ (
          some (claim_locked_candidate now k row worker seconds db).0,
          (claim_locked_candidate now k row worker seconds db).1,
        ))
  unfolding claim_run claim_candidate no_candidate
  claim_run-granted now k worker seconds max_active max_attempts max_principal row db o there got =
      ground (arith, there, got)

  -- If a Run has a row and a claim of it gives a lease, the row was claimable and not active, its
  -- principal and the store had room for it, its deliveries were not used up, the lease's token is one
  -- above the row's, and in the database after the claim the lease is valid at every time before
  -- its end.
  pub claim_run-outcome :
      (now later : ℕ) (k worker : String) (seconds : ℕ)
      (max_active max_attempts max_principal : Option ℕ) (row : Row Body) (db : Database Body)
      (o : Ownership)
      → lookup k db.runs ≡ some row
      → (claim_run now k worker seconds max_active max_attempts max_principal db).0 ≡ some o
      → later < now + seconds
      → (is_claimable now db.runs row ≡ true)
        × (is_active now row ≡ false)
        × (principal_has_room now db.runs row max_principal ≡ true)
        × (is_below (active_count now db.runs) max_active ≡ true)
        × (delivery_is_exhausted row max_attempts ≡ false)
        × (o.fencing_token ≡ row.fencing_token + 1)
        × (validate_ownership later o
              (claim_run now k worker seconds max_active max_attempts max_principal db).1
            ≡ returned tt)
  unfolding claim_locked_candidate claimed_row
  claim_run-outcome now later k worker seconds max_active max_attempts max_principal row db o there
        got lt =
      let (can, room, more, below, is) =
        claim_run-granted now k worker seconds max_active max_attempts max_principal row db o there
          got in
      let (is_open, idle) = is_claimable-is_active now db.runs row can in
      let valid =
        claim_locked_candidate-validate_ownership now later k row worker seconds db is_open lt in
      ground (arith, can, idle, room, below, more, is, got, valid)
