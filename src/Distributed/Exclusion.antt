-- ===== src/Distributed/Exclusion.antt =====
-- Two claims of one Run in src/axiom/runtime/postgres.py, with any transactions between them.
use axiom_agent.Prelude.{
  ℕ, ◌+◌, ◌<◌, String, ◌≡◌, refl, Bool, false, Option, none, some, arith, eq_refl, Option-cases,
  inl, inr,
}
use axiom_agent.Dict.{lookup, lookup-insert}
use axiom_agent.Distributed.Rows.{RunState, Row, Database, Ownership, StoreError, raised}
use axiom_agent.Distributed.Claims.{claimed_row, claim_locked_candidate, no_candidate, claim_run}
use axiom_agent.Distributed.Leases.{renew_lease, release_lease}
use axiom_agent.Distributed.Saves.{save}
use axiom_agent.Distributed.Fencing.{Later, Later-token, stale_ownership}
use axiom_agent.Distributed.Granting.{claim_run-granted}

module _ {Body : Type 0} where
  -- A claim that gives a lease finds a row and leaves one with the token of the lease.
  claim_run-token :
      (now : ℕ) (k worker : String) (seconds : ℕ) (max_active max_attempts max_principal : Option ℕ)
      (db db' : Database Body) (o : Ownership)
      → claim_run now k worker seconds max_active max_attempts max_principal db ≡ (some o, db')
      → (row row' : Row Body) × (lookup k db.runs ≡ some row)
        × (lookup k db'.runs ≡ some row')
        × (row'.fencing_token ≡ row.fencing_token + 1)
        × (o.fencing_token ≡ row'.fencing_token)
        × (o.run_id ≡ k)
  unfolding claim_run no_candidate claim_locked_candidate claimed_row
  claim_run-token now k worker seconds max_active max_attempts max_principal db db' o got =
      elim (Option-cases (lookup k db.runs)) [
        | inl absent ↦ absurd (ground (arith, absent, got))
        | inr (row, there) ↦
            let (_, _, _, _, is) =
              claim_run-granted now k worker seconds max_active max_attempts max_principal row db o
                there (ground (arith, got)) in
            let new = claimed_row now worker seconds row in
            (
              row,
              new,
              there,
              ground (arith, got, is, lookup-insert k k new db.runs, eq_refl k),
              refl,
              ground (arith, got, is),
              ground (arith, got, is),
            )
      ]

  -- If a claim of a Run gives a lease, and after it, with any transactions of any workers and any times
  -- between, another claim of that Run gives a lease too, then the second has a higher token, and
  -- whatever happens from then on, the first can save nothing, renew nothing and release nothing.
  pub claim_run-fences :
      (k : String) (db₁ db₂ db₃ db₄ db₅ : Database Body) (t₁ t₂ t₃ : ℕ) (o₁ o₂ : Ownership)
      (w₁ w₂ : String) (s₁ s₂ : ℕ) (a₁ b₁ c₁ a₂ b₂ c₂ : Option ℕ)
      → claim_run t₁ k w₁ s₁ a₁ b₁ c₁ db₁ ≡ (some o₁, db₂)
      → Later t₁ db₂ t₂ db₃
      → claim_run t₂ k w₂ s₂ a₂ b₂ c₂ db₃ ≡ (some o₂, db₄)
      → Later t₂ db₄ t₃ db₅
      → (o₁.fencing_token < o₂.fencing_token)
        × ((written : ℕ) (c : RunState Body)
            → save t₃ written c (some o₁) db₅ ≡ (raised StoreError.ownership_lost, db₅))
        × ((seconds : ℕ) → renew_lease t₃ seconds o₁ db₅ ≡ (none, db₅))
        × ((runnable : Bool) → release_lease t₃ o₁ runnable db₅ ≡ (false, db₅))
  claim_run-fences k db₁ db₂ db₃ db₄ db₅ t₁ t₂ t₃ o₁ o₂ w₁ w₂ s₁ s₂ a₁ b₁ c₁ a₂ b₂ c₂ first between
        second after =
      let (_, row₂, _, there₂, _, token₁, of₁) =
        claim_run-token t₁ k w₁ s₁ a₁ b₁ c₁ db₁ db₂ o₁ first in
      let (row₃, row₄, there₃, there₄, up, token₂, _) =
        claim_run-token t₂ k w₂ s₂ a₂ b₂ c₂ db₃ db₄ o₂ second in
      let (row, there, le) = Later-token t₁ db₂ k row₂ there₂ t₂ db₃ between in
      let same : row.fencing_token ≡ row₃.fencing_token = ground (arith, there, there₃) in
      let old : o₁.fencing_token < row₄.fencing_token = omega (arith, le, same, up, token₁) in
      let (saves, renews, releases) =
        stale_ownership t₂ t₃ db₄ db₅ o₁ row₄ (ground (arith, of₁, there₄)) old after in
      (omega (arith, old, token₂), saves, renews, releases)
