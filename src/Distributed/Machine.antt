-- ===== src/Distributed/Machine.antt =====
-- What a transaction of src/axiom/runtime/postgres.py may do to the lease of a Run: an abstract lease,
-- its steps, and tables whose rows are related one by one.
use axiom_agent.Prelude.{
  ℕ, ◌+◌, ◌≤◌, ◌==◌, String, ◌≡◌, refl, sym, ap, subst, ◌∙◌, Bool, true, false, ◌&&◌, ◌||◌, Option,
  none, some, arith, str_eq, eq_iff, Bool-cases, Option-cases, inl, inr, if◌then◌else◌,
}
use axiom_agent.Dict.{Dict, lookup, insert, lookup-insert}
use axiom_agent.Distributed.Rows.{Row, Ownership, is_null, is_past, is_after, is_text}
use axiom_agent.Distributed.Claims.{update_where}
use axiom_agent.Distributed.Admission.{is_in_failure_queue, with_delivery}

pub record Lease : Type 0 where
  pub token : ℕ
  pub holder : Option String
  pub until : Option ℕ

abbrev pub lease_of : {Body : Type 0} → Row Body → Lease
lease_of row = record {
  token = row.fencing_token;
  holder = row.owner_worker_id;
  until = row.lease_until;
}

abbrev pub is_free : ℕ → Lease → Bool
is_free now a = is_null a.holder || is_past a.until now

abbrev pub holds : Ownership → Lease → Bool
holds o a = is_text a.holder o.worker_id && a.token == o.fencing_token

-- One step at the time `now`, in a transaction that acts with the ownership `by`, on the lease of a Run
-- that is dead, that is, waits in the failure queue, or is not. A grant and a revocation have a new
-- token.
pub data LeaseStep (now : ℕ) (by : Option Ownership) (dead : Bool) (a b : Lease) : Type 0 where
  kept : a ≡ b → LeaseStep now by dead a b
  granted :
      (worker : String) (seconds : ℕ)
      → is_free now a ≡ true
      → record { token = a.token + 1; holder = some worker; until = some (now + seconds) } ≡ b
      → LeaseStep now by dead a b
  renewed :
      (o : Ownership) (seconds : ℕ)
      → by ≡ some o
      → (holds o a && is_after a.until now) ≡ true
      → record a { until = some (now + seconds) } ≡ b
      → LeaseStep now by dead a b
  freed :
      (o : Ownership)
      → by ≡ some o
      → holds o a ≡ true
      → record a { holder = none; until = none } ≡ b
      → LeaseStep now by dead a b
  revoked :
      (dead || is_free now a) ≡ true
      → record { token = a.token + 1; holder = none; until = none } ≡ b
      → LeaseStep now by dead a b

module _ (now : ℕ) (by : Option Ownership) (dead : Bool) where
  pub LeaseStep-token : (a b : Lease) → LeaseStep now by dead a b → a.token ≤ b.token
  LeaseStep-token a b (kept e) = omega (arith, ap (λ (l : Lease). l.token) e)
  LeaseStep-token a b (granted w s h e) = omega (arith, ap (λ (l : Lease). l.token) e)
  LeaseStep-token a b (renewed o s q h e) = omega (arith, ap (λ (l : Lease). l.token) e)
  LeaseStep-token a b (freed o q h e) = omega (arith, ap (λ (l : Lease). l.token) e)
  LeaseStep-token a b (revoked h e) = omega (arith, ap (λ (l : Lease). l.token) e)

  -- What may be done to any lease may be done to that of a dead Run.
  pub LeaseStep-weaken : (a b : Lease) → LeaseStep now by false a b → LeaseStep now by dead a b
  LeaseStep-weaken a b (kept e) = kept e
  LeaseStep-weaken a b (granted w s h e) = granted w s h e
  LeaseStep-weaken a b (renewed o s q h e) = renewed o s q h e
  LeaseStep-weaken a b (freed o q h e) = freed o q h e
  LeaseStep-weaken a b (revoked h e) = revoked (ground (arith, h)) e

module _ {Body : Type 0} where
  -- No row is lost, and the row of each id is related to the one before.
  abbrev pub Related :
      (String → Row Body → Row Body → Type 0) → Dict (Row Body) → Dict (Row Body) → Type 0
  Related S runs runs' =
      (k : String) (row : Row Body)
      → lookup k runs ≡ some row
      → (row' : Row Body) × (lookup k runs' ≡ some row') × S k row row'

  pub Related-then :
      (S T U : String → Row Body → Row Body → Type 0) (a b c : Dict (Row Body))
      → ((k : String) (x y z : Row Body) → S k x y → T k y z → U k x z)
      → Related S a b
      → Related T b c
      → Related U a c
  Related-then S T U a b c join f g k row e =
      let (row₁, e₁, s₁) = f k row e in
      let (row₂, e₂, s₂) = g k row₁ e₁ in (row₂, e₂, join k row row₁ row₂ s₁ s₂)

module _ {Body : Type 0} (S : String → Row Body → Row Body → Type 0)
    (same : (k : String) (row : Row Body) → S k row row) where
  pub Related-refl : (runs : Dict (Row Body)) → Related S runs runs
  Related-refl runs k row e = (row, e, same k row)

  pub insert-Related :
      (j : String) (old new : Row Body) (runs : Dict (Row Body))
      → lookup j runs ≡ some old
      → S j old new
      → Related S runs (insert j new runs)
  insert-Related j old new runs there step k row e =
      let put = lookup-insert k j new runs in
      elim (Bool-cases (str_eq j k)) [
        | inr other ↦ (row, put ∙ rw other e, same k row)
        | inl here ↦
            let is_key = (eq_iff j k).0 here in
            let at : lookup k runs ≡ some old =
              ap (λ (n : String). lookup n runs) (sym is_key) ∙ there in
            let is_old : row ≡ old = cc (e, at) in
            (
              new,
              put ∙ rw here,
              subst (λ (r : Row Body). S k r new) (sym is_old)
                  (subst (λ (n : String). S n old new) is_key step),
            )
      ]

  pub insert_new-Related :
      (j : String) (new : Row Body) (runs : Dict (Row Body))
      → lookup j runs ≡ none
      → Related S runs (insert j new runs)
  insert_new-Related j new runs absent k row e =
      (row, ground (arith, lookup-insert k j new runs, e, absent, eq_iff j k), same k row)

  pub update_where-Related :
      (j : String) (test : Row Body → Bool) (change : Row Body → Row Body) (runs : Dict (Row Body))
      → ((row : Row Body) → lookup j runs ≡ some row → S j row (change row))
      → Related S runs (update_where j test change runs)
  unfolding update_where
  update_where-Related j test change runs step = elim (Option-cases (lookup j runs)) [
    | inl absent ↦ to runs (ground (arith, absent)) (Related-refl runs)
    | inr (old, there) ↦ elim (Bool-cases (test old)) [
      | inr miss ↦ to runs (ground (arith, there, miss)) (Related-refl runs)
      | inl hit ↦
          to (insert j (change old) runs) (ground (arith, there, hit))
            (insert-Related j old (change old) runs there (step old there))
    ]
  ]
    where
      to :
          (runs' : Dict (Row Body))
          → runs' ≡ update_where j test change runs
          → Related S runs runs'
          → Related S runs (update_where j test change runs)
      to runs' e h = subst (Related S runs) e h

-- The ownership `by`, if it is one of the Run `k`.
abbrev pub acting : Option Ownership → String → Option Ownership
acting none k = none
acting (some o) k = if str_eq o.run_id k then some o else none

module _ {Body : Type 0} where
  abbrev pub SameLease : String → Row Body → Row Body → Type 0
  SameLease k row row' = lease_of row ≡ lease_of row'

  -- One step of the Run's lease.
  abbrev pub Step : ℕ → Option Ownership → String → Row Body → Row Body → Type 0
  Step now by k row row' =
      LeaseStep now (acting by k) (is_in_failure_queue (with_delivery row)) (lease_of row)
        (lease_of row')

  -- No lease changed.
  abbrev pub Keeps : Dict (Row Body) → Dict (Row Body) → Type 0
  Keeps = Related SameLease

  -- The lease of each Run made one step, or none.
  abbrev pub Refines : ℕ → Option Ownership → Dict (Row Body) → Dict (Row Body) → Type 0
  Refines now by = Related (Step now by)

  pub stay : (now : ℕ) (by : Option Ownership) (k : String) (row : Row Body) → Step now by k row row
  stay now by k row = kept refl

  pub Keeps-Refines :
      (now : ℕ) (by : Option Ownership) (a b : Dict (Row Body)) → Keeps a b → Refines now by a b
  Keeps-Refines now by a b h k row e = let (row', e', same) = h k row e in (row', e', kept same)
