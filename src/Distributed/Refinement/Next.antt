-- ===== src/Distributed/Refinement/Next.antt =====
-- `_claim_next` of src/axiom/runtime/postgres.py as steps of leases.
use axiom_agent.Prelude.{
  ℕ, String, ◌≡◌, subst, Bool, true, false, ◌&&◌, not, Option, none, some, List, [], ◌∷◌, All,
  arith, Bool-cases, Option-cases, inl, inr,
}
use axiom_agent.Dict.{Dict, lookup, keys}
use axiom_agent.Distributed.Rows.{Row, Database, is_claimable}
use axiom_agent.Distributed.Claims.{claim_candidate, no_candidate, principal_has_room}
use axiom_agent.Distributed.Queue.{Aging, candidates, first_of, comes_before, claim_next}
use axiom_agent.Distributed.Machine.{Refines}
use axiom_agent.Distributed.Refinement.{
  via, is_claimable-is_free, claim_candidate-Refines, no_candidate-Refines,
}

module _ {Body : Type 0} (now : ℕ) where
  -- What the query of `_claim_next` may return.
  pub record IsCandidate (locked : String → Bool) (max_principal : Option ℕ)
      (runs : Dict (Row Body)) (k : String) (row : Row Body) : Type 0 where
    pub found : lookup k runs ≡ some row
    pub unlocked : locked k ≡ false
    pub claimable : is_claimable now runs row ≡ true
    pub has_room : principal_has_room now runs row max_principal ≡ true

  abbrev pub AreCandidates :
      (String → Bool) → Option ℕ → Dict (Row Body) → List (String × Row Body) → Type 0
  AreCandidates locked max_principal runs cs =
      All (λ (c : String × Row Body). IsCandidate locked max_principal runs c.0 c.1) cs

  pub candidates-AreCandidates :
      (locked : String → Bool) (max_principal : Option ℕ) (runs : Dict (Row Body))
      (ks : List String)
      → AreCandidates locked max_principal runs (candidates now locked max_principal runs ks)
  unfolding candidates
  candidates-AreCandidates locked max_principal runs [] = tt
  candidates-AreCandidates locked max_principal runs (k ∷ ks) =
      let rest = candidates-AreCandidates locked max_principal runs ks in
      elim (Option-cases (lookup k runs)) [
        | inl absent ↦ rw (absent, candidates) rest
        | inr (row, there) ↦
            elim (Bool-cases (
              not (locked k)
              && is_claimable now runs row
              && principal_has_room now runs row max_principal)) [
                | inr miss ↦ rw (there, candidates, miss) rest
                | inl hit ↦
                    rw (there, candidates, hit)
                      (
                        record {
                          found = there;
                          unlocked = ground (arith, hit);
                          claimable = ground (arith, hit);
                          has_room = ground (arith, hit);
                        },
                        rest,
                      )
              ]
      ]

  pub first_of-All :
      (P : String × Row Body → Type 0) (before : String × Row Body → String × Row Body → Bool)
      (cs : List (String × Row Body)) (c : String × Row Body)
      → All P cs
      → first_of before cs ≡ some c
      → P c
  unfolding first_of
  first_of-All P before [] c h e = absurd (ground (arith, e))
  first_of-All P before (d ∷ cs) c h e = elim (Option-cases (first_of before cs)) [
    | inl alone ↦ let same : d ≡ c = ground (arith, e, alone) in subst P same h.0
    | inr (best, rest) ↦ elim (Bool-cases (before best d)) [
      | inl better ↦
          let same : best ≡ c = ground (arith, e, rest, better) in
          subst P same (first_of-All P before cs best h.1 rest)
      | inr worse ↦ let same : d ≡ c = ground (arith, e, rest, worse) in subst P same h.0
    ]
  ]

  pub claim_next-Refines :
      (locked : String → Bool) (precedes : String → String → Bool) (aging : Aging) (worker : String)
      (seconds : ℕ) (max_active max_attempts max_principal : Option ℕ) (db : Database Body)
      → Refines now none db.runs
          (claim_next now locked precedes aging worker seconds max_active max_attempts max_principal
            db).1.runs
  unfolding claim_next
  claim_next-Refines locked precedes aging worker seconds max_active max_attempts max_principal db =
      let cs = candidates now locked max_principal db.runs (keys db.runs) in
      elim (Option-cases (first_of (comes_before precedes aging now) cs)) [
        | inl nothing ↦
            via now none _ (no_candidate now max_active db).1.runs _ (ground (arith, nothing))
              (no_candidate-Refines now max_active db)
        | inr (c, chosen) ↦
            let fine =
              first_of-All (λ d. IsCandidate locked max_principal db.runs d.0 d.1) _ cs c
                (candidates-AreCandidates locked max_principal db.runs (keys db.runs)) chosen in
            via now none _
              (claim_candidate now worker seconds max_active max_attempts c.0 c.1 db).1.runs _
              (ground (arith, chosen))
              (claim_candidate-Refines now worker seconds max_active max_attempts c.0 c.1 db
                fine.found (is_claimable-is_free now db.runs c.1 fine.claimable))
      ]
