-- ===== src/Checkpoints/History.antt =====
-- The history of a Run in a store: `save` and `load` of src/axiom/runtime/checkpoints.py.
use axiom_agent.Prelude.{
  ℕ, ◌+◌, String, ◌≡◌, refl, ap, sym, ◌∙◌, some, List, [], ◌∷◌, ◌++◌, arith, str_eq, eq_iff,
  eq_refl, Bool-cases, inl, inr, ◌==◌, length, if◌then◌else◌, ◌⊎◌, subst,
}
use axiom_agent.Dict.{Dict, insert, lookup-insert}
use axiom_agent.Checkpoints.{
  Checkpoint, Store, Result, ok, err, checkpoint_conflict, last_row, rows_of, latest_sequence,
  advanced, save, load,
}

module _ {ℓ} {A : Type ℓ} where
  last_row-append : (xs : List A) (x : A) → last_row (xs ++ x ∷ []) ≡ some x
  unfolding last_row
  last_row-append [] x = refl
  last_row-append (y ∷ []) x = refl
  last_row-append (y ∷ z ∷ xs) x = last_row-append (z ∷ xs) x

  rows_of-insert :
      (j k : String) (rows : List A) (d : Dict (List A))
      → rows_of j (insert k rows d) ≡ (if str_eq k j then rows else rows_of j d)
  unfolding rows_of
  rows_of-insert j k rows d = ground (arith, lookup-insert j k rows d)

module _ {Body Tool State : Type 0} where
  -- A save either is refused and changes no history, or it appends the advanced checkpoint to the
  -- history of its Run, where the next load finds it, and changes no other history.
  pub save_outcome :
      (now : ℕ) (c : Checkpoint Body) (s : Store Body Tool State)
      → let (r, s') = save now c s in
        ((r ≡ err checkpoint_conflict)
          × ((k : String) → rows_of k s'.checkpoints ≡ rows_of k s.checkpoints))
        ⊎ ((r ≡ ok (advanced now c))
            × (latest_sequence (rows_of c.run_id s.checkpoints) ≡ c.sequence)
            × (load c.run_id s' ≡ some (advanced now c))
            × ((k : String)
                → rows_of k s'.checkpoints ≡ (
                    if str_eq c.run_id k
                    then rows_of c.run_id s.checkpoints ++ advanced now c ∷ []
                    else rows_of k s.checkpoints)))
  unfolding save load
  save_outcome now c s =
      let rows = rows_of c.run_id s.checkpoints in
      let kept = λ (k : String) (new : List (Checkpoint Body)).
        rows_of-insert k c.run_id new s.checkpoints in
      elim (Bool-cases (latest_sequence rows == c.sequence)) [
        | inr stale ↦
            inl
              (ground (arith, stale), (λ k. ground (arith, stale, kept k rows, eq_iff c.run_id k)))
        | inl fresh ↦
            let new = rows ++ advanced now c ∷ [] in
            inr (
              ground (arith, fresh),
              ground (arith, fresh),
              ground (
                arith,
                fresh,
                kept c.run_id new,
                eq_refl c.run_id,
                last_row-append rows (advanced now c),
              ),
              (λ k. ground (arith, fresh, kept k new)),
            )
      ]

  -- Of two workers with the same sequence of one Run, only the first to save succeeds.
  pub save-stale :
      (now now' : ℕ) (c c' : Checkpoint Body) (s s' : Store Body Tool State)
      (saved : Checkpoint Body)
      → save now c s ≡ (ok saved, s')
      → c'.run_id ≡ c.run_id
      → c'.sequence ≡ c.sequence
      → (save now' c' s').0 ≡ err checkpoint_conflict
  save-stale now now' c c' s s' saved e same_run same_sequence = elim (save_outcome now c s) [
    | inl refused ↦ absurd (ground (arith, e, refused.0))
    | inr (r, fresh, found, histories) ↦
        let is_store : (save now c s).1 ≡ s' =
          ap (λ (p : Result (Checkpoint Body) × Store Body Tool State). p.1) e in
        let rows : rows_of c'.run_id s'.checkpoints
            ≡ rows_of c.run_id s.checkpoints ++ advanced now c ∷ [] =
          ap (λ k. rows_of k s'.checkpoints) same_run
          ∙ ap (λ (t : Store Body Tool State). rows_of c.run_id t.checkpoints) (sym is_store)
          ∙ histories c.run_id
          ∙ rw eq_refl in
        elim (save_outcome now' c' s') [
          | inl refused ↦ refused.0
          | inr (r', fresh', found', histories') ↦ absurd (
              ground (
                arith,
                same_sequence,
                rows,
                fresh',
                last_row-append (rows_of c.run_id s.checkpoints) (advanced now c),
              ))
        ]
  ]

module _ {Body : Type 0} where
  -- The rows of the Run `k` have the sequences n + 1, n + 2 and so on.
  abbrev pub IsNumbered : String → ℕ → List (Checkpoint Body) → Type 0
  IsNumbered k n [] = Unit
  IsNumbered k n (c ∷ cs) = (c.run_id ≡ k) × (c.sequence ≡ n + 1) × IsNumbered k (n + 1) cs

  append-IsNumbered :
      (k : String) (n : ℕ) (cs : List (Checkpoint Body)) (c : Checkpoint Body)
      → IsNumbered k n cs
      → c.run_id ≡ k
      → c.sequence ≡ n + length cs + 1
      → IsNumbered k n (cs ++ c ∷ [])
  append-IsNumbered k n [] c h r e = (r, omega arith, tt)
  append-IsNumbered k n (d ∷ cs) c h r e =
      (h.0, h.1, append-IsNumbered k (n + 1) cs c h.2 r (omega arith))

  latest-IsNumbered :
      (k : String) (n : ℕ) (c : Checkpoint Body) (cs : List (Checkpoint Body))
      → IsNumbered k n (c ∷ cs)
      → latest_sequence (c ∷ cs) ≡ n + length (c ∷ cs)
  unfolding last_row
  latest-IsNumbered k n c [] h = omega arith
  latest-IsNumbered k n c (d ∷ cs) h =
      let ih = latest-IsNumbered k (n + 1) d cs h.2 in omega (arith, ih)

  latest-length :
      (k : String) (cs : List (Checkpoint Body))
      → IsNumbered k 0 cs
      → latest_sequence cs ≡ length cs
  unfolding last_row
  latest-length k [] h = refl
  latest-length k (c ∷ cs) h = let e = latest-IsNumbered k 0 c cs h in omega (arith, e)

module _ {Body Tool State : Type 0} where
  -- The history of every Run is its own, and has the sequences 1, 2, 3 and so on.
  abbrev pub HasHistories : Store Body Tool State → Type 0
  HasHistories s = (k : String) → IsNumbered k 0 (rows_of k s.checkpoints)

  -- Every save, refused or not, keeps the histories without a gap or a repetition.
  pub save-HasHistories :
      (now : ℕ) (c : Checkpoint Body) (s : Store Body Tool State)
      → HasHistories s
      → HasHistories (save now c s).1
  save-HasHistories now c s h k = elim (save_outcome now c s) [
    | inl refused ↦ subst (IsNumbered k 0) (sym (refused.1 k)) (h k)
    | inr (r, fresh, found, histories) ↦ elim (Bool-cases (str_eq c.run_id k)) [
      | inl here ↦
          let same : c.run_id ≡ k = (eq_iff c.run_id k).0 here in
          let rows = rows_of c.run_id s.checkpoints in
          let long = latest-length c.run_id rows (h c.run_id) in
          let grown =
            append-IsNumbered c.run_id 0 rows (advanced now c) (h c.run_id) refl
              (omega (arith, long, fresh)) in
          subst (λ j. IsNumbered j 0 (rows_of j (save now c s).1.checkpoints)) same
            (subst (IsNumbered c.run_id 0) (sym (histories c.run_id ∙ rw eq_refl)) grown)
      | inr other ↦ subst (IsNumbered k 0) (sym (histories k ∙ rw other)) (h k)
    ]
  ]
