-- ===== src/Budget/Store.antt =====
-- `BudgetManager._mutate` of src/axiom/runtime/budget.py over the store of
-- src/axiom/runtime/checkpoints.py: load, change, save, and again if another worker saved first.
use axiom_agent.Prelude.{
  ℕ, zero, suc, ◌+◌, String, ◌≡◌, ◌≢◌, refl, ap, true, none, some, List, [], ◌++◌, arith,
  Bool-cases, inl, inr, ◌==◌, subst, if◌then◌else◌,
}
use axiom_agent.Dict.{lookup, insert}
use axiom_agent.Checkpoints.{
  Store, BudgetRow, BudgetLedgerRecord, load_budget_ledger, save_budget_ledger, current_version,
}
use axiom_agent.Checkpoints
use axiom_agent.Budget.Types.{Ledger, BudgetError, conflict, Result, ok, err}
use axiom_agent.Budget.Operations.{new_ledger}

-- How `_mutate` ended, with the notes that its closure took down: the violations of
-- `complete_model_call`, kept over all rounds.
pub data Mutated (Note : Type 0) : Type 0 where
  saved : BudgetLedgerRecord Ledger → List Note → Mutated Note
  raised : BudgetError → Mutated Note

abbrev pub LedgerStore : Type 0 → Type 0 → Type 0
LedgerStore Body Tool = Store Body Tool Ledger

module _ {Body Tool : Type 0} where
  -- The stored record, or the one that is made where none is stored.
  unfoldable pub load_or_new : String → LedgerStore Body Tool → BudgetLedgerRecord Ledger
  unfolding load_budget_ledger new_ledger
  load_or_new owner s = elim (load_budget_ledger owner s) [
    | some r ↦ r
    | none ↦ record { owner_run_id = owner; version = 0; state = new_ledger owner }
  ]

module _ {Body Tool Note : Type 0} (owner : String) (change : Ledger → Result (Ledger × List Note))
    (between : ℕ → LedgerStore Body Tool → LedgerStore Body Tool) where
  -- A save that lost the race to another worker begins the next round.
  abbrev after_save :
      List Note
      → (List Note → LedgerStore Body Tool → Mutated Note × LedgerStore Body Tool)
      → Checkpoints.Result (BudgetLedgerRecord Ledger) × LedgerStore Body Tool
      → Mutated Note × LedgerStore Body Tool
  after_save notes again (Checkpoints.ok r, s) = (saved r notes, s)
  after_save notes again (Checkpoints.err e, s) = again notes s

  abbrev after_change :
      ℕ
      → List Note
      → LedgerStore Body Tool
      → (List Note → LedgerStore Body Tool → Mutated Note × LedgerStore Body Tool)
      → Result (Ledger × List Note)
      → Mutated Note × LedgerStore Body Tool
  after_change n notes s again (err e) = (raised e, s)
  after_change n notes s again (ok (l, more)) =
      after_save (notes ++ more) again
        (save_budget_ledger (record (load_or_new owner s) { state = l }) (between n s))

  -- The rounds left; `between n` is what other workers do to the store in that round, after the
  -- load and before the save.
  unfoldable pub mutate_rounds :
      ℕ → List Note → LedgerStore Body Tool → Mutated Note × LedgerStore Body Tool
  mutate_rounds zero notes s = (raised (conflict owner), s)
  mutate_rounds (suc n) notes s =
      after_change n notes s (mutate_rounds n) (change (load_or_new owner s).state)

  unfoldable pub mutate : LedgerStore Body Tool → Mutated Note × LedgerStore Body Tool
  mutate s = mutate_rounds 32 [] s

  -- Other workers save as this one does: a ledger never goes back to a version, and stands as it
  -- was while its version does.
  abbrev pub OnlyAdvances : Type 0
  OnlyAdvances =
      (n : ℕ) (s : LedgerStore Body Tool)
      → let old = lookup owner s.budget_ledgers in
        let new = lookup owner (between n s).budget_ledgers in
        current_version new ≡ current_version old → new ≡ old

  -- The stores that the rounds begin with: a round leaves the store as other workers left it, and is
  -- followed by another only if they changed the ledger.
  pub data Loaded (s : LedgerStore Body Tool) : ℕ → LedgerStore Body Tool → Type 0 where
    first : Loaded s 32 s
    lost :
        {n : ℕ} {t : LedgerStore Body Tool}
        → Loaded s (suc n) t
        → lookup owner (between n t).budget_ledgers ≢ lookup owner t.budget_ledgers
        → Loaded s n (between n t)

  -- The save replaced the ledger that its round had loaded, which stood in the store still, by the
  -- changed one.
  pub record IsAtomic (s : LedgerStore Body Tool) (r : BudgetLedgerRecord Ledger)
      (s' : LedgerStore Body Tool) : Type 0 where
    pub round : ℕ
    pub loaded : LedgerStore Body Tool
    pub reached : Loaded s (suc round) loaded
    pub standing :
        lookup owner (between round loaded).budget_ledgers ≡ lookup owner loaded.budget_ledgers
    pub more : List Note
    pub changed : change (load_or_new owner loaded).state ≡ ok (r.state, more)
    pub version : r.version ≡ (load_or_new owner loaded).version + 1
    pub replaced : s' ≡ record (between round loaded) {
      budget_ledgers =
          insert owner
            (record { version = r.version; state = r.state })
            (between round loaded).budget_ledgers;
    }

  load_or_new-version :
      (s : LedgerStore Body Tool)
      → (load_or_new owner s).version ≡ current_version (lookup owner s.budget_ledgers)
  unfolding load_or_new
  load_or_new-version s = ground arith

  load_or_new-owner : (s : LedgerStore Body Tool) → (load_or_new owner s).owner_run_id ≡ owner
  unfolding load_or_new
  load_or_new-owner s = ground arith

  -- What the save of a round does.
  save_round :
      (s t : LedgerStore Body Tool) (l : Ledger)
      → let r = load_or_new owner s in
        save_budget_ledger (record r { state = l }) t ≡ (
          if current_version (lookup owner t.budget_ledgers) == r.version
          then (
            Checkpoints.ok (record r { version = r.version + 1; state = l }),
            record t {
              budget_ledgers =
                  insert owner (record { version = r.version + 1; state = l }) t.budget_ledgers;
            },
          )
          else (Checkpoints.err Checkpoints.budget_conflict, t))
  unfolding save_budget_ledger
  save_round s t l = rw (load_or_new-owner s)

  module _ (advances : OnlyAdvances) (s : LedgerStore Body Tool) {r : BudgetLedgerRecord Ledger}
      {notes' : List Note} {s' : LedgerStore Body Tool} where
    after_change-IsAtomic :
        (n : ℕ) (notes : List Note) (t : LedgerStore Body Tool)
        (again : List Note → LedgerStore Body Tool → Mutated Note × LedgerStore Body Tool)
        (x : Result (Ledger × List Note))
        → Loaded s (suc n) t
        → change (load_or_new owner t).state ≡ x
        → ((ns : List Note)
            → Loaded s n (between n t)
            → again ns (between n t) ≡ (saved r notes', s')
            → IsAtomic s r s')
        → after_change n notes t again x ≡ (saved r notes', s')
        → IsAtomic s r s'
    after_change-IsAtomic n notes t again (err e) at made later h = absurd (ground (arith, h))
    after_change-IsAtomic n notes t again (ok (l, more)) at made later h =
        let t' = between n t in
        let base = load_or_new owner t in
        let tested = save_round t t' l in
        let known = load_or_new-version t in
        elim (Bool-cases (current_version (lookup owner t'.budget_ledgers) == base.version)) [
          | inr behind ↦
              let moved : lookup owner t'.budget_ledgers ≢ lookup owner t.budget_ledgers =
                λ e. ground (arith, behind, known, ap current_version e) in
              let h' = rw (tested, behind) at h in later (notes ++ more) (lost at moved) h'
          | inl won ↦
              let h' = rw (tested, won) at h in
              let x : BudgetLedgerRecord Ledger = record base {
                version = base.version + 1;
                state = l;
              } in
              let is_record : x ≡ r =
                cc (ap (λ (p : Mutated Note × LedgerStore Body Tool). p.0) h') in
              let is_store = ap (λ (p : Mutated Note × LedgerStore Body Tool). p.1) h' in
              subst (λ q. IsAtomic s q s') is_record
                (subst (IsAtomic s x) is_store (record {
                  round = n;
                  loaded = t;
                  reached = at;
                  standing = advances n t (ground (arith, won, known));
                  more = more;
                  changed = made;
                  version = refl;
                  replaced = refl;
                }))
        ]

    mutate_rounds-IsAtomic :
        (n : ℕ) (notes : List Note) (t : LedgerStore Body Tool)
        → Loaded s n t
        → mutate_rounds n notes t ≡ (saved r notes', s')
        → IsAtomic s r s'
    unfolding mutate_rounds
    mutate_rounds-IsAtomic zero notes t at h = absurd (ground (arith, h))
    mutate_rounds-IsAtomic (suc n) notes t at h =
        after_change-IsAtomic n notes t (mutate_rounds n) (change (load_or_new owner t).state) at
          refl (λ ns. mutate_rounds-IsAtomic n ns (between n t)) h

    -- No update is lost: where other workers only advance a ledger, a change that `mutate` reports as
    -- saved was made to the ledger that its last round loaded, which stood in the store as the others
    -- had left it when the save replaced it with the next version; nothing else of the store changed
    -- at that moment, and each earlier round was lost because the others had changed the ledger.
    pub mutate-IsAtomic : mutate s ≡ (saved r notes', s') → IsAtomic s r s'
    unfolding mutate
    mutate-IsAtomic h = mutate_rounds-IsAtomic 32 [] s first h

  round_alone :
      (n : ℕ) (notes : List Note) (s : LedgerStore Body Tool) (l : Ledger) (more : List Note)
      → lookup owner (between n s).budget_ledgers ≡ lookup owner s.budget_ledgers
      → change (load_or_new owner s).state ≡ ok (l, more)
      → (mutate_rounds (suc n) notes s).0
        ≡ saved
            (record (load_or_new owner s) {
              version = (load_or_new owner s).version + 1;
              state = l;
            })
            (notes ++ more)
  unfolding mutate_rounds
  round_alone n notes s l more quiet made =
      let t = between n s in
      let won : (current_version (lookup owner t.budget_ledgers) == (load_or_new owner s).version)
          ≡ true =
        ground (arith, quiet, load_or_new-version s) in
      rw (made, save_round s t l, won)

  -- Where no other worker touches the ledger in the first of the 32 rounds, that round saves the
  -- changed ledger as the next version.
  pub mutate_alone :
      (s : LedgerStore Body Tool) (l : Ledger) (notes : List Note)
      → lookup owner (between 31 s).budget_ledgers ≡ lookup owner s.budget_ledgers
      → change (load_or_new owner s).state ≡ ok (l, notes)
      → (mutate s).0
        ≡ saved
            (record (load_or_new owner s) {
              version = (load_or_new owner s).version + 1;
              state = l;
            })
            notes
  unfolding mutate
  mutate_alone s l notes quiet made = round_alone 31 [] s l notes quiet made
