-- ===== src/Budget/Checks/Marks.antt =====
-- The marks `soft_dimensions` and `hard_dimension` count nothing.
use axiom_agent.Prelude.{
  String, ◌≡◌, refl, true, false, some, arith, str_eq, Bool-cases, Option-cases, inl, inr, subst,
  if◌then◌else◌, leb, ◌∙◌, eq_iff,
}
use axiom_agent.Dict.{lookup, insert, lookup-insert}
use axiom_agent.Budget.Types.{Dimension, RunEntry, Ledger, Clock, ok, >>=-eq-ok}
use axiom_agent.Budget.Policy.{limit_of}
use axiom_agent.Budget.Usage.{run_entry, usage, aggregate_usage, used_in}
use axiom_agent.Budget.Checks.{mark_soft_one, mark_soft, mark_owner_hard_if_exhausted}
use axiom_agent.Budget.Checks.Preflight.{run_entry-eq-ok, ok-injective}
use axiom_agent.Budget.Counts.{IsBounded, mark-IsBounded}

mark_soft_one-IsBounded :
    (clock : Clock) (l l' : Ledger) (target : String)
    → IsBounded l
    → mark_soft_one clock l target ≡ ok l'
    → IsBounded l'
unfolding mark_soft_one
mark_soft_one-IsBounded clock l l' target h e =
    let (run, e₀, h₀) = >>=-eq-ok (run_entry l target) _ e in
    let (u, e₁, h₁) =
      >>=-eq-ok
        (if str_eq target l.owner_run_id
          then aggregate_usage clock true l
          else usage clock true l target)
        _ h₀ in
    subst IsBounded (ok-injective h₁)
      (mark-IsBounded l target run _ h (run_entry-eq-ok l target e₀) refl refl)

pub mark_soft-IsBounded :
    (clock : Clock) (l l' : Ledger) (run_id : String)
    → IsBounded l
    → mark_soft clock l run_id ≡ ok l'
    → IsBounded l'
unfolding mark_soft
mark_soft-IsBounded clock l l' run_id h e =
    let (marked, e₀, h₀) = >>=-eq-ok (mark_soft_one clock l run_id) _ e in
    mark_soft_one-IsBounded clock marked l' marked.owner_run_id
      (mark_soft_one-IsBounded clock l marked run_id h e₀) h₀

pub mark_owner_hard-IsBounded :
    (clock : Clock) (l l' : Ledger) (d : Dimension)
    → IsBounded l
    → mark_owner_hard_if_exhausted clock l d ≡ ok l'
    → IsBounded l'
unfolding mark_owner_hard_if_exhausted
mark_owner_hard-IsBounded clock l l' d h e =
    let (owner, e₀, h₀) = >>=-eq-ok (run_entry l l.owner_run_id) _ e in
    let (u, e₁, h₁) = >>=-eq-ok (aggregate_usage clock false l) _ h₀ in
    let marked =
      mark-IsBounded l l.owner_run_id owner (record owner { hard_dimension = some d }) h
        (run_entry-eq-ok l l.owner_run_id e₀) refl refl in
    elim (Option-cases (limit_of owner.policy d)) [
      | inl none_set ↦ subst IsBounded (ok-injective (rw none_set at h₁)) h
      | inr (limit, set) ↦ elim (Bool-cases (leb limit (used_in u d))) [
        | inl over ↦ subst IsBounded (ok-injective (rw (set, over) at h₁)) marked
        | inr under ↦ subst IsBounded (ok-injective (rw (set, under) at h₁)) h
      ]
    ]

-- The entry of a run after its marks were set.
pub record SameUse (run run' : RunEntry) : Type 0 where
  pub policy : run'.policy ≡ run.policy
  pub pricing : run'.pricing ≡ run.pricing
  pub usage : run'.usage ≡ run.usage

-- Nothing but marks has changed.
pub record OnlyMarks (l l' : Ledger) : Type 0 where
  pub owner_run_id : l'.owner_run_id ≡ l.owner_run_id
  pub operations : l'.operations ≡ l.operations
  pub runs :
      (k : String) (run : RunEntry)
      → lookup k l.runs ≡ some run
      → (run' : RunEntry) × (lookup k l'.runs ≡ some run') × SameUse run run'

pub OnlyMarks-refl : (l : Ledger) → OnlyMarks l l
OnlyMarks-refl l = record {
  owner_run_id = refl;
  operations = refl;
  runs = λ k run e. (run, e, record { policy = refl; pricing = refl; usage = refl });
}

pub OnlyMarks-trans : (l l' l'' : Ledger) → OnlyMarks l l' → OnlyMarks l' l'' → OnlyMarks l l''
OnlyMarks-trans l l' l'' a b = record {
  owner_run_id = b.owner_run_id ∙ a.owner_run_id;
  operations = b.operations ∙ a.operations;
  runs = λ k run e.
      let (run', e', s) = a.runs k run e in
      let (run'', e'', t) = b.runs k run' e' in
      (
        run'',
        e'',
        record {
          policy = t.policy ∙ s.policy;
          pricing = t.pricing ∙ s.pricing;
          usage = t.usage ∙ s.usage;
        },
      );
}

pub OnlyMarks-insert :
    (l : Ledger) (k : String) (old new : RunEntry)
    → lookup k l.runs ≡ some old
    → SameUse old new
    → OnlyMarks l (record l { runs = insert k new l.runs })
OnlyMarks-insert l k old new found same = record {
  owner_run_id = refl;
  operations = refl;
  runs = λ j run at_j. elim (Bool-cases (str_eq k j)) [
    | inl here ↦
        let is_old : old ≡ run = cc (found, at_j, (eq_iff k j).0 here) in
        (
          new,
          ground (arith, here, lookup-insert j k new l.runs),
          subst (λ r. SameUse r new) is_old same,
        )
    | inr there ↦ (
      run,
      ground (arith, there, at_j, lookup-insert j k new l.runs),
      record { policy = refl; pricing = refl; usage = refl },
    )
  ];
}

mark_soft_one-OnlyMarks :
    (clock : Clock) (l l' : Ledger) (target : String)
    → mark_soft_one clock l target ≡ ok l'
    → OnlyMarks l l'
unfolding mark_soft_one
mark_soft_one-OnlyMarks clock l l' target e =
    let (run, e₀, h₀) = >>=-eq-ok (run_entry l target) _ e in
    let (u, e₁, h₁) =
      >>=-eq-ok
        (if str_eq target l.owner_run_id
          then aggregate_usage clock true l
          else usage clock true l target)
        _ h₀ in
    subst (OnlyMarks l) (ok-injective h₁) (
      OnlyMarks-insert l target run _ (run_entry-eq-ok l target e₀)
        (record { policy = refl; pricing = refl; usage = refl }))

pub mark_soft-OnlyMarks :
    (clock : Clock) (l l' : Ledger) (run_id : String)
    → mark_soft clock l run_id ≡ ok l'
    → OnlyMarks l l'
unfolding mark_soft
mark_soft-OnlyMarks clock l l' run_id e =
    let (marked, e₀, h₀) = >>=-eq-ok (mark_soft_one clock l run_id) _ e in
    OnlyMarks-trans l marked l' (mark_soft_one-OnlyMarks clock l marked run_id e₀)
      (mark_soft_one-OnlyMarks clock marked l' marked.owner_run_id h₀)

pub mark_owner_hard-OnlyMarks :
    (clock : Clock) (l l' : Ledger) (d : Dimension)
    → mark_owner_hard_if_exhausted clock l d ≡ ok l'
    → OnlyMarks l l'
unfolding mark_owner_hard_if_exhausted
mark_owner_hard-OnlyMarks clock l l' d e =
    let (owner, e₀, h₀) = >>=-eq-ok (run_entry l l.owner_run_id) _ e in
    let (u, e₁, h₁) = >>=-eq-ok (aggregate_usage clock false l) _ h₀ in
    let marked =
      OnlyMarks-insert l l.owner_run_id owner (record owner { hard_dimension = some d })
        (run_entry-eq-ok l l.owner_run_id e₀)
        (record { policy = refl; pricing = refl; usage = refl }) in
    elim (Option-cases (limit_of owner.policy d)) [
      | inl none_set ↦ subst (OnlyMarks l) (ok-injective (rw none_set at h₁)) (OnlyMarks-refl l)
      | inr (limit, set) ↦ elim (Bool-cases (leb limit (used_in u d))) [
        | inl over ↦ subst (OnlyMarks l) (ok-injective (rw (set, over) at h₁)) marked
        | inr under ↦ subst (OnlyMarks l) (ok-injective (rw (set, under) at h₁)) (OnlyMarks-refl l)
      ]
    ]
