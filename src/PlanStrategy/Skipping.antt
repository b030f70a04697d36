-- ===== src/PlanStrategy/Skipping.antt =====
-- `_skip_failed_dependents` of src/axiom/runtime/plan_strategy.py: the loop ends, and where.
use axiom_agent.Prelude.{
  ℕ, suc, zero, ◌+◌, ◌≤◌, ◌<◌, String, ◌≡◌, refl, sym, subst, true, false, some, List, [], ◌∷◌, map,
  any, length, ◌⊎◌, inl, inr, arith, str_eq, Bool-cases, Option-cases, is_some, if◌then◌else◌,
}
use axiom_agent.Dict.{Dict, insert, lookup-insert}
use axiom_agent.Plan.Task.{Task, TaskStatus, is_pending, mark_skipped}
use axiom_agent.PlanStrategy.Scheduler.{
  statuses_from, is_unsuccessful, has_status, skip_task, must_skip, skip_rounds,
  skip_failed_dependents,
}

abbrev pub pending_count : List Task → ℕ
pending_count [] = 0
pending_count (t ∷ ts) = (if is_pending t.status then 1 else 0) + pending_count ts

pending_count-length : (ts : List Task) → pending_count ts ≤ length ts
pending_count-length [] = omega arith
pending_count-length (t ∷ ts) = ground (arith, pending_count-length ts)

-- A round never adds a pending task.
skip_task-pending_count_le :
    (now : ℕ) (message : List String → String) (statuses : Dict TaskStatus) (ts : List Task)
    → pending_count (map (skip_task now message statuses) ts) ≤ pending_count ts
unfolding skip_task mark_skipped
skip_task-pending_count_le now message statuses [] = omega arith
skip_task-pending_count_le now message statuses (t ∷ ts) =
    ground (arith, skip_task-pending_count_le now message statuses ts)

skip_task-pending_count :
    (now : ℕ) (message : List String → String) (statuses : Dict TaskStatus) (ts : List Task)
    → any (must_skip statuses) ts ≡ true
    → pending_count (map (skip_task now message statuses) ts) < pending_count ts
unfolding skip_task mark_skipped
skip_task-pending_count now message statuses [] h = absurd (ground (arith, h))
skip_task-pending_count now message statuses (t ∷ ts) h = elim (Bool-cases (must_skip statuses t)) [
  | inl skipped ↦ ground (arith, skipped, skip_task-pending_count_le now message statuses ts)
  | inr kept ↦
      ground
        (arith, kept, skip_task-pending_count now message statuses ts (ground (arith, h, kept)))
]

-- As it was; or it was pending and is skipped, and by the statuses one of its dependencies failed, was
-- cancelled or was skipped.
pub record IsSkipped (statuses : Dict TaskStatus) (old new : Task) : Type 0 where
  pub same_id : new.id ≡ old.id
  pub same_dependencies : new.dependencies ≡ old.dependencies
  pub status :
      (new.status ≡ old.status)
      ⊎ ((old.status ≡ TaskStatus.pending)
          × (new.status ≡ TaskStatus.skipped)
          × (any (has_status is_unsuccessful statuses) old.dependencies ≡ true))

abbrev pub AreSkipped : Dict TaskStatus → List Task → List Task → Type 0
AreSkipped statuses [] [] = Unit
AreSkipped statuses [] (n ∷ ns) = ⊥
AreSkipped statuses (o ∷ os) [] = ⊥
AreSkipped statuses (o ∷ os) (n ∷ ns) = IsSkipped statuses o n × AreSkipped statuses os ns

AreSkipped-refl : (statuses : Dict TaskStatus) (ts : List Task) → AreSkipped statuses ts ts
AreSkipped-refl statuses [] = tt
AreSkipped-refl statuses (t ∷ ts) = (
  record { same_id = refl; same_dependencies = refl; status = inl refl },
  AreSkipped-refl statuses ts,
)

-- What is unsuccessful by the first statuses is so by the second.
abbrev Grows : Dict TaskStatus → Dict TaskStatus → Type 0
Grows d e =
    (k : String) → has_status is_unsuccessful d k ≡ true → has_status is_unsuccessful e k ≡ true

-- A task after a round: the same, or skipped by the rule.
skip_task-cases :
    (now : ℕ) (message : List String → String) (statuses : Dict TaskStatus) (t : Task)
    → let t' = skip_task now message statuses t in
      (t'.id ≡ t.id)
      × (t'.dependencies ≡ t.dependencies)
      × (((must_skip statuses t ≡ false) × (t'.status ≡ t.status))
          ⊎ ((t.status ≡ TaskStatus.pending)
              × (t'.status ≡ TaskStatus.skipped)
              × (any (has_status is_unsuccessful statuses) t.dependencies ≡ true)))
unfolding skip_task mark_skipped
skip_task-cases now message statuses t = elim (Bool-cases (must_skip statuses t)) [
  | inr kept ↦ (ground (arith, kept), ground (arith, kept), inl (kept, ground (arith, kept)))
  | inl skipped ↦ (
    ground (arith, skipped),
    ground (arith, skipped),
    inr (ground (arith, skipped), ground (arith, skipped), ground (arith, skipped)),
  )
]

insert-Grows :
    (d e : Dict TaskStatus) (old new : Task)
    → Grows d e
    → new.id ≡ old.id
    → (is_unsuccessful old.status ≡ true → is_unsuccessful new.status ≡ true)
    → Grows (insert old.id old.status d) (insert new.id new.status e)
insert-Grows d e old new grows same up k h = elim (Bool-cases (str_eq old.id k)) [
  | inl here ↦ ground (
    arith,
    here,
    h,
    same,
    lookup-insert k old.id old.status d,
    lookup-insert k new.id new.status e,
    up,
  )
  | inr other ↦ ground (
    arith,
    other,
    h,
    same,
    lookup-insert k old.id old.status d,
    lookup-insert k new.id new.status e,
    grows k,
  )
]

skip_task-Grows :
    (now : ℕ) (message : List String → String) (statuses d e : Dict TaskStatus) (ts : List Task)
    → Grows d e
    → Grows (statuses_from d ts) (statuses_from e (map (skip_task now message statuses) ts))
unfolding statuses_from
skip_task-Grows now message statuses d e [] grows = grows
skip_task-Grows now message statuses d e (t ∷ ts) grows =
    let t' = skip_task now message statuses t in
    let (same, _, how) = skip_task-cases now message statuses t in
    skip_task-Grows now message statuses (insert t.id t.status d) (insert t'.id t'.status e) ts (
      insert-Grows d e t t' grows same (λ failed. elim how [
        | inl (_, kept) ↦ ground (arith, kept, failed)
        | inr (_, skipped, _) ↦ ground (arith, skipped)
      ]))

any-Grows :
    (d e : Dict TaskStatus) (ks : List String)
    → Grows d e
    → any (has_status is_unsuccessful d) ks ≡ true
    → any (has_status is_unsuccessful e) ks ≡ true
any-Grows d e [] grows h = h
any-Grows d e (k ∷ ks) grows h = elim (Bool-cases (has_status is_unsuccessful d k)) [
  | inl here ↦ ground (arith, grows k here)
  | inr not_here ↦ ground (arith, any-Grows d e ks grows (ground (arith, h, not_here)))
]

skip_rounds-settled :
    (fuel now : ℕ) (message : List String → String) (ts final : List Task)
    → skip_rounds fuel now message ts ≡ some final
    → (any (must_skip (statuses_from [] final)) final ≡ false)
      × Grows (statuses_from [] ts) (statuses_from [] final)
unfolding skip_rounds
skip_rounds-settled zero now message ts final e = absurd (ground (arith, e))
skip_rounds-settled (suc fuel) now message ts final e =
    let statuses = statuses_from [] ts in
    let next = map (skip_task now message statuses) ts in
    elim (Bool-cases (any (must_skip statuses) ts)) [
      | inr done ↦ let same : ts ≡ final = ground (arith, e, done) in rw (sym same) (done, λ k h. h)
      | inl more ↦
          let (settled, grows) =
            skip_rounds-settled fuel now message next final (ground (arith, e, more)) in
          (settled, λ k h. grows k (skip_task-Grows now message statuses [] [] ts (λ j i. i) k h))
    ]

skip_rounds-is_some :
    (fuel now : ℕ) (message : List String → String) (ts : List Task)
    → pending_count ts < fuel
    → is_some (skip_rounds fuel now message ts) ≡ true
unfolding skip_rounds
skip_rounds-is_some zero now message ts lt = absurd (omega (arith, lt))
skip_rounds-is_some (suc fuel) now message ts lt =
    let statuses = statuses_from [] ts in
    elim (Bool-cases (any (must_skip statuses) ts)) [
      | inr done ↦ ground (arith, done)
      | inl more ↦ ground (
        arith,
        more,
        skip_rounds-is_some fuel now message (map (skip_task now message statuses) ts)
            (omega (arith, lt, skip_task-pending_count now message statuses ts more)),
      )
    ]

-- A round before what is settled by the last statuses.
AreSkipped-round :
    (now : ℕ) (message : List String → String) (statuses last : Dict TaskStatus)
    (ts final : List Task)
    → Grows statuses last
    → AreSkipped last (map (skip_task now message statuses) ts) final
    → AreSkipped last ts final
AreSkipped-round now message statuses last [] final grows h = h
AreSkipped-round now message statuses last (t ∷ ts) [] grows h = h
AreSkipped-round now message statuses last (t ∷ ts) (n ∷ ns) grows (first, rest) =
    let (same, deps, how) = skip_task-cases now message statuses t in
    (
      record {
        same_id = ground (arith, first.same_id, same);
        same_dependencies = ground (arith, first.same_dependencies, deps);
        status = elim how [
          | inl (_, kept) ↦ elim first.status [
            | inl still ↦ inl (ground (arith, still, kept))
            | inr (pending, skipped, by) ↦
                inr (ground (arith, pending, kept), skipped, ground (arith, by, deps))
          ]
          | inr (pending, skipped, by) ↦ elim first.status [
            | inl still ↦ inr (
              pending,
              ground (arith, still, skipped),
              any-Grows statuses last t.dependencies grows by,
            )
            | inr (again, _, _) ↦ absurd (ground (arith, again, skipped))
          ]
        ];
      },
      AreSkipped-round now message statuses last ts ns grows rest,
    )

skip_rounds-AreSkipped :
    (fuel now : ℕ) (message : List String → String) (ts final : List Task)
    → skip_rounds fuel now message ts ≡ some final
    → AreSkipped (statuses_from [] final) ts final
unfolding skip_rounds
skip_rounds-AreSkipped zero now message ts final e = absurd (ground (arith, e))
skip_rounds-AreSkipped (suc fuel) now message ts final e =
    let statuses = statuses_from [] ts in
    let next = map (skip_task now message statuses) ts in
    elim (Bool-cases (any (must_skip statuses) ts)) [
      | inr done ↦
          let same : ts ≡ final = ground (arith, e, done) in
          subst (λ ns. AreSkipped (statuses_from [] ns) ts ns) same
            (AreSkipped-refl (statuses_from [] ts) ts)
      | inl more ↦
          let rest : skip_rounds fuel now message next ≡ some final = ground (arith, e, more) in
          let (_, grows) = skip_rounds-settled (suc fuel) now message ts final e in
          AreSkipped-round now message statuses (statuses_from [] final) ts final grows
            (skip_rounds-AreSkipped fuel now message next final rest)
    ]

-- The loop over the tasks of a plan ends. Then no pending task depends on one that failed, was
-- cancelled or was skipped; and every task has the status that it had, or it was pending, is skipped,
-- and depends on such a task.
pub skip_failed_dependents_correct :
    (now : ℕ) (message : List String → String) (ts : List Task)
    → (final : List Task) × (skip_failed_dependents now message ts ≡ some final)
      × (any (must_skip (statuses_from [] final)) final ≡ false)
      × AreSkipped (statuses_from [] final) ts final
unfolding skip_failed_dependents
skip_failed_dependents_correct now message ts =
    let fuel = suc (length ts) in
    let enough = skip_rounds-is_some fuel now message ts (omega (arith, pending_count-length ts)) in
    elim (Option-cases (skip_rounds fuel now message ts)) [
      | inl nothing ↦ absurd (ground (arith, enough, nothing))
      | inr (final, e) ↦
          let (settled, _) = skip_rounds-settled fuel now message ts final e in
          (final, e, settled, skip_rounds-AreSkipped fuel now message ts final e)
    ]
