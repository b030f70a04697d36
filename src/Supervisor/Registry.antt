-- ===== src/Supervisor/Registry.antt =====
-- Which execution stands for a Run in src/axiom/runtime/supervisor.py.
use axiom_agent.Prelude.{
  String, ◌≡◌, ◌⊎◌, inl, inr, refl, true, Option, none, some, List, [], ◌∷◌, arith, str_eq, eq_iff,
  contains, Bool-cases, Option-cases, if◌then◌else◌,
}
use axiom_agent.Dict.{Dict, lookup, insert, lookup-insert, delete, lookup-delete}
use axiom_agent.Supervisor.{
  ExecutionHandle, Moment, Supervisor, register, done_ids, delete_all, remove_done,
}

lookup-delete_all {ℓ} :
    {V : Type ℓ} (j : String) (ks : List String) (d : Dict V)
    → lookup j (delete_all ks d) ≡ (if contains j ks then none else lookup j d)
unfolding delete_all contains
lookup-delete_all j [] d = refl
lookup-delete_all j (k ∷ ks) d =
    ground (arith, lookup-delete_all j ks (delete k d), lookup-delete j k d, eq_iff k j, eq_iff j k)

-- The handle that stands for a Run while its task is not done.
abbrev pub live : Moment → String → Supervisor → Option ExecutionHandle
live m k s = elim (lookup k s.handles) [
  | none ↦ none
  | some h ↦ if m.done h.asyncio_task then none else some h
]

-- A registration is refused exactly where a live execution stands for the Run; otherwise the new
-- handle stands for it, and nothing changes for any other Run.
pub register_outcome :
    (m : Moment) (h : ExecutionHandle) (s : Supervisor)
    → ((register m h s ≡ none) × ((old : ExecutionHandle) × (live m h.run_id s ≡ some old)))
      ⊎ ((s' : Supervisor) × (register m h s ≡ some s')
          × (live m h.run_id s ≡ none)
          × ((k : String)
              → lookup k s'.handles ≡ (if str_eq h.run_id k then some h else lookup k s.handles)))
unfolding register
register_outcome m h s = elim (Option-cases (lookup h.run_id s.handles)) [
  | inl absent ↦ inr (
    record s { handles = insert h.run_id h s.handles },
    ground (arith, absent),
    ground (arith, absent),
    (λ k. lookup-insert k h.run_id h s.handles),
  )
  | inr (old, there) ↦ elim (Bool-cases (m.done old.asyncio_task)) [
    | inr alive ↦ inl (ground (arith, there, alive), (old, ground (arith, there, alive)))
    | inl done ↦ inr (
      record s { handles = insert h.run_id h (delete h.run_id s.handles) },
      ground (arith, there, done),
      ground (arith, there, done),
      (λ k. ground (
        arith,
        lookup-insert k h.run_id h (delete h.run_id s.handles),
        lookup-delete k h.run_id s.handles,
      )),
    )
  ]
]

found-done_ids :
    (m : Moment) (k : String) (h : ExecutionHandle) (d : Dict ExecutionHandle)
    → lookup k d ≡ some h
    → m.done h.asyncio_task ≡ true
    → contains k (done_ids m d) ≡ true
unfolding lookup done_ids contains
found-done_ids m k h [] e done = absurd (ground (arith, e))
found-done_ids m k h ((j, v) ∷ d) e done =
    ground (arith, e, done, found-done_ids m k h d, eq_iff j k, eq_iff k j)

-- What is left after the finished executions were removed is live, and was there before.
pub remove_done-live :
    (m : Moment) (k : String) (h : ExecutionHandle) (s : Supervisor)
    → lookup k (remove_done m s).handles ≡ some h
    → live m k s ≡ some h
unfolding remove_done
remove_done-live m k h s e =
    let kept = lookup-delete_all k (done_ids m s.handles) s.handles in
    elim (Bool-cases (contains k (done_ids m s.handles))) [
      | inl removed ↦ absurd (ground (arith, e, kept, removed))
      | inr stays ↦
          let there : lookup k s.handles ≡ some h = ground (arith, e, kept, stays) in
          elim (Bool-cases (m.done h.asyncio_task)) [
            | inl done ↦ absurd (ground (arith, stays, found-done_ids m k h s.handles there done))
            | inr alive ↦ ground (arith, there, alive)
          ]
    ]
