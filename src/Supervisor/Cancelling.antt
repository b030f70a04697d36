-- ===== src/Supervisor/Cancelling.antt =====
-- Cancellation requests of src/axiom/runtime/supervisor.py.
use axiom_agent.Prelude.{
  ℕ, suc, ◌+◌, String, ◌≡◌, ◌⊎◌, inl, inr, true, false, ◌&&◌, not, none, some, List, [], ◌∷◌, ◌++◌,
  arith, str_eq, eq_iff, eq_refl, contains, Bool-cases, Option-cases, if◌then◌else◌,
}
use axiom_agent.Dict.{lookup, lookup-insert, lookup-delete}
use axiom_agent.Supervisor.{
  ExecutionHandle, Moment, Supervisor, CancellationStatus, request_cancel, distinct, Buckets,
  put_in, cancel_each, request_cancel_many,
}
use axiom_agent.Supervisor.Registry.{live}

-- How often an id occurs.
unfoldable pub count : String → List String → ℕ
count k [] = 0
count k (x ∷ xs) = (if str_eq k x then 1 else 0) + count k xs

count-append : (k : String) (xs ys : List String) → count k (xs ++ ys) ≡ count k xs + count k ys
unfolding count
count-append k [] ys = omega arith
count-append k (x ∷ xs) ys = ground (arith, count-append k xs ys)

abbrev pub count_buckets : String → Buckets → ℕ
count_buckets k b =
    count k b.signalled + count k b.not_active + count k b.already_done + count k b.loop_unavailable

put_in-count :
    (status : CancellationStatus) (j k : String) (b : Buckets)
    → count_buckets j (put_in status k b) ≡ count_buckets j b + (if str_eq j k then 1 else 0)
unfolding count
put_in-count CancellationStatus.signalled j k b =
    ground (arith, count-append j b.signalled (k ∷ []))
put_in-count CancellationStatus.not_active j k b =
    ground (arith, count-append j b.not_active (k ∷ []))
put_in-count CancellationStatus.already_done j k b =
    ground (arith, count-append j b.already_done (k ∷ []))
put_in-count CancellationStatus.loop_unavailable j k b =
    ground (arith, count-append j b.loop_unavailable (k ∷ []))

cancel_each-count :
    (moments : ℕ → Moment) (n : ℕ) (ks : List String) (b : Buckets) (s : Supervisor) (j : String)
    → count_buckets j (cancel_each moments n ks b s).0 ≡ count_buckets j b + count j ks
unfolding cancel_each count
cancel_each-count moments n [] b s j = omega arith
cancel_each-count moments n (k ∷ ks) b s j =
    let (status, s') = request_cancel (moments n) k s in
    let rest = cancel_each-count moments (suc n) ks (put_in status k b) s' j in
    ground (arith, rest, put_in-count status j k b)

distinct-count :
    (seen xs : List String) (j : String)
    → count j (distinct seen xs) ≡ (if contains j seen then 0 else if contains j xs then 1 else 0)
unfolding distinct count contains
distinct-count seen [] j = ground arith
distinct-count seen (x ∷ xs) j =
    ground (arith, distinct-count (x ∷ seen) xs j, distinct-count seen xs j, eq_iff j x)

-- Every id that was asked for, however often, stands in one bucket and once, and no other id does.
pub request_cancel_many-count :
    (moments : ℕ → Moment) (run_ids : List String) (s : Supervisor) (k : String)
    → count_buckets k (request_cancel_many moments run_ids s).0.buckets
      ≡ (if contains k run_ids then 1 else 0)
unfolding request_cancel_many count contains
request_cancel_many-count moments run_ids s k =
    let empty : Buckets = record {
      signalled = [];
      not_active = [];
      already_done = [];
      loop_unavailable = [];
    } in
    ground (
      arith,
      cancel_each-count moments 0 (distinct [] run_ids) empty s k,
      distinct-count [] run_ids k,
    )

-- A request posts one callback, to the loop of the Run's live execution, and says so, where that loop is
-- open and accepts it; where it is closed or refuses, the request says that it is unavailable. Without a
-- handle, or with one whose task is done, it posts none, says which of the two it was, and leaves no
-- handle.
pub request_cancel_outcome :
    (m : Moment) (run_id : String) (s : Supervisor)
    → let (status, s') = request_cancel m run_id s in
      ((h : ExecutionHandle) × (live m run_id s ≡ some h)
        × ((not (m.is_closed h.event_loop) && m.accepts h.event_loop) ≡ true)
        × (status ≡ CancellationStatus.signalled)
        × (s'.scheduled ≡ s.scheduled ++ h.asyncio_task ∷ [])
        × (live m run_id s' ≡ some (record h { cancellation_requested = true })))
      ⊎ ((h : ExecutionHandle) × (live m run_id s ≡ some h)
          × ((not (m.is_closed h.event_loop) && m.accepts h.event_loop) ≡ false)
          × (status ≡ CancellationStatus.loop_unavailable)
          × (s'.scheduled ≡ s.scheduled)
          × (live m run_id s' ≡ some (record h { cancellation_requested = true })))
      ⊎ ((h : ExecutionHandle) × (lookup run_id s.handles ≡ some h)
          × (m.done h.asyncio_task ≡ true)
          × (status ≡ CancellationStatus.already_done)
          × (s'.scheduled ≡ s.scheduled)
          × (lookup run_id s'.handles ≡ none))
      ⊎ ((lookup run_id s.handles ≡ none) × (status ≡ CancellationStatus.not_active) × (s' ≡ s))
unfolding request_cancel
request_cancel_outcome m run_id s = elim (Option-cases (lookup run_id s.handles)) [
  | inl absent ↦
      inr (inr (inr (ground (arith, absent), ground (arith, absent), ground (arith, absent))))
  | inr (h, there) ↦ elim (Bool-cases (m.done h.asyncio_task)) [
    | inl done ↦ inr (
        inr (
          inl (
            h,
            there,
            done,
            ground (arith, there, done),
            ground (arith, there, done),
            ground (arith, there, done, lookup-delete run_id run_id s.handles, eq_refl run_id),
          )))
    | inr alive ↦
        let put =
          lookup-insert run_id run_id (record h { cancellation_requested = true }) s.handles in
        elim (Bool-cases (m.is_closed h.event_loop)) [
          | inl closed ↦ inr (
              inl (
                h,
                ground (arith, there, alive),
                ground (arith, closed),
                ground (arith, there, alive, closed),
                ground (arith, there, alive, closed),
                ground (arith, there, alive, closed, put, eq_refl run_id),
              ))
          | inr running ↦ elim (Bool-cases (m.accepts h.event_loop)) [
            | inr refuses ↦ inr (
                inl (
                  h,
                  ground (arith, there, alive),
                  ground (arith, running, refuses),
                  ground (arith, there, alive, running, refuses),
                  ground (arith, there, alive, running, refuses),
                  ground (arith, there, alive, running, refuses, put, eq_refl run_id),
                ))
            | inl accepts ↦ inl (
              h,
              ground (arith, there, alive),
              ground (arith, running, accepts),
              ground (arith, there, alive, running, accepts),
              ground (arith, there, alive, running, accepts),
              ground (arith, there, alive, running, accepts, put, eq_refl run_id),
            )
          ]
        ]
  ]
]
