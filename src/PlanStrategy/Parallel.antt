-- ===== src/PlanStrategy/Parallel.antt =====
-- What holds in every state of the loop of PlanStrategy/Launching.antt.
use axiom_agent.Prelude.{
  ℕ, ◌+◌, ◌≤◌, String, ◌≡◌, refl, List, [], ◌∷◌, ◌++◌, length, length-append, remove, ltb, is_some,
  arith, str_eq, eq_iff, if◌then◌else◌, Bool-cases, inl, inr,
}
use axiom_agent.Dict.{lookup, lookup-insert}
use axiom_agent.PlanStrategy.Launching.{Launcher, Finished, fill, launch, settle_one, start_of}

-- how often an id stands in a list
abbrev pub times : String → List String → ℕ
times k [] = 0
times k (x ∷ xs) = (if str_eq x k then 1 else 0) + times k xs

times-append : (k : String) (xs ys : List String) → times k (xs ++ ys) ≡ times k xs + times k ys
times-append k [] ys = omega arith
times-append k (x ∷ xs) ys = ground (arith, times-append k xs ys)

times-remove :
    (j k : String) (xs : List String)
    → times j (remove k xs) ≡ (if str_eq k j then 0 else times j xs)
unfolding remove
times-remove j k [] = ground arith
times-remove j k (x ∷ xs) = ground (arith, times-remove j k xs, eq_iff k x, eq_iff x j, eq_iff k j)

-- The places of an id: in the queue, running, or with a result.
abbrev pub places : String → Launcher → ℕ
places k s = times k s.queue + times k s.running + (if is_some (lookup k s.results) then 1 else 0)

-- The states that rounds lead to, in which only running tasks end.
pub data Reached (limit : ℕ) (tasks : List String) : Launcher → Type 0 where
  started : Reached limit tasks (start_of tasks)
  launched : {s : Launcher} → Reached limit tasks s → Reached limit tasks (launch limit s)
  ended :
      {s : Launcher}
      → Reached limit tasks s
      → (f : Finished) → times f.task s.running ≡ 1
      → Reached limit tasks (settle_one f s)

length-fill :
    (limit : ℕ) (queue running : List String)
    → length running ≤ limit
    → length (fill limit queue running).1 ≤ limit
unfolding fill
length-fill limit [] running le = le
length-fill limit (t ∷ queue) running le = elim (Bool-cases (ltb (length running) limit)) [
  | inl room ↦ ground (
    arith,
    room,
    length-fill limit queue (running ++ t ∷ [])
        (ground (arith, room, length-append running (t ∷ []))),
  )
  | inr full ↦ ground (arith, full, le)
]

times-fill :
    (k : String) (limit : ℕ) (queue running : List String)
    → let (q, r) = fill limit queue running in
      times k q + times k r ≡ times k queue + times k running
unfolding fill
times-fill k limit [] running = refl
times-fill k limit (t ∷ queue) running =
    ground (arith, times-fill k limit queue (running ++ t ∷ []), times-append k running (t ∷ []))

length-remove_le : (k : String) (xs : List String) → length (remove k xs) ≤ length xs
unfolding remove
length-remove_le k [] = omega arith
length-remove_le k (x ∷ xs) = ground (arith, length-remove_le k xs)

-- In every state that the loop leads to from distinct tasks, no more than the limit run at once, and
-- each task is in exactly one place: in the queue, running, or with a result; no other id is in any.
pub Reached-places :
    (limit : ℕ) (tasks : List String) (s : Launcher)
    → ((k : String) → times k tasks ≤ 1)
    → Reached limit tasks s
    → (length s.running ≤ limit) × ((k : String) → places k s ≡ times k tasks)
unfolding launch settle_one lookup
Reached-places limit tasks s distinct started = (omega arith, λ k. ground arith)
Reached-places limit tasks s distinct (launched {s = s'} h) =
    let (le, same) = Reached-places limit tasks s' distinct h in
    (
      ground (arith, le, length-fill limit s'.queue s'.running le),
      λ k. ground (arith, same k, times-fill k limit s'.queue s'.running),
    )
Reached-places limit tasks s distinct (ended {s = s'} h f runs) =
    let (le, same) = Reached-places limit tasks s' distinct h in
    (
      ground (arith, le, length-remove_le f.task s'.running),
      λ k. ground (
        arith,
        same k,
        distinct k,
        runs,
        times-remove k f.task s'.running,
        lookup-insert k f.task f.child s'.results,
        eq_iff f.task k,
      ),
    )
