-- ===== src/PlanStrategy/Outcome.antt =====
-- What the loop of PlanStrategy/Launching.antt returns.
use axiom_agent.Prelude.{
  ℕ, ◌+◌, ◌≤◌, ◌<◌, String, ◌≡◌, refl, Bool, true, ◌&&◌, ◌||◌, not, some, List, [], ◌∷◌, ◌++◌, all,
  length, length-append, remove, ltb, is_some, arith, str_eq, eq_iff, Bool-cases, inl, inr,
}
use axiom_agent.Dict.{Dict, lookup}
use axiom_agent.Models.{RunStatus}
use axiom_agent.PlanStrategy.Launching.{
  Launcher, Finished, limit_of, fill, launch, settle_one, settle, start_of, goes_on, is_empty,
  is_stopping, execute_from, execute,
}
use axiom_agent.PlanStrategy.Parallel.{times, Reached, started, launched, ended, Reached-places}

-- Each task that ends was running, and ends once.
abbrev pub AreRunning : List Finished → Launcher → Type 0
AreRunning [] s = Unit
AreRunning (f ∷ fs) s = (times f.task s.running ≡ 1) × AreRunning fs (settle_one f s)

-- What `asyncio.wait` returns, call after call: tasks that run, as many of them at once as may be.
abbrev pub AreRounds : ℕ → List (List Finished) → Launcher → Type 0
AreRounds limit [] s = Unit
AreRounds limit (fs ∷ rounds) s =
    AreRunning fs (launch limit s) × AreRounds limit rounds (settle fs (launch limit s))

-- How many tasks end in all rounds.
abbrev pub completions : List (List Finished) → ℕ
completions [] = 0
completions (fs ∷ rounds) = length fs + completions rounds

settle-Reached :
    (limit : ℕ) (tasks : List String) (fs : List Finished) (s : Launcher)
    → Reached limit tasks s
    → AreRunning fs s
    → Reached limit tasks (settle fs s)
unfolding settle
settle-Reached limit tasks [] s h fit = h
settle-Reached limit tasks (f ∷ fs) s h (runs, fit) =
    settle-Reached limit tasks fs (settle_one f s) (ended h f runs) fit

-- What there is to do still.
abbrev pub left_over : Launcher → ℕ
left_over s = length s.queue + length s.running

length-fill_sum :
    (limit : ℕ) (queue running : List String)
    → let (q, r) = fill limit queue running in length q + length r ≡ length queue + length running
unfolding fill
length-fill_sum limit [] running = refl
length-fill_sum limit (t ∷ queue) running =
    ground (arith, length-fill_sum limit queue (running ++ t ∷ []), length-append running (t ∷ []))

length-remove_le : (k : String) (xs : List String) → length (remove k xs) ≤ length xs
unfolding remove
length-remove_le k [] = omega arith
length-remove_le k (x ∷ xs) = ground (arith, length-remove_le k xs)

length-remove : (k : String) (xs : List String) → times k xs ≡ 1 → length (remove k xs) < length xs
unfolding remove
length-remove k [] h = absurd (ground (arith, h))
length-remove k (x ∷ xs) h = elim (Bool-cases (str_eq x k)) [
  | inl here ↦ ground (arith, here, eq_iff x k, eq_iff k x, length-remove_le k xs)
  | inr other ↦
      ground (arith, other, eq_iff x k, eq_iff k x, length-remove k xs (ground (arith, h, other)))
]

launch-left_over : (limit : ℕ) (s : Launcher) → left_over (launch limit s) ≡ left_over s
unfolding launch
launch-left_over limit s = ground (arith, length-fill_sum limit s.queue s.running)

settle-left_over :
    (fs : List Finished) (s : Launcher)
    → AreRunning fs s
    → left_over (settle fs s) + length fs ≤ left_over s
unfolding settle settle_one
settle-left_over [] s fit = omega arith
settle-left_over (f ∷ fs) s (runs, fit) =
    let rest = settle-left_over fs (settle_one f s) fit in
    omega (arith, rest, length-remove f.task s.running runs)

-- The child Run did not fail, was not cancelled, and the observer agreed.
abbrev pub is_calm : Finished → Bool
is_calm f = not (is_stopping f.child) && f.may_go_on

abbrev pub are_calm : List (List Finished) → Bool
are_calm rounds = all (λ fs. all is_calm fs) rounds

settle-stop_launching :
    (fs : List Finished) (s : Launcher)
    → all is_calm fs ≡ true
    → (settle fs s).stop_launching ≡ s.stop_launching
unfolding settle settle_one
settle-stop_launching [] s calm = refl
settle-stop_launching (f ∷ fs) s calm =
    ground (arith, calm, settle-stop_launching fs (settle_one f s))

launch-stop_launching :
    (limit : ℕ) (s : Launcher) → (launch limit s).stop_launching ≡ s.stop_launching
unfolding launch
launch-stop_launching limit s = ground arith

-- The state that the results are of.
pub record IsOver (limit : ℕ) (tasks : List String) (rounds : List (List Finished)) (s : Launcher)
    (results : Dict RunStatus) : Type 0 where
  pub last : Launcher
  pub reached : Reached limit tasks last
  pub same : results ≡ last.results
  pub over : is_empty last.running ≡ true
  pub no_more : (is_empty last.queue || last.stop_launching) ≡ true
  pub calm : are_calm rounds ≡ true → last.stop_launching ≡ s.stop_launching

is_empty-length : (xs : List String) → length xs ≡ 0 → is_empty xs ≡ true
is_empty-length [] h = refl
is_empty-length (x ∷ xs) h = absurd (omega (arith, h))

length-is_empty : (xs : List String) → is_empty xs ≡ true → length xs ≡ 0
length-is_empty [] h = refl
length-is_empty (x ∷ xs) h = absurd (ground (arith, h))

fill_idle :
    (limit : ℕ) (queue running : List String)
    → 1 ≤ limit
    → is_empty (fill limit queue running).1 ≡ true
    → is_empty (fill limit queue running).0 ≡ true
unfolding fill
fill_idle limit [] running le idle = refl
fill_idle limit (t ∷ queue) running le idle = elim (Bool-cases (ltb (length running) limit)) [
  | inl room ↦
      ground
        (arith, room, fill_idle limit queue (running ++ t ∷ []) le (ground (arith, room, idle)))
  | inr full ↦
      absurd (ground (arith, full, le, length-is_empty running (ground (arith, full, idle))))
]

launch-no_more :
    (limit : ℕ) (s : Launcher)
    → 1 ≤ limit
    → is_empty (launch limit s).running ≡ true
    → (is_empty (launch limit s).queue || (launch limit s).stop_launching) ≡ true
unfolding launch
launch-no_more limit s le idle = elim (Bool-cases s.stop_launching) [
  | inl stopped ↦ ground (arith, stopped)
  | inr goes ↦
      ground (arith, goes, fill_idle limit s.queue s.running le (ground (arith, goes, idle)))
]

execute_from-IsOver :
    (limit : ℕ) (tasks : List String) (rounds : List (List Finished)) (s : Launcher)
    → 1 ≤ limit
    → Reached limit tasks s
    → AreRounds limit rounds s
    → left_over s ≤ completions rounds
    → (results : Dict RunStatus) × (execute_from limit rounds s ≡ some results)
      × IsOver limit tasks rounds s results
unfolding execute_from
execute_from-IsOver limit tasks [] s le h fit enough =
    let no_queue = is_empty-length s.queue (omega (arith, enough)) in
    let none_runs = is_empty-length s.running (omega (arith, enough)) in
    (
      s.results,
      ground (arith, no_queue, none_runs),
      record {
        last = s;
        reached = h;
        same = refl;
        over = none_runs;
        no_more = ground (arith, no_queue);
        calm = λ c. refl;
      },
    )
execute_from-IsOver limit tasks (fs ∷ rounds) s le h (runs, fit) enough =
    let s' = launch limit s in
    elim (Bool-cases (goes_on s)) [
      | inr ends ↦ (
        s.results,
        ground (arith, ends),
        record {
          last = s;
          reached = h;
          same = refl;
          over = ground (arith, ends);
          no_more = ground (arith, ends);
          calm = λ c. refl;
        },
      )
      | inl goes ↦ elim (Bool-cases (is_empty s'.running)) [
        | inl idle ↦ (
          s'.results,
          ground (arith, goes, idle),
          record {
            last = s';
            reached = launched h;
            same = refl;
            over = idle;
            no_more = launch-no_more limit s le idle;
            calm = λ c. launch-stop_launching limit s;
          },
        )
        | inr busy ↦
            let (results, e, over) =
              execute_from-IsOver limit tasks rounds (settle fs s') le
                (settle-Reached limit tasks fs s' (launched h) runs) fit
                (omega (arith, enough, settle-left_over fs s' runs, launch-left_over limit s)) in
            (
              results,
              ground (arith, goes, busy, e),
              record {
                last = over.last;
                reached = over.reached;
                same = over.same;
                over = over.over;
                no_more = over.no_more;
                calm = λ c. ground (
                  arith,
                  over.calm (ground (arith, c)),
                  settle-stop_launching fs s' (ground (arith, c)),
                  launch-stop_launching limit s,
                );
              },
            )
      ]
    ]

empty-times : (k : String) (xs : List String) → is_empty xs ≡ true → times k xs ≡ 0
empty-times k [] h = refl
empty-times k (x ∷ xs) h = absurd (ground (arith, h))

-- With distinct tasks, and rounds in which only running tasks end, one or many at once, and as many end
-- in all as there are tasks, where no child failed or was cancelled and the observer always agreed, the
-- loop of `execute` returns a result of every task and of no other id.
pub execute_outcome :
    (max_parallel_tasks : ℕ) (rounds : List (List Finished)) (tasks : List String)
    → ((k : String) → times k tasks ≤ 1)
    → AreRounds (limit_of max_parallel_tasks) rounds (start_of tasks)
    → length tasks ≤ completions rounds
    → are_calm rounds ≡ true
    → (results : Dict RunStatus) × (execute max_parallel_tasks rounds tasks ≡ some results)
      × ((k : String) → is_some (lookup k results) ≡ ltb 0 (times k tasks))
unfolding execute
execute_outcome max_parallel_tasks rounds tasks distinct fit enough calm =
    let limit = limit_of max_parallel_tasks in
    let (results, e, over) =
      execute_from-IsOver limit tasks rounds (start_of tasks) (ground arith) started fit
        (omega (arith, enough)) in
    let (_, places_of) = Reached-places limit tasks over.last distinct over.reached in
    let no_queue : is_empty over.last.queue ≡ true = ground (arith, over.no_more, over.calm calm) in
    (
      results,
      e,
      λ k. ground (
        arith,
        over.same,
        places_of k,
        empty-times k over.last.queue no_queue,
        empty-times k over.last.running over.over,
      ),
    )
