-- ===== src/Supervisor/Draining.antt =====
-- `drain` and `shutdown` of src/axiom/runtime/supervisor.py. A round of the loop has its own moment;
-- the time is over with the last one.
use axiom_agent.Prelude.{
  ℕ, String, ◌≡◌, ◌≢◌, ◌⊎◌, inl, inr, refl, Bool, true, false, some, List, [], ◌∷◌, map, arith,
  Bool-cases, Option-cases, if◌then◌else◌,
}
use axiom_agent.Dict.{Dict, lookup}
use axiom_agent.Supervisor.{
  ExecutionHandle, Moment, Supervisor, remove_done, list_active, request_cancel_many,
}
use axiom_agent.Supervisor.Registry.{remove_done-live}

-- `not self._handles`
abbrev pub is_idle : Dict ExecutionHandle → Bool
is_idle [] = true
is_idle (_ ∷ _) = false

-- The first moment, and those of the wake-ups.
unfoldable pub drain : Moment → List Moment → Supervisor → Bool × Supervisor
drain m [] s = let s' = remove_done m s in (is_idle s'.handles, s')
drain m (m' ∷ later) s =
    let s' = remove_done m s in
    let rest = drain m' later s' in if is_idle s'.handles then (true, s') else rest

unfoldable pub shutdown :
    Moment → (ℕ → Moment) → Moment → List Moment → Supervisor → Bool × Supervisor
shutdown listed asked m later s =
    let (active, s₁) = list_active listed s in
    let (_, s₂) = request_cancel_many asked (map (λ h. h.run_id) active) s₁ in drain m later s₂

abbrev pub last_moment : Moment → List Moment → Moment
last_moment m [] = m
last_moment m (m' ∷ later) = last_moment m' later

remove_done-alive :
    (m : Moment) (s : Supervisor) (k : String) (h : ExecutionHandle)
    → lookup k (remove_done m s).handles ≡ some h
    → m.done h.asyncio_task ≡ false
remove_done-alive m s k h e =
    let was = remove_done-live m k h s e in
    elim (Option-cases (lookup k s.handles)) [
      | inl absent ↦ absurd (ground (arith, was, absent))
      | inr (old, there) ↦ ground (arith, was, there)
    ]

-- A drain says True and no execution is registered any more, or it says False, and then some are,
-- and none of them was done at the last moment.
pub drain_outcome :
    (m : Moment) (later : List Moment) (s : Supervisor)
    → let (drained, s') = drain m later s in
      ((drained ≡ true) × (s'.handles ≡ []))
      ⊎ ((drained ≡ false)
          × (s'.handles ≢ [])
          × ((k : String) (h : ExecutionHandle)
              → lookup k s'.handles ≡ some h
              → (last_moment m later).done h.asyncio_task ≡ false))
unfolding drain
drain_outcome m [] s = elim (Bool-cases (is_idle (remove_done m s).handles)) [
  | inl idle ↦ inl (idle, ground (arith, idle))
  | inr busy ↦ inr (busy, (λ e. ground (arith, busy, e)), remove_done-alive m s)
]
drain_outcome m (m' ∷ later) s = elim (Bool-cases (is_idle (remove_done m s).handles)) [
  | inl idle ↦ inl (rw idle refl, rw idle (ground (arith, idle)))
  | inr busy ↦ rw busy (drain_outcome m' later (remove_done m s))
]
