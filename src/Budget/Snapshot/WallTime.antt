-- ===== src/Budget/Snapshot/WallTime.antt =====
-- What `ensure_wall_time` and `preflight_child` of src/axiom/runtime/budget.py let through.
use axiom_agent.Prelude.{
  ℕ, ◌-◌, ◌<◌, ap, sym, subst, All, String, ◌≡◌, ◌↔◌, refl, false, Option, none, some, List, [],
  ◌∷◌, arith, Option-cases, inl, inr,
}
use axiom_agent.Budget.Types.{
  Dimension, RunBudgetPolicy, RunBudgetUsage, RunEntry, Ledger, Clock, ok, >>=-eq-ok,
}
use axiom_agent.Budget.Policy.{limit_of}
use axiom_agent.Budget.Usage.{run_entry, usage, aggregate_usage, used_in}
use axiom_agent.Budget.Checks.{check_elapsed, check_wall_time}
use axiom_agent.Budget.Checks.Preflight.{HasRoom, ok-injective}
use axiom_agent.Budget.Snapshot.{
  RunBudgetState, remaining_of, snapshot_of, first_spent, preflight_child, remaining_wall_time,
  is_spent, all_dimensions,
}

abbrev time_left : RunBudgetPolicy → ℕ → Option ℕ
time_left p elapsed = elim p.max_wall_time_seconds [ none ↦ none | some t ↦ some (t - elapsed) ]

-- The entries that a snapshot was made of, and the times in it.
record Viewed (clock : Clock) (l : Ledger) (k : String) (s : RunBudgetState) : Type 0 where
  run : RunEntry
  owner : RunEntry
  found : run_entry l k ≡ ok run
  owner_found : run_entry l l.owner_run_id ≡ ok owner
  local : s.remaining Dimension.elapsed_seconds ≡ time_left run.policy (clock.elapsed_for k)
  aggregate :
      s.aggregate_remaining Dimension.elapsed_seconds
      ≡ time_left owner.policy (clock.elapsed_for l.owner_run_id)

snapshot_of-Viewed :
    (clock : Clock) (l : Ledger) (k : String) (s : RunBudgetState)
    → snapshot_of clock l k ≡ ok s
    → Viewed clock l k s
unfolding snapshot_of remaining_of limit_of used_in
snapshot_of-Viewed clock l k s e =
    let (run, at_run, e₁) = >>=-eq-ok (run_entry l k) _ e in
    let (u, at_u, e₂) = >>=-eq-ok (usage clock false l k) _ e₁ in
    let (v, at_v, e₃) = >>=-eq-ok (aggregate_usage clock false l) _ e₂ in
    let (owner, at_owner, e₄) = >>=-eq-ok (run_entry l l.owner_run_id) _ e₃ in
    let same = ok-injective e₄ in
    record {
      run = run;
      owner = owner;
      found = at_run;
      owner_found = at_owner;
      local = ap (λ (t : RunBudgetState). t.remaining Dimension.elapsed_seconds) (sym same);
      aggregate =
          ap (λ (t : RunBudgetState). t.aggregate_remaining Dimension.elapsed_seconds) (sym same);
    }

-- A run has wall time left exactly where the check before a call lets it pass at that moment.
pub remaining_wall_time_iff :
    (clock : Clock) (l : Ledger) (run_id : String) (s : RunBudgetState)
    → snapshot_of clock l run_id ≡ ok s
    → (is_spent (remaining_wall_time s) ≡ false) ↔ (check_wall_time clock l run_id ≡ ok tt)
unfolding remaining_wall_time check_wall_time check_elapsed
remaining_wall_time_iff clock l k s e =
    let v = snapshot_of-Viewed clock l k s e in
    (
      (λ left. ground (arith, v.found, v.owner_found, v.local, v.aggregate, left)),
      (λ passed. ground (arith, v.found, v.owner_found, v.local, v.aggregate, passed)),
    )

abbrev RoomIn : RunBudgetUsage → RunBudgetPolicy → Dimension → Type 0
RoomIn u p d = HasRoom (limit_of p d) (used_in u d)

first_spent-RoomIn :
    (u : RunBudgetUsage) (p : RunBudgetPolicy) (ds : List Dimension)
    → first_spent u p ds ≡ none
    → All (RoomIn u p) ds
unfolding first_spent
first_spent-RoomIn u p [] h = tt
first_spent-RoomIn u p (d ∷ ds) h = elim (Option-cases (limit_of p d)) [
  | inl free ↦ (rw free tt, first_spent-RoomIn u p ds (ground (arith, h, free)))
  | inr (limit, at) ↦
      (rw at (ground (arith, h, at)), first_spent-RoomIn u p ds (ground (arith, h, at)))
]

RoomIn-first_spent :
    (u : RunBudgetUsage) (p : RunBudgetPolicy) (ds : List Dimension)
    → ((d : Dimension) → RoomIn u p d)
    → first_spent u p ds ≡ none
unfolding first_spent
RoomIn-first_spent u p [] room = refl
RoomIn-first_spent u p (d ∷ ds) room = elim (Option-cases (limit_of p d)) [
  | inl free ↦ ground (arith, free, RoomIn-first_spent u p ds room)
  | inr (limit, at) ↦
      let here : used_in u d < limit = subst (λ o. HasRoom o (used_in u d)) at (room d) in
      ground (arith, at, here, RoomIn-first_spent u p ds room)
]

all_rooms : (P : Dimension → Type 0) → All P all_dimensions → (d : Dimension) → P d
all_rooms P (h, _) Dimension.steps = h
all_rooms P (_, (h, _)) Dimension.model_calls = h
all_rooms P (_, (_, (h, _))) Dimension.tool_calls = h
all_rooms P (_, (_, (_, (h, _)))) Dimension.input_tokens = h
all_rooms P (_, (_, (_, (_, (h, _))))) Dimension.output_tokens = h
all_rooms P (_, (_, (_, (_, (_, (h, _)))))) Dimension.total_tokens = h
all_rooms P (_, (_, (_, (_, (_, (_, (h, _))))))) Dimension.elapsed_seconds = h
all_rooms P (_, (_, (_, (_, (_, (_, (_, (h, _)))))))) Dimension.cost_usd = h

-- A child may start exactly where every limited dimension of the run's policy has room in the use
-- of all runs together.
pub preflight_child_iff :
    (s : RunBudgetState)
    → (preflight_child s ≡ none)
      ↔ ((d : Dimension) → HasRoom (limit_of s.policy d) (used_in s.aggregate_usage d))
unfolding preflight_child
preflight_child_iff s = (
  (λ h.
      all_rooms (RoomIn s.aggregate_usage s.policy)
        (first_spent-RoomIn s.aggregate_usage s.policy all_dimensions h)),
  RoomIn-first_spent s.aggregate_usage s.policy all_dimensions,
)
