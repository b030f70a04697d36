-- ===== src/Supervisor.antt =====
-- `ActiveRunSupervisor` of src/axiom/runtime/supervisor.py. Its lock makes every method atomic. What
-- the tasks and event loops answer at that moment is a `Moment`; a callback that an event loop was
-- handed is an entry of `scheduled`.
pub mod Registry
pub mod Cancelling
pub mod Draining
use axiom_agent.Prelude.{
  ℕ, String, Bool, true, false, ◌&&◌, not, Option, none, some, List, [], ◌∷◌, ◌++◌, suc, ◌==◌,
  str_eq, contains, if◌then◌else◌,
}
use axiom_agent.Dict.{Dict, lookup, insert, delete, values}

-- `object` is the identity of the handle; a task and a loop are named by numbers too.
pub record ExecutionHandle : Type 0 where
  pub object : ℕ
  pub run_id : String
  pub asyncio_task : ℕ
  pub event_loop : ℕ
  pub cancellation_requested : Bool

pub record Moment : Type 0 where
  pub done : ℕ → Bool
  pub is_closed : ℕ → Bool
  -- `call_soon_threadsafe` raises no `RuntimeError`.
  pub accepts : ℕ → Bool

pub record Supervisor : Type 0 where
  pub handles : Dict ExecutionHandle
  pub scheduled : List ℕ

pub data CancellationStatus : Type 0 where
  signalled not_active already_done loop_unavailable : CancellationStatus

-- `none` is the `ActiveRunRegistrationError`.
unfoldable pub register : Moment → ExecutionHandle → Supervisor → Option Supervisor
register m h s = elim (lookup h.run_id s.handles) [
  | none ↦ some (record s { handles = insert h.run_id h s.handles })
  | some existing ↦
      if m.done existing.asyncio_task
      then some (record s { handles = insert h.run_id h (delete h.run_id s.handles) })
      else none
]

-- `expected is not None and current is not expected`
abbrev pub is_another : Option ExecutionHandle → ExecutionHandle → Bool
is_another none current = false
is_another (some expected) current = not (current.object == expected.object)

unfoldable pub unregister :
    String → Option ExecutionHandle → Supervisor → Option ExecutionHandle × Supervisor
unregister run_id expected s = elim (lookup run_id s.handles) [
  | none ↦ (none, s)
  | some current ↦
      if is_another expected current
      then (none, s)
      else (some current, record s { handles = delete run_id s.handles })
]

unfoldable pub get : Moment → String → Supervisor → Option ExecutionHandle × Supervisor
get m run_id s = elim (lookup run_id s.handles) [
  | none ↦ (none, s)
  | some h ↦
      if m.done h.asyncio_task
      then (none, record s { handles = delete run_id s.handles })
      else (some h, s)
]

unfoldable pub done_ids : Moment → Dict ExecutionHandle → List String
done_ids m [] = []
done_ids m ((k, h) ∷ d) = if m.done h.asyncio_task then k ∷ done_ids m d else done_ids m d

unfoldable pub delete_all {ℓ} : {V : Type ℓ} → List String → Dict V → Dict V
delete_all [] d = d
delete_all (k ∷ ks) d = delete_all ks (delete k d)

-- `_remove_done_locked`
unfoldable pub remove_done : Moment → Supervisor → Supervisor
unfolding done_ids delete_all
remove_done m s = record s { handles = delete_all (done_ids m s.handles) s.handles }

unfoldable pub list_active : Moment → Supervisor → List ExecutionHandle × Supervisor
list_active m s = let s' = remove_done m s in (values s'.handles, s')

unfoldable pub request_cancel : Moment → String → Supervisor → CancellationStatus × Supervisor
request_cancel m run_id s = elim (lookup run_id s.handles) [
  | none ↦ (CancellationStatus.not_active, s)
  | some h ↦
      if m.done h.asyncio_task
      then (CancellationStatus.already_done, record s { handles = delete run_id s.handles })
      else (let asked : Supervisor = record s {
        handles = insert run_id (record h { cancellation_requested = true }) s.handles;
      } in
          if m.is_closed h.event_loop
          then (CancellationStatus.loop_unavailable, asked)
          else if m.accepts h.event_loop
          then (
            CancellationStatus.signalled,
            record asked { scheduled = s.scheduled ++ h.asyncio_task ∷ [] },
          )
          else (CancellationStatus.loop_unavailable, asked))
]

-- `dict.fromkeys`: the first of equal ids, in order.
unfoldable pub distinct : List String → List String → List String
distinct seen [] = []
distinct seen (x ∷ xs) =
    let fresh = distinct (x ∷ seen) xs in
    let known = distinct seen xs in if contains x seen then known else x ∷ fresh

pub record Buckets : Type 0 where
  pub signalled : List String
  pub not_active : List String
  pub already_done : List String
  pub loop_unavailable : List String

-- `buckets[status].append(run_id)`
abbrev pub put_in : CancellationStatus → String → Buckets → Buckets
put_in CancellationStatus.signalled k b = record b { signalled = b.signalled ++ k ∷ [] }
put_in CancellationStatus.not_active k b = record b { not_active = b.not_active ++ k ∷ [] }
put_in CancellationStatus.already_done k b = record b { already_done = b.already_done ++ k ∷ [] }
put_in CancellationStatus.loop_unavailable k b = record b {
  loop_unavailable = b.loop_unavailable ++ k ∷ [];
}

-- The loop of `request_cancel_many`: each request has its own moment.
unfoldable pub cancel_each :
    (ℕ → Moment) → ℕ → List String → Buckets → Supervisor → Buckets × Supervisor
cancel_each moments n [] b s = (b, s)
cancel_each moments n (k ∷ ks) b s =
    let (status, s') = request_cancel (moments n) k s in
    cancel_each moments (suc n) ks (put_in status k b) s'

pub record CancelManyResult : Type 0 where
  pub requested : List String
  pub buckets : Buckets

unfoldable pub request_cancel_many :
    (ℕ → Moment) → List String → Supervisor → CancelManyResult × Supervisor
request_cancel_many moments run_ids s =
    let requested = distinct [] run_ids in
    let empty : Buckets = record {
      signalled = [];
      not_active = [];
      already_done = [];
      loop_unavailable = [];
    } in
    let (b, s') = cancel_each moments 0 requested empty s in
    (record { requested = requested; buckets = b }, s')
