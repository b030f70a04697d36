-- ===== src/Distributed/Replay.antt =====
-- `_admit_submission` of src/axiom/runtime/postgres.py: a key that is sent again.
use axiom_agent.Prelude.{
  ℕ, String, ◌≡◌, ◌≢◌, true, false, Option, none, some, List, [], ◌∷◌, ◌++◌, arith, str_eq, eq_refl,
  Option-cases, inl, inr, if◌then◌else◌,
}
use axiom_agent.Dict.{lookup, lookup-insert}
use axiom_agent.Distributed.Rows.{
  RunState, Submission, Database, StoreError, Outcome, returned, raised,
}
use axiom_agent.Distributed.Saves.{next_state, new_row, no_delivery}
use axiom_agent.Distributed.Admission.{
  find_submission, admit, insert_initial_run, admit_submission, replay, record_submission,
}

find_submission-append :
    (x : Submission) (xs : List Submission)
    → find_submission x.thread_id x.idempotency_key xs ≡ none
    → find_submission x.thread_id x.idempotency_key (xs ++ x ∷ []) ≡ some x
unfolding find_submission
find_submission-append x [] h = ground (arith, eq_refl x.thread_id, eq_refl x.idempotency_key)
find_submission-append x (y ∷ ys) h = ground (arith, h, find_submission-append x ys)

module _ {Body : Type 0} where
  admit-returned :
      (now written : ℕ) (c s : RunState Body) (queued principal : Option ℕ) (db db' : Database Body)
      → admit now written c queued principal db ≡ (returned s, db')
      → (s ≡ next_state written c) × (db' ≡ insert_initial_run written c db)
  unfolding admit
  admit-returned now written c s queued principal db db' got = ground (arith, got)

  replay-old :
      (found : Submission) (fingerprint : String) (s : RunState Body) (db db' : Database Body)
      → replay found fingerprint db ≢ (returned (s, true), db')
  unfolding replay
  replay-old found fingerprint s db db' e = elim (Option-cases (lookup found.run_id db.runs)) [
    | inl absent ↦ ground (arith, e, absent)
    | inr (row, there) ↦ ground (arith, e, there)
  ]

  record_submission-new :
      (x : Submission) (r : Outcome (RunState Body) × Database Body) (s : RunState Body)
      (db' : Database Body)
      → record_submission x r ≡ (returned (s, true), db')
      → (r.0 ≡ returned s) × (db'.runs ≡ r.1.runs) × (db'.submissions ≡ r.1.submissions ++ x ∷ [])
  record_submission-new x (raised e, db) s db' got = absurd (ground (arith, got))
  record_submission-new x (returned c, db) s db' got =
      (ground (arith, got), ground (arith, got), ground (arith, got))

  -- What a submission that was admitted leaves.
  admit_submission-new :
      (now written : ℕ) (c s : RunState Body) (key fingerprint : String)
      (queued principal : Option ℕ) (db db' : Database Body)
      → admit_submission now written c key fingerprint queued principal db
        ≡ (returned (s, true), db')
      → (lookup c.run_id db'.runs ≡ some (new_row written true c))
        × (find_submission c.thread_id key db'.submissions
            ≡ some (record {
              thread_id = c.thread_id;
              idempotency_key = key;
              request_fingerprint = fingerprint;
              run_id = c.run_id;
            }))
  unfolding admit_submission admit replay insert_initial_run
  admit_submission-new now written c s key fingerprint queued principal db db' got =
      let x : Submission = record {
        thread_id = c.thread_id;
        idempotency_key = key;
        request_fingerprint = fingerprint;
        run_id = c.run_id;
      } in
      elim (Option-cases (find_submission c.thread_id key db.submissions)) [
        | inr (found, before) ↦
            absurd (replay-old found fingerprint s db db' (ground (arith, got, before)))
        | inl first ↦
            let r = admit now written c queued principal db in
            let (ok, runs, subs) = record_submission-new x r s db' (ground (arith, got, first)) in
            let (_, is) =
              admit-returned now written c s queued principal db r.1 (ground (arith, ok)) in
            (
              ground (
                arith,
                runs,
                is,
                lookup-insert c.run_id c.run_id (new_row written true c) db.runs,
                eq_refl c.run_id,
              ),
              ground (arith, subs, is, find_submission-append x db.submissions first),
            )
      ]

  -- After a submission was admitted as a new Run, one with the same thread and key, at any time, with
  -- any limits and any state that a new Run may have, starts no Run and stores no state: with the same
  -- fingerprint it is answered by the Run of the first, and with another one it is refused.
  pub admit_submission_again :
      (now later written rewritten : ℕ) (c c' s : RunState Body) (key fingerprint : String)
      (queued principal queued' principal' : Option ℕ) (db db' : Database Body)
      → admit_submission now written c key fingerprint queued principal db
        ≡ (returned (s, true), db')
      → c'.thread_id ≡ c.thread_id
      → c'.sequence ≡ 0
      → c'.parent_run_id ≡ none
      → (other : String)
      → let (answer, after) =
          admit_submission later rewritten c' key other queued' principal' db' in
        (after.runs ≡ db'.runs)
        × (after.checkpoints ≡ db'.checkpoints)
        × (after.submissions ≡ db'.submissions)
        × (answer ≡ (
            if str_eq fingerprint other
            then returned (record (next_state written c) { delivery = no_delivery }, false)
            else raised StoreError.idempotency_conflict))
  unfolding admit_submission replay new_row
  admit_submission_again now later written rewritten c c' s key fingerprint queued principal queued'
        principal' db db' got same new root other =
      let (there, found) =
        admit_submission-new now written c s key fingerprint queued principal db db' got in
      ground (arith, there, found, same, new, root)
