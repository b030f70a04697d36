-- ===== src/Distributed/Rates.antt =====
-- Token buckets of src/axiom/runtime/postgres.py: `_consume_bucket` and `_consume_submission_tokens`.
-- Tokens are counted in units, `one` of them for a token, and a rate is units for a tick; floats are not
-- modelled.
use axiom_agent.Prelude.{
  ℕ, ◌+◌, ◌-◌, ◌*◌, min, String, Bool, true, ◌&&◌, Option, none, some, leb, ltb, if◌then◌else◌,
}
use axiom_agent.Dict.{Dict, lookup, insert}

-- A row of `traffic_rate_buckets`.
pub record Bucket : Type 0 where
  pub tokens : ℕ
  pub last_refill_at : ℕ

-- The rows of the two scopes, by their keys.
pub record Buckets : Type 0 where
  pub global_scope : Dict Bucket
  pub principal_scope : Dict Bucket

-- The burst is in units too.
pub record Rate : Type 0 where
  pub rate : ℕ
  pub burst : ℕ

-- The time `missing / rate`.
pub record Wait : Type 0 where
  pub missing : ℕ
  pub rate : ℕ

-- The row, or a full one.
unfoldable pub open_bucket : ℕ → Rate → String → Dict Bucket → Dict Bucket
open_bucket now r key rows = elim (lookup key rows) [
  | some b ↦ rows
  | none ↦ insert key (record { tokens = r.burst; last_refill_at = now }) rows
]

-- `_consume_bucket`, of a row
unfoldable pub refilled : ℕ → Rate → Bucket → ℕ
refilled now r b = min r.burst (b.tokens + (now - b.last_refill_at) * r.rate)

-- The tokens of a row that may not be there yet.
unfoldable pub tokens_at : ℕ → Rate → String → Dict Bucket → ℕ
unfolding refilled
tokens_at now r key rows = elim (lookup key rows) [ none ↦ r.burst | some b ↦ refilled now r b ]

-- `update … set tokens = tokens - 1, last_refill_at = current_timestamp`
unfoldable pub take_token : ℕ → ℕ → Rate → String → Dict Bucket → Dict Bucket
unfolding tokens_at
take_token now one r key rows =
    insert key (record { tokens = tokens_at now r key rows - one; last_refill_at = now }) rows

-- No limit, or a token at least.
abbrev pub has_token : ℕ → ℕ → Option Rate → String → Dict Bucket → Bool
has_token now one none key rows = true
has_token now one (some r) key rows = leb one (tokens_at now r key rows)

abbrev pub opened : ℕ → Option Rate → String → Dict Bucket → Dict Bucket
opened now none key rows = rows
opened now (some r) key rows = open_bucket now r key rows

abbrev pub taken : ℕ → ℕ → Option Rate → String → Dict Bucket → Dict Bucket
taken now one none key rows = rows
taken now one (some r) key rows = take_token now one r key rows

-- `max(0.0, (1.0 - tokens) / rate)`
abbrev pub wait_of : ℕ → ℕ → Option Rate → String → Dict Bucket → Option Wait
wait_of now one none key rows = none
wait_of now one (some r) key rows =
    some (record { missing = one - tokens_at now r key rows; rate = r.rate })

-- `max(waits)`
abbrev pub longer : Option Wait → Option Wait → Option Wait
longer none b = b
longer (some a) none = some a
longer (some a) (some b) = if ltb (a.missing * b.rate) (b.missing * a.rate) then some b else some a

abbrev pub root_submission : String
root_submission = "root_submission"

-- `none` where the submission may pass.
unfoldable pub consume_submission_tokens :
    ℕ → ℕ → String → Option Rate → Option Rate → Buckets → Option Wait × Buckets
unfolding open_bucket take_token
consume_submission_tokens now one principal_key global principal db =
    let g = opened now global root_submission db.global_scope in
    let p = opened now principal principal_key db.principal_scope in
    if has_token now one global root_submission g && has_token now one principal principal_key p
    then (
      none,
      record {
        global_scope = taken now one global root_submission g;
        principal_scope = taken now one principal principal_key p;
      },
    )
    else (
      longer (wait_of now one global root_submission g) (wait_of now one principal principal_key p),
      record { global_scope = g; principal_scope = p },
    )
