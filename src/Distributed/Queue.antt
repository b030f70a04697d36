-- ===== src/Distributed/Queue.antt =====
-- `_claim_next` of src/axiom/runtime/postgres.py: the order in which claimable Runs are taken. The
-- rows that other transactions hold, which `skip locked` passes over, are an argument, and so is the
-- order of the database on run ids.
use axiom_agent.Prelude.{
  ℕ, ◌+◌, ◌-◌, ◌/◌, min, String, Bool, ◌&&◌, ◌||◌, not, Option, none, some, List, [], ◌∷◌, leb, ltb,
  ◌==◌, if◌then◌else◌,
}
use axiom_agent.Prelude.Int.{ℤ, pos, pos_part, neg_part}
use axiom_agent.Dict.{Dict, lookup, keys}
use axiom_agent.Distributed.Rows.{Row, Database, Ownership, is_claimable}
use axiom_agent.Distributed.Claims.{principal_has_room, claim_candidate, no_candidate}

-- The value `up - down`.
pub record Score : Type 0 where
  pub up : ℕ
  pub down : ℕ

-- `a / b`, rounded up, for a positive `b`
abbrev pub ceil_div : ℕ → ℕ → ℕ
ceil_div a b = (a + (b - 1)) / b

abbrev pub is_higher : Score → Score → Bool
is_higher a b = ltb (b.up + a.down) (a.up + b.down)

pub record Aging : Type 0 where
  pub interval : ℕ
  pub boost_cap : ℕ

module _ {Body : Type 0} where
  -- `coalesce(runnable_since, created_at)`
  abbrev pub waiting_since : Row Body → ℕ
  waiting_since row = elim row.state_json.runnable_since [ none ↦ row.created_at | some t ↦ t ]

  abbrev pub base_priority_of : Row Body → ℤ
  base_priority_of row = elim row.state_json.base_priority [ none ↦ pos 1 | some p ↦ p ]

  -- `base_priority + least(cap, floor((now - since) / interval))`
  unfoldable pub score_of : Aging → ℕ → Row Body → Score
  score_of aging now row =
      let since = waiting_since row in
      let base = base_priority_of row in
      if leb since now
      then record {
        up = pos_part base + min aging.boost_cap ((now - since) / aging.interval);
        down = neg_part base;
      }
      else record {
        up = pos_part base;
        down = neg_part base + ceil_div (since - now) aging.interval;
      }

  -- The `order by`: the higher score, then the longer wait, then the id.
  unfoldable pub comes_before :
      (String → String → Bool) → Aging → ℕ → String × Row Body → String × Row Body → Bool
  unfolding score_of
  comes_before precedes aging now (j, a) (k, b) =
      let sa = score_of aging now a in
      let sb = score_of aging now b in
      is_higher sa sb
      || (not (is_higher sb sa)
          && (ltb (waiting_since a) (waiting_since b)
              || (waiting_since a == waiting_since b && precedes j k)))

  -- The rows of these ids that pass the `where` clause and are not locked.
  unfoldable pub candidates :
      ℕ → (String → Bool) → Option ℕ → Dict (Row Body) → List String → List (String × Row Body)
  candidates now locked max_principal runs [] = []
  candidates now locked max_principal runs (k ∷ ks) =
      let others = candidates now locked max_principal runs ks in
      elim (lookup k runs) [
        | none ↦ others
        | some row ↦
            if not (locked k)
              && is_claimable now runs row
              && principal_has_room now runs row max_principal
            then (k, row) ∷ others
            else others
      ]

  -- `order by … limit 1`
  unfoldable pub first_of :
      (String × Row Body → String × Row Body → Bool)
      → List (String × Row Body)
      → Option (String × Row Body)
  first_of before [] = none
  first_of before (c ∷ cs) = elim (first_of before cs) [
    | none ↦ some c
    | some best ↦ if before best c then some best else some c
  ]

  unfoldable pub claim_next :
      ℕ
      → (String → Bool)
      → (String → String → Bool)
      → Aging
      → String
      → ℕ
      → Option ℕ
      → Option ℕ
      → Option ℕ
      → Database Body
      → Option Ownership × Database Body
  unfolding first_of candidates comes_before keys
  claim_next now locked precedes aging worker_id lease_seconds max_active max_attempts max_principal
        db =
      elim (first_of (comes_before precedes aging now)
        (candidates now locked max_principal db.runs (keys db.runs))) [
          | none ↦ no_candidate now max_active db
          | some (k, row) ↦
              claim_candidate now worker_id lease_seconds max_active max_attempts k row db
        ]
