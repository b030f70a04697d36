-- ===== src/Distributed/Throttle.antt =====
-- How many submissions the buckets of Distributed/Rates.antt let pass.
use axiom_agent.Prelude.{
  ℕ, suc, String, Bool, ◌&&◌, Option, some, List, [], ◌∷◌, leb, is_some, if◌then◌else◌,
}
use axiom_agent.Dict.{Dict}
use axiom_agent.Distributed.Rates.{Buckets, Rate, consume_submission_tokens}

-- A submission, by its time, its principal, and the limit of that.
pub record Call : Type 0 where
  pub now : ℕ
  pub principal_key : String
  pub principal : Option Rate

-- How many of the submissions pass, in turn.
unfoldable pub passed : ℕ → Rate → List Call → Buckets → ℕ
passed one r [] db = 0
passed one r (c ∷ cs) db =
    let (w, db') = consume_submission_tokens c.now one c.principal_key (some r) c.principal db in
    let rest = passed one r cs db' in if is_some w then rest else suc rest

-- The times do not fall, and are in a window.
abbrev pub in_window : ℕ → ℕ → List Call → Bool
in_window start end_ [] = leb start end_
in_window start end_ (c ∷ cs) = leb start c.now && in_window c.now end_ cs
