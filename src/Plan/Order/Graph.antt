-- ===== src/Plan/Order/Graph.antt =====
-- The dependency graph of a plan's tasks, and what it means that a list of ids follows it.
use axiom_agent.Prelude.{
  String, ◌≡◌, refl, true, false, none, some, List, [], ◌∷◌, ◌++◌, ◌||◌, arith, contains, All,
  eq_iff,
}
use axiom_agent.Dict.{Dict, lookup, insert, values, lookup-insert}
use axiom_agent.Plan.Task.{Task}

-- Every task stands under its own id, and no id stands twice.
abbrev pub IsKeyed : Dict Task → Type 0
IsKeyed [] = Unit
IsKeyed ((k, t) ∷ d) = (t.id ≡ k) × (lookup k d ≡ none) × IsKeyed d

-- The task `a` names the task `b` as a dependency.
pub data Depends (tasks : Dict Task) : String → String → Type 0 where
  edge :
      {a b : String} (t dep : Task)
      → lookup a tasks ≡ some t
      → contains b t.dependencies ≡ true
      → lookup b tasks ≡ some dep
      → Depends tasks a b

-- A path of one edge or more.
pub data Reaches (tasks : Dict Task) : String → String → Type 0 where
  one : {a b : String} → Depends tasks a b → Reaches tasks a b
  more : {a b c : String} → Reaches tasks a b → Depends tasks b c → Reaches tasks a c

-- The tasks that `x` depends on are all among `seen`.
abbrev pub IsSettled : Dict Task → List String → String → Type 0
IsSettled tasks seen x = (b : String) → Depends tasks x b → contains b seen ≡ true

-- No id of the list stands in it before, or in `seen`, and what it depends on does.
abbrev pub IsTopological : Dict Task → List String → List String → Type 0
IsTopological tasks seen [] = Unit
IsTopological tasks seen (x ∷ xs) =
    (contains x seen ≡ false) × IsSettled tasks seen x × IsTopological tasks (x ∷ seen) xs

pub id-lookup :
    (k : String) (t : Task) (tasks : Dict Task) → IsKeyed tasks → lookup k tasks ≡ some t → t.id ≡ k
unfolding lookup
id-lookup k t [] h e = ground arith
id-lookup k t ((j, u) ∷ d) h e = ground (arith, eq_iff j k, id-lookup k t d h.2)

-- A task that stands in the dictionary is found under its id.
abbrev pub IsFound : Dict Task → Task → Type 0
IsFound tasks t = lookup t.id tasks ≡ some t

IsFound-cons :
    (k : String) (u : Task) (d : Dict Task) (ts : List Task)
    → lookup k d ≡ none
    → All (IsFound d) ts
    → All (IsFound ((k, u) ∷ d)) ts
unfolding lookup
IsFound-cons k u d [] h a = tt
IsFound-cons k u d (t ∷ ts) h a = (ground (arith, eq_iff k t.id), IsFound-cons k u d ts h a.1)

pub values-IsFound : (tasks : Dict Task) → IsKeyed tasks → All (IsFound tasks) (values tasks)
unfolding values lookup
values-IsFound [] h = tt
values-IsFound ((k, u) ∷ d) h =
    (ground (arith, eq_iff k u.id), IsFound-cons k u d (values d) h.1 (values-IsFound d h.2))

pub insert-IsKeyed : (t : Task) (tasks : Dict Task) → IsKeyed tasks → IsKeyed (insert t.id t tasks)
unfolding insert lookup
insert-IsKeyed t [] h = (refl, refl, tt)
insert-IsKeyed t ((j, u) ∷ d) h =
    ground (arith, eq_iff j t.id, insert-IsKeyed t d h.2, lookup-insert j t.id t d, eq_iff t.id j)

pub append-IsTopological :
    (tasks : Dict Task) (seen xs : List String) (y : String)
    → IsTopological tasks seen xs
    → contains y seen ≡ false
    → contains y xs ≡ false
    → ((b : String) → Depends tasks y b → (contains b xs || contains b seen) ≡ true)
    → IsTopological tasks seen (xs ++ y ∷ [])
unfolding contains
append-IsTopological tasks seen [] y h fresh _ settled = (fresh, settled, tt)
append-IsTopological tasks seen (x ∷ xs) y h fresh absent settled = (
  h.0,
  h.1,
  append-IsTopological tasks (x ∷ seen) xs y h.2 (ground (arith, eq_iff y x)) (ground arith)
      (λ b d. ground (arith, settled b d)),
)
