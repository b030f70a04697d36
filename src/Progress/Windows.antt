-- ===== src/Progress/Windows.antt =====
-- The bounded histories of src/axiom/runtime/progress.py against unbounded ones.
use axiom_agent.Prelude.{
  ℕ, zero, suc, ◌+◌, ◌-◌, ◌*◌, ◌≤◌, String, ◌≡◌, refl, sym, ap, ◌∙◌, true, List, [], ◌∷◌, ◌++◌,
  length, length-append, arith, drop,
}
use mathlib.Core.List.{append-nil, append_assoc}
use axiom_agent.Progress.State.{ProgressPolicy, policy_is_valid}
use axiom_agent.Progress.Detector.{append_bounded, ends_with_cycle, detect_cycle}

-- The last texts of a list, at most n of them.
unfoldable pub last : ℕ → List String → List String
last n xs = drop (length xs - n) xs

-- A history after actions in turn.
unfoldable pub append_all : List String → List String → ℕ → List String
append_all history [] limit = history
append_all history (x ∷ xs) limit = append_all (append_bounded history x limit) xs limit

module _ {ℓ} {A : Type ℓ} where
  length-drop : (n : ℕ) (xs : List A) → length (drop n xs) ≡ length xs - n
  length-drop zero xs = omega arith
  length-drop (suc n) [] = omega arith
  length-drop (suc n) (x ∷ xs) = omega (arith, length-drop n xs)

  drop-empty : (n : ℕ) → drop {A = A} n [] ≡ []
  drop-empty zero = refl
  drop-empty (suc n) = refl

  drop-drop : (m n : ℕ) (xs : List A) → drop m (drop n xs) ≡ drop (n + m) xs
  drop-drop m zero xs = ground arith
  drop-drop m (suc n) [] = ground (arith, drop-empty m, drop-empty (suc n + m))
  drop-drop m (suc n) (x ∷ xs) =
      let same : suc (n + m) ≡ suc n + m = omega arith in
      drop-drop m n xs ∙ ap (λ i. drop i (x ∷ xs)) same

  drop-append_le : (n : ℕ) (xs ys : List A) → n ≤ length xs → drop n (xs ++ ys) ≡ drop n xs ++ ys
  drop-append_le zero xs ys le = refl
  drop-append_le (suc n) [] ys le = absurd (omega (arith, le))
  drop-append_le (suc n) (x ∷ xs) ys le = drop-append_le n xs ys (omega (arith, le))

last-last : (n limit : ℕ) (xs : List String) → n ≤ limit → last n (last limit xs) ≡ last n xs
unfolding last
last-last n limit xs le =
    let k = length xs - limit in
    drop-drop (length (drop k xs) - n) k xs
    ∙ ap (λ i. drop i xs) (omega (arith, le, length-drop k xs))

append_bounded-last :
    (limit : ℕ) (trace : List String) (x : String)
    → append_bounded (last limit trace) x limit ≡ last limit (trace ++ x ∷ [])
unfolding append_bounded last
append_bounded-last limit trace x =
    let k = length trace - limit in
    let longer = last limit trace ++ x ∷ [] in
    let moved : longer ≡ drop k (trace ++ x ∷ []) =
      sym (drop-append_le k trace (x ∷ []) (omega arith)) in
    ground (
      arith,
      moved,
      length-drop k trace,
      length-append trace (x ∷ []),
      length-append (last limit trace) (x ∷ []),
      drop-drop (length longer - limit) k (trace ++ x ∷ []),
    )

append_all-last :
    (limit : ℕ) (trace xs : List String)
    → append_all (last limit trace) xs limit ≡ last limit (trace ++ xs)
unfolding append_all
append_all-last limit trace [] = ap (last limit) (sym (append-nil trace))
append_all-last limit trace (x ∷ xs) =
    ap (λ h. append_all h xs limit) (append_bounded-last limit trace x)
    ∙ append_all-last limit (trace ++ x ∷ []) xs
    ∙ ap (last limit) (append_assoc trace (x ∷ []) xs)

last-empty : (limit : ℕ) → last limit [] ≡ []
unfolding last
last-empty limit = drop-empty (0 - limit)

ends_with_cycle-last :
    (limit : ℕ) (trace : List String) (required size : ℕ)
    → size * required ≤ limit
    → ends_with_cycle (last limit trace) required size ≡ ends_with_cycle trace required size
unfolding ends_with_cycle last
ends_with_cycle-last limit trace required size le =
    let needed = size * required in
    let k = length trace - limit in
    ground (arith, le, last-last needed limit trace le, length-drop k trace)

-- With a valid policy, the history of at most `history_limit` actions shows the same cycle, or none, as
-- the whole list of actions since the history was last cleared.
pub detect_cycle-append_all :
    (p : ProgressPolicy) (actions : List String)
    → policy_is_valid p ≡ true
    → detect_cycle (append_all [] actions p.history_limit) p.max_cycle_repetitions
      ≡ detect_cycle actions p.max_cycle_repetitions
unfolding detect_cycle policy_is_valid
detect_cycle-append_all p actions valid =
    let limit = p.history_limit in
    let n = p.max_cycle_repetitions in
    let enough : n * 4 ≤ limit = ground (arith, valid) in
    let same : append_all [] actions limit ≡ last limit actions =
      ap (λ h. append_all h actions limit) (sym (last-empty limit))
      ∙ append_all-last limit [] actions in
    ground (
      arith,
      same,
      ends_with_cycle-last limit actions n 2 (omega (arith, enough)),
      ends_with_cycle-last limit actions n 3 (omega (arith, enough)),
      ends_with_cycle-last limit actions n 4 (omega (arith, enough)),
    )
