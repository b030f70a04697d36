-- ===== src/Progress/Cycles.antt =====
-- `_detect_cycle` of src/axiom/runtime/progress.py against lists that end in a repeated part.
use axiom_agent.Prelude.{
  ℕ, zero, suc, ◌+◌, ◌-◌, ◌*◌, ◌≤◌, ◌<◌, String, ◌≡◌, ◌↔◌, refl, sym, ap, ◌∙◌, true, List, [], ◌∷◌,
  ◌++◌, length, length-append, inl, inr, arith, eq_iff, eq_refl, is_some, Bool-cases, take, drop,
  ℕ_discrete,
}
use axiom_agent.Progress.Detector.{texts_eq, repeats_unit, ends_with_cycle, detect_cycle}

-- the unit, n times
unfoldable pub repeat : ℕ → List String → List String
repeat zero unit = []
repeat (suc n) unit = unit ++ repeat n unit

texts_eq-≡ : (xs ys : List String) → texts_eq xs ys ≡ true → xs ≡ ys
texts_eq-≡ [] [] h = refl
texts_eq-≡ [] (y ∷ ys) h = absurd (ground (arith, h))
texts_eq-≡ (x ∷ xs) [] h = absurd (ground (arith, h))
texts_eq-≡ (x ∷ xs) (y ∷ ys) h = ground (arith, h, eq_iff x y, texts_eq-≡ xs ys)

texts_eq_refl : (xs : List String) → texts_eq xs xs ≡ true
texts_eq_refl [] = refl
texts_eq_refl (x ∷ xs) = ground (arith, eq_refl x, texts_eq_refl xs)

module _ {ℓ} {A : Type ℓ} where
  take-drop : (n : ℕ) (xs : List A) → take n xs ++ drop n xs ≡ xs
  take-drop zero xs = refl
  take-drop (suc n) [] = refl
  take-drop (suc n) (x ∷ xs) = ap (λ ys. x ∷ ys) (take-drop n xs)

  length-take : (n : ℕ) (xs : List A) → n ≤ length xs → length (take n xs) ≡ n
  length-take zero xs le = refl
  length-take (suc n) [] le = absurd (omega (arith, le))
  length-take (suc n) (x ∷ xs) le = omega (arith, length-take n xs (omega (arith, le)))

  length-drop : (n : ℕ) (xs : List A) → length (drop n xs) ≡ length xs - n
  length-drop zero xs = omega arith
  length-drop (suc n) [] = omega arith
  length-drop (suc n) (x ∷ xs) = omega (arith, length-drop n xs)

  take-append : (xs ys : List A) → take (length xs) (xs ++ ys) ≡ xs
  take-append [] ys = refl
  take-append (x ∷ xs) ys = ap (λ zs. x ∷ zs) (take-append xs ys)

  pub drop-append : (xs ys : List A) → drop (length xs) (xs ++ ys) ≡ ys
  drop-append [] ys = refl
  drop-append (x ∷ xs) ys = drop-append xs ys

length-repeat : (n : ℕ) (unit : List String) → length (repeat n unit) ≡ length unit * n
unfolding repeat
length-repeat zero unit = omega arith
length-repeat (suc n) unit =
    ground (arith, length-append unit (repeat n unit), length-repeat n unit)

repeats_unit-repeat :
    (n : ℕ) (unit : List String) → repeats_unit (length unit) n unit (repeat n unit) ≡ true
unfolding repeat repeats_unit
repeats_unit-repeat zero unit = refl
repeats_unit-repeat (suc n) unit = ground (
  arith,
  take-append unit (repeat n unit),
  drop-append unit (repeat n unit),
  texts_eq_refl unit,
  repeats_unit-repeat n unit,
)

repeat-repeats_unit :
    (size n : ℕ) (unit tail : List String)
    → length tail ≡ size * n
    → repeats_unit size n unit tail ≡ true
    → tail ≡ repeat n unit
unfolding repeat repeats_unit
repeat-repeats_unit size zero unit [] len h = refl
repeat-repeats_unit size zero unit (x ∷ tail) len h = absurd (omega (arith, len))
repeat-repeats_unit size (suc n) unit tail len h =
    let first = texts_eq-≡ (take size tail) unit (ground (arith, h)) in
    let rest =
      repeat-repeats_unit size n unit (drop size tail) (omega (arith, len, length-drop size tail))
        (ground (arith, h)) in
    rw (sym (take-drop size tail), first, rest) refl

-- The list ends in the unit, n times.
pub EndsWith : List String → ℕ → List String → Type 0
EndsWith history n unit = (prefix : List String) × (history ≡ prefix ++ repeat n unit)

le_times : (m n : ℕ) → 0 < n → m ≤ m * n
le_times m zero pos = absurd (omega (arith, pos))
le_times m (suc n) pos = ground arith

take-repeat : (n : ℕ) (unit : List String) → 0 < n → take (length unit) (repeat n unit) ≡ unit
unfolding repeat
take-repeat zero unit pos = absurd (omega (arith, pos))
take-repeat (suc n) unit pos = take-append unit (repeat n unit)

ends_with_cycle-EndsWith :
    (history : List String) (n size : ℕ)
    → 0 < n
    → ends_with_cycle history n size ≡ true
    → (unit : List String) × (length unit ≡ size) × EndsWith history n unit
unfolding ends_with_cycle EndsWith
ends_with_cycle-EndsWith history n size pos h =
    let k = length history - size * n in
    let tail = drop k history in
    let le : size * n ≤ length history = ground (arith, h) in
    let len : length tail ≡ size * n = omega (arith, le, length-drop k history) in
    let room = le_times size n pos in
    (
      take size tail,
      length-take size tail (omega (arith, room, len)),
      (
        take k history,
        sym (take-drop k history)
            ∙ ap (λ xs. take k history ++ xs)
                (repeat-repeats_unit size n (take size tail) tail len (ground (arith, h))),
      ),
    )

EndsWith-ends_with_cycle :
    (history : List String) (n : ℕ) (unit : List String)
    → 0 < n
    → EndsWith history n unit
    → ends_with_cycle history n (length unit) ≡ true
unfolding ends_with_cycle EndsWith
EndsWith-ends_with_cycle history n unit pos (prefix, e) =
    let len : length history ≡ length prefix + length unit * n =
      ground (arith, e, length-append prefix (repeat n unit), length-repeat n unit) in
    let k : length history - length unit * n ≡ length prefix = omega (arith, len) in
    let tail : drop (length prefix) history ≡ repeat n unit =
      rw e (drop-append prefix (repeat n unit)) in
    ground (arith, len, k, tail, take-repeat n unit pos, repeats_unit-repeat n unit)

EndsWith-within :
    (history : List String) (required size : ℕ)
    → 2 ≤ size
    → size ≤ 4
    → (unit : List String) × (length unit ≡ size) × EndsWith history required unit
    → (unit : List String) × (2 ≤ length unit) × (length unit ≤ 4) × EndsWith history required unit
EndsWith-within history required size low high (unit, len, ends) =
    (unit, omega (arith, len, low), omega (arith, len, high), ends)

detect_cycle_found :
    (history : List String) (required : ℕ)
    → is_some (detect_cycle history required).0 ≡ true
    → (size : ℕ) × (2 ≤ size) × (size ≤ 4) × (ends_with_cycle history required size ≡ true)
unfolding detect_cycle
detect_cycle_found history required h = elim (Bool-cases (ends_with_cycle history required 2)) [
  | inl two ↦ (2, omega arith, omega arith, two)
  | inr not_two ↦ elim (Bool-cases (ends_with_cycle history required 3)) [
    | inl three ↦ (3, omega arith, omega arith, three)
    | inr not_three ↦ (4, omega arith, omega arith, ground (arith, h, not_two, not_three))
  ]
]

detect_cycle_complete :
    (history : List String) (required size : ℕ)
    → 2 ≤ size
    → size ≤ 4
    → ends_with_cycle history required size ≡ true
    → is_some (detect_cycle history required).0 ≡ true
unfolding detect_cycle
detect_cycle_complete history required size low high h = elim (ℕ_discrete size 2) [
  | yes two ↦ ground (arith, h, two)
  | no not_two ↦ elim (ℕ_discrete size 3) [
    | yes three ↦ ground (arith, h, three)
    | no not_three ↦
        let four : size ≡ 4 = omega (arith, low, high, not_two, not_three) in
        ground (arith, h, four)
  ]
]

-- Where at least one repetition is asked for, a cycle is found exactly where the history ends in that
-- many repetitions of a part of two to four fingerprints.
pub detect_cycle-EndsWith :
    (history : List String) (required : ℕ)
    → 0 < required
    → (is_some (detect_cycle history required).0 ≡ true) ↔ (
        (unit : List String) × (2 ≤ length unit)
        × (length unit ≤ 4)
        × EndsWith history required unit)
detect_cycle-EndsWith history required pos = (
  λ h.
      let (size, low, high, ends) = detect_cycle_found history required h in
      EndsWith-within history required size low high
        (ends_with_cycle-EndsWith history required size pos ends),
  λ (unit, low, high, ends).
      detect_cycle_complete history required (length unit) low high
        (EndsWith-ends_with_cycle history required unit pos ends),
)
