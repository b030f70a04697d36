-- ===== src/Dependency/Backoff.antt =====
-- Bounds of the delay between two attempts.
use native.Mathlib.Nat.{pow-suc}
use axiom_agent.Prelude.{
  ℕ, zero, suc, ◌*◌, ◌/◌, ◌-◌, ◌^◌, ◌≤◌, ◌≡◌, false, arith, min, max, some, leb, Bool-cases, inl,
  inr, none,
}
use axiom_agent.Prelude.Int.{ℤ, pos_part}
use axiom_agent.Dependency.{
  BackoffPolicy, RetryPolicy, Failure, delay_seconds, base_delay, max_delay, chosen_delay, one,
}

mul_mono : (b x y : ℕ) → x ≤ y → b * x ≤ b * y
mul_mono b x y h = grind arith

scaled-le : (u s : ℕ) → u * min one s / one ≤ u
scaled-le u s = omega (arith, mul_mono u (min one s) one (omega arith))

-- Whatever the sample, no delay passes the cap, or the delay without jitter.
pub delay_seconds-le :
    (p : BackoffPolicy) (n sample : ℕ)
    → (delay_seconds p n sample ≤ p.max_delay_seconds)
      × (delay_seconds p n sample ≤ delay_seconds (record p { jitter_enabled = false }) n sample)
unfolding delay_seconds
delay_seconds-le p n sample =
    ground (arith, scaled-le (min p.max_delay_seconds (p.base_delay_seconds * 2 ^ (n - 1))) sample)

pow_mono : (m n : ℕ) → m ≤ n → 2 ^ m ≤ 2 ^ n
pow_mono m zero h = let e : m ≡ 0 = omega arith in simp e (omega arith)
pow_mono m (suc n) h = elim (Bool-cases (leb m n)) [
  | inl below ↦ let ih = pow_mono m n (ground arith) in rw pow-suc (omega (arith, ih))
  | inr top ↦ let e : m ≡ suc n = ground arith in simp e (omega arith)
]

-- Without jitter the delays never fall from one failure to the next.
pub delay_seconds_mono :
    (p : BackoffPolicy) (m n s t : ℕ)
    → p.jitter_enabled ≡ false
    → m ≤ n
    → delay_seconds p m s ≤ delay_seconds p n t
unfolding delay_seconds
delay_seconds_mono p m n s t plain h =
    let e = pow_mono (m - 1) (n - 1) (omega arith) in
    ground (arith, mul_mono p.base_delay_seconds (2 ^ (m - 1)) (2 ^ (n - 1)) e)

-- The chosen delay is at least what the other side asks for, and is at most the cap or that.
pub chosen_delay_bounds :
    (p : RetryPolicy) (f : Failure) (after : ℤ)
    → f.retry_after_seconds ≡ some after
    → (pos_part after ≤ chosen_delay p f) × (chosen_delay p f ≤ max (max_delay p) (pos_part after))
unfolding chosen_delay
chosen_delay_bounds p f after h =
    let b : BackoffPolicy = record {
      base_delay_seconds = base_delay p;
      max_delay_seconds = max_delay p;
      jitter_enabled = p.jitter_enabled;
    } in
    ground (arith, h, (delay_seconds-le b f.attempt f.sample).0)

pub chosen_delay-le :
    (p : RetryPolicy) (f : Failure) → f.retry_after_seconds ≡ none → chosen_delay p f ≤ max_delay p
unfolding chosen_delay
chosen_delay-le p f h =
    let b : BackoffPolicy = record {
      base_delay_seconds = base_delay p;
      max_delay_seconds = max_delay p;
      jitter_enabled = p.jitter_enabled;
    } in
    ground (arith, h, (delay_seconds-le b f.attempt f.sample).0)
