-- ===== src/Llm/Resilient/Backoff.antt =====
-- The waits between attempts.
use kb_retv_services.Prelude.{
  ℕ, ◌*◌, ◌^◌, ◌≤◌, ◌+◌, ◌-◌, ◌<◌, ◌≡◌, refl, ◌⊎◌, inl, inr, arith, ltb, ltb→lt, lt→ltb, Bool-cases,
}
use kb_retv_services.Prelude.Int.{ℤ, pos, pos_part, ◌≤ℤ◌, max_ℤ, min_ℤ, min_max_bounds}
use mathlib.Core.Path.{subst}
use kb_retv_services.Llm.Resilient.{
  Resilient, base_of, ceil_of, half_even, float_from, float64_of, scaled, backoff_duration,
}

-- A float holds the integers below 2^53.
half_even-one : (n : ℕ) → half_even n 1 ≡ n
half_even-one n = ground arith

float64_of-small : (n : ℕ) → n < 2 ^ 53 → float64_of n ≡ n
unfolding float_from
float64_of-small n small = rw (lt→ltb n (2 ^ 53 * 1) (omega (arith, small))) (half_even-one n)

exact_or_large : (n : ℕ) → (2 ^ 53 ≤ n) ⊎ (float64_of n ≡ n)
exact_or_large n = elim (Bool-cases (ltb n (2 ^ 53))) [
  | inl small ↦ inr (float64_of-small n (ltb→lt n (2 ^ 53) small))
  | inr large ↦ inl (ground arith)
]

rounds_to_even :
    (float64_of (2 ^ 53 + 1) ≡ 2 ^ 53)
    × (float64_of (2 ^ 53 + 3) ≡ 2 ^ 53 + 4)
    × (float64_of (2 ^ 63 - 1) ≡ 2 ^ 63)
unfolding float_from
rounds_to_even = (refl, refl, refl)

scaled_fits :
    (convert : ℕ → ℤ) (base : ℤ) (attempt : ℕ)
    → float64_of (pos_part base) * 2 ^ attempt < 2 ^ 63
    → scaled convert base attempt ≡ pos (float64_of (pos_part base) * 2 ^ attempt)
unfolding scaled
scaled_fits convert base attempt fits = rw (lt→ltb _ _ fits) refl

clamped_least : (s t asked c : ℤ) → s ≡ t → min_ℤ t c ≤ℤ min_ℤ (max_ℤ s asked) c
clamped_least s t asked c e =
    subst (λ u. min_ℤ u c ≤ℤ min_ℤ (max_ℤ s asked) c) e (min_max_bounds s asked c).1

scaled_least :
    (r : Resilient) (convert : ℕ → ℤ) (attempt : ℕ) (asked : ℤ) (x : ℕ)
    → x ≡ float64_of (pos_part (base_of r))
    → (2 ^ 63 ≤ x * 2 ^ attempt)
      ⊎ (min_ℤ (pos (x * 2 ^ attempt)) (ceil_of r) ≤ℤ backoff_duration r convert attempt asked)
unfolding backoff_duration
scaled_least r convert attempt asked x is = elim (Bool-cases (ltb (x * 2 ^ attempt) (2 ^ 63))) [
  | inl fits ↦ inr (
      clamped_least (scaled convert (base_of r) attempt) (pos (x * 2 ^ attempt)) asked (ceil_of r) (
        rw is (
          scaled_fits convert (base_of r) attempt
            (subst (λ x. x * 2 ^ attempt < 2 ^ 63) is (ltb→lt (x * 2 ^ attempt) (2 ^ 63) fits)))))
  | inr wraps ↦ inl (ground arith)
]

-- Whatever the provider asks for, however many attempts were made and whatever an overflow
-- turns into, a wait is at most the ceiling, and at least the wait that the provider asked for
-- or the ceiling, whichever is less. Where the base, rounded to a float, still fits 63 bits once it
-- is doubled for each attempt, the wait is at least that, or the ceiling; the base is rounded only
-- from 2^53 nanoseconds on.
pub backoff_duration_bounds :
    (r : Resilient) (convert : ℕ → ℤ) (attempt : ℕ) (asked : ℤ)
    → let d = backoff_duration r convert attempt asked in
      let base = pos_part (base_of r) in
      let doubled = float64_of base * 2 ^ attempt in
      (d ≤ℤ ceil_of r)
      × (min_ℤ asked (ceil_of r) ≤ℤ d)
      × ((2 ^ 63 ≤ doubled) ⊎ (min_ℤ (pos doubled) (ceil_of r) ≤ℤ d))
      × ((2 ^ 53 ≤ base) ⊎ (float64_of base ≡ base))
unfolding backoff_duration
backoff_duration_bounds r convert attempt asked =
    let bounds = min_max_bounds (scaled convert (base_of r) attempt) asked (ceil_of r) in
    (
      bounds.0,
      bounds.2,
      scaled_least r convert attempt asked (float64_of (pos_part (base_of r))) refl,
      exact_or_large (pos_part (base_of r)),
    )
