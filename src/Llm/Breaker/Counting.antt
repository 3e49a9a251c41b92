-- ===== src/Llm/Breaker/Counting.antt =====
-- How many failures open a breaker, and what holds of every breaker that the program can reach.
use kb_retv_services.Prelude.{
  ℕ, ◌+◌, ◌≤◌, ◌<◌, ◌≡◌, ◌≢◌, ◌↔◌, ◌⊎◌, inl, inr, List, [], ◌∷◌, map, arith, leb, Bool-cases,
  length,
}
use kb_retv_services.Llm.Breaker.{
  Breaker, closed, open_, new_breaker, record_failure, Event, asked, failed, succeeded, step, run,
}

pub record IsValid (b : Breaker) : Type 0 where
  pub armed : 0 < b.threshold
  pub below : b.state ≡ closed → b.failures < b.threshold
  pub reached : b.state ≢ closed → b.threshold ≤ b.failures

pub step-IsValid : (b : Breaker) (e : Event) → IsValid b → IsValid (step b e).0
unfolding step
step-IsValid b (asked now) v = grind arith
step-IsValid b (failed now) v = grind arith
step-IsValid b (succeeded now) v = grind arith

run-IsValid_from : (b : Breaker) (es : List Event) → IsValid b → IsValid (run b es).0
unfolding run
run-IsValid_from b [] v = v
run-IsValid_from b (e ∷ es) v = run-IsValid_from (step b e).0 es (step-IsValid b e v)

closed_below : (b : Breaker) → IsValid b → b.failures < b.threshold → b.state ≡ closed
closed_below b v few = ground (arith, v.reached)

-- Every breaker that is made with a positive threshold and then used in any way is closed
-- exactly while it has counted fewer failures than its threshold.
pub run-IsValid :
    (threshold cooldown : ℕ) (es : List Event)
    → 0 < threshold
    → let b = (run (new_breaker threshold cooldown) es).0 in
      (b.state ≡ closed) ↔ (b.failures < b.threshold)
run-IsValid threshold cooldown es h =
    let v = run-IsValid_from (new_breaker threshold cooldown) es (ground arith) in
    (v.below, λ few. closed_below (run (new_breaker threshold cooldown) es).0 v few)

open_stays :
    (b : Breaker) (nows : List ℕ) → b.state ≡ open_ → (run b (map failed nows)).0.state ≡ open_
unfolding run step
open_stays b [] o = o
open_stays b (now ∷ nows) o = open_stays (record_failure now b) nows (failed_open b now o)
  where
    failed_open : (b : Breaker) (now : ℕ) → b.state ≡ open_ → (record_failure now b).state ≡ open_
    failed_open b now o = ground arith

record_failure_trips :
    (b : Breaker) (now : ℕ)
    → b.state ≡ closed
    → b.threshold ≤ b.failures + 1
    → (record_failure now b).state ≡ open_
unfolding record_failure
record_failure_trips b now c h = ground arith

record_failure_counts :
    (b : Breaker) (now : ℕ)
    → b.state ≡ closed
    → b.failures + 1 < b.threshold
    → let b' = record_failure now b in
      (b'.state ≡ closed) × (b'.failures ≡ b.failures + 1) × (b'.threshold ≡ b.threshold)
unfolding record_failure
record_failure_counts b now c h = ground arith

-- A closed breaker that sees failures only is open after them exactly when they bring its count
-- up to the threshold: fewer leave it closed, with every failure counted.
pub run-failures :
    (b : Breaker) (nows : List ℕ)
    → b.state ≡ closed
    → b.failures < b.threshold
    → let b' = (run b (map failed nows)).0 in
      ((b.threshold ≤ b.failures + length nows) × (b'.state ≡ open_))
      ⊎ ((b.failures + length nows < b.threshold)
          × (b'.state ≡ closed)
          × (b'.failures ≡ b.failures + length nows))
unfolding run step
run-failures b [] c h = inr (omega arith, c, omega arith)
run-failures b (now ∷ nows) c h = elim (Bool-cases (leb b.threshold (b.failures + 1))) [
  | inl full ↦ inl (
    ground arith,
    open_stays (record_failure now b) nows (record_failure_trips b now c (ground arith)),
  )
  | inr few ↦
      let lt : b.failures + 1 < b.threshold = ground arith in
      let (c', n, t) = record_failure_counts b now c lt in
      elim (run-failures (record_failure now b) nows c' (omega arith)) [
        | inl (full, opened) ↦ inl (omega (arith, n, t), opened)
        | inr (few, shut, count) ↦ inr (omega (arith, n, t), shut, omega (arith, count, n))
      ]
]
