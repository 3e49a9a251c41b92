-- ===== src/Llm/Breaker.antt =====
-- The circuit breaker of internal/infra/llm/resilient.go. A method takes the time that the clock
-- shows and returns the new state; the mutex makes each method one step. Times are nanoseconds from
-- some origin. `failures` is an `int` that grows by one with a failed call: it is left unbounded.
pub mod Cooldown
pub mod Counting
use kb_retv_services.Prelude.{
  ℕ, zero, suc, ◌+◌, ◌-◌, ◌*◌, ◌/◌, ◌%◌, ◌^◌, ◌≤◌, ◌<◌, ◌≡◌, refl, sym, ap, ◌∙◌, ◌≢◌, ◌↔◌, ◌⊎◌, inl,
  inr, Bool, true, false, not, ◌&&◌, ◌||◌, Option, none, some, List, [], ◌∷◌, ◌++◌, map, arith, ltb,
  leb, ◌==◌, if◌then◌else◌, ltb→lt, lt→ltb, leb→le, le→leb, ==_iff, tests, Bool-cases, Option-cases,
  length, get_elem?, take, any, all, keep, length-append, length-take_le, length-keep_le, All,
  All-append, All-take, All-keep, Result, ok, err,
}
use kb_retv_services.Prelude.Int.{
  ℤ, pos, negsuc, pos_part, neg_part, sub_ℕ, ◌+ℤ◌, ◌≤ℤ◌, ◌<ℤ◌, ltb_ℤ, leb_ℤ, max_ℤ, min_ℤ, +ℤ_parts,
  eq_of_parts, int_laws, max_ℤ_bounds, min_ℤ_bounds,
}
use kb_retv_services.Prelude.Str.{
  Str, codes, str_eq, str_eq_refl, eq_of_str_eq, str_eq_iff, starts_with, contains, to_lower,
  trim_space, ends_with, itoa, is_empty,
}

pub data BreakerState : Type 0 where
  closed open_ half_open : BreakerState

-- The constructor `NewResilient` makes a breaker only with positive `threshold` and `cooldown`.
pub record Breaker : Type 0 where
  pub threshold : ℕ
  pub cooldown : ℕ
  pub failures : ℕ
  pub opened_at : ℕ
  pub state : BreakerState

abbrev pub new_breaker : ℕ → ℕ → Breaker
new_breaker threshold cooldown = record {
  threshold = threshold;
  cooldown = cooldown;
  failures = 0;
  opened_at = 0;
  state = closed;
}

-- `b.clock().Sub(b.openedAt) >= b.cooldown`, for a positive cooldown.
abbrev pub cooled : ℕ → Breaker → Bool
cooled now b = leb (b.opened_at + b.cooldown) now

allow_in : BreakerState → ℕ → Breaker → Breaker × Bool
allow_in open_ now b = if cooled now b then (record b { state = half_open }, true) else (b, false)
allow_in _ now b = (b, true)

-- `allow`.
unfoldable pub allow : ℕ → Breaker → Breaker × Bool
unfolding allow_in
allow now b = allow_in b.state now b

record_failure_in : BreakerState → ℕ → Breaker → Breaker
record_failure_in half_open now b = record b { state = open_; opened_at = now }
record_failure_in _ now b =
    let counted = record b { failures = b.failures + 1 } in
    if leb b.threshold (b.failures + 1)
    then record counted { state = open_; opened_at = now }
    else counted

-- `recordFailure`.
unfoldable pub record_failure : ℕ → Breaker → Breaker
unfolding record_failure_in
record_failure now b = record_failure_in b.state now b

-- `recordSuccess`.
unfoldable pub record_success : Breaker → Breaker
record_success b = record b { failures = 0; state = closed }

-- A call of one of the methods by some goroutine, at the time that the clock shows.
pub data Event : Type 0 where
  asked failed succeeded : ℕ → Event

unfoldable pub step : Breaker → Event → Breaker × Bool
unfolding allow record_failure record_success
step b (asked now) = allow now b
step b (failed now) = (record_failure now b, false)
step b (succeeded now) = (record_success b, false)

-- The breaker after a sequence of calls, with the number of calls that it let through.
unfoldable pub run : Breaker → List Event → Breaker × ℕ
unfolding step
run b [] = (b, 0)
run b (e ∷ es) =
    let (b', passed) = step b e in let (b'', n) = run b' es in (b'', if passed then n + 1 else n)
