-- ===== src/Llm/Resilient.antt =====
-- The wrapper `resilient` of internal/infra/llm/resilient.go around a provider: breaker, rate
-- limiter, attempts with backoff. What the outside world answers during one call is a record
-- `World`.
-- A timeout of an attempt is part of its outcome.
pub mod Backoff
pub mod Attempts
pub mod Bookkeeping
use kb_retv_services.Prelude.{
  ℕ, zero, suc, ◌+◌, ◌-◌, ◌*◌, ◌/◌, ◌%◌, ◌^◌, ◌≤◌, ◌<◌, ◌≡◌, refl, sym, ap, ◌∙◌, ◌≢◌, ◌↔◌, ◌⊎◌, inl,
  inr, Bool, true, false, not, ◌&&◌, ◌||◌, Option, none, some, List, [], ◌∷◌, ◌++◌, map, arith, ltb,
  leb, ◌==◌, if◌then◌else◌, ltb→lt, lt→ltb, leb→le, le→leb, ==_iff, tests, Bool-cases, Option-cases,
  length, get_elem?, take, any, all, keep, length-append, length-take_le, length-keep_le, All,
  All-append, All-take, All-keep, Result, ok, err,
}
use kb_retv_services.Prelude.Int.{
  ℤ, pos, negsuc, pos_part, neg_part, sub_ℕ, ◌+ℤ◌, ◌≤ℤ◌, ◌<ℤ◌, ltb_ℤ, leb_ℤ, max_ℤ, min_ℤ, +ℤ_parts,
  eq_of_parts, int_laws, max_ℤ_bounds, min_ℤ_bounds,
}
use kb_retv_services.Prelude.Str.{
  Str, codes, str_eq, str_eq_refl, eq_of_str_eq, str_eq_iff, starts_with, contains, to_lower,
  trim_space, ends_with, itoa, is_empty,
}
use kb_retv_services.Llm.Errors.{GoError, circuit_open, wrapped, retryable}
use kb_retv_services.Llm.Breaker.{Breaker, allow, record_failure, record_success}

-- `maxRetries` is a plain `int` of the configuration and may be negative; so may the two durations.
pub record Resilient : Type 0 where
  pub max_retries : ℤ
  pub retry_base : ℤ
  pub retry_max : ℤ
  pub breaker : Option Breaker

-- `wait` is what `limiter.Wait` returns (`none` where there is no limiter), `outcome k` what the
-- k-th attempt returns, `interrupted k` what `backoff` returns after it. `convert` is Go's
-- conversion to `int64` of a float that does not fit, which the implementation is free to choose.
pub record World (Completion : Type 0) : Type 0 where
  pub asked_at : ℕ
  pub recorded_at : ℕ
  pub wait : Option GoError
  pub outcome : ℕ → Result GoError Completion
  pub interrupted : ℕ → Option GoError
  pub convert : ℕ → ℤ

abbrev is_positive : ℤ → Bool
is_positive d = ltb_ℤ (pos 0) d

abbrev or_default : ℤ → ℤ → ℤ
or_default d default = if is_positive d then d else default

abbrev pub base_of : Resilient → ℤ
base_of r = or_default r.retry_base (pos 500_000_000)

abbrev pub ceil_of : Resilient → ℤ
ceil_of r = or_default r.retry_max (pos 8_000_000_000)

-- A multiple of the step next to a number; of two that are as near, the even one.
abbrev pub half_even : ℕ → ℕ → ℕ
half_even n step =
    let q = n / step in
    let r = n % step in
    if ltb (2 * r) step || (2 * r == step && q % 2 == 0) then q * step else (q + 1) * step

-- `float64(n)` of an integer: 53 significant bits. Each round doubles the step, and 11 rounds are
-- enough for 63 bits.
unfoldable pub float_from : ℕ → ℕ → ℕ → ℕ
float_from zero n step = half_even n step
float_from (suc fuel) n step =
    let coarser = float_from fuel n (2 * step) in
    if ltb n (2 ^ 53 * step) then half_even n step else coarser

abbrev pub float64_of : ℕ → ℕ
float64_of n = float_from 11 n 1

-- `time.Duration(float64(base) * math.Pow(2, float64(attempt)))`: the product with a power of
-- two is
-- exact, and a value past 63 bits converts to what the argument says.
unfoldable pub scaled : (ℕ → ℤ) → ℤ → ℕ → ℤ
unfolding float_from
scaled convert base attempt =
    let x = float64_of (pos_part base) * 2 ^ attempt in if ltb x (2 ^ 63) then pos x else convert x

-- `backoffDuration`.
unfoldable pub backoff_duration : Resilient → (ℕ → ℤ) → ℕ → ℤ → ℤ
backoff_duration r convert attempt retry_after =
    min_ℤ (max_ℤ (scaled convert (base_of r) attempt) retry_after) (ceil_of r)

-- How the loop of `call` ends: with a completion, or with the last error (`nil` if there was none).
pub data Ended (Completion : Type 0) : Type 0 where
  done : Completion → Ended Completion
  gave_up : Option GoError → Ended Completion

pub record Trace (Completion : Type 0) : Type 0 where
  pub ended : Ended Completion
  pub calls : ℕ
  pub waits : List ℤ

-- The number of rounds of `for attempt := 0; attempt <= maxRetries; attempt++`.
abbrev pub rounds : ℤ → ℕ
rounds (pos n) = n + 1
rounds (negsuc n) = 0

module _ {Completion : Type 0} (r : Resilient) (w : World Completion) where
  abbrev after_wait : Option GoError → GoError → ℤ → Trace Completion → Trace Completion
  after_wait (some stop) e d rest = record { ended = gave_up (some e); calls = 1; waits = d ∷ [] }
  after_wait none e d rest = record {
    ended = rest.ended;
    calls = rest.calls + 1;
    waits = d ∷ rest.waits;
  }

  abbrev after_error : ℕ → ℕ → GoError → Option ℤ → Trace Completion → Trace Completion
  after_error left k e none rest = record { ended = gave_up (some e); calls = 1; waits = [] }
  after_error zero k e (some asked) rest = record {
    ended = gave_up (some e);
    calls = 1;
    waits = [];
  }
  after_error (suc left) k e (some asked) rest =
      after_wait (w.interrupted k) e (backoff_duration r w.convert k asked) rest

  -- The loop of `call` from attempt `k` on, with `left` rounds to go.
  unfoldable pub attempts : ℕ → ℕ → Option GoError → Trace Completion
  attempts zero k last = record { ended = gave_up last; calls = 0; waits = [] }
  attempts (suc left) k last = elim (w.outcome k) [
    | ok c ↦ record { ended = done c; calls = 1; waits = [] }
    | err e ↦ after_error left k e (retryable e) (attempts left (k + 1) (some e))
  ]

-- What `call` returns, with the breaker after it and the calls of the provider that it made. Go
-- returns a completion and an error side by side: `completion` is `none` for `Completion{}`.
pub record Return (Completion : Type 0) : Type 0 where
  pub completion : Option Completion
  pub error : Option GoError
  pub breaker : Option Breaker
  pub calls : ℕ

module _ {Completion : Type 0} (r : Resilient) (w : World Completion) where
  abbrev failed_at : ℕ → Option Breaker → Option Breaker
  failed_at now none = none
  failed_at now (some b) = some (record_failure now b)

  abbrev succeeded_at : Option Breaker → Option Breaker
  succeeded_at none = none
  succeeded_at (some b) = some (record_success b)

  abbrev refused : Option Breaker → Return Completion
  refused b = record { completion = none; error = some circuit_open; breaker = b; calls = 0 }

  abbrev close_call : Option Breaker → ℕ → Ended Completion → Return Completion
  close_call b n (done c) = record {
    completion = some c;
    error = none;
    breaker = succeeded_at b;
    calls = n;
  }
  close_call b n (gave_up last) = record {
    completion = none;
    error = last;
    breaker = failed_at w.recorded_at b;
    calls = n;
  }

  -- The body of `call` after the breaker has let it through.
  abbrev admitted_call : Option Breaker → Option GoError → Return Completion
  admitted_call b (some e) = record {
    completion = none;
    error = some (wrapped (codes "llm: rate limit wait") e);
    breaker = failed_at w.recorded_at b;
    calls = 0;
  }
  admitted_call b none =
      let t = attempts r w (rounds r.max_retries) 0 none in close_call b t.calls t.ended

  abbrev call_through : Option Breaker → Return Completion
  call_through none = admitted_call none w.wait
  call_through (some b) =
      let (b', passed) = allow w.asked_at b in
      if passed then admitted_call (some b') w.wait else refused (some b')

  -- `call`, which `Generate` and `GenerateJSON` are.
  unfoldable pub call : Return Completion
  call = call_through r.breaker
