-- ===== src/Examples/LlmCalls.antt =====
-- Runs of the language-model layer: breaker, retries, failover, task route.
use kb_retv_services.Prelude.{
  ℕ, zero, suc, ◌+◌, ◌^◌, ◌≤◌, ◌<◌, ◌≡◌, refl, ◌↔◌, ◌⊎◌, inl, inr, true, false, Option, none, some,
  List, [], ◌∷◌, map, arith, length, Result, ok, err,
}
use kb_retv_services.Prelude.Int.{pos, negsuc, ◌≤ℤ◌}
use kb_retv_services.Prelude.Str.{codes, contains, to_lower, itoa, starts_with}
use kb_retv_services.Llm.Errors.{
  GoError, provider, deadline_exceeded, circuit_open, connection_disabled, canceled, other, both,
  ProviderError, rate_limit, timeout, is_disabled, falls_back, is_quota_error, retryable,
  route_failure, message,
}
use kb_retv_services.Llm.Breaker.{
  Breaker, closed, open_, new_breaker, allow, record_failure, record_success, asked, failed,
  succeeded, run,
}
use kb_retv_services.Llm.Breaker.Cooldown.{run-open_refuses, allow-probe}
use kb_retv_services.Llm.Breaker.Counting.{run-IsValid, run-failures}
use kb_retv_services.Llm.Resilient.{
  Resilient, World, call, attempts, float_from, float64_of, backoff_duration,
}
use kb_retv_services.Llm.Resilient.Backoff.{backoff_duration_bounds}
use kb_retv_services.Llm.Resilient.Bookkeeping.{
  lets_through, asked as asked_breaker, recorded, is_some, IsAnswer, call-breaker,
  call-completion_iff, call-error_iff, call-negative_retries,
}
use kb_retv_services.Llm.Failover.{
  LlmProvider, on_quota, Failover, should_try_backup, generate, generate_json, stream,
  normalize_failover_mode,
}
use kb_retv_services.Llm.Failover.Answers.{Rescues, failover-answers_iff, failover-keeps_kind}
use kb_retv_services.Llm.Routed.{RouteConfig, Completion, Candidate, Visit}
use mathlib.Core.Bool.{decide}
use kb_retv_services.Llm.Routed
use kb_retv_services.Llm.Routed.Fallback.{Serves, call-Serves_iff, call-attempts_le}

abbrev busy : ProviderError
busy = record {
  vendor = codes "openai";
  status = 429;
  retry_after = pos 2_000_000_000;
  message = codes "slow down";
}

busy_message : message (provider busy) ≡ codes "openai: status 429: slow down"
unfolding message itoa
busy_message = refl

quota_texts :
    (is_quota_error (provider busy) ≡ true)
    × (is_quota_error (other (codes "Too Many Requests, wait")) ≡ true)
    × (is_quota_error deadline_exceeded ≡ false)
unfolding is_quota_error contains to_lower starts_with
quota_texts = (refl, refl, refl)

-- A breaker with threshold 2 that opened at time 100.
abbrev tripped : Breaker
tripped = record { threshold = 2; cooldown = 50; failures = 2; opened_at = 100; state = open_ }

tripped_reached : (run (new_breaker 2 50) (failed 90 ∷ failed 100 ∷ [])).0 ≡ tripped
unfolding run
tripped_reached = refl

run-open_refuses_example :
    ((run tripped (asked 120 ∷ failed 130 ∷ asked 149 ∷ [])).0.state ≡ open_)
    × ((run tripped (asked 120 ∷ failed 130 ∷ asked 149 ∷ [])).1 ≡ 0)
run-open_refuses_example =
    run-open_refuses tripped (asked 120 ∷ failed 130 ∷ asked 149 ∷ []) refl (omega arith)
      (omega arith)

test_allow_probe :
    ((allow 150 tripped).1 ≡ true)
    × ((record_success (allow 150 tripped).0).state ≡ closed)
    × ((record_success (allow 150 tripped).0).failures ≡ 0)
    × ((record_failure 160 (allow 150 tripped).0).state ≡ open_)
    × ((record_failure 160 (allow 150 tripped).0).opened_at ≡ 160)
test_allow_probe = allow-probe tripped 150 160 refl (omega arith)

run-IsValid_example :
    let b = (run (new_breaker 2 50) (failed 90 ∷ succeeded 95 ∷ failed 100 ∷ [])).0 in
    (b.state ≡ closed) ↔ (b.failures < b.threshold)
run-IsValid_example = run-IsValid 2 50 (failed 90 ∷ succeeded 95 ∷ failed 100 ∷ []) (omega arith)

run-failures_example :
    let b = (run (new_breaker 2 50) (map failed (90 ∷ 100 ∷ []))).0 in
    ((2 ≤ 2) × (b.state ≡ open_)) ⊎ ((2 < 2) × (b.state ≡ closed) × (b.failures ≡ 2))
run-failures_example = run-failures (new_breaker 2 50) (90 ∷ 100 ∷ []) refl (omega arith)

abbrev wrapper : Resilient
wrapper = record {
  max_retries = pos 2;
  retry_base = pos 100;
  retry_max = pos 1000;
  breaker = some (new_breaker 2 50);
}

abbrev outcomes : ℕ → Result GoError ℕ
outcomes zero = err (provider busy)
outcomes (suc k) = ok 7

-- The first attempt is refused by a busy provider, the second answers 7.
abbrev busy_world : World ℕ
busy_world = record {
  asked_at = 10;
  recorded_at = 20;
  wait = none;
  outcome = outcomes;
  interrupted = λ k. none;
  convert = λ x. pos 0;
}

answered : IsAnswer wrapper busy_world 2 7
unfolding retryable
answered = record {
  attempt = 1;
  allowed = omega arith;
  before = (provider busy, pos 2_000_000_000, refl, refl, refl, tt);
  answer = refl;
}

call-completion_iff_example : ((call wrapper busy_world).completion ≡ some 7) ↔ (
    (lets_through 10 (some (new_breaker 2 50)) ≡ true)
    × (◌≡◌ {A = Option GoError} none none)
    × IsAnswer wrapper busy_world 2 7)
call-completion_iff_example = call-completion_iff wrapper busy_world 2 7 refl

call_runs : ((call wrapper busy_world).completion ≡ some 7) × ((call wrapper busy_world).calls ≡ 2)
unfolding call attempts retryable allow
call_runs = (refl, refl)

call-error_iff_example :
    ((call wrapper busy_world).error ≡ none) ↔ (is_some (call wrapper busy_world).completion ≡ true)
call-error_iff_example = call-error_iff wrapper busy_world 2 refl

call-breaker_example :
    ((lets_through 10 (some (new_breaker 2 50)) ≡ false)
      → ((call wrapper busy_world).error ≡ some circuit_open)
        × ((call wrapper busy_world).completion ≡ none)
        × ((call wrapper busy_world).calls ≡ 0)
        × ((call wrapper busy_world).breaker ≡ asked_breaker 10 (some (new_breaker 2 50))))
    × ((lets_through 10 (some (new_breaker 2 50)) ≡ true)
        → ((call wrapper busy_world).calls ≤ 3)
          × ((call wrapper busy_world).breaker
              ≡ recorded 20
                  (is_some (call wrapper busy_world).completion)
                  (asked_breaker 10 (some (new_breaker 2 50)))))
call-breaker_example = call-breaker wrapper busy_world

abbrev negative : Resilient
negative = record wrapper { max_retries = negsuc 0 }

call-negative_retries_example :
    ((call negative busy_world).completion ≡ none)
    × ((call negative busy_world).error ≡ none)
    × ((call negative busy_world).calls ≡ 0)
unfolding allow
call-negative_retries_example = call-negative_retries negative busy_world 0 refl refl refl

backoff_duration_bounds_example :
    let d = backoff_duration wrapper (λ x. pos 0) 3 (pos 5) in
    (d ≤ℤ pos 1000)
    × (pos 5 ≤ℤ d)
    × ((2 ^ 63 ≤ 800) ⊎ (pos 800 ≤ℤ d))
    × ((2 ^ 53 ≤ 100) ⊎ (float64_of 100 ≡ 100))
unfolding float_from
backoff_duration_bounds_example = backoff_duration_bounds wrapper (λ x. pos 0) 3 (pos 5)

abbrev limited : LlmProvider ℕ ℕ ℕ
limited = record {
  generate = λ p. err (provider busy);
  generate_json = λ p. err (provider busy);
  stream = λ p. err circuit_open;
}

abbrev spare : LlmProvider ℕ ℕ ℕ
spare = record { generate = λ p. ok (p + 1); generate_json = λ p. err canceled; stream = λ p. ok p }

abbrev quota_failover : Failover ℕ ℕ ℕ
quota_failover = record { primary = limited; backup = some spare; mode = on_quota }

mode_text : normalize_failover_mode (codes " Quota ") ≡ on_quota
unfolding normalize_failover_mode
mode_text = refl

failover-answers_iff_example :
    ((generate quota_failover 4 ≡ ok 5) ↔ (
      (◌≡◌ {A = Result GoError ℕ} (err (provider busy)) (ok 5))
      ⊎ Rescues quota_failover (λ b. b.generate 4) 5))
    × ((generate_json quota_failover 4 ≡ ok 5) ↔ (
        (◌≡◌ {A = Result GoError ℕ} (err (provider busy)) (ok 5))
        ⊎ Rescues quota_failover (λ b. b.generate_json 4) 5))
    × ((stream quota_failover 4 ≡ ok 4) ↔ (
        (◌≡◌ {A = Result GoError ℕ} (err circuit_open) (ok 4))
        ⊎ Rescues quota_failover (λ b. b.stream 4) 4))
failover-answers_iff_example = failover-answers_iff quota_failover 4 5 4

failover_runs :
    (generate quota_failover 4 ≡ ok 5)
    × (generate_json quota_failover 4 ≡ err (both (provider busy) canceled))
unfolding generate generate_json should_try_backup is_quota_error
failover_runs = (refl, refl)

test_failover_keeps_kind :
    (route_failure (some (both (provider busy) canceled)) ≡ route_failure (some (provider busy)))
    × (retryable (both (provider busy) canceled) ≡ retryable (provider busy))
test_failover_keeps_kind =
    failover-keeps_kind quota_failover 4 (provider busy) (both (provider busy) canceled)
      (inr (inl (refl, failover_runs.1)))

abbrev candidate : ℕ → Candidate
candidate n = record { connection_id = n; vendor = codes "openai"; model = codes "m" }

abbrev visits : List Visit
visits =
    record {
      candidate = candidate 1;
      late = none;
      resolved = some connection_disabled;
      answer = err canceled;
      expired = false;
    }
    ∷ record {
      candidate = candidate 2;
      late = none;
      resolved = none;
      answer = err (provider busy);
      expired = false;
    }
    ∷ record {
      candidate = candidate 3;
      late = none;
      resolved = none;
      answer = ok (record { text = codes "hi"; model = []; vendor = codes "v" });
      expired = false;
    }
    ∷ []

abbrev route : RouteConfig
route = record { max_attempts = 2; fallback_on = timeout ∷ rate_limit ∷ [] }

abbrev served : Completion
served = record { text = codes "hi"; model = codes "m"; vendor = codes "v" }

route_serves : (Routed.call route visits).result ≡ ok served
unfolding Routed.call is_disabled route_failure falls_back Routed.candidate_completion decide
route_serves = refl

call-Serves_iff_example :
    ((Routed.call route visits).result ≡ ok served) ↔ Serves route 0 visits served
call-Serves_iff_example = call-Serves_iff route visits served

test_call_attempts_le :
    ((Routed.call route visits).attempts ≤ 2) × (length (Routed.call route visits).rows ≤ 3)
test_call_attempts_le = call-attempts_le route visits
