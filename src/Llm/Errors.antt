-- ===== src/Llm/Errors.antt =====
-- Go errors as the language-model layer inspects them: internal/infra/llm/llmerr/errors.go,
-- `isQuotaError` of internal/infra/llm/failover.go, `routeFailure` and `routeError` of
-- internal/infra/llm/routed_provider.go, `AppError` of internal/shared/errors/errors.go.
-- `errors.Is` and `errors.As` walk the chain of `%w`, which here are `wrapped` and `both`.
use kb_retv_services.Prelude.{
  ℕ, Bool, true, false, ◌&&◌, ◌||◌, Option, none, some, List, [], ◌∷◌, ◌++◌, leb, ◌==◌,
  if◌then◌else◌,
}
use mathlib.Core.Bool.{decide}
use kb_retv_services.Prelude.Int.{ℤ}
use kb_retv_services.Prelude.Str.{Str, codes, contains, to_lower, itoa, is_empty}

pub record ProviderError : Type 0 where
  pub vendor : Str
  pub status : ℕ
  pub retry_after : ℤ
  pub message : Str

-- `Error()` of `*ProviderError`.
unfoldable pub provider_message : ProviderError → Str
provider_message e =
    if is_empty e.message
    then e.vendor ++ codes ": status " ++ itoa e.status
    else e.vendor ++ codes ": status " ++ itoa e.status ++ codes ": " ++ e.message

pub data Code : Type 0 where
  unavailable rate_limited upstream_failed invalid_input forbidden : Code

abbrev pub code_text : Code → Str
code_text unavailable = codes "unavailable"
code_text rate_limited = codes "rate_limited"
code_text upstream_failed = codes "upstream_failed"
code_text invalid_input = codes "invalid_input"
code_text forbidden = codes "forbidden"

-- `network timeout op text` is a `net.Error` whose `Timeout()` is the first field; the second says
-- whether it is, or wraps, a `*net.OpError`. `both p b` is `primary: %w; backup: %v`.
pub data GoError : Type 0 where
  circuit_open canceled deadline_exceeded connection_disabled : GoError
  provider : ProviderError → GoError
  network : Bool → Bool → Str → GoError
  app : Code → Str → GoError
  wrapped : Str → GoError → GoError
  both : GoError → GoError → GoError
  other : Str → GoError

-- `Error()`.
unfoldable pub message : GoError → Str
unfolding provider_message
message circuit_open = codes "llm: circuit breaker open"
message canceled = codes "context canceled"
message deadline_exceeded = codes "context deadline exceeded"
message connection_disabled = codes "AI connection disabled"
message (provider e) = provider_message e
message (network timeout op text) = text
message (app code text) = code_text code ++ codes ": " ++ text
message (wrapped prefix e) = prefix ++ codes ": " ++ message e
message (both p b) = codes "primary: " ++ message p ++ codes "; backup: " ++ message b
message (other text) = text

-- What the chain ends in: `errors.Is` and `errors.As` of the code look for nothing in between.
unfoldable pub root : GoError → GoError
root (wrapped prefix e) = root e
root (both p b) = root p
root circuit_open = circuit_open
root canceled = canceled
root deadline_exceeded = deadline_exceeded
root connection_disabled = connection_disabled
root (provider e) = provider e
root (network timeout op text) = network timeout op text
root (app code text) = app code text
root (other text) = other text

-- `errors.As(err, &pe)` for a `*ProviderError`.
unfoldable pub as_provider : GoError → Option ProviderError
as_provider (provider e) = some e
as_provider (wrapped prefix e) = as_provider e
as_provider (both p b) = as_provider p
as_provider _ = none

-- `errors.Is(err, ErrCircuitOpen)`.
unfoldable pub is_circuit_open : GoError → Bool
is_circuit_open circuit_open = true
is_circuit_open (wrapped prefix e) = is_circuit_open e
is_circuit_open (both p b) = is_circuit_open p
is_circuit_open _ = false

retry_status : Option ProviderError → Option ℤ
retry_status none = none
retry_status (some e) = if e.status == 429 || leb 500 e.status then some e.retry_after else none

-- `Retryable`: the wait that the provider asks for, or `none` for `(0, false)`.
unfoldable pub retryable : GoError → Option ℤ
unfolding as_provider retry_status
retryable e = retry_status (as_provider e)

status_is : ℕ → Option ProviderError → Bool
status_is n none = false
status_is n (some e) = e.status == n

-- `isQuotaError` on an error that is not nil.
unfoldable pub is_quota_error : GoError → Bool
unfolding is_circuit_open as_provider status_is message
is_quota_error e =
    is_circuit_open e
    || status_is 429 (as_provider e)
    || (let msg = to_lower (message e) in
        contains msg (codes "quota")
        || contains msg (codes "rate limit")
        || contains msg (codes "rate-limit")
        || contains msg (codes "too many requests"))

-- The strings that `routeFailure` returns.
pub data Failure : Type 0 where
  disabled success cancelled timeout rate_limit unreachable rejected failed : Failure

pub Failure-discrete : Discrete Failure
Failure-discrete = hlevel

provider_failure : ProviderError → Failure
provider_failure e =
    if e.status == 429
    then rate_limit
    else if e.status == 408 || e.status == 504
    then timeout
    else if leb 500 e.status && leb e.status 599
    then unreachable
    else rejected

-- The tests of `routeFailure` in their order, on the end of the chain.
failure_of_root : GoError → Failure
unfolding provider_failure
failure_of_root connection_disabled = disabled
failure_of_root canceled = cancelled
failure_of_root deadline_exceeded = timeout
failure_of_root (provider e) = provider_failure e
failure_of_root (network late op text) =
    if late then timeout else if op then unreachable else failed
failure_of_root _ = failed

-- `routeFailure`; `none` is a nil error.
unfoldable pub route_failure : Option GoError → Failure
unfolding failure_of_root root
route_failure none = success
route_failure (some e) = failure_of_root (root e)

is_canceled : GoError → Bool
is_canceled canceled = true
is_canceled _ = false

abbrev is_rate_limit : Failure → Bool
is_rate_limit rate_limit = true
is_rate_limit _ = false

abbrev is_timeout : Failure → Bool
is_timeout timeout = true
is_timeout _ = false

-- `routeError`.
unfoldable pub route_error : GoError → GoError
unfolding root route_failure is_canceled
route_error e =
    let code = if is_rate_limit (route_failure (some e)) then rate_limited else upstream_failed in
    let late = is_canceled (root e) || is_timeout (route_failure (some e)) in
    app (if late then unavailable else code) (codes "AI provider request failed")

is_disabled_root : GoError → Bool
is_disabled_root connection_disabled = true
is_disabled_root _ = false

-- `errors.Is(err, errRouteConnectionDisabled)`.
unfoldable pub is_disabled : GoError → Bool
unfolding is_disabled_root root
is_disabled e = is_disabled_root (root e)

-- `slices.Contains(fallbackOn, failure)`; a configured text that is no failure matches nothing
-- and is
-- left out of the list.
unfoldable pub falls_back : List Failure → Failure → Bool
unfolding Failure-discrete
falls_back [] f = false
falls_back (g ∷ gs) f = decide (Failure-discrete g f) || falls_back gs f
