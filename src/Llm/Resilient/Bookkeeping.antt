-- ===== src/Llm/Resilient/Bookkeeping.antt =====
-- What `call` returns, and what it tells the breaker.
use kb_retv_services.Prelude.{
  ℕ, zero, ◌≤◌, ◌≡◌, refl, sym, ap, ◌∙◌, ◌≢◌, ◌↔◌, inl, inr, Bool, true, false, Option, none, some,
  arith, Bool-cases, ok,
}
use kb_retv_services.Prelude.Int.{pos, negsuc}
use native.Mathlib.Nat.{zero-add}
use kb_retv_services.Llm.Errors.{GoError, circuit_open}
use kb_retv_services.Llm.Breaker.{Breaker, allow, record_failure, record_success}
use kb_retv_services.Llm.Resilient.{
  Resilient, World, Ended, done, gave_up, attempts, rounds, call, admitted_call, call_through,
  refused, close_call,
}
use kb_retv_services.Llm.Resilient.Attempts.{
  Retried, calls-attempts_le, done-attempts, attempts-done, ended-attempts_ne,
}

-- There is no breaker, or it lets a call through at this time.
abbrev pub lets_through : ℕ → Option Breaker → Bool
lets_through now none = true
lets_through now (some b) = (allow now b).1

-- The breaker after it was asked.
abbrev pub asked : ℕ → Option Breaker → Option Breaker
asked now none = none
asked now (some b) = some (allow now b).0

-- The breaker after a failure or a success was recorded.
abbrev pub recorded : ℕ → Bool → Option Breaker → Option Breaker
recorded now true none = none
recorded now true (some b) = some (record_success b)
recorded now false none = none
recorded now false (some b) = some (record_failure now b)

abbrev pub is_some {ℓ} : {A : Type ℓ} → Option A → Bool
is_some none = false
is_some (some a) = true

module _ {Completion : Type 0} (r : Resilient) (w : World Completion) where
  through :
      (o : Option Breaker)
      → lets_through w.asked_at o ≡ true
      → call_through r w o ≡ admitted_call r w (asked w.asked_at o) w.wait
  through none h = refl
  through (some b) h = rw h

  stopped :
      (o : Option Breaker)
      → lets_through w.asked_at o ≡ false
      → call_through r w o ≡ refused r w (asked w.asked_at o)
  stopped none h = cc
  stopped (some b) h = rw h

  recorded_close :
      (b : Option Breaker) (n : ℕ) (e : Ended Completion)
      → (close_call r w b n e).breaker
        ≡ recorded w.recorded_at (is_some (close_call r w b n e).completion) b
  recorded_close none n (done c) = refl
  recorded_close (some b) n (done c) = refl
  recorded_close none n (gave_up last) = refl
  recorded_close (some b) n (gave_up last) = refl

  recorded_admitted :
      (b : Option Breaker) (o : Option GoError)
      → (admitted_call r w b o).breaker
        ≡ recorded w.recorded_at (is_some (admitted_call r w b o).completion) b
  recorded_admitted none (some e) = refl
  recorded_admitted (some b) (some e) = refl
  recorded_admitted b none =
      let t = attempts r w (rounds r.max_retries) 0 none in recorded_close b t.calls t.ended

  calls_close :
      (b : Option Breaker) (n : ℕ) (e : Ended Completion) → (close_call r w b n e).calls ≡ n
  calls_close b n (done c) = refl
  calls_close b n (gave_up last) = refl

  calls_admitted :
      (b : Option Breaker) (o : Option GoError)
      → (admitted_call r w b o).calls ≤ rounds r.max_retries
  calls_admitted b (some e) = omega arith
  calls_admitted b none =
      rw (calls_close b _ _) (calls-attempts_le r w (rounds r.max_retries) 0 none)

  -- A call that the breaker refuses makes no attempt, returns the breaker's error and records
  -- nothing. A call that it lets through makes at most one attempt more than the configured
  -- retries, and afterwards records exactly one outcome in the breaker: a success if it
  -- returns a completion, and otherwise a failure.
  pub call-breaker :
      ((lets_through w.asked_at r.breaker ≡ false)
        → ((call r w).error ≡ some circuit_open)
          × ((call r w).completion ≡ none)
          × ((call r w).calls ≡ 0)
          × ((call r w).breaker ≡ asked w.asked_at r.breaker))
      × ((lets_through w.asked_at r.breaker ≡ true)
          → ((call r w).calls ≤ rounds r.max_retries)
            × ((call r w).breaker
                ≡ recorded w.recorded_at
                    (is_some (call r w).completion)
                    (asked w.asked_at r.breaker)))
  unfolding call
  call-breaker = (
    λ h. rw (stopped r.breaker h) (refl, refl, refl, refl),
    λ h. rw (through r.breaker h) (
      calls_admitted (asked w.asked_at r.breaker) w.wait,
      recorded_admitted (asked w.asked_at r.breaker) w.wait,
    ),
  )

  -- Attempt n answers with `c`: it is among the attempts that the configuration allows, and
  -- every one before it failed with an error that may be retried and was waited for.
  pub record IsAnswer (retries : ℕ) (c : Completion) : Type 0 where
    pub attempt : ℕ
    pub allowed : attempt ≤ retries
    pub before : Retried r w 0 attempt
    pub answer : w.outcome attempt ≡ ok c

  ended-IsAnswer :
      (retries : ℕ) (c : Completion)
      → r.max_retries ≡ pos retries
      → ((attempts r w (rounds r.max_retries) 0 none).ended ≡ done c) ↔ IsAnswer retries c
  ended-IsAnswer retries c m = (
    λ h.
        let (n, l, ago, ans) = done-attempts r w (rounds r.max_retries) 0 none h in
        record {
          attempt = n;
          allowed = omega (arith, ap rounds m);
          before = ago;
          answer = ap w.outcome (sym (zero-add n)) ∙ ans;
        },
    λ a.
        (attempts-done r w (rounds r.max_retries) 0 a.attempt none c (omega (arith, ap rounds m))
          a.before (ap w.outcome (zero-add a.attempt) ∙ a.answer)).0,
  )

  completion-close_call :
      (b : Option Breaker) (n : ℕ) (e : Ended Completion) (c : Completion)
      → ((close_call r w b n e).completion ≡ some c) ↔ (e ≡ done c)
  completion-close_call b n (done x) c = (λ h. cc, λ h. cc)
  completion-close_call b n (gave_up last) c = (λ h. cc, λ h. cc)

  completion-admitted :
      (b : Option Breaker) (o : Option GoError) (c : Completion)
      → ((admitted_call r w b o).completion ≡ some c)
        ↔ ((o ≡ none) × ((attempts r w (rounds r.max_retries) 0 none).ended ≡ done c))
  completion-admitted b (some e) c = (λ h. cc, λ h. cc)
  completion-admitted b none c =
      let (to, from) = completion-close_call b _ _ c in (λ h. (refl, to h), λ h. from h.1)

  -- With a number of retries that is not negative, `call` returns the completion `c` exactly
  -- when the breaker and then the rate limiter let it through and `c` is the answer of an
  -- allowed attempt all of whose predecessors failed with errors that may be retried and were
  -- waited for.
  pub call-completion_iff :
      (retries : ℕ) (c : Completion)
      → r.max_retries ≡ pos retries
      → ((call r w).completion ≡ some c)
        ↔ ((lets_through w.asked_at r.breaker ≡ true) × (w.wait ≡ none) × IsAnswer retries c)
  unfolding call
  call-completion_iff retries c m = elim (Bool-cases (lets_through w.asked_at r.breaker)) [
    | inl passed ↦
        let (to, from) = completion-admitted (asked w.asked_at r.breaker) w.wait c in
        let (ans, back) = ended-IsAnswer retries c m in
        rw (through r.breaker passed)
          (λ h. let (free, ended) = to h in (passed, free, ans ended), λ h. from (h.1, back h.2))
    | inr shut ↦ rw (stopped r.breaker shut) (λ h. cc, λ h. cc)
  ]

  error-close_call :
      (b : Option Breaker) (n : ℕ) (e : Ended Completion)
      → e ≢ gave_up none
      → ((close_call r w b n e).error ≡ none) ↔ (is_some (close_call r w b n e).completion ≡ true)
  error-close_call b n (done c) h = (λ _. refl, λ _. refl)
  error-close_call b n (gave_up none) h = absurd (h refl)
  error-close_call b n (gave_up (some e)) h = (λ p. cc, λ p. cc)

  error-admitted :
      (b : Option Breaker) (o : Option GoError)
      → zero ≢ rounds r.max_retries
      → ((admitted_call r w b o).error ≡ none) ↔ (is_some (admitted_call r w b o).completion ≡ true)
  error-admitted b (some e) h = (λ p. cc, λ p. cc)
  error-admitted b none h = error-close_call b _ _ (ended-attempts_ne r w _ 0 none h)

  -- With a number of retries that is not negative, `call` returns a nil error exactly with a
  -- completion.
  pub call-error_iff :
      (retries : ℕ)
      → r.max_retries ≡ pos retries
      → ((call r w).error ≡ none) ↔ (is_some (call r w).completion ≡ true)
  unfolding call
  call-error_iff retries m = elim (Bool-cases (lets_through w.asked_at r.breaker)) [
    | inl passed ↦
        rw (through r.breaker passed)
          (error-admitted (asked w.asked_at r.breaker) w.wait (omega (arith, ap rounds m)))
    | inr shut ↦ rw (stopped r.breaker shut) (λ h. cc, λ h. cc)
  ]

  -- With a negative number of retries no attempt is made: a call that the breaker and the
  -- limiter let through returns no completion and no error.
  pub call-negative_retries :
      (k : ℕ)
      → r.max_retries ≡ negsuc k
      → lets_through w.asked_at r.breaker ≡ true
      → w.wait ≡ none
      → ((call r w).completion ≡ none) × ((call r w).error ≡ none) × ((call r w).calls ≡ 0)
  unfolding call attempts
  call-negative_retries k m passed free = rw (through r.breaker passed, free, m) (refl, refl, refl)
