-- ===== src/Llm/Resilient/Attempts.antt =====
-- Which attempts the loop of `call` makes, and when one of them answers.
use kb_retv_services.Prelude.{
  ℕ, zero, suc, ◌+◌, ◌≤◌, ◌<◌, ◌≡◌, refl, sym, ap, ◌∙◌, ◌≢◌, inl, inr, Option, none, some, [],
  arith, All, ok, err, Result-cases,
}
use kb_retv_services.Prelude.Int.{ℤ, ◌≤ℤ◌}
use mathlib.Core.Path.{subst}
use native.Mathlib.Nat.{add-zero}
use kb_retv_services.Llm.Errors.{GoError, retryable}
use kb_retv_services.Llm.Resilient.{
  Resilient, World, Trace, Ended, done, after_wait, after_error, gave_up, attempts, ceil_of,
  backoff_duration,
}
use kb_retv_services.Llm.Resilient.Backoff.{backoff_duration_bounds}

shifted : (k n : ℕ) → k + suc n ≡ k + 1 + n
shifted k n = omega arith

gave_up_some : {A : Type 0} {e : GoError} → ◌≢◌ {A = Ended A} (gave_up (some e)) (gave_up none)
gave_up_some h = cc

done-ne-gave_up : {A : Type 0} (c : A) → ◌≢◌ {A = Ended A} (done c) (gave_up none)
done-ne-gave_up c h = cc

done-injective : {A : Type 0} {x y : A} → done x ≡ done y → x ≡ y
done-injective e = cc

module _ {Completion : Type 0} (r : Resilient) (w : World Completion) where
  -- The attempts from `k` on, `n` of them, all failed with an error that may be retried, and none
  -- of the waits after them was interrupted.
  abbrev pub Retried : ℕ → ℕ → Type 0
  Retried k zero = Unit
  Retried k (suc n) =
      (e : GoError) × (asked : ℤ) × (w.outcome k ≡ err e)
      × (retryable e ≡ some asked)
      × (w.interrupted k ≡ none)
      × Retried (k + 1) n

  -- The n-th attempt from `k` on is made and answers with `c`.
  abbrev pub Answers : ℕ → ℕ → Completion → Type 0
  Answers k n c = Retried k n × (w.outcome (k + n) ≡ ok c)

  attempts_failed :
      (left k : ℕ) (last : Option GoError) {e : GoError}
      → w.outcome k ≡ err e
      → attempts r w (suc left) k last
        ≡ after_error r w left k e (retryable e) (attempts r w left (k + 1) (some e))
  unfolding attempts
  attempts_failed left k last p = rw (p, attempts)

  attempts_answered :
      (left k : ℕ) (last : Option GoError) {c : Completion}
      → w.outcome k ≡ ok c
      → attempts r w (suc left) k last ≡ record { ended = done c; calls = 1; waits = [] }
  unfolding attempts
  attempts_answered left k last p = rw (p, attempts)

  calls-after_error_le :
      (left k : ℕ) (e : GoError) (o : Option ℤ) (rest : Trace Completion)
      → rest.calls ≤ left
      → (after_error r w left k e o rest).calls ≤ suc left
  calls-after_error_le left k e o rest h = ground arith

  pub calls-attempts_le :
      (left k : ℕ) (last : Option GoError) → (attempts r w left k last).calls ≤ left
  unfolding attempts
  calls-attempts_le zero k last = omega arith
  calls-attempts_le (suc left) k last = elim (Result-cases (w.outcome k)) [
    | inl (e, failed) ↦
        rw (attempts_failed left k last failed)
          (calls-after_error_le left k e (retryable e) _ (calls-attempts_le left (k + 1) (some e)))
    | inr (c, answered) ↦ rw (attempts_answered left k last answered) (omega arith)
  ]

  waits-after_wait :
      (o : Option GoError) (e : GoError) (d : ℤ) (rest : Trace Completion)
      → d ≤ℤ ceil_of r
      → All (λ x. x ≤ℤ ceil_of r) rest.waits
      → All (λ x. x ≤ℤ ceil_of r) (after_wait r w o e d rest).waits
  waits-after_wait none e d rest l h = (l, h)
  waits-after_wait (some stop) e d rest l h = (l, tt)

  waits-after_error :
      (left k : ℕ) (e : GoError) (o : Option ℤ) (rest : Trace Completion)
      → All (λ x. x ≤ℤ ceil_of r) rest.waits
      → All (λ x. x ≤ℤ ceil_of r) (after_error r w left k e o rest).waits
  waits-after_error left k e none rest h = tt
  waits-after_error zero k e (some asked) rest h = tt
  waits-after_error (suc left) k e (some asked) rest h =
      waits-after_wait (w.interrupted k) e (backoff_duration r w.convert k asked) rest
        (backoff_duration_bounds r w.convert k asked).0 h

  pub waits-attempts_le :
      (left k : ℕ) (last : Option GoError)
      → All (λ d. d ≤ℤ ceil_of r) (attempts r w left k last).waits
  unfolding attempts
  waits-attempts_le zero k last = tt
  waits-attempts_le (suc left) k last = elim (Result-cases (w.outcome k)) [
    | inl (e, failed) ↦
        subst (λ t. All (λ d. d ≤ℤ ceil_of r) (t.waits)) (sym (attempts_failed left k last failed))
          (waits-after_error left k e (retryable e) _ (waits-attempts_le left (k + 1) (some e)))
    | inr (c, answered) ↦
        subst (λ t. All (λ d. d ≤ℤ ceil_of r) (t.waits))
          (sym (attempts_answered left k last answered)) tt
  ]

  done-after_wait :
      (o : Option GoError) (e : GoError) (d : ℤ) (rest : Trace Completion) {c : Completion}
      → (after_wait r w o e d rest).ended ≡ done c
      → (o ≡ none) × (rest.ended ≡ done c)
  done-after_wait none e d rest h = (refl, h)
  done-after_wait (some stop) e d rest h = cc

  done-after_error :
      (left k : ℕ) (e : GoError) (o : Option ℤ) (rest : Trace Completion) {c : Completion}
      → (after_error r w left k e o rest).ended ≡ done c
      → (asked : ℤ) × (o ≡ some asked) × (w.interrupted k ≡ none) × (rest.ended ≡ done c)
  done-after_error left k e none rest h = cc
  done-after_error zero k e (some asked) rest h = cc
  done-after_error (suc left) k e (some asked) rest h =
      let (free, later) = done-after_wait (w.interrupted k) e _ rest h in (asked, refl, free, later)

  answered_here :
      (left k : ℕ) (last : Option GoError) {x c : Completion}
      → w.outcome k ≡ ok x
      → (attempts r w (suc left) k last).ended ≡ done c
      → done x ≡ done c
  answered_here left k last answered h =
      sym (ap (λ t. t.ended) (attempts_answered left k last answered)) ∙ h

  pub done-attempts :
      (left k : ℕ) (last : Option GoError) {c : Completion}
      → (attempts r w left k last).ended ≡ done c
      → (n : ℕ) × (n < left) × Retried k n × (w.outcome (k + n) ≡ ok c)
  unfolding attempts
  done-attempts zero k last h = cc
  done-attempts (suc left) k last {c} h = elim (Result-cases (w.outcome k)) [
    | inl (e, failed) ↦
        let (asked, may, free, later) =
          done-after_error left k e (retryable e) (attempts r w left (k + 1) (some e))
            (rw (attempts_failed left k last failed) at h) in
        let (n, l, ago, ans) = done-attempts left (k + 1) (some e) later in
        (suc n, omega arith, (e, asked, failed, may, free, ago), ap w.outcome (shifted k n) ∙ ans)
    | inr (x, answered) ↦ (
      0,
      omega arith,
      tt,
      ap w.outcome (add-zero k)
          ∙ answered
          ∙ ap ok (done-injective (answered_here left k last answered h)),
    )
  ]

  pub attempts-done :
      (left k n : ℕ) (last : Option GoError) (c : Completion)
      → n < left
      → Retried k n
      → w.outcome (k + n) ≡ ok c
      → ((attempts r w left k last).ended ≡ done c) × ((attempts r w left k last).calls ≡ n + 1)
  attempts-done zero k n last c l t a = absurd (omega arith)
  attempts-done (suc left) k zero last c l t a =
      let answered : w.outcome k ≡ ok c = ap w.outcome (sym (add-zero k)) ∙ a in
      rw (attempts_answered left k last answered) (refl, refl)
  attempts-done (suc zero) k (suc n) last c l t a = absurd (omega arith)
  attempts-done (suc (suc left)) k (suc n) last c l (e, asked, failed, may, free, ago) a =
      let (ended, calls) =
        attempts-done (suc left) (k + 1) n (some e) c (omega arith) ago
          (ap w.outcome (sym (shifted k n)) ∙ a) in
      rw (attempts_failed (suc left) k last failed, may, free) (ended, omega (arith, calls))

  ended-after_wait :
      (o : Option GoError) (e : GoError) (d : ℤ) (rest : Trace Completion)
      → rest.ended ≢ gave_up none
      → (after_wait r w o e d rest).ended ≢ gave_up none
  ended-after_wait none e d rest h = h
  ended-after_wait (some stop) e d rest h = λ p. gave_up_some p

  ended-after_error :
      (left k : ℕ) (e : GoError) (o : Option ℤ) (rest : Trace Completion)
      → (zero ≢ left → rest.ended ≢ gave_up none)
      → (after_error r w left k e o rest).ended ≢ gave_up none
  ended-after_error left k e none rest h = gave_up_some
  ended-after_error zero k e (some asked) rest h = gave_up_some
  ended-after_error (suc left) k e (some asked) rest h =
      ended-after_wait (w.interrupted k) e _ rest (h (omega arith))

  -- A loop that makes an attempt at all gives up with an error.
  pub ended-attempts_ne :
      (left k : ℕ) (last : Option GoError)
      → zero ≢ left
      → (attempts r w left k last).ended ≢ gave_up none
  ended-attempts_ne zero k last h = absurd (h refl)
  ended-attempts_ne (suc left) k last h = elim (Result-cases (w.outcome k)) [
    | inl (e, failed) ↦
        rw (attempts_failed left k last failed)
          (ended-after_error left k e (retryable e) _ (ended-attempts_ne left (k + 1) (some e)))
    | inr (c, answered) ↦ rw (attempts_answered left k last answered) (done-ne-gave_up c)
  ]
