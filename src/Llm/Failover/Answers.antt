-- ===== src/Llm/Failover/Answers.antt =====
-- When a failover answers, and which error it returns.
use kb_retv_services.Prelude.{
  ◌≡◌, refl, ◌∙◌, ◌↔◌, ◌⊎◌, inl, inr, true, none, some, arith, Bool-cases, Option-cases, Result, ok,
  err, Result-cases,
}
use kb_retv_services.Llm.Errors.{GoError, both, is_quota_error, retryable, route_failure}
use kb_retv_services.Llm.Failover.{
  LlmProvider, FailoverMode, off, on_error, on_quota, Failover, try_in, backup_answer,
  should_try_backup, or_backup, generate, generate_json, stream,
}

-- The mode allows the backup for this error.
abbrev pub Allows : FailoverMode → GoError → Type 0
Allows off e = ⊥
Allows on_error e = Unit {0}
Allows on_quota e = is_quota_error e ≡ true

try_in_iff : (m : FailoverMode) (e : GoError) → (try_in m e ≡ true) ↔ Allows m e
unfolding try_in
try_in_iff off e = (λ h. cc, λ h. absurd h)
try_in_iff on_error e = (λ h. tt, λ h. refl)
try_in_iff on_quota e = (λ h. h, λ h. h)

backup_ok :
    {A : Type 0} (e : GoError) (m : Result GoError A) (a : A)
    → (backup_answer e m ≡ ok a) ↔ (m ≡ ok a)
backup_ok e (ok x) a = (λ h. h, λ h. h)
backup_ok e (err b) a = (λ h. cc, λ h. cc)

abbrev error_or {ℓ} : {A : Type ℓ} → GoError → Result GoError A → GoError
error_or e (ok a) = e
error_or e (err b) = b

module _ {Prompt Completion Stream : Type 0} (f : Failover Prompt Completion Stream) where
  -- The backup is there and answers with `a`, the primary having failed with an error for
  -- which the mode allows it.
  pub record Rescues {A : Type 0} (ask : LlmProvider Prompt Completion Stream → Result GoError A)
      (a : A) : Type 0 where
    pub error : GoError
    pub backup : LlmProvider Prompt Completion Stream
    pub refused : ask f.primary ≡ err error
    pub allowed : Allows f.mode error
    pub there : f.backup ≡ some backup
    pub answer : ask backup ≡ ok a

  module _ {A : Type 0} (ask : LlmProvider Prompt Completion Stream → Result GoError A) where
    rescued :
        (e : GoError) (a : A)
        → ask f.primary ≡ err e
        → or_backup f ask (err e) ≡ ok a
        → Rescues ask a
    unfolding should_try_backup
    rescued e a failed h = elim (Option-cases f.backup) [
      | inl gone ↦ absurd (not_rescued gone)
      | inr (b, there) ↦ elim (Bool-cases (try_in f.mode e)) [
        | inl may ↦ record {
          error = e;
          backup = b;
          refused = failed;
          allowed = (try_in_iff f.mode e).0 may;
          there = there;
          answer = (backup_ok e (ask b) a).0 (ground arith);
        }
        | inr barred ↦ absurd (ground arith)
      ]
    ]
      where
        not_rescued : f.backup ≡ none → ⊥
        not_rescued gone = ground arith

    served :
        (a : A) → (ask f.primary ≡ ok a) ⊎ Rescues ask a → or_backup f ask (ask f.primary) ≡ ok a
    unfolding should_try_backup
    served a (inl h) = rw h
    served a (inr r) = rw (r.refused, r.there, (try_in_iff _ _).1 r.allowed, r.answer)

    answer_iff :
        (a : A)
        → (or_backup f ask (ask f.primary) ≡ ok a) ↔ ((ask f.primary ≡ ok a) ⊎ Rescues ask a)
    answer_iff a = elim (Result-cases (ask f.primary)) [
      | inl (e, failed) ↦ (λ h. inr (rescued e a failed (rw failed at h)), served a)
      | inr (x, answered) ↦ (λ h. inl (answered ∙ (rw answered at h)), served a)
    ]

  -- Each of the three operations answers `a` exactly when the primary does, or the primary
  -- failed with an error for which the mode allows the backup (every error in mode `error`, a
  -- quota error in mode `quota`, none in mode `off`), there is a backup, and it answers `a`.
  pub failover-answers_iff :
      (p : Prompt) (c : Completion) (s : Stream)
      → ((generate f p ≡ ok c) ↔ ((f.primary.generate p ≡ ok c) ⊎ Rescues (λ b. b.generate p) c))
        × ((generate_json f p ≡ ok c)
            ↔ ((f.primary.generate_json p ≡ ok c) ⊎ Rescues (λ b. b.generate_json p) c))
        × ((stream f p ≡ ok s) ↔ ((f.primary.stream p ≡ ok s) ⊎ Rescues (λ b. b.stream p) s))
  unfolding generate generate_json stream
  failover-answers_iff p c s = (
    answer_iff (λ b. b.generate p) c,
    answer_iff (λ b. b.generate_json p) c,
    answer_iff (λ b. b.stream p) s,
  )

  backup_error :
      {A : Type 0} (e d : GoError) (m : Result GoError A)
      → backup_answer e m ≡ err d
      → d ≡ both e (error_or e m)
  backup_error e d (ok a) h = cc
  backup_error e d (err b) h = cc

  returned_error :
      {A : Type 0} (ask : LlmProvider Prompt Completion Stream → Result GoError A) (e d : GoError)
      → or_backup f ask (err e) ≡ err d
      → (d ≡ e) ⊎ ((b : GoError) × (d ≡ both e b))
  unfolding should_try_backup
  returned_error ask e d h = elim (Option-cases f.backup) [
    | inl gone ↦ inl (ground arith)
    | inr (b, there) ↦ elim (Bool-cases (try_in f.mode e)) [
      | inl may ↦ inr (error_or e (ask b), backup_error e d (ask b) (ground arith))
      | inr barred ↦ inl (ground arith)
    ]
  ]

  same_kind :
      (e d : GoError)
      → (d ≡ e) ⊎ ((b : GoError) × (d ≡ both e b))
      → (route_failure (some d) ≡ route_failure (some e)) × (retryable d ≡ retryable e)
  unfolding route_failure retryable
  same_kind e d (inl p) = rw p (refl, refl)
  same_kind e d (inr (b, p)) = rw p (refl, refl)

  -- If the primary fails with `e` and a call of `Generate`, `GenerateJSON` or `Stream` still
  -- returns an error, the backup asked or not, that error is classified as `e` is: it is the
  -- same failure for a task route, and may be retried, after the same wait, exactly when `e`
  -- may.
  pub failover-keeps_kind :
      (p : Prompt) (e d : GoError)
      → ((f.primary.generate p ≡ err e) × (generate f p ≡ err d))
        ⊎ ((f.primary.generate_json p ≡ err e) × (generate_json f p ≡ err d))
        ⊎ ((f.primary.stream p ≡ err e) × (stream f p ≡ err d))
      → (route_failure (some d) ≡ route_failure (some e)) × (retryable d ≡ retryable e)
  unfolding generate generate_json stream
  failover-keeps_kind p e d (inl (failed, h)) =
      same_kind e d (returned_error (λ b. b.generate p) e d (rw failed at h))
  failover-keeps_kind p e d (inr (inl (failed, h))) =
      same_kind e d (returned_error (λ b. b.generate_json p) e d (rw failed at h))
  failover-keeps_kind p e d (inr (inr (failed, h))) =
      same_kind e d (returned_error (λ b. b.stream p) e d (rw failed at h))
