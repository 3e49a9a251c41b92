-- ===== src/Rag/Decision.antt =====
-- What the pipeline decides of an answer: the pure functions of
-- internal/ai/rag/pipeline_decision.go,
-- pipeline_generate.go and reason.go.
use kb_retv_services.Prelude.{
  Bool, true, false, not, ◌&&◌, ◌||◌, Option, none, some, List, [], ◌∷◌, if◌then◌else◌,
}
use kb_retv_services.Prelude.Int.{ℤ, pos}
use kb_retv_services.Prelude.Str.{Str, trim_space, is_empty}
use kb_retv_services.Llm.Errors.{GoError, root, as_provider, ProviderError, deadline_exceeded}
use kb_retv_services.Rag.Types.{
  Floats, Candidate, Query, CragResult, Critique, Verdict, relevant, partial, irrelevant, Decision,
  auto, draft, escalate, Reason, low_confidence, llm_unavailable, deadline, fast_draft,
}

abbrev pub is_auto : Decision → Bool
is_auto auto = true
is_auto _ = false

abbrev pub is_escalate : Decision → Bool
is_escalate escalate = true
is_escalate _ = false

abbrev pub is_irrelevant : Verdict → Bool
is_irrelevant irrelevant = true
is_irrelevant _ = false

-- `strings.TrimSpace(s) == ""`.
abbrev pub is_blank : Str → Bool
is_blank s = is_empty (trim_space s)

abbrev pub is_nil {ℓ} : {A : Type ℓ} → List A → Bool
is_nil [] = true
is_nil (x ∷ xs) = false

module _ {F : Type 0} (fl : Floats F) where
  abbrev pub clamp01 : F → F
  clamp01 value =
      if fl.lt value (fl.hundredths 0)
      then fl.hundredths 0
      else if fl.lt (fl.hundredths 100) value
      then fl.hundredths 100
      else value

  abbrev of_verdict : Verdict → F
  of_verdict relevant = fl.hundredths 90
  of_verdict partial = fl.hundredths 70
  of_verdict irrelevant = fl.hundredths 0

  unfoldable pub compute_confidence : CragResult F → List (Candidate F) → F
  compute_confidence crag [] = fl.hundredths 0
  compute_confidence crag (c ∷ cs) =
      if fl.lt (fl.hundredths 0) crag.confidence
      then clamp01 crag.confidence
      else of_verdict crag.verdict

  abbrev pub route_decision : F → F → Decision
  route_decision confidence threshold =
      if fl.le threshold confidence
      then auto
      else if fl.le (fl.hundredths 60) confidence
      then draft
      else escalate

  abbrev ungraded_draft : Bool → Decision → Decision
  ungraded_draft graded d = if is_auto d && not graded then draft else d

  unfoldable pub decision_for : F → F → Bool → Decision
  decision_for confidence threshold graded =
      ungraded_draft graded (route_decision confidence threshold)

  abbrev pub should_run_crag : Query → List (Candidate F) → Bool
  should_run_crag q cs = not (fast_draft q) || not (is_nil cs)

  abbrev pub will_generate : Bool → Decision → Verdict → List (Candidate F) → Bool
  will_generate has_generator d v cs =
      has_generator && not (is_escalate d) && not (is_irrelevant v) && not (is_nil cs)

abbrev pub should_run_critic : Query → Decision → Str → Bool
should_run_critic q d text = not (fast_draft q) && is_auto d && not (is_blank text)

abbrev pub apply_critique_decision : Decision → Critique → Decision
apply_critique_decision d c = if not c.send && is_auto d then draft else d

abbrev pub root_reason : GoError → Reason
root_reason deadline_exceeded = deadline
root_reason _ = llm_unavailable

abbrev pub provider_reason : GoError → Option ProviderError → Reason × ℤ
provider_reason e (some pe) = (llm_unavailable, pe.retry_after)
provider_reason e none = (root_reason (root e), pos 0)

unfoldable pub classify_escalation : Option GoError → Reason × ℤ
classify_escalation none = (low_confidence, pos 0)
classify_escalation (some e) = provider_reason e (as_provider e)
