-- ===== src/Rag/Pipeline/Handover.antt =====
-- What is handed over to a person and why, what the cache makes of an answer, and how much evidence
-- an answer has.
use kb_retv_services.Prelude.{
  ℕ, ◌≤◌, ◌≡◌, ◌≢◌, ◌↔◌, true, false, Option, none, some, List, [], arith, length, take,
  length-take_le, Result, ok, err,
}
use kb_retv_services.Prelude.Int.{ℤ, pos, pos_part, ◌≤ℤ◌, ◌<ℤ◌}
use kb_retv_services.Prelude.Str.{Str}
use mathlib.Core.Path.{subst}
use kb_retv_services.Llm.Errors.{
  GoError, ProviderError, root, as_provider, circuit_open, canceled, deadline_exceeded,
  connection_disabled, provider, network, app, wrapped, both, other,
}
use kb_retv_services.Rag.Types.{
  Floats, Candidate, Query, QueryPlan, auto, escalate, no_reason, RagResult,
}
use kb_retv_services.Rag.Decision.{
  provider_reason, root_reason, is_blank, decision_for, classify_escalation,
}
use kb_retv_services.Rag.Retrieve.{Pipeline, retrieve}
use kb_retv_services.Rag.Retrieve.{result_then}
use kb_retv_services.Rag.Pipeline.{
  Stage, and_then, Graded, threshold, evaluate, draft_stage, judged, generate, revive, cache_result,
  answer,
}
use kb_retv_services.Rag.Retrieve.{with_graph, with_context, reranked, retrieve_candidates, cut_to}
use kb_retv_services.Rag.Pipeline.Sending.{
  Yields, Yields_ok, and_then-Yields, retrieved-Yields, cached_with-Yields,
}

length-take : {A : Type 0} (n : ℕ) (xs : List A) → length (take n xs) ≤ n
length-take n xs = length-take_le n xs

cut_to-length :
    {A : Type 0} (limit : ℤ) (xs : List A)
    → pos 0 <ℤ limit
    → pos (length (cut_to limit xs)) ≤ℤ limit
cut_to-length limit xs h = ground (arith, length-take_le (pos_part limit) xs)

root_reason_some : (e : GoError) → root_reason e ≢ no_reason
root_reason_some e = elim e as (λ e. root_reason e ≢ no_reason) [
  | circuit_open ↦ λ h. cc
  | canceled ↦ λ h. cc
  | deadline_exceeded ↦ λ h. cc
  | connection_disabled ↦ λ h. cc
  | provider x ↦ λ h. cc
  | network x y z ↦ λ h. cc
  | app x y ↦ λ h. cc
  | wrapped x y ↦ λ h. cc
  | both x y ↦ λ h. cc
  | other x ↦ λ h. cc
]

provider_reason_some :
    (e : GoError) (pe : Option ProviderError) → (provider_reason e pe).0 ≢ no_reason
provider_reason_some e none = root_reason_some (root e)
provider_reason_some e (some pe) = λ h. cc

classify_escalation_some : (e : Option GoError) → (classify_escalation e).0 ≢ no_reason
unfolding classify_escalation
classify_escalation_some none = λ h. cc
classify_escalation_some (some e) = provider_reason_some e (as_provider e)

module _ {F : Type 0} (fl : Floats F) (p : Pipeline F) where
  IsBounded : ℤ → Result GoError (List (Candidate F)) → Type 0
  IsBounded limit (err e) = Unit
  IsBounded limit (ok cs) = pos (length cs) ≤ℤ limit

  -- The reason of an answer says whether it is handed over.
  abbrev IsReasoned : RagResult F → Type 0
  IsReasoned r = (r.decision ≡ escalate) ↔ (r.reason ≢ no_reason)

  judged-IsReasoned :
      (q : Query) (g : Graded F) (d : Str × Option GoError) → Yields IsReasoned (judged fl p q g d)
  judged-IsReasoned q g (text, failure) = ground (arith, classify_escalation_some failure)

  anything : {A : Type 0} (m : Stage F A) → Yields (λ d. Unit) m
  anything (err e, es) = tt
  anything (ok d, es) = tt

  generate-IsReasoned : (q : Query) (g : Graded F) → Yields IsReasoned (generate fl p q g)
  unfolding generate
  generate-IsReasoned q g =
      and_then-Yields (λ d. Unit) IsReasoned (draft_stage fl p q g) (judged fl p q g)
        (anything (draft_stage fl p q g)) (λ d _. judged-IsReasoned q g d)

  -- An answer that does not come from the cache is handed over exactly when it carries a
  -- reason: a sent answer and a draft have none.
  pub answer-escalate_iff :
      (original q : Query) (plan : QueryPlan) (key : Str) (r : RagResult F)
      → (answer fl p original q plan key).0 ≡ ok r
      → (r.decision ≡ escalate) ↔ (r.reason ≢ no_reason)
  unfolding answer cache_result
  answer-escalate_iff original q plan key r =
      Yields_ok IsReasoned (answer fl p original q plan key) r (
        and_then-Yields (λ cs. Unit) IsReasoned (retrieve fl p q plan, [])
          (λ cs.
            and_then (evaluate fl p original q cs)
              (λ g. and_then (generate fl p q g) (cache_result fl p key)))
          (retrieved-Yields fl p (retrieve fl p q plan))
          (λ cs _.
            and_then-Yields (λ g. Unit) IsReasoned (evaluate fl p original q cs)
              (λ g. and_then (generate fl p q g) (cache_result fl p key))
              (anything (evaluate fl p original q cs))
              (λ g _.
                and_then-Yields IsReasoned IsReasoned (generate fl p q g) (cache_result fl p key)
                  (generate-IsReasoned q g)
                  (λ r h. cached_with-Yields fl p IsReasoned key r p.cache h))))

  then-IsBounded :
      {A : Type 0} (limit : ℤ) (m : Result GoError A) (f : A → Result GoError (List (Candidate F)))
      → ((a : A) → IsBounded limit (f a))
      → IsBounded limit (result_then fl p m f)
  unfolding IsBounded
  then-IsBounded limit (err e) f h = tt
  then-IsBounded limit (ok a) f h = h a

  -- Whatever the retrievers, the graph, the context and the reranker return, a query with a
  -- positive limit gets at most that many candidates.
  pub retrieve-limit :
      (q : Query) (plan : QueryPlan) (cs : List (Candidate F))
      → pos 0 <ℤ q.limit
      → retrieve fl p q plan ≡ ok cs
      → pos (length cs) ≤ℤ q.limit
  unfolding retrieve IsBounded
  retrieve-limit q plan cs positive h = subst (IsBounded q.limit) h (
      then-IsBounded q.limit (with_graph fl p q plan (retrieve_candidates fl p q plan))
        (λ found. result_then fl p (with_context fl p found) (λ whole.
          result_then fl p (reranked fl p q plan whole) (λ ranked. ok (cut_to q.limit ranked))))
        (λ found.
          then-IsBounded q.limit (with_context fl p found)
            (λ whole.
              result_then fl p (reranked fl p q plan whole) (λ ranked. ok (cut_to q.limit ranked)))
            (λ whole.
              then-IsBounded q.limit (reranked fl p q plan whole)
                (λ ranked. ok (cut_to q.limit ranked))
                (λ ranked. cut_to-length q.limit ranked positive))))

  -- A result that the cache holds is sent automatically exactly when its draft is not blank,
  -- its evidence was graded by a model and its confidence reaches the present threshold. The
  -- critique that is stored with it, and the decision to which it once led, have no part in
  -- this.
  pub revive-auto_iff :
      (q : Query) (r : RagResult F)
      → ((revive fl p q r).decision ≡ auto) ↔ (
          (is_blank r.draft ≡ false)
          × (r.crag.graded ≡ true)
          × (fl.le (threshold fl p q) r.confidence ≡ true))
  unfolding revive decision_for
  revive-auto_iff q r = (λ h. ground arith, λ w. ground (arith, w.0, w.1, w.2))
