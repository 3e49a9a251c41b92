-- ===== src/Rag/Pipeline/Running.antt =====
-- What a whole run guarantees of an answer that is sent, whether the cache held it or not.
use kb_retv_services.Prelude.{
  ◌≡◌, refl, inl, inr, true, false, Option, none, some, Bool-cases, Result, ok, err,
}
use kb_retv_services.Prelude.Str.{Str}
use kb_retv_services.Llm.Errors.{GoError}
use kb_retv_services.Rag.Types.{Floats, Query, QueryPlan, auto, RagResult}
use kb_retv_services.Rag.Context.{is_cancelled}
use kb_retv_services.Rag.Decision.{is_blank}
use kb_retv_services.Rag.Retrieve.{
  CacheAnswer, miss, get_failed, bad_body, hit, ResultCache, Pipeline,
}
use kb_retv_services.Rag.Pipeline.{
  is_cancelled, Stage, threshold, revive, cached_result, answer, run, drafted,
}
use kb_retv_services.Rag.Pipeline.{
  apply_query_plan, from_answer, from_cache, planned, validated, wants_timings, look_up,
  validate_query,
}
use kb_retv_services.Rag.Pipeline.Sending.{IsSendable, answer-IsSendable, Yields, Yields_ok}
use kb_retv_services.Rag.Pipeline.Handover.{revive-auto_iff}

module _ {F : Type 0} (fl : Floats F) (p : Pipeline F) where
  -- What is behind an automatic answer to a query, at least.
  abbrev pub IsCovered : Query → RagResult F → Type 0
  IsCovered original r =
      (is_blank r.draft ≡ false)
      × (r.crag.graded ≡ true)
      × (fl.le (threshold fl p original) r.confidence ≡ true)

  abbrev IsSafe : Query → RagResult F → Type 0
  IsSafe original r = r.decision ≡ auto → IsCovered original r

  implied :
      (P Q : RagResult F → Type 0) (m : Stage F (RagResult F))
      → ((r : RagResult F) → P r → Q r)
      → Yields P m
      → Yields Q m
  implied P Q (err e, es) f h = tt
  implied P Q (ok r, es) f h = f r h

  module _ (original q : Query) (plan : QueryPlan) (key : Str)
      (same : threshold fl p q ≡ threshold fl p original) where
    fresh-IsSafe : Yields (IsSafe original) (answer fl p original q plan key)
    fresh-IsSafe =
        implied (IsSendable fl p q) (IsSafe original) (answer fl p original q plan key)
          (λ r h sent. let w = h sent in (w.0, w.1, rw⁻¹ same w.5))
          (answer-IsSendable fl p original q plan key)

    revive-IsSafe : (r : RagResult F) → IsSafe original (revive fl p q r)
    unfolding revive
    revive-IsSafe r sent =
        let (to, _) = revive-auto_iff fl p q r in
        let (drafted, by_model, enough) = to sent in (drafted, by_model, rw⁻¹ same enough)

    from_answer-IsSafe :
        (a : CacheAnswer F)
        → Yields (IsSafe original) (from_cache fl p original q plan key (from_answer fl p q a))
    from_answer-IsSafe miss = fresh-IsSafe
    from_answer-IsSafe (get_failed x) = elim (Bool-cases (is_cancelled x)) [
      | inl c ↦ rw c tt
      | inr n ↦ rw n fresh-IsSafe
    ]
    from_answer-IsSafe (bad_body x) = tt
    from_answer-IsSafe (hit r) = revive-IsSafe r

    found-IsSafe :
        (c : Option (ResultCache F))
        → Yields
            (IsSafe original)
            (from_cache fl p original q plan key (look_up fl p original q key c))
    found-IsSafe none = fresh-IsSafe
    found-IsSafe (some c) = elim (Bool-cases (wants_timings original)) [
      | inl w ↦ rw w fresh-IsSafe
      | inr n ↦ rw n (from_answer-IsSafe (c.get key))
    ]

  planned-IsSafe :
      (original : Query) (m : Result GoError QueryPlan)
      → Yields (IsSafe original) (planned fl p original m)
  unfolding cached_result threshold
  planned-IsSafe original (err e) = tt
  planned-IsSafe original (ok plan) =
      found-IsSafe original (apply_query_plan original plan) plan (p.cache_key original plan) refl
        p.cache

  validated-IsSafe :
      (original : Query) (v : Option Str) → Yields (IsSafe original) (validated fl p original v)
  validated-IsSafe original (some text) = tt
  validated-IsSafe original none = planned-IsSafe original (p.planner original)

  -- Whether a run answers from the cache or anew, an answer that is sent automatically has a
  -- draft, its evidence was graded by a model, and its confidence reaches the threshold of
  -- the company that asks.
  pub run-IsCovered :
      (original : Query) (r : RagResult F)
      → (run fl p original).0 ≡ ok r
      → r.decision ≡ auto
      → IsCovered original r
  unfolding run
  run-IsCovered original r h sent =
      Yields_ok (IsSafe original) (run fl p original) r
        (validated-IsSafe original (validate_query original)) h sent
