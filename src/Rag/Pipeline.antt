-- ===== src/Rag/Pipeline.antt =====
-- The run of a query through the pipeline: internal/ai/rag/pipeline.go, pipeline_plan.go,
-- pipeline_decision.go, pipeline_generate.go. The debug trace and the timings are left out.
pub mod Sending
pub mod Handover
pub mod Running
use kb_retv_services.Prelude.{
  ℕ, zero, suc, ◌+◌, ◌-◌, ◌*◌, ◌/◌, ◌%◌, ◌^◌, ◌≤◌, ◌<◌, ◌≡◌, refl, sym, ap, ◌∙◌, ◌≢◌, ◌↔◌, ◌⊎◌, inl,
  inr, Bool, true, false, not, ◌&&◌, ◌||◌, Option, none, some, List, [], ◌∷◌, ◌++◌, map, arith, ltb,
  leb, ◌==◌, if◌then◌else◌, ltb→lt, lt→ltb, leb→le, le→leb, ==_iff, tests, Bool-cases, Option-cases,
  length, get_elem?, take, any, all, keep, length-append, length-take_le, length-keep_le, All,
  All-append, All-take, All-keep, Result, ok, err, Result-cases,
}
use kb_retv_services.Prelude.Int.{
  ℤ, pos, negsuc, pos_part, neg_part, sub_ℕ, ◌+ℤ◌, ◌≤ℤ◌, ◌<ℤ◌, ltb_ℤ, leb_ℤ, max_ℤ, min_ℤ, +ℤ_parts,
  eq_of_parts, int_laws, max_ℤ_bounds, min_ℤ_bounds, min_max_bounds,
}
use kb_retv_services.Prelude.Str.{
  Str, codes, str_eq, str_eq_refl, eq_of_str_eq, str_eq_iff, starts_with, contains, to_lower,
  trim_space, ends_with, itoa, is_empty, trim_suffix,
}
use kb_retv_services.Prelude.Dict.{
  Dict, find, remove, put, prune, find-remove, find-put, length-remove_le, length-prune_le, IsMap,
  passing, find-prune, prune_absent, prune-IsMap, remove-IsMap, put-IsMap,
}
use kb_retv_services.Llm.Errors.{GoError, other, as_provider}
use kb_retv_services.Rag.Types.{
  Floats, Candidate, Query, QueryPlan, PlannedQuery, CragResult, Critique, Verdict, irrelevant,
  Decision, auto, draft, escalate, Reason, no_reason, RagResult, fast_draft,
}
use kb_retv_services.Rag.Merge.{rrf_merge}
use kb_retv_services.Rag.Context.{ChunkContext, is_cancelled, assemble}
use kb_retv_services.Rag.Decision.{
  is_auto, is_escalate, is_irrelevant, is_blank, is_nil, compute_confidence, decision_for,
  should_run_crag, will_generate, should_run_critic, apply_critique_decision, classify_escalation,
}
use kb_retv_services.Rag.Retrieve.{
  CacheAnswer, miss, get_failed, bad_body, hit, ResultCache, Pipeline, llm_allowed, retrieve,
  canonical_query_text,
}

-- What a run asks of the models and writes, in order.
pub data Event (F : Type 0) : Type 0 where
  graded generated critiqued : Event F
  gap_recorded : ℤ → Str → Event F
  stored : Str → RagResult F → Event F

abbrev pub Stage : Type 0 → Type 0 → Type 0
Stage F A = Result GoError A × List (Event F)

-- `if err := …; err != nil { return err }`.
abbrev pub and_then : {F A B : Type 0} → Stage F A → (A → Stage F B) → Stage F B
and_then (err e, es) f = (err e, es)
and_then (ok a, es) f = let (r, fs) = f a in (r, es ++ fs)

-- `evidenceContent`.
unfoldable pub evidence_content : {F : Type 0} → List (Candidate F) → Str
evidence_content [] = []
evidence_content (c ∷ []) = c.content
evidence_content (c ∷ cs) = c.content ++ 10 ∷ 10 ∷ evidence_content cs

abbrev apply_query_plan : Query → QueryPlan → Query
apply_query_plan q plan = record q {
  text = if is_empty plan.retrieval_text then q.text else plan.retrieval_text;
  limit = if ltb_ℤ (pos 0) plan.effective_limit then plan.effective_limit else q.limit;
}

-- `validateQuery`.
unfoldable pub validate_query : Query → Option Str
validate_query q =
    if leb_ℤ q.company_id (pos 0)
    then some (codes "company_id is required")
    else if is_blank q.text
    then some (codes "query text is required")
    else none

abbrev pub wants_timings : Query → Bool
wants_timings q = q.debug || str_eq q.mode (codes "debug")

-- `pipelineState` after a stage that graded the evidence.
pub record Graded (F : Type 0) : Type 0 where
  pub candidates : List (Candidate F)
  pub crag : CragResult F
  pub confidence : F
  pub threshold : F
  pub decision : Decision

-- `d.Milliseconds()` of a duration in nanoseconds, which is cut towards 0.
abbrev milliseconds : ℤ → ℤ
milliseconds (pos n) = pos (n / 1_000_000)
milliseconds (negsuc n) = sub_ℕ 0 (suc n / 1_000_000)

module _ {F : Type 0} (fl : Floats F) (p : Pipeline F) where
  abbrev ungraded : CragResult F
  ungraded = record {
    verdict = irrelevant;
    confidence = fl.hundredths 0;
    missing = [];
    graded = false;
  }

  abbrev threshold_from : F → F
  threshold_from configured =
      if fl.lt (fl.hundredths 0) configured then configured else p.confidence_threshold

  -- `threshold`.
  unfoldable pub threshold : Query → F
  threshold q = elim p.threshold_for [
    | none ↦ p.confidence_threshold
    | some f ↦ threshold_from (f q.company_id)
  ]

  -- `recordKnowledgeGap`.
  abbrev gaps : Query → Verdict → List (Event F)
  gaps original v =
      if is_irrelevant v && p.knowledge_gap
      then gap_recorded original.company_id original.text ∷ []
      else []

  abbrev graded_state : Query → List (Candidate F) → CragResult F → Graded F
  graded_state q cs crag =
      let confidence = compute_confidence fl crag cs in
      record {
        candidates = cs;
        crag = crag;
        confidence = confidence;
        threshold = threshold q;
        decision = decision_for fl confidence (threshold q) crag.graded;
      }

  abbrev after_grade :
      Query → Query → List (Candidate F) → Result GoError (CragResult F) → Stage F (Graded F)
  after_grade original q cs (err e) = (err e, graded ∷ [])
  after_grade original q cs (ok crag) =
      (ok (graded_state q cs crag), graded ∷ gaps original crag.verdict)

  -- `evaluate`.
  unfoldable pub evaluate : Query → Query → List (Candidate F) → Stage F (Graded F)
  evaluate original q cs =
      if should_run_crag fl q cs && llm_allowed fl p (codes "crag")
      then after_grade original q cs (p.crag q.text (evidence_content cs))
      else (ok (graded_state q cs ungraded), gaps original irrelevant)

  abbrev drafted : Result GoError Str → Stage F (Str × Option GoError)
  drafted (err e) = (ok ([], some e), generated ∷ [])
  drafted (ok text) = (ok (text, none), generated ∷ [])

  abbrev draft_with :
      Query
      → Graded F
      → (Query → List (Candidate F) → Result GoError Str)
      → Stage F (Str × Option GoError)
  draft_with q g write =
      if will_generate fl true g.decision g.crag.verdict g.candidates
        && llm_allowed fl p (codes "generate")
      then drafted (write q g.candidates)
      else (ok ([], none), [])

  abbrev draft_by :
      Query
      → Graded F
      → Option (Query → List (Candidate F) → Result GoError Str)
      → Stage F (Str × Option GoError)
  draft_by q g none = (ok ([], none), [])
  draft_by q g (some write) = draft_with q g write

  -- The first step of `generate`, with `generateDraft`, which tests again what `willGenerate`
  -- tests.
  unfoldable pub draft_stage : Query → Graded F → Stage F (Str × Option GoError)
  draft_stage q g = draft_by q g p.generator

  abbrev passed : Critique
  passed = record { supported = true; send = true }

  abbrev failed_closed : Result GoError Critique → Critique
  failed_closed (err e) = record { supported = false; send = false }
  failed_closed (ok c) = c

  -- `critiqueDraft` with the event of its call of the critic, for a draft that is not empty.
  abbrev critique_draft : Query → Str → List (Candidate F) → Critique × List (Event F)
  critique_draft q text cs = elim p.critic [
    | none ↦ (passed, [])
    | some judge ↦ (failed_closed (judge q text cs), critiqued ∷ [])
  ]

  -- The second step of `generate`: the critique and the decision after it.
  unfoldable pub critic_stage : Query → Graded F → Str → (Critique × Decision) × List (Event F)
  critic_stage q g text =
      let (c, es) = critique_draft q text g.candidates in
      if should_run_critic q g.decision text
      then (if llm_allowed fl p (codes "critic")
          then ((c, apply_critique_decision g.decision c), es)
          else ((passed, draft), []))
      else ((passed, g.decision), [])

  -- A decision to send a blank draft becomes a hand-off.
  abbrev pub unsent_blank : Str → Decision → Decision
  unsent_blank text d = if is_auto d && is_blank text then escalate else d

  -- The last step of `generate`, and `finalize`.
  abbrev pub finalize : Graded F → Str × Option GoError → Critique → Decision → RagResult F
  finalize g (text, failure) c d =
      let (reason, retry_after) = classify_escalation failure in
      record {
        candidates = g.candidates;
        cache_hit = false;
        confidence = g.confidence;
        decision = d;
        reason = if is_escalate d then reason else no_reason;
        retry_after = if is_escalate d then milliseconds retry_after else pos 0;
        draft = text;
        crag = g.crag;
        critique = c;
      }

  abbrev judged : Query → Graded F → Str × Option GoError → Stage F (RagResult F)
  judged q g (text, failure) =
      let ((c, d), es) = critic_stage q g text in
      (ok (finalize g (text, failure) c (unsent_blank text d)), es)

  -- `generate` and `finalize`.
  unfoldable pub generate : Query → Graded F → Stage F (RagResult F)
  generate q g = and_then (draft_stage q g) (judged q g)

  -- What `cachedResult` makes of a result that was found.
  unfoldable pub revive : Query → RagResult F → RagResult F
  revive q r = record r {
    cache_hit = true;
    decision = unsent_blank r.draft (decision_for fl r.confidence (threshold q) r.crag.graded);
  }

  abbrev from_answer : Query → CacheAnswer F → Result GoError (Option (RagResult F))
  from_answer q miss = ok none
  from_answer q (get_failed e) = if is_cancelled e then err e else ok none
  from_answer q (bad_body e) = err e
  from_answer q (hit r) = ok (some (revive q r))

  abbrev look_up :
      Query → Query → Str → Option (ResultCache F) → Result GoError (Option (RagResult F))
  look_up original q key none = ok none
  look_up original q key (some c) =
      if wants_timings original then ok none else from_answer q (c.get key)

  -- `cachedResult` with `getCached`.
  unfoldable pub cached_result : Query → Query → Str → Result GoError (Option (RagResult F))
  unfolding revive
  cached_result original q key = look_up original q key p.cache

  abbrev kept : Str → RagResult F → Option GoError → Stage F (RagResult F)
  kept key r (some e) = (err e, [])
  kept key r none = (ok r, stored key r ∷ [])

  abbrev cached_with : Str → RagResult F → Option (ResultCache F) → Stage F (RagResult F)
  cached_with key r none = (ok r, [])
  cached_with key r (some c) = kept key r (c.set key r)

  -- `cacheResult`.
  unfoldable pub cache_result : Str → RagResult F → Stage F (RagResult F)
  cache_result key r = cached_with key r p.cache

  -- `Run` after the cache: `retrieve`, `evaluate`, `generate`, `finalize`, `cacheResult`.
  unfoldable pub answer : Query → Query → QueryPlan → Str → Stage F (RagResult F)
  unfolding evaluate generate cache_result
  answer original q plan key =
      and_then (retrieve fl p q plan, [])
        (λ cs. and_then (evaluate original q cs) (λ g. and_then (generate q g) (cache_result key)))

  abbrev from_cache :
      Query
      → Query
      → QueryPlan
      → Str
      → Result GoError (Option (RagResult F))
      → Stage F (RagResult F)
  from_cache original q plan key (err e) = (err e, [])
  from_cache original q plan key (ok (some r)) = (ok r, [])
  from_cache original q plan key (ok none) = answer original q plan key

  abbrev planned : Query → Result GoError QueryPlan → Stage F (RagResult F)
  planned original (err e) = (err e, [])
  planned original (ok plan) =
      let q = apply_query_plan original plan in
      let key = p.cache_key original plan in
      from_cache original q plan key (cached_result original q key)

  abbrev validated : Query → Option Str → Stage F (RagResult F)
  validated original (some text) = (err (other text), [])
  validated original none = planned original (p.planner original)

  -- `Run` with `prepare`.
  unfoldable pub run : Query → Stage F (RagResult F)
  unfolding answer cached_result validate_query
  run original = validated original (validate_query original)
