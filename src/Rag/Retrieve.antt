-- ===== src/Rag/Retrieve.antt =====
-- How the pipeline collects candidates: internal/ai/rag/pipeline_retrieve.go and the record of
-- pipeline.go. The planner, the retrievers, the models, the cache and the budget are functions
-- of what
-- they are asked; the context is not done, and timings and the log are left out.
use kb_retv_services.Prelude.{
  Bool, true, false, not, ◌&&◌, ◌||◌, Option, none, some, List, [], ◌∷◌, map, if◌then◌else◌, length,
  take, keep, Result, ok, err,
}
use kb_retv_services.Prelude.Int.{ℤ, pos, pos_part, ltb_ℤ}
use kb_retv_services.Prelude.Str.{Str, is_space, codes, str_eq, to_lower, trim_space, is_empty}
use kb_retv_services.Llm.Errors.{GoError}
use kb_retv_services.Rag.Types.{
  Floats, Candidate, Query, QueryPlan, PlannedQuery, CragResult, Critique, RagResult, fast_draft,
}
use kb_retv_services.Rag.Merge.{rrf_merge}
use kb_retv_services.Rag.Context.{ChunkContext, is_cancelled, assemble}
use kb_retv_services.Rag.Decision.{is_blank, is_nil}

-- `retrieve` answers `none` where `Retrieve` fails.
pub record Retriever (F : Type 0) : Type 0 where
  pub expensive : Bool
  pub retrieve : Query → List Str → Option (List (Candidate F))

-- What `getCached` makes of the store: `bad_body` is a body that is not a result.
pub data CacheAnswer (F : Type 0) : Type 0 where
  miss : CacheAnswer F
  get_failed bad_body : GoError → CacheAnswer F
  hit : RagResult F → CacheAnswer F

pub record ResultCache (F : Type 0) : Type 0 where
  pub get : Str → CacheAnswer F
  pub set : Str → RagResult F → Option GoError

-- `knowledge_gap` says whether a recorder is configured.
pub record Pipeline (F : Type 0) : Type 0 where
  pub planner : Query → Result GoError QueryPlan
  pub retrievers : List (Retriever F)
  pub graph_retriever : Option (Query → QueryPlan → Result GoError (List (Candidate F)))
  pub context : Option (Option (List Str → Result GoError (List ChunkContext)))
  pub reranker : Query → List Str → List (Candidate F) → Result GoError (List (Candidate F))
  pub crag : Str → Str → Result GoError (CragResult F)
  pub generator : Option (Query → List (Candidate F) → Result GoError Str)
  pub critic : Option (Query → Str → List (Candidate F) → Result GoError Critique)
  pub confidence_threshold : F
  pub threshold_for : Option (ℤ → F)
  pub cache : Option (ResultCache F)
  pub cache_key : Query → QueryPlan → Str
  pub knowledge_gap : Bool
  pub budget : Option (Str → Result GoError Bool)

-- `strings.Join(strings.Fields(text), " ")`: a run of white space becomes one blank.
squeeze : Bool → Str → Str
squeeze gap [] = []
squeeze gap (c ∷ s) =
    let later = squeeze true s in
    let next = squeeze false s in
    if is_space c then later else if gap then 32 ∷ c ∷ next else c ∷ next

-- `canonicalQueryText`.
unfoldable pub canonical_query_text : Str → Str
unfolding squeeze
canonical_query_text s = to_lower (squeeze false (trim_space s))

mem_str : Str → List Str → Bool
mem_str k [] = false
mem_str k (j ∷ js) = str_eq j k || mem_str k js

distinct_queries : List Str → List PlannedQuery → List PlannedQuery
unfolding mem_str
distinct_queries seen [] = []
distinct_queries seen (q ∷ qs) =
    let text = trim_space q.text in
    let key = canonical_query_text text in
    let skip = distinct_queries seen qs in
    let rest = distinct_queries (key ∷ seen) qs in
    if is_empty text || mem_str key seen then skip else record { kind = q.kind; text = text } ∷ rest

abbrev or_original : Query → List PlannedQuery → List PlannedQuery
or_original q [] = record { kind = codes "original"; text = q.text } ∷ []
or_original q (p ∷ ps) = p ∷ ps

-- `retrievalQueriesForPlan`.
unfoldable pub retrieval_queries_for_plan : Query → List PlannedQuery → List PlannedQuery
unfolding distinct_queries
retrieval_queries_for_plan q planned = or_original q (distinct_queries [] planned)

-- `candidates[:limit]`, where the limit is positive and smaller.
abbrev pub cut_to : {A : Type 0} → ℤ → List A → List A
cut_to limit xs =
    if ltb_ℤ (pos 0) limit && ltb_ℤ limit (pos (length xs)) then take (pos_part limit) xs else xs

module _ {F : Type 0} (fl : Floats F) (p : Pipeline F) where
  -- `llmAllowed`.
  unfoldable pub llm_allowed : Str → Bool
  llm_allowed stage = elim p.budget [
    | none ↦ true
    | some acquire ↦ elim (acquire stage) [ err e ↦ false | ok b ↦ b ]
  ]

  abbrev or_nothing : Option (List (Candidate F)) → List (Candidate F)
  or_nothing none = []
  or_nothing (some cs) = cs

  -- `retrieveFrom`: a retriever that fails is skipped.
  unfoldable pub retrieve_from : List (Retriever F) → Query → List Str → List (Candidate F)
  retrieve_from [] q terms = []
  retrieve_from (r ∷ rs) q terms =
      rrf_merge fl (map (λ r. or_nothing (r.retrieve q terms)) (r ∷ rs))

  -- `retrieveFastDraft`, where both kinds of retrievers are there.
  abbrev cheap_first :
      Query → List Str → List (Retriever F) → List (Retriever F) → List (Candidate F)
  cheap_first q terms cheap expensive =
      let found = retrieve_from cheap q terms in
      if is_nil found then retrieve_from expensive q terms else found

  -- `retrieveCandidates` for one query.
  unfoldable pub retrieve_one : Query → List Str → List (Candidate F)
  unfolding retrieve_from
  retrieve_one q terms =
      let cheap = keep (λ r. not r.expensive) p.retrievers in
      let expensive = keep (λ r. r.expensive) p.retrievers in
      if fast_draft q && not (is_nil cheap) && not (is_nil expensive)
      then cheap_first q terms cheap expensive
      else retrieve_from p.retrievers q terms

  abbrev with_text : Query → Str → Query
  with_text q text = record q { text = text }

  abbrev retrieve_planned : Query → List Str → List PlannedQuery → List (Candidate F)
  retrieve_planned q terms (a ∷ b ∷ more) = rrf_merge fl (
      map (λ a. retrieve_one (with_text q a.text) terms)
        (keep (λ a. not (is_blank a.text)) (a ∷ b ∷ more)))
  retrieve_planned q terms _ = retrieve_one q terms

  -- `retrieveCandidates`. With several planned queries each is one call of itself with a plan
  -- that has none.
  unfoldable pub retrieve_candidates : Query → QueryPlan → List (Candidate F)
  unfolding retrieve_one
  retrieve_candidates q plan =
      retrieve_planned q plan.terms (retrieval_queries_for_plan q plan.retrieval_queries)

  abbrev graph_merged :
      List (Candidate F) → Result GoError (List (Candidate F)) → Result GoError (List (Candidate F))
  graph_merged cs (err e) = if is_cancelled e then err e else ok cs
  graph_merged cs (ok found) = ok (rrf_merge fl (found ∷ cs ∷ []))

  abbrev pub with_graph :
      Query → QueryPlan → List (Candidate F) → Result GoError (List (Candidate F))
  with_graph q plan cs = elim p.graph_retriever [
    | none ↦ ok cs
    | some g ↦ if is_nil plan.graph_anchors then ok cs else graph_merged cs (g q plan)
  ]

  abbrev pub with_context : List (Candidate F) → Result GoError (List (Candidate F))
  with_context cs = elim p.context [
    | none ↦ ok cs
    | some source ↦ if is_nil cs then ok cs else assemble fl source cs
  ]

  abbrev pub reranked : Query → QueryPlan → List (Candidate F) → Result GoError (List (Candidate F))
  reranked q plan cs =
      if not (fast_draft q) && llm_allowed (codes "rerank")
      then p.reranker q plan.terms cs
      else ok cs

  abbrev pub result_then :
      {A B : Type 0} → Result GoError A → (A → Result GoError B) → Result GoError B
  result_then (err e) f = err e
  result_then (ok a) f = f a

  -- `retrieve`.
  unfoldable pub retrieve : Query → QueryPlan → Result GoError (List (Candidate F))
  unfolding retrieve_candidates
  retrieve q plan = result_then (with_graph q plan (retrieve_candidates q plan)) (λ found.
      result_then (with_context found)
        (λ whole. result_then (reranked q plan whole) (λ ranked. ok (cut_to q.limit ranked))))
