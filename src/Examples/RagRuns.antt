-- ===== src/Examples/RagRuns.antt =====
-- Concrete runs of the retrieval pipeline. Numbers stand for hundredths.
use kb_retv_services.Prelude.{
  ℕ, ◌+◌, ◌-◌, ◌/◌, ◌≡◌, refl, ap, ◌≢◌, ◌↔◌, true, false, Option, none, some, [], ◌∷◌, arith, ltb,
  leb, ◌==◌, ok,
}
use kb_retv_services.Prelude.Int.{pos, ◌≤ℤ◌}
use kb_retv_services.Prelude.Str.{codes, str_eq, trim_space}
use kb_retv_services.Prelude.Dict.{find, remove, put}
use kb_retv_services.Rag.Types.{
  Floats, Candidate, Query, QueryPlan, CragResult, Critique, relevant, auto, draft, escalate,
  no_reason, RagResult,
}
use kb_retv_services.Rag.Decision.{is_blank, compute_confidence, decision_for, classify_escalation}
use kb_retv_services.Rag.Retrieve.{
  hit, ResultCache, Pipeline, retrieve, retrieval_queries_for_plan, llm_allowed,
}
use kb_retv_services.Rag.Merge.{rrf_merge}
use kb_retv_services.Rag.Pipeline.{
  graded, generated, critiqued, answer, run, revive, threshold, draft_stage, critic_stage,
}
use kb_retv_services.Rag.Pipeline.Sending.{IsVouched, answer-IsVouched}
use kb_retv_services.Rag.Pipeline.Handover.{answer-escalate_iff, retrieve-limit, revive-auto_iff}
use kb_retv_services.Rag.Pipeline.Running.{IsCovered, run-IsCovered}

abbrev cents : Floats ℕ
cents = record {
  lt = ltb;
  le = leb;
  same = ◌==◌;
  add = ◌+◌;
  sub = ◌-◌;
  hundredths = λ n. n;
  reciprocal = λ n. 10000 / n;
}

abbrev article : Candidate ℕ
article = record {
  id = codes "a:1";
  article_id = codes "a";
  chunk_id = [];
  parent_chunk_id = [];
  title = codes "Reset";
  content = codes "Hold the button";
  source = codes "fts";
  score = 3;
}

abbrev other_article : Candidate ℕ
other_article = record article { id = codes "b:1"; score = 2 }

abbrev question : Query
question = record {
  company_id = pos 7;
  coverage = [];
  text = codes "how to reset";
  limit = pos 1;
  mode = codes "full_review";
  debug = false;
}

abbrev the_plan : QueryPlan
the_plan = record {
  retrieval_text = codes "how to reset";
  canonical_text = [];
  terms = [];
  effective_limit = pos 1;
  retrieval_queries = [];
  graph_anchors = [];
}

abbrev grade : CragResult ℕ
grade = record { verdict = relevant; confidence = 93; missing = []; graded = true }

abbrev doubtful : Critique
doubtful = record { supported = false; send = false }

-- A pipeline whose critic gives the same answer each time.
abbrev with_critic : Critique → Option (ResultCache ℕ) → Pipeline ℕ
with_critic c cache = record {
  planner = λ q. ok the_plan;
  retrievers =
      record { expensive = false; retrieve = λ q terms. some (article ∷ other_article ∷ []) } ∷ [];
  graph_retriever = none;
  context = none;
  reranker = λ q terms cs. ok cs;
  crag = λ text content. ok grade;
  generator = some (λ q cs. ok (codes "Hold it"));
  critic = some (λ q text cs. ok c);
  confidence_threshold = 85;
  threshold_for = none;
  cache = cache;
  cache_key = λ q plan. codes "key";
  knowledge_gap = true;
  budget = some (λ stage. ok true);
}

abbrev approving : Pipeline ℕ
approving = with_critic (record { supported = true; send = true }) none

abbrev sent_result : RagResult ℕ
sent_result = record {
  candidates = record article { score = 163 } ∷ [];
  cache_hit = false;
  confidence = 93;
  decision = auto;
  reason = no_reason;
  retry_after = pos 0;
  draft = codes "Hold it";
  crag = grade;
  critique = record { supported = true; send = true };
}

answer_sent :
    (answer cents approving question question the_plan (codes "key"))
    ≡ (ok sent_result, graded ∷ generated ∷ critiqued ∷ [])
unfolding answer retrieve retrieval_queries_for_plan rrf_merge find put remove str_eq llm_allowed
    trim_space compute_confidence decision_for draft_stage critic_stage threshold
    classify_escalation
answer_sent = refl

answer-IsVouched_example : IsVouched cents approving question sent_result
answer-IsVouched_example =
    answer-IsVouched cents approving question question the_plan (codes "key") sent_result
      (ap (λ m. m.0) answer_sent) refl

answer-escalate_iff_example : (sent_result.decision ≡ escalate) ↔ (sent_result.reason ≢ no_reason)
answer-escalate_iff_example =
    answer-escalate_iff cents approving question question the_plan (codes "key") sent_result
      (ap (λ m. m.0) answer_sent)

limited : retrieve cents approving question the_plan ≡ ok (record article { score = 163 } ∷ [])
unfolding retrieve retrieval_queries_for_plan rrf_merge find put remove str_eq llm_allowed
limited = refl

test_retrieve_limit : pos 1 ≤ℤ pos 1
test_retrieve_limit =
    retrieve-limit cents approving question the_plan (record article { score = 163 } ∷ [])
      (omega arith) limited

-- A result that the critic turned into a draft, as the cache holds it.
abbrev objected : RagResult ℕ
objected = record sent_result { decision = draft; critique = doubtful }

abbrev remembering : Pipeline ℕ
remembering =
    with_critic doubtful (some (record { get = λ key. hit objected; set = λ key r. none }))

-- Without the cache the critic keeps the answer a draft.
objected_first :
    (answer cents (with_critic doubtful none) question question the_plan (codes "key")).0
    ≡ ok objected
unfolding answer retrieve retrieval_queries_for_plan rrf_merge find put remove str_eq llm_allowed
    trim_space compute_confidence decision_for draft_stage critic_stage threshold
    classify_escalation
objected_first = refl

-- The answer that the critic objected to is sent when it is asked for again.
revive-auto_iff_example : ((revive cents remembering question objected).decision ≡ auto) ↔ (
    (is_blank (codes "Hold it") ≡ false)
    × (true ≡ true)
    × (leb (threshold cents remembering question) 93 ≡ true))
revive-auto_iff_example = revive-auto_iff cents remembering question objected

abbrev revived : RagResult ℕ
revived = record objected { cache_hit = true; decision = auto }

run_revives : run cents remembering question ≡ (ok revived, [])
unfolding run str_eq trim_space decision_for threshold
run_revives = refl

run-IsCovered_example : IsCovered cents remembering question revived
run-IsCovered_example =
    run-IsCovered cents remembering question revived (ap (λ m. m.0) run_revives) refl
