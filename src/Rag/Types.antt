-- ===== src/Rag/Types.antt =====
-- The data of the retrieval pipeline: internal/ai/rag/types.go, crag.go, reason.go, llm_critic.go.
-- A float64 is a value of a type `F` with the operations that the code applies to it.
use kb_retv_services.Prelude.{ℕ, Bool, List}
use kb_retv_services.Prelude.Int.{ℤ}
use kb_retv_services.Prelude.Str.{Str, codes, str_eq}

-- `hundredths n` is the literal n/100, `reciprocal n` is 1.0 / float64(n).
pub record Floats (F : Type 0) : Type 0 where
  pub lt : F → F → Bool
  pub le : F → F → Bool
  pub same : F → F → Bool
  pub add : F → F → F
  pub sub : F → F → F
  pub hundredths : ℕ → F
  pub reciprocal : ℕ → F

pub data Decision : Type 0 where
  auto draft escalate : Decision

pub data Verdict : Type 0 where
  relevant partial irrelevant : Verdict

pub data Reason : Type 0 where
  no_reason low_confidence llm_unavailable deadline : Reason

-- A query without `Metadata`, which only the planner reads. `limit` and `company_id` may be
-- negative.
pub record Query : Type 0 where
  pub company_id : ℤ
  pub coverage : List ℕ
  pub text : Str
  pub limit : ℤ
  pub mode : Str
  pub debug : Bool

pub record PlannedQuery : Type 0 where
  pub kind : Str
  pub text : Str

pub record GraphAnchor : Type 0 where
  pub kind : Str
  pub id : ℕ

-- The fields of a plan that the pipeline reads; `terms` is its `Meta`.
pub record QueryPlan : Type 0 where
  pub retrieval_text : Str
  pub canonical_text : Str
  pub terms : List Str
  pub effective_limit : ℤ
  pub retrieval_queries : List PlannedQuery
  pub graph_anchors : List GraphAnchor

pub record Candidate (F : Type 0) : Type 0 where
  pub id : Str
  pub article_id : Str
  pub chunk_id : Str
  pub parent_chunk_id : Str
  pub title : Str
  pub content : Str
  pub source : Str
  pub score : F

pub record CragResult (F : Type 0) : Type 0 where
  pub verdict : Verdict
  pub confidence : F
  pub missing : Str
  pub graded : Bool

pub record Critique : Type 0 where
  pub supported : Bool
  pub send : Bool

-- A result without its context, timings and debug trace.
pub record RagResult (F : Type 0) : Type 0 where
  pub candidates : List (Candidate F)
  pub cache_hit : Bool
  pub confidence : F
  pub decision : Decision
  pub reason : Reason
  pub retry_after : ℤ
  pub draft : Str
  pub crag : CragResult F
  pub critique : Critique

abbrev pub fast_draft : Query → Bool
fast_draft q = str_eq q.mode (codes "fast_draft")
