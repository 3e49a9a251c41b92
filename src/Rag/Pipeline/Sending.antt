-- ===== src/Rag/Pipeline/Sending.antt =====
-- When an answer is sent automatically, and when it is handed over.
use kb_retv_services.Prelude.{
  ◌≡◌, refl, sym, ◌∙◌, ◌⊎◌, inl, inr, Bool, true, false, ◌&&◌, Option, none, some, List, [], ◌++◌,
  arith, Bool-cases, Result, ok, err,
}
use kb_retv_services.Prelude.Str.{Str, codes, trim_space}
use mathlib.Core.Path.{subst}
use kb_retv_services.Llm.Errors.{GoError}
use kb_retv_services.Rag.Types.{
  Floats, Candidate, Query, QueryPlan, CragResult, Decision, auto, RagResult, fast_draft,
}
use kb_retv_services.Rag.Decision.{
  is_irrelevant, is_blank, is_nil, compute_confidence, decision_for, should_run_crag, will_generate,
}
use kb_retv_services.Rag.Retrieve.{ResultCache, Pipeline, llm_allowed, retrieve}
use kb_retv_services.Rag.Pipeline.{
  Stage, and_then, Graded, threshold, evaluate, after_grade, draft_stage, draft_with, draft_by,
  cached_with, evidence_content, critic_stage, unsent_blank, judged, generate, cache_result, answer,
  drafted, kept,
}

-- If the stage returns a value, the value has the property.
abbrev pub Yields : {F A : Type 0} → (A → Type 0) → Stage F A → Type 0
Yields P (err e, es) = Unit
Yields P (ok a, es) = P a

pub and_then-Yields :
    {F A B : Type 0} (P : A → Type 0) (Q : B → Type 0) (m : Stage F A) (f : A → Stage F B)
    → Yields P m
    → ((a : A) → P a → Yields Q (f a))
    → Yields Q (and_then m f)
and_then-Yields P Q (err e, es) f h k = tt
and_then-Yields {F = F} {B = B} P Q (ok a, es) f h k = yields_event (f a) (k a h)
  where
    yields_event : (n : Stage F B) → Yields Q n → Yields Q (let (r, fs) = n in (r, es ++ fs))
    yields_event (err e, fs) h = tt
    yields_event (ok b, fs) h = h

ok_injective : {E A : Type 0} (b a : A) → (let m : Result E A = ok b in m) ≡ ok a → b ≡ a
ok_injective b a k = cc

pub Yields_ok :
    {F A : Type 0} (P : A → Type 0) (m : Stage F A) (a : A) → Yields P m → m.0 ≡ ok a → P a
Yields_ok P (err e, es) a h k = cc
Yields_ok P (ok b, es) a h k = subst P (ok_injective b a k) h

-- What stands behind an answer that is sent: it has a draft, the evidence is not empty and was
-- graded by a model, which did not find it irrelevant, the confidence follows from the grade
-- and reaches the threshold, and, beyond the fast mode, the budget allowed the critic to be
-- asked and the critic did not object.
abbrev pub IsVouched : {F : Type 0} → Floats F → Pipeline F → Query → RagResult F → Type 0
IsVouched fl p q r =
    (is_blank r.draft ≡ false)
    × (r.crag.graded ≡ true)
    × (is_irrelevant r.crag.verdict ≡ false)
    × (is_nil r.candidates ≡ false)
    × (r.confidence ≡ compute_confidence fl r.crag r.candidates)
    × (fl.le (threshold fl p q) r.confidence ≡ true)
    × ((fast_draft q ≡ true)
        ⊎ ((llm_allowed fl p (codes "critic") ≡ true) × (r.critique.send ≡ true)))

abbrev pub IsSendable : {F : Type 0} → Floats F → Pipeline F → Query → RagResult F → Type 0
IsSendable fl p q r = r.decision ≡ auto → IsVouched fl p q r

module _ {F : Type 0} (fl : Floats F) where
  decision_for_auto :
      (c t : F) (g : Bool) → decision_for fl c t g ≡ auto → (fl.le t c ≡ true) × (g ≡ true)
  unfolding decision_for
  decision_for_auto c t g h = ground arith

module _ {F : Type 0} (fl : Floats F) (p : Pipeline F) where
  -- What the grading stage leaves.
  abbrev IsWeighed : Query → Graded F → Type 0
  IsWeighed q g =
      (g.confidence ≡ compute_confidence fl g.crag g.candidates)
      × (g.decision ≡ decision_for fl g.confidence (threshold fl p q) g.crag.graded)

  after_grade-IsWeighed :
      (original q : Query) (cs : List (Candidate F)) (m : Result GoError (CragResult F))
      → Yields (IsWeighed q) (after_grade fl p original q cs m)
  after_grade-IsWeighed original q cs (err e) = tt
  after_grade-IsWeighed original q cs (ok crag) = (refl, refl)

  evaluate-IsWeighed :
      (original q : Query) (cs : List (Candidate F))
      → Yields (IsWeighed q) (evaluate fl p original q cs)
  unfolding evaluate
  evaluate-IsWeighed original q cs =
      elim (Bool-cases (should_run_crag fl q cs && llm_allowed fl p (codes "crag"))) [
        | inl runs ↦
            rw runs (after_grade-IsWeighed original q cs (p.crag q.text (evidence_content cs)))
        | inr skips ↦ rw skips (refl, refl)
      ]

  abbrev IsBacked : Graded F → Str × Option GoError → Type 0
  IsBacked g d =
      is_blank d.0 ≡ false → (is_irrelevant g.crag.verdict ≡ false) × (is_nil g.candidates ≡ false)

  nothing_drafted : (g : Graded F) → IsBacked g ([], none)
  unfolding trim_space
  nothing_drafted g h = cc

  drafted-IsBacked :
      (g : Graded F) (m : Result GoError Str)
      → is_irrelevant g.crag.verdict ≡ false
      → is_nil g.candidates ≡ false
      → Yields (IsBacked g) (drafted fl p m)
  drafted-IsBacked g (err e) v c = λ h. (v, c)
  drafted-IsBacked g (ok text) v c = λ h. (v, c)

  draft_with-IsBacked :
      (q : Query) (g : Graded F) (write : Query → List (Candidate F) → Result GoError Str)
      → Yields (IsBacked g) (draft_with fl p q g write)
  draft_with-IsBacked q g write =
      elim (Bool-cases (
        will_generate fl true g.decision g.crag.verdict g.candidates
        && llm_allowed fl p (codes "generate"))) [
          | inl writes ↦
              rw writes (drafted-IsBacked g (write q g.candidates) (ground arith) (ground arith))
          | inr skips ↦ rw skips (nothing_drafted g)
        ]

  draft_by-IsBacked :
      (q : Query) (g : Graded F) (writer : Option (Query → List (Candidate F) → Result GoError Str))
      → Yields (IsBacked g) (draft_by fl p q g writer)
  draft_by-IsBacked q g none = nothing_drafted g
  draft_by-IsBacked q g (some write) = draft_with-IsBacked q g write

  -- The critic lets an automatic decision stand only if it may be asked and does not object.
  critic_stage-auto :
      (q : Query) (g : Graded F) (text : Str)
      → is_blank text ≡ false
      → (critic_stage fl p q g text).0.1 ≡ auto
      → (g.decision ≡ auto)
        × ((fast_draft q ≡ true)
            ⊎ ((llm_allowed fl p (codes "critic") ≡ true)
                × ((critic_stage fl p q g text).0.0.send ≡ true)))
  unfolding critic_stage
  critic_stage-auto q g text h w = ground arith

  unsent_blank_auto :
      (text : Str) (d : Decision)
      → unsent_blank fl p text d ≡ auto
      → (is_blank text ≡ false) × (d ≡ auto)
  unsent_blank_auto text d h = ground arith

  judged-IsSendable :
      (q : Query) (g : Graded F)
      → IsWeighed q g
      → (d : Str × Option GoError) → IsBacked g d
      → Yields (IsSendable fl p q) (judged fl p q g d)
  judged-IsSendable q g (weighed, decided) (text, failure) backed = λ h.
      let (some_text, stays) = unsent_blank_auto text (critic_stage fl p q g text).0.1 h in
      let (was_auto, critic_agrees) = critic_stage-auto q g text some_text stays in
      let (enough, by_model) =
        decision_for_auto fl g.confidence (threshold fl p q) g.crag.graded
          (sym decided ∙ was_auto) in
      let (v, c) = backed some_text in (some_text, by_model, v, c, weighed, enough, critic_agrees)

  generate-IsSendable :
      (q : Query) (g : Graded F) → IsWeighed q g → Yields (IsSendable fl p q) (generate fl p q g)
  unfolding generate draft_stage
  generate-IsSendable q g w =
      and_then-Yields (IsBacked g) (IsSendable fl p q) (draft_by fl p q g p.generator)
        (judged fl p q g) (draft_by-IsBacked q g p.generator) (judged-IsSendable q g w)

  kept-Yields :
      (P : RagResult F → Type 0) (key : Str) (r : RagResult F) (e : Option GoError)
      → P r
      → Yields P (kept fl p key r e)
  kept-Yields P key r (some e) h = tt
  kept-Yields P key r none h = h

  pub cached_with-Yields :
      (P : RagResult F → Type 0) (key : Str) (r : RagResult F) (c : Option (ResultCache F))
      → P r
      → Yields P (cached_with fl p key r c)
  cached_with-Yields P key r none h = h
  cached_with-Yields P key r (some c) h = kept-Yields P key r (c.set key r) h

  pub retrieved-Yields :
      (m : Result GoError (List (Candidate F))) → Yields {F = F} (λ cs. Unit) (m, [])
  retrieved-Yields (err e) = tt
  retrieved-Yields (ok cs) = tt

  pub answer-IsSendable :
      (original q : Query) (plan : QueryPlan) (key : Str)
      → Yields (IsSendable fl p q) (answer fl p original q plan key)
  unfolding answer cache_result
  answer-IsSendable original q plan key =
      and_then-Yields (λ cs. Unit) (IsSendable fl p q) (retrieve fl p q plan, [])
        (λ cs.
          and_then (evaluate fl p original q cs)
            (λ g. and_then (generate fl p q g) (cache_result fl p key)))
        (retrieved-Yields (retrieve fl p q plan))
        (λ cs _.
          and_then-Yields (IsWeighed q) (IsSendable fl p q) (evaluate fl p original q cs)
            (λ g. and_then (generate fl p q g) (cache_result fl p key))
            (evaluate-IsWeighed original q cs)
            (λ g w.
              and_then-Yields (IsSendable fl p q) (IsSendable fl p q) (generate fl p q g)
                (cache_result fl p key) (generate-IsSendable q g w)
                (λ r h. cached_with-Yields (IsSendable fl p q) key r p.cache h)))

  -- An answer that does not come from the cache is sent automatically only if it has a draft,
  -- the evidence is not empty and was graded by a model, which did not find it irrelevant,
  -- the confidence that follows from the grade reaches the threshold of the company, and,
  -- beyond the fast mode, the budget allowed the critic to be asked and the critic did not
  -- object.
  pub answer-IsVouched :
      (original q : Query) (plan : QueryPlan) (key : Str) (r : RagResult F)
      → (answer fl p original q plan key).0 ≡ ok r
      → r.decision ≡ auto
      → IsVouched fl p q r
  answer-IsVouched original q plan key r h sent =
      Yields_ok (IsSendable fl p q) (answer fl p original q plan key) r
        (answer-IsSendable original q plan key) h sent
