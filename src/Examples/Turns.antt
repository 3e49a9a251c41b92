-- ===== src/Examples/Turns.antt =====
-- Concrete turns and fusions.
use kb_retv_services.Prelude.{
  ℕ, ◌+◌, ◌-◌, ◌/◌, ◌≡◌, refl, ◌≢◌, ◌↔◌, ◌⊎◌, inl, true, false, not, ◌&&◌, Option, none, some, List,
  [], ◌∷◌, arith, ltb, leb, ◌==◌, any, ok, err,
}
use kb_retv_services.Prelude.Str.{Str, codes, str_eq, is_empty}
use kb_retv_services.Prelude.Dict.{find, remove, put}
use kb_retv_services.Rag.Types.{Floats, Candidate}
use kb_retv_services.Rag.Merge.{rrf_merge}
use kb_retv_services.Rag.Merge.Fused.{has_id, IsUnique, rrf_merge-IsUnique}
use kb_retv_services.Rag.Merge.Ranked.{IsDescending}
use kb_retv_services.Rag.Merge.Sums.{score_in, sum_over, rrf_merge-score_in}
use kb_retv_services.Skeleton.Response.{Response, no_response}
use kb_retv_services.Skeleton.Orchestrator.{handler_failed, SkeletonError, handler_error}
use kb_retv_services.Router.{
  Intent, RouterDecision, Anchor, Router, route, find_pos, best_from, action_anchor, case_status,
  off_domain, kb_search, social_intent,
}
use kb_retv_services.Router.Highest.{IsOrder}
use kb_retv_services.Router.Scores.{HasAnchor, route-HasAnchor}
use kb_retv_services.Decide.{tool, tool_failed, social, is_social, classify, decide_turn}
use kb_retv_services.Decide.Kinds.{
  is_grounded, classify-is_grounded, decide_turn-tool_iff, decide_turn-social_iff,
}

-- Hundredths, with the reciprocals in ten thousandths.
abbrev cents : Floats ℕ
cents = record {
  lt = ltb;
  le = leb;
  same = ◌==◌;
  add = ◌+◌;
  sub = ◌-◌;
  hundredths = λ n. n;
  reciprocal = λ n. 10000 / n;
}

abbrev named : Str → ℕ → Candidate ℕ
named id score = record {
  id = id;
  article_id = [];
  chunk_id = [];
  parent_chunk_id = [];
  title = [];
  content = [];
  source = codes "fts";
  score = score;
}

abbrev two_sets : List (List (Candidate ℕ))
two_sets =
    (named (codes "b") 5 ∷ named (codes "a") 3 ∷ []) ∷ (named (codes "a") 9 ∷ named [] 7 ∷ []) ∷ []

fused : rrf_merge cents two_sets ≡ named (codes "a") 324 ∷ named (codes "b") 163 ∷ []
unfolding rrf_merge find put remove str_eq
fused = refl

test_rrf_merge-IsUnique :
    IsUnique (rrf_merge cents two_sets)
    × (has_id (codes "a") (rrf_merge cents two_sets)
        ≡ any (λ cs. not (is_empty (codes "a")) && has_id (codes "a") cs) two_sets)
test_rrf_merge-IsUnique = rrf_merge-IsUnique cents two_sets (codes "a")

ltb_asym : (x y : ℕ) → ltb x y ≡ true → ltb y x ≡ false
ltb_asym x y h = ground arith

==_sym : (x y : ℕ) → (x == y) ≡ (y == x)
==_sym x y = ground arith

==_ltb : (x y : ℕ) → (x == y) ≡ true → ltb y x ≡ false
==_ltb x y h = ground arith

rrf_merge-score_in_example :
    IsUnique (rrf_merge cents two_sets)
    × (score_in (codes "a") (rrf_merge cents two_sets) ≡ sum_over cents (codes "a") two_sets none)
    × IsDescending cents (rrf_merge cents two_sets)
rrf_merge-score_in_example =
    rrf_merge-score_in cents ltb_asym ==_sym ==_ltb two_sets (codes "a") refl

abbrev routed : Intent → RouterDecision ℕ
routed i = record {
  intent = i;
  reason = action_anchor;
  confidence = 80;
  retrieval_score = 0;
  sub_intent = [];
  off_margin = 0;
}

abbrev about_case : RouterDecision ℕ
about_case = routed case_status

abbrev greeting : RouterDecision ℕ
greeting = routed social_intent

abbrev closing : Response ℕ
closing = record (no_response 0) { matched = true; kind = codes "write" }

abbrev broken : SkeletonError
broken = handler_error (handler_failed (codes "locked"))

failed_close : classify cents about_case (some (closing, some broken)) 10 ≡ (tool_failed, [])
unfolding classify str_eq
failed_close = refl

classify-is_grounded_example :
    (is_grounded (classify cents about_case (some (closing, some broken)) 10).0 ≡ true)
    × ((some broken ≡ none)
        ⊎ ((classify cents about_case (some (closing, some broken)) 10).0 ≢ tool))
classify-is_grounded_example =
    classify-is_grounded cents 10 about_case closing (some broken) (inl refl)

abbrev closing_call : Option (Response ℕ × Option SkeletonError)
closing_call = some (closing, none)

test_decide_turn_tool_iff : ((decide_turn cents closing_call 10 about_case).kind ≡ tool) ↔ (
    (is_social about_case.intent ≡ false)
    × ((resp : Response ℕ) × (closing_call ≡ some (resp, none)) × (resp.matched ≡ true)))
test_decide_turn_tool_iff = decide_turn-tool_iff cents 10 about_case closing_call

test_decide_turn_social_iff :
    ((decide_turn cents closing_call 10 greeting).kind ≡ social) ↔ (greeting.intent ≡ social_intent)
test_decide_turn_social_iff = decide_turn-social_iff cents 10 greeting (some (closing, none))

abbrev desk_router : Router ℕ
desk_router = record { floor = 30; accept = 60; margin = 5 }

abbrev near : Intent → ℕ → Anchor ℕ
near i s = record { intent = i; sub = []; similarity = s }

abbrev anchors : List (Anchor ℕ)
anchors = near case_status 55 ∷ near kb_search 70 ∷ near case_status 80 ∷ near off_domain 40 ∷ []

routed_to_case : route cents desk_router anchors (err []) ≡ ok (routed case_status)
unfolding route find_pos best_from
routed_to_case = refl

cents-IsOrder : IsOrder cents
cents-IsOrder = record {
  asym = λ x y h. ground arith;
  trans = λ x y z h k. ground arith;
  weaken = λ x y z h k. ground arith;
}

route-HasAnchor_example : HasAnchor cents desk_router anchors (routed case_status)
route-HasAnchor_example =
    route-HasAnchor cents desk_router anchors cents-IsOrder (err []) (routed case_status)
      routed_to_case refl
