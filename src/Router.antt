-- ===== src/Router.antt =====
-- The intent of a message: `Route` and `scoreAnchors` of internal/application/intent/router.go. The
-- similarity of the message to each anchor, which comes from embeddings, is given with the anchor.
pub mod Highest
pub mod Scores
use kb_retv_services.Prelude.{
  ℕ, zero, suc, ◌+◌, ◌-◌, ◌*◌, ◌/◌, ◌%◌, ◌^◌, ◌≤◌, ◌<◌, ◌≡◌, refl, sym, ap, ◌∙◌, ◌≢◌, ◌↔◌, ◌⊎◌, inl,
  inr, Bool, true, false, not, ◌&&◌, ◌||◌, Option, none, some, List, [], ◌∷◌, ◌++◌, map, arith, ltb,
  leb, ◌==◌, if◌then◌else◌, ltb→lt, lt→ltb, leb→le, le→leb, ==_iff, tests, Bool-cases, Option-cases,
  length, get_elem?, take, any, all, keep, length-append, length-take_le, length-keep_le, All,
  All-append, All-take, All-keep, Result, ok, err, Result-cases,
}
use kb_retv_services.Prelude.Int.{
  ℤ, pos, negsuc, pos_part, neg_part, sub_ℕ, ◌+ℤ◌, ◌≤ℤ◌, ◌<ℤ◌, ltb_ℤ, leb_ℤ, max_ℤ, min_ℤ, +ℤ_parts,
  eq_of_parts, int_laws, max_ℤ_bounds, min_ℤ_bounds, min_max_bounds,
}
use kb_retv_services.Prelude.Str.{
  Str, codes, str_eq, str_eq_refl, eq_of_str_eq, str_eq_iff, starts_with, contains, to_lower,
  trim_space, ends_with, itoa, is_empty, trim_suffix,
}
use kb_retv_services.Prelude.Dict.{
  Dict, find, remove, put, prune, find-remove, find-put, length-remove_le, length-prune_le, IsMap,
  passing, find-prune, prune_absent, prune-IsMap, remove-IsMap, put-IsMap,
}
use kb_retv_services.Rag.Types.{Floats}

pub data Intent : Type 0 where
  kb_search case_status handoff_intent open_case general_support off_domain social_intent : Intent

pub data RouteReason : Type 0 where
  action_anchor retrieval_hit in_domain_no_kb off_domain_floor social_anchor : RouteReason
  off_domain_anchor : RouteReason

-- A decision without the vector of the message.
pub record RouterDecision (F : Type 0) : Type 0 where
  pub intent : Intent
  pub reason : RouteReason
  pub confidence : F
  pub retrieval_score : F
  pub sub_intent : Str
  pub off_margin : F

pub record Anchor (F : Type 0) : Type 0 where
  pub intent : Intent
  pub sub : Str
  pub similarity : F

pub record Router (F : Type 0) : Type 0 where
  pub floor : F
  pub accept : F
  pub margin : F

abbrev pub same_intent : Intent → Intent → Bool
same_intent kb_search kb_search = true
same_intent case_status case_status = true
same_intent handoff_intent handoff_intent = true
same_intent open_case open_case = true
same_intent general_support general_support = true
same_intent off_domain off_domain = true
same_intent social_intent social_intent = true
same_intent _ _ = false

-- `isAction`.
abbrev pub is_action : Intent → Bool
is_action handoff_intent = true
is_action case_status = true
is_action open_case = true
is_action _ = false

-- The intents of `pos`, by their texts: in this order a tie goes to the first.
abbrev pub in_domain : List Intent
in_domain =
    case_status ∷ general_support ∷ handoff_intent ∷ kb_search ∷ open_case ∷ social_intent ∷ []

module _ {F : Type 0} (fl : Floats F) where
  abbrev pub beats : F → Option (Anchor F) → Bool
  beats s none = true
  beats s (some a) = fl.lt a.similarity s

  -- `best[intent]`, with the anchor that it belongs to.
  unfoldable pub best_from : Intent → List (Anchor F) → Option (Anchor F) → Option (Anchor F)
  best_from i [] best = best
  best_from i (a ∷ xs) best =
      best_from i xs (if same_intent a.intent i && beats a.similarity best then some a else best)

  abbrev pub higher : Option (Anchor F) → Option (Anchor F) → Option (Anchor F)
  higher found none = found
  higher found (some a) = if beats a.similarity found then some a else found

  -- The loop that finds `pos`; `none` is `scored{}`.
  unfoldable pub pos_from : List (Anchor F) → List Intent → Option (Anchor F) → Option (Anchor F)
  pos_from xs [] found = found
  pos_from xs (i ∷ more) found = pos_from xs more (higher found (best_from i xs none))

  unfoldable pub find_pos : List (Anchor F) → Option (Anchor F)
  unfolding pos_from best_from
  find_pos xs = pos_from xs in_domain none

  abbrev pub score_of : Option (Anchor F) → F
  score_of none = fl.hundredths 0
  score_of (some a) = a.similarity

  abbrev decided : Intent → RouteReason → F → F → RouterDecision F
  decided i reason confidence retrieval = record {
    intent = i;
    reason = reason;
    confidence = confidence;
    retrieval_score = retrieval;
    sub_intent = [];
    off_margin = fl.hundredths 0;
  }

  abbrev by_retrieval : Router F → F → F → RouterDecision F
  by_retrieval r confidence score =
      if fl.lt (fl.hundredths 0) score
      then decided kb_search retrieval_hit confidence score
      else if fl.le r.floor confidence
      then decided general_support in_domain_no_kb confidence score
      else decided off_domain off_domain_floor confidence score

  abbrev pub retrieved : Router F → F → Result Str F → Result Str (RouterDecision F)
  retrieved r confidence (err e) = err e
  retrieved r confidence (ok score) = ok (by_retrieval r confidence score)

  abbrev pub by_anchor : Router F → Option (Anchor F) → Result Str F → Result Str (RouterDecision F)
  by_anchor r none top = retrieved r (fl.hundredths 0) top
  by_anchor r (some a) top =
      if same_intent a.intent social_intent && fl.le r.accept a.similarity
      then ok (record (decided social_intent social_anchor a.similarity (fl.hundredths 0)) {
        sub_intent = a.sub;
      })
      else if is_action a.intent && fl.le r.accept a.similarity
      then ok (decided a.intent action_anchor a.similarity (fl.hundredths 0))
      else retrieved r a.similarity top

  -- `Route` after the embedding, where `top` is what `TopScore` answers.
  unfoldable pub route : Router F → List (Anchor F) → Result Str F → Result Str (RouterDecision F)
  unfolding find_pos best_from
  route r xs top =
      let best = find_pos xs in
      let neg = score_of (best_from off_domain xs none) in
      if fl.le (fl.add (score_of best) r.margin) neg
      then ok (record (decided off_domain off_domain_anchor (score_of best) (fl.hundredths 0)) {
        off_margin = fl.sub neg (score_of best);
      })
      else by_anchor r best top
