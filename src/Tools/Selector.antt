-- ===== src/Tools/Selector.antt =====
-- The choice of a tool: `Select` of internal/application/tools/selector.go, once the message is
-- embedded, and the other selectors, cascade.go and modelselector.go.
pub mod Cascade
pub mod Permitted
pub mod Winners
use kb_retv_services.Prelude.{
  ℕ, zero, suc, ◌+◌, ◌-◌, ◌*◌, ◌/◌, ◌%◌, ◌^◌, ◌≤◌, ◌<◌, ◌≡◌, refl, sym, ap, ◌∙◌, ◌≢◌, ◌↔◌, ◌⊎◌, inl,
  inr, Bool, true, false, not, ◌&&◌, ◌||◌, Option, none, some, List, [], ◌∷◌, ◌++◌, map, arith, ltb,
  leb, ◌==◌, if◌then◌else◌, ltb→lt, lt→ltb, leb→le, le→leb, ==_iff, tests, Bool-cases, Option-cases,
  length, get_elem?, take, any, all, keep, length-append, length-take_le, length-keep_le, All,
  All-append, All-take, All-keep, Result, ok, err, Result-cases, ok_inj, err_ne_ok, if_both,
}
use kb_retv_services.Prelude.Int.{
  ℤ, pos, negsuc, pos_part, neg_part, sub_ℕ, ◌+ℤ◌, ◌≤ℤ◌, ◌<ℤ◌, ltb_ℤ, leb_ℤ, max_ℤ, min_ℤ, +ℤ_parts,
  eq_of_parts, ℤ_cases, int_laws, max_ℤ_bounds, min_ℤ_bounds, min_max_bounds,
}
use kb_retv_services.Prelude.Str.{
  Str, codes, str_eq, str_eq_refl, eq_of_str_eq, str_eq_iff, starts_with, contains, to_lower,
  trim_space, ends_with, itoa, is_empty, trim_suffix,
}
use kb_retv_services.Prelude.Dict.{
  Dict, find, remove, put, prune, find-remove, find-put, length-remove_le, length-prune_le, IsMap,
  passing, find-prune, prune_absent, prune-IsMap, remove-IsMap, put-IsMap,
}
use kb_retv_services.Perms.{can}
use kb_retv_services.Skeleton.Response.{Selection}
use kb_retv_services.Tools.Params.{
  Param, ParamSources, extract_params, missing_required, required_matched, entity_matched,
}

-- float64: `thousandths n` is the literal n/1000, `times x n` is x * float64(n).
pub record Scores (F : Type 0) : Type 0 where
  pub lt : F → F → Bool
  pub le : F → F → Bool
  pub add : F → F → F
  pub sub : F → F → F
  pub times : F → ℕ → F
  pub thousandths : ℕ → F

-- `toolVectors`, with the similarities of its anchors to the message.
pub record ToolVectors (F : Type 0) : Type 0 where
  pub id : Str
  pub perm : Str
  pub intent : Str
  pub accept : F
  pub floor : F
  pub similarities : List F
  pub params : List Param

-- The variables of the loop of `Select`.
pub record Scan (F : Type 0) : Type 0 where
  pub best : Selection F
  pub near_miss : Selection F
  pub needs_params : Selection F
  pub passed : ℕ
  pub blocked : ℕ
  pub top1 : F
  pub top2 : F

module _ {F : Type 0} (f : Scores F) where
  -- `Selection{}`.
  abbrev pub no_selection : Selection F
  no_selection = record {
    tool_id = [];
    score = f.thousandths 0;
    runner_up = f.thousandths 0;
    matched = false;
    params = [];
    specificity = 0;
    entities = 0;
    perm_filtered = false;
    missing_params = [];
    margin_rejected = false;
  }

  -- `thresholdsFor`, of the kind of a tool and of the thresholds that are set for it.
  unfoldable pub thresholds_for : Str → F → F → F × F
  unfolding str_eq
  thresholds_for kind accept floor =
      let a =
        if not (f.le accept (f.thousandths 0))
        then accept
        else if str_eq kind (codes "write")
        then f.thousandths 620
        else f.thousandths 550 in
      let b = if f.le floor (f.thousandths 0) then f.thousandths 350 else floor in
      (a, if f.lt a b then a else b)

  -- `preferOver`.
  unfoldable pub prefer_over : Selection F → Selection F → Bool
  prefer_over cand best =
      if not best.matched
      then true
      else if not (cand.entities == best.entities)
      then ltb best.entities cand.entities
      else if ltb best.specificity cand.specificity
      then f.le (f.sub best.score (f.thousandths 50)) cand.score
      else if ltb cand.specificity best.specificity
      then f.lt best.score (f.sub cand.score (f.thousandths 50))
      else f.lt best.score cand.score

  -- The largest of the similarities, where it is above a value.
  abbrev highest : F → List F → F
  highest top [] = top
  highest top (d ∷ ds) = highest (if f.lt top d then d else top) ds

  module _ (sources : ParamSources) (text : Str) (router_intent : Str) (granted : List Str) where
    unfoldable pub score_of : ToolVectors F → F
    unfolding str_eq
    score_of t =
        let score = highest (f.thousandths 0) t.similarities in
        if not (is_empty t.intent) && str_eq t.intent router_intent
        then f.add score (f.thousandths 50)
        else score

    -- The two highest scores, and the nearest miss.
    unfoldable pub ranked : ToolVectors F → Scan F → Scan F
    unfolding score_of
    ranked t c =
        let score = score_of t in
        record c {
          passed = suc c.passed;
          top1 = if f.lt c.top1 score then score else c.top1;
          top2 = if f.lt c.top1 score then c.top1 else if f.lt c.top2 score then score else c.top2;
          near_miss =
              if f.lt c.near_miss.score score
              then record no_selection { tool_id = t.id; score = score }
              else c.near_miss;
        }

    unfoldable pub candidate : ToolVectors F → Dict Str → Selection F
    unfolding score_of
    candidate t found = record no_selection {
      tool_id = t.id;
      score = score_of t;
      matched = true;
      params = found;
      specificity = required_matched t.params found;
      entities = entity_matched t.params found;
    }

    unfoldable pub evidence : ToolVectors F → Dict Str → F
    unfolding score_of
    evidence t found =
        let specificity = required_matched t.params found in
        let entities = entity_matched t.params found in
        f.add (f.add (score_of t) (f.times (f.thousandths 145) entities))
          (f.times (f.thousandths 50) (specificity - entities))

    unfoldable pub lacking : ToolVectors F → Dict Str → Selection F
    unfolding score_of
    lacking t found = record no_selection {
      tool_id = t.id;
      score = score_of t;
      params = found;
      missing_params = missing_required t.params found;
    }

    unfoldable pub considered : ToolVectors F → Dict Str → Bool → Scan F → Scan F
    unfolding score_of prefer_over
    considered t found false c =
        if f.le t.accept (score_of t) && f.lt c.needs_params.score (score_of t)
        then record c { needs_params = lacking t found }
        else c
    considered t found true c =
        if f.lt (evidence t found) t.accept
        then c
        else if prefer_over (candidate t found) c.best
        then record c { best = candidate t found }
        else c

    unfoldable pub after_extract :
        ToolVectors F → Scan F → Result Str (Dict Str × Bool) → Result Str (Scan F)
    unfolding considered
    after_extract t c (err e) = err e
    after_extract t c (ok (found, satisfied)) = ok (considered t found satisfied c)

    -- One round of the loop.
    unfoldable pub visit : ToolVectors F → Scan F → Result Str (Scan F)
    unfolding after_extract ranked extract_params
    visit t c =
        if not (can granted t.perm)
        then ok (record c { blocked = suc c.blocked })
        else if f.lt (score_of t) t.floor
        then ok (ranked t c)
        else after_extract t (ranked t c) (extract_params sources text t.params)

    unfoldable pub scan : List (ToolVectors F) → Scan F → Result Str (Scan F)
    unfolding visit
    scan [] c = ok c
    scan (t ∷ ts) c = elim (visit t c) [ err e ↦ err e | ok c' ↦ scan ts c' ]

  abbrev pub start : Scan F
  start = record {
    best = no_selection;
    near_miss = no_selection;
    needs_params = no_selection;
    passed = 0;
    blocked = 0;
    top1 = f.thousandths 0;
    top2 = f.thousandths 0;
  }

  abbrev pub second_best : Scan F → F
  second_best c = if leb 2 c.passed then c.top2 else f.thousandths 0

  -- What `Select` returns where no tool was matched: one that lacks parameters, or the nearest.
  abbrev pub missed : Scan F → Selection F
  missed c =
      if not (is_empty c.needs_params.tool_id)
      then record c.needs_params { perm_filtered = ltb 0 c.blocked; runner_up = second_best c }
      else record c.near_miss { perm_filtered = ltb 0 c.blocked; runner_up = second_best c }

  -- The winner is too close to the second best score.
  abbrev pub is_close : F → Scan F → Bool
  is_close margin c =
      f.lt (f.thousandths 0) margin
      && leb 2 c.passed
      && f.lt (f.sub c.best.score (second_best c)) margin

  abbrev pub rejected : Scan F → Selection F
  rejected c = record no_selection {
    tool_id = c.best.tool_id;
    score = c.best.score;
    runner_up = second_best c;
    margin_rejected = true;
    perm_filtered = ltb 0 c.blocked;
  }

  abbrev pub won : F → Scan F → Selection F
  won margin c =
      if is_close margin c then rejected c else record c.best { runner_up = second_best c }

  -- What `Select` returns after its loop, by the margin that a winner must have.
  unfoldable pub settle : F → Scan F → Selection F
  settle margin c = if not c.best.matched then missed c else won margin c

  unfoldable pub settled : F → Result Str (Scan F) → Result Str (Selection F)
  unfolding settle
  settled margin (err e) = err e
  settled margin (ok c) = ok (settle margin c)

  -- `Select`, after the embedding.
  unfoldable pub select :
      ParamSources → Str → Str → List Str → F → List (ToolVectors F) → Result Str (Selection F)
  unfolding scan settled
  select sources text router_intent granted margin tools =
      settled margin (scan sources text router_intent granted tools start)
