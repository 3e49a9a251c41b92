-- ===== src/Intake/Confidence.antt =====
-- The confidence in an assessment, and whether it may be promoted to a case:
-- internal/application/workflows/intake/confidence.go.
pub mod Promotion
use kb_retv_services.Prelude.{
  ℕ, zero, suc, ◌+◌, ◌-◌, ◌*◌, ◌/◌, ◌%◌, ◌^◌, ◌≤◌, ◌<◌, ◌≡◌, refl, sym, ap, ◌∙◌, ◌≢◌, ◌↔◌, ◌⊎◌, inl,
  inr, Bool, true, false, not, ◌&&◌, ◌||◌, Option, none, some, List, [], ◌∷◌, ◌++◌, map, arith, ltb,
  leb, ◌==◌, if◌then◌else◌, ltb→lt, lt→ltb, leb→le, le→leb, ==_iff, tests, Bool-cases, Option-cases,
  length, get_elem?, take, any, all, keep, length-append, length-take_le, length-keep_le, All,
  All-append, All-take, All-keep, Result, ok, err, Result-cases,
}
use kb_retv_services.Prelude.Int.{
  ℤ, pos, negsuc, pos_part, neg_part, sub_ℕ, ◌+ℤ◌, ◌≤ℤ◌, ◌<ℤ◌, ltb_ℤ, leb_ℤ, max_ℤ, min_ℤ, +ℤ_parts,
  eq_of_parts, int_laws, max_ℤ_bounds, min_ℤ_bounds, min_max_bounds,
}
use kb_retv_services.Prelude.Str.{
  Str, codes, str_eq, str_eq_refl, eq_of_str_eq, str_eq_iff, starts_with, contains, to_lower,
  trim_space, ends_with, itoa, is_empty, trim_suffix,
}
use kb_retv_services.Prelude.Dict.{
  Dict, find, remove, put, prune, find-remove, find-put, length-remove_le, length-prune_le, IsMap,
  passing, find-prune, prune_absent, prune-IsMap, remove-IsMap, put-IsMap,
}
use kb_retv_services.Intake.Score.{
  ScoreReason, list_unsubscribe, auto_submitted, sender_no_reply, referenced_case, thread_matched,
  has_attachments, sender_known,
}

-- A classification is one of the known texts, or another.
pub data Classification : Type 0 where
  new_issue follow_up status_query unclear not_actionable : Classification
  other_class : Str → Classification

abbrev class_text : Classification → Str
class_text new_issue = codes "new_issue"
class_text follow_up = codes "follow_up"
class_text status_query = codes "status_query"
class_text unclear = codes "unclear"
class_text not_actionable = codes "not_actionable"
class_text (other_class s) = s

abbrev pub base_confidence : Classification → ℤ
base_confidence new_issue = pos 60
base_confidence follow_up = pos 60
base_confidence status_query = pos 35
base_confidence unclear = pos 25
base_confidence not_actionable = pos 10
base_confidence (other_class s) = pos 30

-- `confJunkStrong`.
abbrev pub is_junk_strong : ScoreReason → Bool
is_junk_strong list_unsubscribe = true
is_junk_strong auto_submitted = true
is_junk_strong sender_no_reply = true
is_junk_strong _ = false

-- `confPositive`.
abbrev pub is_positive : ScoreReason → Bool
is_positive referenced_case = true
is_positive thread_matched = true
is_positive has_attachments = true
is_positive sender_known = true
is_positive _ = false

-- `conf += amount; trail = append(trail, tag)`.
abbrev noted : ℤ → Str → ℤ × List Str → ℤ × List Str
noted amount tag (conf, trail) = (conf +ℤ amount, trail ++ tag ∷ [])

abbrev base_tag : Str → Str
base_tag s = if is_empty s then codes "none" else s

abbrev with_evidence : ℤ → List ScoreReason → ℤ × List Str → ℤ × List Str
with_evidence score reasons c =
    if any is_junk_strong reasons
    then noted (negsuc 24) (codes "t0_conflict") c
    else if any is_positive reasons || leb_ℤ (pos 50) score
    then noted (pos 5) (codes "t0_clean") c
    else c

abbrev with_case : Str → ℤ × List Str → ℤ × List Str
with_case ref c = if is_empty (trim_space ref) then c else noted (pos 20) (codes "linked_case") c

abbrev with_fields : List Str → ℤ × List Str → ℤ × List Str
with_fields [] c = noted (pos 8) (codes "fields_complete") c
with_fields (f ∷ fs) c = c

abbrev with_catalog : Option Bool → ℤ × List Str → ℤ × List Str
with_catalog none c = c
with_catalog (some true) c = noted (pos 7) (codes "catalog_match") c
with_catalog (some false) c = noted (negsuc 9) (codes "catalog_veto") c

-- The confidence is kept between 5 and 95.
abbrev pub clamp_confidence : ℤ → ℤ
clamp_confidence c =
    let low = if ltb_ℤ c (pos 5) then pos 5 else c in if ltb_ℤ (pos 95) low then pos 95 else low

abbrev base_of : Classification → ℤ × List Str
base_of class =
    (base_confidence class, (codes "base:" ++ base_tag (trim_space (class_text class))) ∷ [])

-- `Confidence`.
unfoldable pub confidence :
    ℤ → List ScoreReason → Classification → List Str → Option Bool → Str → ℤ × List Str
confidence score reasons class missing catalog_related ref =
    let (conf, trail) =
      with_catalog catalog_related
        (with_fields missing (with_case ref (with_evidence score reasons (base_of class)))) in
    (clamp_confidence conf, trail)

abbrev is_issue : Classification → Bool
is_issue new_issue = true
is_issue follow_up = true
is_issue _ = false

-- `ConfidencePromotable`.
unfoldable pub confidence_promotable : Classification → ℤ → ℤ → Bool
confidence_promotable class confidence threshold =
    let bar = if leb_ℤ threshold (pos 0) then pos 55 else threshold in
    not (ltb_ℤ confidence bar) && is_issue class
