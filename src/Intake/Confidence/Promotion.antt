-- ===== src/Intake/Confidence/Promotion.antt =====
-- Which messages may be promoted to a case.
use kb_retv_services.Prelude.{◌≡◌, ◌∙◌, ◌⊎◌, Bool, true, false, ◌||◌, Option, List, [], arith, any}
use kb_retv_services.Prelude.Int.{ℤ, pos, negsuc, ◌+ℤ◌, ◌≤ℤ◌, ◌<ℤ◌}
use kb_retv_services.Prelude.Str.{Str, codes, to_lower, trim_space}
use kb_retv_services.Intake.Score.{Signals, ScoreReason, score, is_auto_submitted, is_no_reply}
use kb_retv_services.Intake.Score.Weights.{score-junk}
use kb_retv_services.Intake.Confidence.{
  Classification, base_confidence, is_junk_strong, confidence, confidence_promotable, with_fields,
  with_catalog, clamp_confidence, noted, base_of,
}

base_confidence_le : (class : Classification) → base_confidence class ≤ℤ pos 60
base_confidence_le class = ground arith

noted_junk_le :
    (c : ℤ × List Str) (tag : Str) → c.0 ≤ℤ pos 60 → (noted (negsuc 24) tag c).0 ≤ℤ pos 35
unfolding ◌+ℤ◌
noted_junk_le (n, trail) tag h = ground arith

rest_le :
    (related : Option Bool) (missing : List Str) (c : ℤ × List Str)
    → c.0 ≤ℤ pos 35
    → (with_catalog related (with_fields missing c)).0 ≤ℤ pos 50
unfolding ◌+ℤ◌
rest_le related missing (n, trail) h = ground arith

low_not_promotable :
    (class : Classification) (c threshold : ℤ)
    → c ≤ℤ pos 50
    → (threshold ≤ℤ pos 0) ⊎ (pos 50 <ℤ threshold)
    → confidence_promotable class (clamp_confidence c) threshold ≡ false
unfolding confidence_promotable
low_not_promotable class c threshold low h = ground arith

module _ (s : ℤ) (reasons : List ScoreReason) (class : Classification) (missing : List Str)
    (related : Option Bool) (ref : Str) where
  confidence-junk :
      (threshold : ℤ)
      → any is_junk_strong reasons ≡ true
      → trim_space ref ≡ []
      → (threshold ≤ℤ pos 0) ⊎ (pos 50 <ℤ threshold)
      → confidence_promotable class (confidence s reasons class missing related ref).0 threshold
        ≡ false
  unfolding confidence confidence_promotable
  confidence-junk threshold junk no_case h =
      rw (junk, no_case)
        (low_not_promotable class
          (with_catalog related
            (with_fields missing (noted (negsuc 24) (codes "t0_conflict") (base_of class)))).0
          threshold
          (rest_le related missing (noted (negsuc 24) (codes "t0_conflict") (base_of class))
            (noted_junk_le (base_of class) (codes "t0_conflict") (base_confidence_le class)))
          h)

-- A message that has a List-Unsubscribe header, was submitted by a program or comes from a
-- no-reply address, and that names no case, is never promoted by its score and confidence,
-- whatever its classification, its fields and its products, unless the company sets a threshold
-- between 1 and 50.
pub score-bulk :
    (sig : Signals) (class : Classification) (missing : List Str) (related : Option Bool)
    (threshold : ℤ)
    → (sig.list_unsubscribe
        || is_auto_submitted sig.auto_submitted
        || is_no_reply (to_lower sig.sender))
      ≡ true
    → trim_space sig.referenced_case ≡ []
    → (threshold ≤ℤ pos 0) ⊎ (pos 50 <ℤ threshold)
    → confidence_promotable class
        (confidence (score sig).0 (score sig).1 class missing related sig.referenced_case).0
        threshold
      ≡ false
score-bulk sig class missing related threshold bulk no_case h =
    confidence-junk (score sig).0 (score sig).1 class missing related sig.referenced_case threshold
      (score-junk sig ∙ bulk) no_case h
