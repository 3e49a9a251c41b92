-- ===== src/Examples/Assessments.antt =====
-- Concrete messages, specifications and caches.
use kb_retv_services.Prelude.{
  ℕ, suc, ◌≤◌, ◌≡◌, refl, ◌↔◌, ◌⊎◌, inl, true, false, ◌||◌, some, List, [], ◌∷◌, arith, length, any,
  All,
}
use kb_retv_services.Prelude.Int.{pos, ◌+ℤ◌, ◌≤ℤ◌}
use kb_retv_services.Prelude.Str.{Str, codes, str_eq, starts_with, to_lower, trim_space}
use kb_retv_services.Prelude.Dict.{Dict, IsMap}
use kb_retv_services.Intake.Score.{
  Signals, list_unsubscribe, thread_matched, body_thin, precedence_bulk, clamp_score, score,
  is_auto_submitted, is_no_reply, is_bulk_precedence, count_links, matches_intent_keyword,
}
use kb_retv_services.Intake.Score.Weights.{total_weight, score-total_weight, score-junk}
use kb_retv_services.Intake.Confidence.{
  new_issue, is_junk_strong, confidence, confidence_promotable,
}
use kb_retv_services.Intake.Confidence.Promotion.{score-bulk}
use kb_retv_services.Intake.Spec.{Spec, normalized, spec_fields, is_missing, ready, status_for}
use kb_retv_services.Intake.Spec.Normal.{IsDistinct, normalized-IsDistinct, status_for_iff}
use kb_retv_services.Memcache.{new_cache, get, set, set_nx}
use kb_retv_services.Memcache.Bounds.{
  CacheCall, got, put_value, put_new, deleted, serve_all, new_cache-IsWithin, set-get,
}

abbrev newsletter : Signals
newsletter = record {
  sender = codes "Shop <No-Reply@shop.example>";
  subject = codes "Offers";
  body = codes "Buy now";
  list_unsubscribe = true;
  auto_submitted = [];
  precedence = codes " Bulk ";
  has_attachments = false;
  referenced_case = codes "  ";
  thread_matched = true;
  sender_known = false;
  intent_keywords = [];
}

newsletter_no_reply : is_no_reply (to_lower newsletter.sender) ≡ false
unfolding is_no_reply to_lower starts_with
newsletter_no_reply = refl

no_reply_found :
    (is_no_reply (codes "no-reply@shop.example") ≡ true)
    × (is_no_reply (codes "shop.do-notreply-x@shop.example") ≡ true)
    × (is_no_reply (codes "xnoreply@shop.example") ≡ false)
unfolding is_no_reply starts_with
no_reply_found = (refl, refl, refl)

links_counted : count_links (codes "see http://a and https://b or httpx://c") ≡ 2
unfolding count_links starts_with
links_counted = refl

newsletter_score :
    score newsletter
    ≡ (pos 26, list_unsubscribe ∷ precedence_bulk ∷ thread_matched ∷ body_thin ∷ [])
unfolding score is_no_reply to_lower starts_with trim_space is_bulk_precedence str_eq
    matches_intent_keyword ◌+ℤ◌
newsletter_score = refl

test_score_total_weight :
    ((score newsletter).0 ≡ clamp_score (pos 50 +ℤ total_weight (score newsletter).1))
    × (pos 5 ≤ℤ (score newsletter).0)
    × ((score newsletter).0 ≤ℤ pos 95)
test_score_total_weight = score-total_weight newsletter

test_score_junk :
    any is_junk_strong (score newsletter).1
    ≡ (true || is_auto_submitted [] || is_no_reply (to_lower newsletter.sender))
test_score_junk = score-junk newsletter

score-bulk_example :
    confidence_promotable new_issue
      (confidence (score newsletter).0 (score newsletter).1 new_issue [] (some true) (codes "  ")).0
      (pos 0)
    ≡ false
unfolding trim_space
score-bulk_example =
    score-bulk newsletter new_issue [] (some true) (pos 0) refl refl (inl (omega arith))

-- The weak header decides here: without it the score is 50 and the message may be promoted, with it
-- the score is 44 and the message may not.
precedence_decides :
    (confidence_promotable new_issue
        (confidence (pos 50) [] new_issue (codes "product" ∷ []) (some false) []).0
        (pos 0)
      ≡ true)
    × (confidence_promotable new_issue
          (confidence
            (pos 44)
            (precedence_bulk ∷ [])
            new_issue
            (codes "product" ∷ [])
            (some false)
            []).0
          (pos 0)
        ≡ false)
unfolding confidence confidence_promotable trim_space ◌+ℤ◌
precedence_decides = (refl, refl)

abbrev messy : Spec
messy = record {
  required = codes " Product " ∷ codes "product" ∷ [] ∷ [];
  optional = codes "PRODUCT" ∷ codes "contact" ∷ [];
}

messy_normalized : spec_fields messy ≡ codes "product" ∷ codes "contact" ∷ []
unfolding spec_fields str_eq to_lower trim_space
messy_normalized = refl

normalized-IsDistinct_example :
    (1 ≤ length (normalized messy).required) × IsDistinct (spec_fields messy)
normalized-IsDistinct_example = normalized-IsDistinct messy

abbrev filled : Dict Str
filled = (codes "product", codes "scanner") ∷ []

test_status_for_iff :
    (status_for messy filled ≡ ready)
    ↔ All (λ k. is_missing filled k ≡ false) (normalized messy).required
test_status_for_iff = status_for_iff messy filled

abbrev cache_calls : List CacheCall
cache_calls =
    put_value 5 (codes "a") (codes "1") (pos 10)
    ∷ put_new 6 (codes "b") (codes "2") (pos 10)
    ∷ got 20 (codes "a")
    ∷ deleted (codes "b" ∷ [])
    ∷ []

new_cache-IsWithin_example :
    IsMap (serve_all (new_cache (pos 1)) cache_calls).items
    × (((k : ℕ) × (pos 1 ≡ pos (suc k))
          × (length (serve_all (new_cache (pos 1)) cache_calls).items ≤ suc k))
        ⊎ ((pos 1 ≤ℤ pos 0) × (length (serve_all (new_cache (pos 1)) cache_calls).items ≤ 4096)))
new_cache-IsWithin_example = new_cache-IsWithin (pos 1) cache_calls

set-get_example :
    let c' = set 5 (codes "a") (codes "1") (pos 10) (new_cache (pos 1)) in
    ((get 9 (codes "a") c').1 ≡ some (codes "1"))
    × (set_nx 9 (codes "a") (codes "2") (pos 3) c' ≡ (c', false))
set-get_example =
    set-get 5 9 (codes "a") (codes "1") (codes "2") (pos 10) (pos 3) (new_cache (pos 1))
