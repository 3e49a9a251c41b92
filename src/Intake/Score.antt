-- ===== src/Intake/Score.antt =====
-- The grade of the evidence of a message: internal/application/workflows/intake/score.go.
pub mod Weights
use kb_retv_services.Prelude.{
  ℕ, zero, suc, ◌+◌, ◌-◌, ◌*◌, ◌/◌, ◌%◌, ◌^◌, ◌≤◌, ◌<◌, ◌≡◌, refl, sym, ap, ◌∙◌, ◌≢◌, ◌↔◌, ◌⊎◌, inl,
  inr, Bool, true, false, not, ◌&&◌, ◌||◌, Option, none, some, List, [], ◌∷◌, ◌++◌, map, arith, ltb,
  leb, ◌==◌, if◌then◌else◌, ltb→lt, lt→ltb, leb→le, le→leb, ==_iff, tests, Bool-cases, Option-cases,
  length, get_elem?, take, any, all, keep, length-append, length-take_le, length-keep_le, All,
  All-append, All-take, All-keep, Result, ok, err, Result-cases,
}
use kb_retv_services.Prelude.Int.{
  ℤ, pos, negsuc, pos_part, neg_part, sub_ℕ, ◌+ℤ◌, ◌≤ℤ◌, ◌<ℤ◌, ltb_ℤ, leb_ℤ, max_ℤ, min_ℤ, +ℤ_parts,
  eq_of_parts, int_laws, max_ℤ_bounds, min_ℤ_bounds, min_max_bounds,
}
use kb_retv_services.Prelude.Str.{
  Str, codes, str_eq, str_eq_refl, eq_of_str_eq, str_eq_iff, starts_with, contains, to_lower,
  trim_space, ends_with, itoa, is_empty, trim_suffix,
}
use kb_retv_services.Prelude.Dict.{
  Dict, find, remove, put, prune, find-remove, find-put, length-remove_le, length-prune_le, IsMap,
  passing, find-prune, prune_absent, prune-IsMap, remove-IsMap, put-IsMap,
}

-- `Signals` without the images, which `Score` does not read.
pub record Signals : Type 0 where
  pub sender : Str
  pub subject : Str
  pub body : Str
  pub list_unsubscribe : Bool
  pub auto_submitted : Str
  pub precedence : Str
  pub has_attachments : Bool
  pub referenced_case : Str
  pub thread_matched : Bool
  pub sender_known : Bool
  pub intent_keywords : List Str

pub data ScoreReason : Type 0 where
  list_unsubscribe auto_submitted sender_no_reply precedence_bulk referenced_case : ScoreReason
  thread_matched has_attachments sender_known body_thin link_heavy : ScoreReason
  intent_keyword_match : ScoreReason

abbrev base_score : ℤ
base_score = pos 50

-- The weights; `negsuc n` is -(n + 1).
abbrev pub weight : ScoreReason → ℤ
weight list_unsubscribe = negsuc 39
weight auto_submitted = negsuc 34
weight sender_no_reply = negsuc 17
weight precedence_bulk = negsuc 5
weight referenced_case = pos 30
weight thread_matched = pos 30
weight has_attachments = pos 12
weight sender_known = pos 12
weight body_thin = negsuc 7
weight link_heavy = negsuc 7
weight intent_keyword_match = pos 30

abbrev delimiters : List Str
delimiters = codes "." ∷ codes "_" ∷ codes "-" ∷ codes "@" ∷ []

abbrev no_reply_words : List Str
no_reply_words =
    codes "noreply"
    ∷ codes "no-reply"
    ∷ codes "donotreply"
    ∷ codes "do-notreply"
    ∷ codes "donot-reply"
    ∷ codes "do-not-reply"
    ∷ []

-- One of the words stands here, with a delimiter after it.
abbrev no_reply_here : Str → Bool
no_reply_here s = any (λ word. any (λ d. starts_with s (word ++ d)) delimiters) no_reply_words

abbrev is_delimiter : ℕ → Bool
is_delimiter c = c == b'.' || c == b'_' || c == b'-'

no_reply_after : Str → Bool
unfolding starts_with
no_reply_after [] = false
no_reply_after (c ∷ s) = is_delimiter c && no_reply_here s || no_reply_after s

-- `noReplyPattern.MatchString`, on a text in lower case.
unfoldable pub is_no_reply : Str → Bool
unfolding starts_with no_reply_after
is_no_reply s = no_reply_here s || no_reply_after s

-- `len(linkPattern.FindAllString(body, -1))`, on a text in lower case: two matches never overlap.
unfoldable pub count_links : Str → ℕ
unfolding starts_with
count_links [] = 0
count_links (c ∷ s) =
    let rest = count_links s in
    if starts_with (c ∷ s) (codes "http://") || starts_with (c ∷ s) (codes "https://")
    then suc rest
    else rest

-- `linksPerKB(body) >= linkHeavyPerKB`, multiplied by the length in kilobytes.
abbrev pub is_link_heavy : Str → Bool
is_link_heavy body =
    not (is_empty body) && leb (4 * length body) (count_links (to_lower body) * 1024)

unfoldable pub is_bulk_precedence : Str → Bool
is_bulk_precedence p =
    any (str_eq (to_lower (trim_space p))) (codes "bulk" ∷ codes "junk" ∷ codes "list" ∷ [])

abbrev keyword_hit : Str → Str → Bool
keyword_hit haystack kw =
    not (is_empty (trim_space kw)) && contains haystack (to_lower (trim_space kw))

unfoldable pub matches_intent_keyword : Str → Str → List Str → Bool
matches_intent_keyword subject body keywords =
    any (keyword_hit (to_lower (subject ++ codes " " ++ body))) keywords

abbrev pub is_auto_submitted : Str → Bool
is_auto_submitted s =
    let text = to_lower (trim_space s) in not (is_empty text) && not (str_eq text (codes "no"))

-- `if test { score += weight; reasons = append(reasons, reason) }`.
abbrev pub add_if : Bool → ScoreReason → ℤ × List ScoreReason → ℤ × List ScoreReason
add_if b r (score, reasons) = if b then (score +ℤ weight r, reasons ++ r ∷ []) else (score, reasons)

-- The score is kept between 5 and 95.
abbrev pub clamp_score : ℤ → ℤ
clamp_score s = if ltb_ℤ s (pos 5) then pos 5 else if ltb_ℤ (pos 95) s then pos 95 else s

abbrev pub add_all : List (Bool × ScoreReason) → ℤ × List ScoreReason → ℤ × List ScoreReason
add_all [] g = g
add_all ((b, r) ∷ es) g = add_all es (add_if b r g)

-- The tests of `Score` in their order, each with the reason that it adds.
unfoldable pub evidence : Signals → List (Bool × ScoreReason)
evidence sig =
    let body = trim_space sig.body in
    let thin = ltb (length body) 120 in
    (sig.list_unsubscribe, list_unsubscribe)
    ∷ (is_auto_submitted sig.auto_submitted, auto_submitted)
    ∷ (is_no_reply (to_lower sig.sender), sender_no_reply)
    ∷ (is_bulk_precedence sig.precedence, precedence_bulk)
    ∷ (not (is_empty (trim_space sig.referenced_case)), referenced_case)
    ∷ (sig.thread_matched, thread_matched)
    ∷ (sig.has_attachments, has_attachments)
    ∷ (sig.sender_known, sender_known)
    ∷ (thin, body_thin)
    ∷ (not thin && is_link_heavy body, link_heavy)
    ∷ (matches_intent_keyword sig.subject sig.body sig.intent_keywords, intent_keyword_match)
    ∷ []

-- The score before it is clamped, and the reasons.
unfoldable pub grade : Signals → ℤ × List ScoreReason
unfolding evidence
grade sig = add_all (evidence sig) (base_score, [])

-- `Score`.
unfoldable pub score : Signals → ℤ × List ScoreReason
unfolding grade
score sig = let (s, reasons) = grade sig in (clamp_score s, reasons)
