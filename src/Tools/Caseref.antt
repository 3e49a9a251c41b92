-- ===== src/Tools/Caseref.antt =====
-- References to cases in a text, such as `REP-1042`: internal/application/tools/caseref.go. The
-- patterns are matched by hand: `\b` and `\s` are those of ASCII.
pub mod Codes
use kb_retv_services.Prelude.{
  ℕ, zero, suc, ◌+◌, ◌-◌, ◌*◌, ◌/◌, ◌%◌, ◌^◌, ◌≤◌, ◌<◌, ◌≡◌, refl, sym, ap, ◌∙◌, ◌≢◌, ◌↔◌, ◌⊎◌, inl,
  inr, Bool, true, false, not, ◌&&◌, ◌||◌, Option, none, some, List, [], ◌∷◌, ◌++◌, map, arith, ltb,
  leb, ◌==◌, if◌then◌else◌, ltb→lt, lt→ltb, leb→le, le→leb, ==_iff, tests, Bool-cases, Option-cases,
  length, get_elem?, take, any, all, keep, length-append, length-take_le, length-keep_le, All,
  All-append, All-take, All-keep, Result, ok, err, Result-cases,
}
use kb_retv_services.Prelude.Int.{
  ℤ, pos, negsuc, pos_part, neg_part, sub_ℕ, ◌+ℤ◌, ◌≤ℤ◌, ◌<ℤ◌, ltb_ℤ, leb_ℤ, max_ℤ, min_ℤ, +ℤ_parts,
  eq_of_parts, int_laws, max_ℤ_bounds, min_ℤ_bounds, min_max_bounds,
}
use kb_retv_services.Prelude.Str.{
  Str, codes, str_eq, str_eq_refl, eq_of_str_eq, str_eq_iff, starts_with, contains, to_lower,
  trim_space, ends_with, itoa, is_empty, trim_suffix,
}
use kb_retv_services.Prelude.Dict.{
  Dict, find, remove, put, prune, find-remove, find-put, length-remove_le, length-prune_le, IsMap,
  passing, find-prune, prune_absent, prune-IsMap, remove-IsMap, put-IsMap,
}
use kb_retv_services.Prelude.Str.{lower_byte}
use kb_retv_services.Prelude.Str.Numbers.{is_digit, is_word, span, value, value_from}

pub data CaseRefNamespace : Type 0 where
  rep draft : CaseRefNamespace

pub record CaseRef : Type 0 where
  pub namespace : CaseRefNamespace
  pub id : ℕ
  pub code : Str

abbrev pub max_int64 : ℕ
max_int64 = 2 ^ 63 - 1

-- `\s` of a pattern.
abbrev pub is_blank : ℕ → Bool
is_blank c = c == b' ' || c == 9 || c == 10 || c == 12 || c == 13

-- What follows a prefix, which is given in lower case and matched in any.
unfoldable pub after_prefix : Str → Str → Option Str
after_prefix [] s = some s
after_prefix (c ∷ p) [] = none
after_prefix (c ∷ p) (d ∷ s) = if lower_byte d == c then after_prefix p s else none

-- `[-:\s]?`
abbrev skip_separator : Str → Str
skip_separator [] = []
skip_separator (c ∷ s) = if c == b'-' || c == b':' || is_blank c then s else c ∷ s

abbrev pub starts_word : Str → Bool
starts_word [] = false
starts_word (c ∷ s) = is_word c

-- `(\d+)\b`
abbrev pub number_here : Str → Option Str
number_here s =
    let (d, rest) = span is_digit s in if is_empty d || starts_word rest then none else some d

abbrev after_word : Option Str → Option Str
after_word none = none
after_word (some rest) = number_here (skip_separator rest)

-- The digits of the first match, where `prev` says that the text before ends in a word.
unfoldable pub first_number : Str → Bool → Str → Option Str
unfolding after_prefix
first_number word prev [] = none
first_number word prev (c ∷ s) =
    let rest = first_number word (is_word c) s in
    if prev
    then rest
    else elim (after_word (after_prefix word (c ∷ s))) [ some d ↦ some d | none ↦ rest ]

abbrev pub case_word : CaseRefNamespace → Str
case_word rep = codes "rep"
case_word draft = codes "draft"

abbrev pub code_prefix : CaseRefNamespace → Str
code_prefix rep = codes "REP-"
code_prefix draft = codes "DRAFT-"

-- A number beyond 63 bits is no reference.
unfoldable pub case_ref_of : CaseRefNamespace → Str → Option CaseRef
case_ref_of ns d =
    if leb (value d) max_int64
    then some (record { namespace = ns; id = value d; code = code_prefix ns ++ d })
    else none

abbrev of_draft : Option Str → Option CaseRef
of_draft (some d) = case_ref_of draft d
of_draft none = none

abbrev or_draft : Option Str → Str → Option CaseRef
or_draft (some d) text = case_ref_of rep d
or_draft none text = of_draft (first_number (codes "draft") false text)

-- `ParseCaseRef`.
unfoldable pub parse_case_ref : Str → Option CaseRef
unfolding first_number case_ref_of
parse_case_ref text = or_draft (first_number (codes "rep") false text) text

test_parse :
    parse_case_ref (codes "re: Rep 0042, please")
    ≡ some (record { namespace = rep; id = 42; code = codes "REP-0042" })
unfolding parse_case_ref value_from
test_parse = refl

test_inside : parse_case_ref (codes "prep-42 rep-42x") ≡ none
unfolding parse_case_ref
test_inside = refl
