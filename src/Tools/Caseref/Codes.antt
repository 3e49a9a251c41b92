-- ===== src/Tools/Caseref/Codes.antt =====
-- About the codes of case references: what `ParseCaseRef` reads in them.
use kb_retv_services.Prelude.{
  ℕ, suc, ◌+◌, ◌/◌, ◌%◌, ◌≤◌, ◌≡◌, refl, ap, ◌∙◌, ◌↔◌, inl, inr, Bool, true, false, Option, none,
  some, [], ◌∷◌, ◌++◌, arith, ltb, leb, Bool-cases, Option-cases,
}
use kb_retv_services.Prelude.Str.{Str, codes, itoa, is_empty}
use kb_retv_services.Prelude.Str.Numbers.{
  is_digit, is_word, span, value, AllDigits, span-AllDigits, value-itoa, AllDigits-itoa,
}
use mathlib.Core.Option.{some_inj}
use mathlib.Core.List.{reverse, reverse-cons}
use kb_retv_services.Prelude.Str.{digits_rev}
use kb_retv_services.Tools.Caseref.{
  CaseRefNamespace, rep, draft, CaseRef, max_int64, after_prefix, number_here, first_number,
  after_word, case_ref_of, parse_case_ref, code_prefix, skip_separator,
}

-- What a matched number is: digits, at least one.
abbrev IsNumber : Str → Type 0
IsNumber d = AllDigits d × (is_empty d ≡ false)

span_whole : (d : Str) → AllDigits d → span is_digit d ≡ (d, [])
span_whole [] h = refl
span_whole (c ∷ d) (p, h) = rw (p, span_whole d h) refl

number_here_whole : (d : Str) → IsNumber d → number_here d ≡ some d
number_here_whole d (h, n) = rw (span_whole d h, n) refl

number_here-IsNumber : (s d : Str) → number_here s ≡ some d → IsNumber d
number_here-IsNumber s d h = ground (arith, span-AllDigits s)

after_word-IsNumber : (o : Option Str) (d : Str) → after_word o ≡ some d → IsNumber d
after_word-IsNumber none d h = absurd cc
after_word-IsNumber (some rest) d h = number_here-IsNumber (skip_separator rest) d h

first_number-IsNumber :
    (word : Str) (s : Str) (prev : Bool) (d : Str) → first_number word prev s ≡ some d → IsNumber d
unfolding first_number
first_number-IsNumber word [] prev d h = absurd cc
first_number-IsNumber word (c ∷ s) true d h = first_number-IsNumber word s _ d h
first_number-IsNumber word (c ∷ s) false d h =
    elim (Option-cases (after_word (after_prefix word (c ∷ s)))) [
      | inl e ↦ first_number-IsNumber word s _ d (rw e at h)
      | inr (d', e) ↦ after_word-IsNumber (after_prefix word (c ∷ s)) d (e ∙ (rw e at h))
    ]

-- No word stands in a text of digits.
no_word :
    (c : ℕ) (word d : Str) (prev : Bool)
    → leb b'a' c ≡ true
    → AllDigits d
    → first_number (c ∷ word) prev d ≡ none
unfolding first_number after_prefix
no_word c word [] prev h k = refl
no_word c word (x ∷ d) prev h (p, k) = ground (arith, no_word c word d (is_word x) h k)

number_after :
    (rest d : Str) → skip_separator rest ≡ d → IsNumber d → after_word (some rest) ≡ some d
number_after rest d e n = rw e (number_here_whole d n)

parse-code_of :
    (ns : CaseRefNamespace) (d : Str)
    → IsNumber d
    → parse_case_ref (code_prefix ns ++ d) ≡ case_ref_of ns d
unfolding parse_case_ref first_number after_prefix
parse-code_of rep d n = rw (number_here_whole d n) refl
parse-code_of draft d n =
    rw (no_word b'r' (codes "ep") d false refl (n.0), number_here_whole d n) refl

ref_of-again :
    (ns : CaseRefNamespace) (d : Str) (r : CaseRef)
    → IsNumber d
    → case_ref_of ns d ≡ some r
    → parse_case_ref r.code ≡ some r
unfolding case_ref_of
ref_of-again ns d r n h = elim (Bool-cases (leb (value d) max_int64)) [
  | inl fits ↦ rw (← some_inj.0 (rw fits at h)) (parse-code_of ns d n ∙ fitting fits)
  | inr big ↦ absurd (ground (arith, big, h))
]
  where
    fitting :
        leb (value d) max_int64 ≡ true
        → case_ref_of ns d
          ≡ some (record { namespace = ns; id = value d; code = code_prefix ns ++ d })
    fitting fits = rw fits refl

-- The code of a reference that was read in a text reads back as that reference, whatever text it
-- was found in, and however it was written there.
pub parse_case_ref-again :
    (text : Str) (r : CaseRef) → parse_case_ref text ≡ some r → parse_case_ref r.code ≡ some r
unfolding parse_case_ref
parse_case_ref-again text r h = elim (Option-cases (first_number (codes "rep") false text)) [
  | inl e ↦ elim (Option-cases (first_number (codes "draft") false text)) [
    | inl e' ↦ absurd (ground (arith, e, e', h))
    | inr (d, e') ↦
        ref_of-again draft d r (first_number-IsNumber (codes "draft") text false d e')
          (rw (e, e') at h)
  ]
  | inr (d, e) ↦
      ref_of-again rep d r (first_number-IsNumber (codes "rep") text false d e) (rw e at h)
]

digits_rev-ne : (fuel n : ℕ) → (c : ℕ) × (s : Str) × (digits_rev (suc fuel) n ≡ c ∷ s)
unfolding digits_rev
digits_rev-ne fuel n = elim (Bool-cases (ltb n 10)) [
  | inl small ↦ (b'0' + n, [], rw small refl)
  | inr big ↦ (b'0' + n % 10, digits_rev fuel (n / 10), rw big refl)
]

append_one-is_empty : (s : Str) (c : ℕ) → is_empty (s ++ c ∷ []) ≡ false
append_one-is_empty [] c = refl
append_one-is_empty (d ∷ s) c = refl

itoa-ne : (n : ℕ) → is_empty (itoa n) ≡ false
unfolding itoa
itoa-ne n =
    let (c, s, e) = digits_rev-ne n n in
    ap (λ t. is_empty (reverse t)) e
    ∙ ap is_empty (reverse-cons c s)
    ∙ append_one-is_empty (reverse s) c

-- A number is read back from the code that is written for it exactly when it fits 63 bits.
pub parse-code_iff :
    (ns : CaseRefNamespace) (n : ℕ)
    → (n ≤ max_int64) ↔ (
        parse_case_ref (code_prefix ns ++ itoa n)
        ≡ some (record { namespace = ns; id = n; code = code_prefix ns ++ itoa n }))
unfolding case_ref_of
parse-code_iff ns n =
    rw (parse-code_of ns (itoa n) (AllDigits-itoa n, itoa-ne n), value-itoa n) (ground arith)
