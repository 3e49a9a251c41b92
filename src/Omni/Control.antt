-- ===== src/Omni/Control.antt =====
-- Mails that are no messages of a customer, by their subject and body: the patterns of
-- internal/application/workflows/omnichannel/workflow.go, matched by hand. `\d`, `\s` and `\b` are
-- those of ASCII.
use kb_retv_services.Prelude.{
  ℕ, zero, suc, ◌≡◌, refl, Bool, not, ◌&&◌, ◌||◌, Option, none, some, [], ◌∷◌, ltb, leb, ◌==◌,
  if◌then◌else◌, length,
}
use kb_retv_services.Prelude.Str.{
  to_upper, Str, codes, str_eq, starts_with, contains, to_lower, trim_space, is_empty,
}
use kb_retv_services.Prelude.Str.{lower_byte}
use kb_retv_services.Prelude.Str.Numbers.{is_digit, span}
use kb_retv_services.Tools.Caseref.{is_blank, after_prefix, starts_word}

abbrev is_code_byte : ℕ → Bool
is_code_byte c = let d = lower_byte c in (leb b'a' d && leb d b'z') || (leb b'2' d && leb d b'9')

abbrev skip_blanks : Str → Str
skip_blanks [] = []
skip_blanks (c ∷ s) = if is_blank c then skip_blanks s else c ∷ s

abbrev and_code : ℕ → Option Str → Option Str
and_code c none = none
and_code c (some s) = some (c ∷ s)

-- `[A-Z2-9]{n}\b`, in any case.
abbrev code_here : ℕ → Str → Option Str
code_here zero s = if starts_word s then none else some []
code_here (suc n) [] = none
code_here (suc n) (c ∷ s) = if is_code_byte c then and_code c (code_here n s) else none

abbrev code_after : Option Str → Option Str
code_after none = none
code_after (some s) = code_here 8 s

-- `(?:fwd?:\s*)*SJT-VERIFY-([A-Z2-9]{8})\b`; a round of the loop reads at least three bytes.
code_from : ℕ → Str → Option Str
unfolding after_prefix
code_from zero s = none
code_from (suc fuel) s = elim (after_prefix (codes "fwd:") s) [
  | some t ↦ code_from fuel (skip_blanks t)
  | none ↦ elim (after_prefix (codes "fw:") s) [
    | some t ↦ code_from fuel (skip_blanks t)
    | none ↦ code_after (after_prefix (codes "sjt-verify-") s)
  ]
]

-- The code in upper case that the subject of a verification mail carries.
unfoldable pub verification_code : Str → Option Str
unfolding code_from to_upper
verification_code subject = elim (code_from (suc (length subject)) (skip_blanks subject)) [
  | some code ↦ some (to_upper code)
  | none ↦ none
]

abbrev digits_in_brackets : Str → Option Str
digits_in_brackets s =
    let (d, rest) = span is_digit s in
    if leb 6 (length d) && leb (length d) 12 && starts_with rest (codes ")") then some d else none

abbrev digits_after : Option Str → Option Str
digits_after none = none
digits_after (some s) = digits_in_brackets s

-- `\(#(\d{6,12})\)`
unfoldable pub confirm_code : Str → Option Str
unfolding after_prefix starts_with
confirm_code [] = none
confirm_code (c ∷ s) =
    let rest = confirm_code s in
    elim (digits_after (after_prefix (codes "(#") (c ∷ s))) [ some d ↦ some d | none ↦ rest ]

abbrev link_start : Str
link_start = codes "https://mail-settings.google.com/mail/"

abbrev in_link : ℕ → Bool
in_link c = not (is_blank c || c == b'"' || c == 39 || c == b'<' || c == b'>')

-- `https://mail-settings\.google\.com/mail/[^\s"'<>]+`; empty where nothing matches.
unfoldable pub confirm_link : Str → Str
unfolding starts_with
confirm_link [] = []
confirm_link (c ∷ s) =
    let rest = confirm_link s in
    let (found, after) = span in_link (c ∷ s) in
    if starts_with (c ∷ s) link_start && ltb (length link_start) (length found) then found else rest

-- `strings.EqualFold`.
abbrev pub equal_fold : Str → Str → Bool
unfolding str_eq to_lower
equal_fold s t = str_eq (to_lower s) (to_lower t)

abbrev text_of : Option Str → Str
text_of (some s) = s
text_of none = []

abbrev google_forwarding_sender : Str
google_forwarding_sender = codes "forwarding-noreply@google.com"

-- The code and the link of a mail that is Gmail's forwarding confirmation, by its sender, subject
-- and body.
unfoldable pub forward_confirmation : Str → Str → Str → Option (Str × Str)
unfolding equal_fold contains to_lower confirm_code confirm_link str_eq
forward_confirmation sender subject body =
    let code = text_of (confirm_code subject) in
    let link = confirm_link body in
    if not (equal_fold (trim_space sender) google_forwarding_sender)
      && not (contains (to_lower subject) (codes "forwarding confirmation"))
    then none
    else if is_empty code && is_empty link
    then none
    else some (code, link)

test_code : verification_code (codes " Fwd: FW: sjt-verify-ab2cd3ef ok") ≡ some (codes "AB2CD3EF")
unfolding verification_code to_upper
test_code = refl

test_no_code : verification_code (codes "Re: SJT-VERIFY-AB2CD3EF") ≡ none
unfolding verification_code
test_no_code = refl

test_confirm :
    confirm_code (codes "(#123456789) Gmail Forwarding Confirmation") ≡ some (codes "123456789")
unfolding confirm_code
test_confirm = refl
