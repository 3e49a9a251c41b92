-- ===== src/Prelude/Str/Numbers.antt =====
-- Digits and decimal numbers in texts: `strconv.ParseInt` on the digits that a pattern matched.
use Prim.Native.Nat.{ℕ, zero, suc, ◌+◌, ◌-◌, ◌*◌, ◌/◌, ◌%◌, ◌<◌}
use mathlib.Core.Path.{◌≡◌, refl, ap, ◌∙◌}
use mathlib.Core.Bool.{Bool, true, ◌&&◌, ◌||◌}
use mathlib.Core.List.{[], ◌∷◌, ◌++◌, reverse, reverse_aux, reverse-cons}
use native.Mathlib.Omega.{arith}
use kb_retv_services.Prelude.Tests.{◌==◌, leb, ltb, if◌then◌else◌, Bool-cases}
use kb_retv_services.Prelude.Lists.{All}
use kb_retv_services.Prelude.Str.{Str, itoa, digits_rev}
use mathlib.Core.Logic.{inl, inr}

abbrev pub is_digit : ℕ → Bool
is_digit c = leb b'0' c && leb c b'9'

-- What `\b` and `\w` take for a part of a word.
abbrev pub is_word : ℕ → Bool
is_word c = is_digit c || (leb b'A' c && leb c b'Z') || (leb b'a' c && leb c b'z') || c == b'_'

-- The longest prefix that passes a test, and the rest.
abbrev pub span : (ℕ → Bool) → Str → Str × Str
span p [] = ([], [])
span p (c ∷ s) = let (a, b) = span p s in if p c then (c ∷ a, b) else ([], c ∷ s)

unfoldable pub value_from : ℕ → Str → ℕ
value_from acc [] = acc
value_from acc (c ∷ s) = value_from (acc * 10 + (c - b'0')) s

-- The number that a text of digits is.
abbrev pub value : Str → ℕ
value s = value_from 0 s

abbrev pub AllDigits : Str → Type 0
AllDigits s = All (λ c. is_digit c ≡ true) s

value-append_one :
    (acc : ℕ) (s : Str) (c : ℕ) → value_from acc (s ++ c ∷ []) ≡ value_from acc s * 10 + (c - b'0')
unfolding value_from
value-append_one acc [] c = refl
value-append_one acc (d ∷ s) c = value-append_one (acc * 10 + (d - b'0')) s c

value-reverse_cons :
    (c : ℕ) (s : Str) → value (reverse (c ∷ s)) ≡ value (reverse s) * 10 + (c - b'0')
value-reverse_cons c s = ap value (reverse-cons c s) ∙ value-append_one 0 (reverse s) c

value-digits : (fuel n : ℕ) → n < fuel → value (reverse (digits_rev fuel n)) ≡ n
unfolding value_from digits_rev
value-digits zero n h = absurd (omega arith)
value-digits (suc fuel) n h = elim (Bool-cases (ltb n 10)) [
  | inl small ↦ rw small (omega arith)
  | inr big ↦ rw big (
      value-reverse_cons (b'0' + n % 10) (digits_rev fuel (n / 10))
      ∙ ap (λ v. v * 10 + (b'0' + n % 10 - b'0')) (value-digits fuel (n / 10) (ground (arith)))
      ∙ omega arith)
]

AllDigits-digits : (fuel n : ℕ) → AllDigits (digits_rev fuel n)
unfolding digits_rev
AllDigits-digits zero n = tt
AllDigits-digits (suc fuel) n = elim (Bool-cases (ltb n 10)) [
  | inl small ↦ rw small (ground arith, tt)
  | inr big ↦ rw big (ground arith, AllDigits-digits fuel (n / 10))
]

AllDigits-reverse : (s t : Str) → AllDigits s → AllDigits t → AllDigits (reverse_aux s t)
AllDigits-reverse [] t h k = k
AllDigits-reverse (c ∷ s) t (d, h) k = AllDigits-reverse s (c ∷ t) h (d, k)

-- A printed number reads back as itself.
pub value-itoa : (n : ℕ) → value (itoa n) ≡ n
unfolding itoa
value-itoa n = value-digits (suc n) n (omega arith)

pub AllDigits-itoa : (n : ℕ) → AllDigits (itoa n)
unfolding itoa
AllDigits-itoa n = AllDigits-reverse (digits_rev (suc n) n) [] (AllDigits-digits (suc n) n) tt

-- A text of digits ends where the digits end.
pub span-digits :
    (s t : Str) → AllDigits s → span is_digit t ≡ ([], t) → span is_digit (s ++ t) ≡ (s, t)
span-digits [] t h e = e
span-digits (c ∷ s) t (d, h) e = rw (d, span-digits s t h e) refl

pub span-AllDigits : (s : Str) → AllDigits ((span is_digit s).0)
span-AllDigits [] = tt
span-AllDigits (c ∷ s) = elim (Bool-cases (is_digit c)) [
  | inl d ↦ rw d (d, span-AllDigits s)
  | inr n ↦ rw n tt
]
