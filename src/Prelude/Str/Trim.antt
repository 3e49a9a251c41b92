-- ===== src/Prelude/Str/Trim.antt =====
-- About `strings.TrimSpace`.
use Prim.Native.Nat.{ℕ}
use mathlib.Core.Path.{◌≡◌, refl, ap, ◌∙◌}
use mathlib.Core.Logic.{inl, inr}
use mathlib.Core.Bool.{false}
use mathlib.Core.List.{[], ◌∷◌, ◌++◌, reverse, reverse-cons, reverse-reverse, reverse-append}
use kb_retv_services.Prelude.Tests.{Bool-cases}
use kb_retv_services.Prelude.Str.{Str, is_space, trim_left, trim_space}

trim_left_idem : (s : Str) → trim_left (trim_left s) ≡ trim_left s
unfolding trim_left
trim_left_idem [] = refl
trim_left_idem (c ∷ s) = elim (Bool-cases (is_space c)) [
  | inl e ↦ rw e (trim_left_idem s)
  | inr e ↦ rw (e, e) refl
]

trim_left-append_one :
    (s : Str) (c : ℕ) → is_space c ≡ false → trim_left (s ++ c ∷ []) ≡ trim_left s ++ c ∷ []
unfolding trim_left
trim_left-append_one [] c e = rw e refl
trim_left-append_one (d ∷ s) c e = elim (Bool-cases (is_space d)) [
  | inl f ↦ rw f (trim_left-append_one s c e)
  | inr f ↦ rw f refl
]

trim_end_cons :
    (c : ℕ) (s : Str)
    → is_space c ≡ false
    → reverse (trim_left (reverse (c ∷ s))) ≡ c ∷ reverse (trim_left (reverse s))
trim_end_cons c s e =
    ap (λ t. reverse (trim_left t)) (reverse-cons c s)
    ∙ ap reverse (trim_left-append_one (reverse s) c e)
    ∙ reverse-append (trim_left (reverse s)) (c ∷ [])

starts_black : (c : ℕ) (s t : Str) → is_space c ≡ false → t ≡ c ∷ s → trim_left t ≡ t
unfolding trim_left
starts_black c s t e is = rw (is, e) refl

-- Trimming the end of a text does not uncover white space at its start.
trim_both : (s : Str) → let t = reverse (trim_left (reverse (trim_left s))) in trim_left t ≡ t
unfolding trim_left
trim_both [] = refl
trim_both (c ∷ s) = elim (Bool-cases (is_space c)) [
  | inl e ↦ rw e (trim_both s)
  | inr e ↦ rw e (
      starts_black c (reverse (trim_left (reverse s))) (reverse (trim_left (reverse (c ∷ s)))) e
        (trim_end_cons c s e))
]

-- Trimming twice is trimming once.
pub trim_space_idem : (s : Str) → trim_space (trim_space s) ≡ trim_space s
unfolding trim_space
trim_space_idem s =
    ap (λ t. reverse (trim_left (reverse t))) (trim_both s)
    ∙ ap (λ t. reverse (trim_left t)) (reverse-reverse (trim_left (reverse (trim_left s))))
    ∙ ap reverse (trim_left_idem (reverse (trim_left s)))
