-- ===== src/Prelude/Str/Affixes.antt =====
-- Prefixes and suffixes of texts, as equations.
use Prim.Native.Nat.{ℕ}
use mathlib.Core.Path.{◌≡◌, refl, ap}
use mathlib.Core.Logic.{◌↔◌, inl, inr}
use mathlib.Core.Bool.{true, false}
use mathlib.Core.List.{[], ◌∷◌, ◌++◌}
use native.Mathlib.Omega.{arith}
use kb_retv_services.Prelude.Tests.{Bool-cases}
use kb_retv_services.Prelude.Str.{
  Str, str_eq, str_eq_refl, eq_of_str_eq, starts_with, ends_with, trim_suffix,
}

starts_with_sound : (s p : Str) → starts_with s p ≡ true → (r : Str) × (s ≡ p ++ r)
unfolding starts_with
starts_with_sound s [] h = (s, refl)
starts_with_sound [] (c ∷ p) h = cc
starts_with_sound (d ∷ s) (c ∷ p) h =
    let (r, e) = starts_with_sound s p (ground arith) in (r, ground arith)

pub starts_with-append : (p r : Str) → starts_with (p ++ r) p ≡ true
unfolding starts_with
starts_with-append [] r = refl
starts_with-append (c ∷ p) r = ground (arith, starts_with-append p r)

-- A text starts with the prefixes of it.
pub starts_with_iff : (s p : Str) → (starts_with s p ≡ true) ↔ ((r : Str) × (s ≡ p ++ r))
starts_with_iff s p = (starts_with_sound s p, λ w. rw (w.1) (starts_with-append p w.0))

ends_with_sound : (s p : Str) → ends_with s p ≡ true → (q : Str) × (s ≡ q ++ p)
unfolding ends_with
ends_with_sound [] p h = ([], eq_of_str_eq [] p h)
ends_with_sound (d ∷ s) p h = elim (Bool-cases (str_eq (d ∷ s) p)) [
  | inl whole ↦ ([], eq_of_str_eq (d ∷ s) p whole)
  | inr part ↦ let (q, e) = ends_with_sound s p (rw part at h) in (d ∷ q, ap (λ t. d ∷ t) e)
]

pub ends_with-append : (q p : Str) → ends_with (q ++ p) p ≡ true
unfolding ends_with
ends_with-append [] [] = refl
ends_with-append [] (c ∷ p) = ground (arith, str_eq_refl p)
ends_with-append (d ∷ q) p = ground (arith, ends_with-append q p)

append_one-ne : (q : Str) (x : ℕ) → str_eq (q ++ x ∷ []) [] ≡ false
unfolding str_eq
append_one-ne [] x = refl
append_one-ne (c ∷ q) x = refl

pub trim_suffix-append_one : (q : Str) (x : ℕ) → trim_suffix (q ++ x ∷ []) (x ∷ []) ≡ q
unfolding trim_suffix
trim_suffix-append_one [] x = ground arith
trim_suffix-append_one (c ∷ q) x = ground (arith, append_one-ne q x, trim_suffix-append_one q x)

-- A text ends with the suffixes of it.
pub ends_with_iff : (s p : Str) → (ends_with s p ≡ true) ↔ ((q : Str) × (s ≡ q ++ p))
ends_with_iff s p = (ends_with_sound s p, λ w. rw (w.1) (ends_with-append w.0 p))
