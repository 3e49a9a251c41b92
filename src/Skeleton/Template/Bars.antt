-- ===== src/Skeleton/Template/Bars.antt =====
-- The loop of `tidyTemplate` that merges bars ends.
use mathlib.Core.Bool.{false≢true}
use kb_retv_services.Prelude.{
  ℕ, zero, suc, ◌+◌, ◌-◌, ◌≤◌, ◌<◌, ◌≡◌, refl, sym, ◌∙◌, inl, inr, true, false, [], ◌∷◌, arith,
  Bool-cases, length,
}
use kb_retv_services.Prelude.Str.{Str, starts_with, contains}
use kb_retv_services.Skeleton.Template.{replace_from, replace_all, bars, bar, collapse}

-- Two bars in a row leave a byte behind the first.
second_bar : (c : ℕ) (s : Str) → starts_with (c ∷ s) bars ≡ true → 0 < length s
unfolding starts_with
second_bar c [] h = ground arith
second_bar c (d ∷ s) h = omega arith

no_bars : contains [] bars ≡ false
unfolding contains starts_with
no_bars = refl

later :
    (c : ℕ) (s : Str)
    → starts_with (c ∷ s) bars ≡ false
    → contains (c ∷ s) bars ≡ true
    → contains s bars ≡ true
unfolding contains
later c s miss h = ground arith

-- One round: it never lengthens a text, and shortens one that holds two bars in a row.
shorter :
    (s : Str)
    → (length (replace_from 0 s bars bar) ≤ length s)
      × (length (replace_from 1 s bars bar) ≤ length s - 1)
      × (contains s bars ≡ true → length (replace_from 0 s bars bar) < length s)
unfolding replace_from
shorter [] = (omega arith, omega arith, λ h. absurd (false≢true (sym no_bars ∙ h)))
shorter (c ∷ s) = elim (Bool-cases (starts_with (c ∷ s) bars)) [
  | inl hit ↦
      let (same, less, strict) = shorter s in
      let more = second_bar c s hit in
      rw hit (omega (arith, less), omega (arith, same), λ _. omega (arith, less))
  | inr miss ↦
      let (same, less, strict) = shorter s in
      rw miss
        (omega (arith, same), omega (arith, same), λ h. omega (arith, strict (later c s miss h)))
]

collapse_done : (fuel : ℕ) (s : Str) → length s ≤ fuel → contains (collapse fuel s) bars ≡ false
unfolding collapse
collapse_done zero [] h = no_bars
collapse_done zero (c ∷ s) h = absurd (omega arith)
collapse_done (suc fuel) s h = elim (Bool-cases (contains s bars)) [
  | inl more ↦
      rw more (collapse_done fuel (replace_all s bars bar) (omega (arith, (shorter s).2 more)))
  | inr done ↦ rw done done
]

collapse_nil : (fuel : ℕ) → collapse fuel [] ≡ []
unfolding collapse
collapse_nil zero = refl
collapse_nil (suc fuel) = rw no_bars

collapse_fuel : (f g : ℕ) (s : Str) → length s ≤ f → length s ≤ g → collapse f s ≡ collapse g s
unfolding collapse
collapse_fuel f g [] h k = collapse_nil f ∙ sym (collapse_nil g)
collapse_fuel zero g (c ∷ s) h k = absurd (omega arith)
collapse_fuel (suc f) zero (c ∷ s) h k = absurd (omega arith)
collapse_fuel (suc f) (suc g) (c ∷ s) h k = elim (Bool-cases (contains (c ∷ s) bars)) [
  | inl more ↦
      let l = (shorter (c ∷ s)).2 more in
      rw more
        (collapse_fuel f g (replace_all (c ∷ s) bars bar) (omega (arith, l)) (omega (arith, l)))
  | inr done ↦ rw done
]

-- The loop that merges bars ends: with as many rounds as the text has bytes it leaves no two
-- bars in a row, and from such a text on, more rounds change nothing.
pub collapse-done :
    (s : Str) (more : ℕ)
    → (contains (collapse (length s) s) bars ≡ false)
      × (collapse (length s + more) s ≡ collapse (length s) s)
collapse-done s more = (
  collapse_done (length s) s (omega arith),
  collapse_fuel (length s + more) (length s) s (omega arith) (omega arith),
)
