-- ===== src/Intake/Spec/Normal.antt =====
-- What a normalised specification is, and when an intake is ready.
use kb_retv_services.Prelude.{
  ◌≤◌, ◌≡◌, refl, ap, ◌∙◌, ◌↔◌, inl, inr, Bool, true, false, not, ◌||◌, List, [], ◌∷◌, ◌++◌, arith,
  Bool-cases, length, keep, All,
}
use kb_retv_services.Prelude.Str.{Str, str_eq, str_eq_refl, eq_of_str_eq, str_eq_iff}
use kb_retv_services.Prelude.Dict.{Dict}
use kb_retv_services.Intake.Spec.{
  Spec, mem_str, clean_key, clean_after, clean_keys, or_default, normalized, spec_fields,
  is_missing, missing, ready, status_of, status_for,
}

-- No key stands twice.
abbrev pub IsDistinct : List Str → Type 0
IsDistinct [] = Unit
IsDistinct (k ∷ ks) = (mem_str k ks ≡ false) × IsDistinct ks

mem_str-clean_after :
    (k : Str) (seen ss : List Str) → mem_str k seen ≡ true → mem_str k (clean_after seen ss) ≡ false
unfolding mem_str clean_after
mem_str-clean_after k seen [] h = refl
mem_str-clean_after k seen (s ∷ ss) h = ground (
  arith,
  mem_str-clean_after k seen ss,
  mem_str-clean_after k (clean_key s ∷ seen) ss,
  str_eq_iff (clean_key s) k,
)

clean_after-IsDistinct : (seen ss : List Str) → IsDistinct (clean_after seen ss)
unfolding mem_str clean_after
clean_after-IsDistinct seen [] = tt
clean_after-IsDistinct seen (s ∷ ss) = ground (
  arith,
  clean_after-IsDistinct seen ss,
  clean_after-IsDistinct (clean_key s ∷ seen) ss,
  mem_str-clean_after (clean_key s) (clean_key s ∷ seen) ss,
  str_eq_refl (clean_key s),
)

mem_str-keep :
    (p : Str → Bool) (k : Str) (ks : List Str)
    → mem_str k ks ≡ false
    → mem_str k (keep p ks) ≡ false
unfolding mem_str
mem_str-keep p k [] h = refl
mem_str-keep p k (j ∷ ks) h = ground (arith, mem_str-keep p k ks)

keep-IsDistinct : (p : Str → Bool) (ks : List Str) → IsDistinct ks → IsDistinct (keep p ks)
keep-IsDistinct p [] h = tt
keep-IsDistinct p (k ∷ ks) h = ground (arith, keep-IsDistinct p ks, mem_str-keep p k ks)

mem_str-append :
    (k : Str) (xs ys : List Str) → mem_str k (xs ++ ys) ≡ (mem_str k xs || mem_str k ys)
unfolding mem_str
mem_str-append k [] ys = refl
mem_str-append k (x ∷ xs) ys = ground (arith, mem_str-append k xs ys)

mem_str-keep_out :
    (k : Str) (r ks : List Str)
    → mem_str k r ≡ true
    → mem_str k (keep (λ j. not (mem_str j r)) ks) ≡ false
unfolding mem_str
mem_str-keep_out k r [] h = refl
mem_str-keep_out k r (j ∷ ks) h = elim (Bool-cases (str_eq j k)) [
  | inl same ↦ rw (ap (λ i. mem_str i r) (eq_of_str_eq j k same) ∙ h) (mem_str-keep_out k r ks h)
  | inr apart ↦ ground (arith, mem_str-keep_out k r ks h)
]

mem_str-here : (x : Str) (xs : List Str) → mem_str x (x ∷ xs) ≡ true
unfolding mem_str
mem_str-here x xs = ground (arith, str_eq_refl x)

mem_str-later : (j x : Str) (xs : List Str) → mem_str j xs ≡ true → mem_str j (x ∷ xs) ≡ true
unfolding mem_str
mem_str-later j x xs m = ground arith

append-IsDistinct :
    (xs ys : List Str)
    → IsDistinct xs
    → IsDistinct ys
    → ((k : Str) → mem_str k xs ≡ true → mem_str k ys ≡ false)
    → IsDistinct (xs ++ ys)
append-IsDistinct [] ys h k apart = k
append-IsDistinct (x ∷ xs) ys (fresh, h) k apart = (
  mem_str-append x xs ys ∙ ap (λ b. b || mem_str x ys) fresh ∙ apart x (mem_str-here x xs),
  append-IsDistinct xs ys h k (λ j m. apart j (mem_str-later j x xs m)),
)

or_default-IsDistinct : (ks : List Str) → IsDistinct ks → IsDistinct (or_default ks)
unfolding mem_str str_eq
or_default-IsDistinct [] h = (refl, (refl, tt))
or_default-IsDistinct (k ∷ ks) h = h

or_default-nonempty : (ks : List Str) → 1 ≤ length (or_default ks)
or_default-nonempty [] = omega arith
or_default-nonempty (k ∷ ks) = omega arith

-- Whatever the company configured, a normalised specification requires at least one field, and
-- no field stands twice among those that it requires and those that are optional.
pub normalized-IsDistinct :
    (s : Spec) → (1 ≤ length (normalized s).required) × IsDistinct (spec_fields s)
unfolding normalized spec_fields clean_keys
normalized-IsDistinct s =
    let required = or_default (clean_keys s.required) in
    let optional = clean_keys s.optional in
    (
      or_default-nonempty (clean_keys s.required),
      append-IsDistinct required (keep (λ k. not (mem_str k required)) optional)
          (or_default-IsDistinct (clean_keys s.required) (clean_after-IsDistinct [] s.required))
          (keep-IsDistinct (λ k. not (mem_str k required)) optional
            (clean_after-IsDistinct [] s.optional))
          (λ k m. mem_str-keep_out k required optional m),
    )

status_of-keep :
    (p : Str → Bool) (ks : List Str) → (status_of (keep p ks) ≡ ready) ↔ All (λ k. p k ≡ false) ks
status_of-keep p [] = (λ h. tt, λ h. refl)
status_of-keep p (k ∷ ks) = elim (Bool-cases (p k)) [
  | inl gone ↦ rw gone (λ h. cc, λ h. cc)
  | inr there ↦ let (to, from) = status_of-keep p ks in rw there (λ h. (refl, to h), λ h. from h.1)
]

-- An intake is ready exactly when each required field of the normalised specification has a
-- text that is not blank.
pub status_for_iff :
    (s : Spec) (fields : Dict Str)
    → (status_for s fields ≡ ready) ↔ All (λ k. is_missing fields k ≡ false) (normalized s).required
unfolding status_for missing
status_for_iff s fields = status_of-keep (is_missing fields) (normalized s).required
