-- ===== src/Perms/Grants.antt =====
-- What a grant allows, described without the tests of the code.
use kb_retv_services.Prelude.{
  ◌≡◌, refl, sym, ap, ◌∙◌, ◌↔◌, ◌⊎◌, inl, inr, true, false, List, [], ◌∷◌, ◌++◌, arith, Bool-cases,
  all,
}
use kb_retv_services.Prelude.Str.{
  Str, codes, str_eq, str_eq_refl, eq_of_str_eq, starts_with, ends_with,
}
use mathlib.Core.Bool.{false≢true}
use mathlib.Core.List.{append_assoc}
use kb_retv_services.Prelude.Str.{trim_suffix}
use kb_retv_services.Prelude.Str.Affixes.{starts_with_iff, ends_with_iff, trim_suffix-append_one}
use kb_retv_services.Perms.{grants, grants_any, can}

-- The grant is `*`, or the permission itself, or `p.*` for a permission `p.…`.
abbrev pub Covers : Str → Str → Type 0
Covers g required =
    (g ≡ codes "*")
    ⊎ (g ≡ required)
    ⊎ ((p : Str) × (r : Str) × (g ≡ p ++ codes ".*") × (required ≡ p ++ codes "." ++ r))

star_split : (p : Str) → p ++ codes ".*" ≡ (p ++ codes ".") ++ codes "*"
star_split p = sym (append_assoc p (codes ".") (codes "*"))

family : (p g required : Str) → g ≡ p ++ codes ".*" → trim_suffix g (codes "*") ≡ p ++ codes "."
family p g required e =
    ap (λ t. trim_suffix t (codes "*")) (e ∙ star_split p)
    ∙ trim_suffix-append_one (p ++ codes ".") b'*'

grants_sound : (g required : Str) → grants g required ≡ true → Covers g required
unfolding grants
grants_sound g required h = elim (Bool-cases (str_eq g (codes "*"))) [
  | inl all ↦ inl (eq_of_str_eq g _ all)
  | inr one ↦ elim (Bool-cases (str_eq g required)) [
    | inl same ↦ inr (inl (eq_of_str_eq g required same))
    | inr other ↦
        let e : ends_with g (codes ".*") ≡ true = ground arith in
        let s : starts_with required (trim_suffix g (codes "*")) ≡ true = ground arith in
        let (p, e') = (ends_with_iff g (codes ".*")).0 e in
        let (r, s') = (starts_with_iff required _).0 s in
        inr (inr (p, r, e', s' ∙ ap (λ t. t ++ r) (family p g required e')))
  ]
]

grants_complete : (g required : Str) → Covers g required → grants g required ≡ true
unfolding grants
grants_complete g required (inl e) = rw e (ground (arith, str_eq_refl (codes "*")))
grants_complete g required (inr (inl e)) = rw e (ground (arith, str_eq_refl required))
grants_complete g required (inr (inr (p, r, e, s))) =
    let ends : ends_with g (codes ".*") ≡ true = (ends_with_iff g (codes ".*")).1 (p, e) in
    let starts : starts_with required (trim_suffix g (codes "*")) ≡ true =
      (starts_with_iff required _).1 (r, rw (family p g required e) s) in
    ground arith

-- Some grant of the list covers the permission.
abbrev pub CoveredBy : List Str → Str → Type 0
CoveredBy [] required = ⊥
CoveredBy (g ∷ gs) required = Covers g required ⊎ CoveredBy gs required

grants_any_iff :
    (granted : List Str) (required : Str)
    → (grants_any granted required ≡ true) ↔ CoveredBy granted required
unfolding grants_any
grants_any_iff [] required = (λ h. cc, λ w. absurd w)
grants_any_iff (g ∷ gs) required = elim (Bool-cases (grants g required)) [
  | inl here ↦ rw here (λ _. inl (grants_sound g required here), λ _. refl)
  | inr gone ↦
      let (to, from) = grants_any_iff gs required in
      rw gone (λ h. inr (to h), λ w. later gone from w)
]
  where
    later :
        grants g required ≡ false
        → (CoveredBy gs required → grants_any gs required ≡ true)
        → Covers g required ⊎ CoveredBy gs required
        → grants_any gs required ≡ true
    later gone from (inl c) = absurd (false≢true (sym gone ∙ grants_complete g required c))
    later gone from (inr w) = from w

-- A user may do what requires a permission exactly when it requires none, or one of the user's
-- grants is `*`, the permission itself, or `p.*` for a permission `p.…`.
pub can_iff :
    (granted : List Str) (required : Str)
    → (can granted required ≡ true) ↔ ((required ≡ []) ⊎ CoveredBy granted required)
unfolding can
can_iff granted [] = (λ _. inl refl, λ _. refl)
can_iff granted (c ∷ required) =
    let (to, from) = grants_any_iff granted (c ∷ required) in (λ h. inr (to h), named from)
  where
    named :
        (CoveredBy granted (c ∷ required) → grants_any granted (c ∷ required) ≡ true)
        → ((c ∷ required ≡ []) ⊎ CoveredBy granted (c ∷ required))
        → grants_any granted (c ∷ required) ≡ true
    named from (inl e) = cc
    named from (inr w) = from w
