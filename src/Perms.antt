-- ===== src/Perms.antt =====
-- The permission keys and the check of a grant: internal/shared/perms/perms.go.
pub mod Grants
use kb_retv_services.Prelude.{
  ℕ, zero, suc, ◌+◌, ◌-◌, ◌*◌, ◌/◌, ◌%◌, ◌^◌, ◌≤◌, ◌<◌, ◌≡◌, refl, sym, ap, ◌∙◌, ◌≢◌, ◌↔◌, ◌⊎◌, inl,
  inr, Bool, true, false, not, ◌&&◌, ◌||◌, Option, none, some, List, [], ◌∷◌, ◌++◌, map, arith, ltb,
  leb, ◌==◌, if◌then◌else◌, ltb→lt, lt→ltb, leb→le, le→leb, ==_iff, tests, Bool-cases, Option-cases,
  length, get_elem?, take, any, all, keep, length-append, length-take_le, length-keep_le, All,
  All-append, All-take, All-keep, Result, ok, err, Result-cases,
}
use kb_retv_services.Prelude.Int.{
  ℤ, pos, negsuc, pos_part, neg_part, sub_ℕ, ◌+ℤ◌, ◌≤ℤ◌, ◌<ℤ◌, ltb_ℤ, leb_ℤ, max_ℤ, min_ℤ, +ℤ_parts,
  eq_of_parts, int_laws, max_ℤ_bounds, min_ℤ_bounds, min_max_bounds,
}
use kb_retv_services.Prelude.Str.{
  Str, codes, str_eq, str_eq_refl, eq_of_str_eq, str_eq_iff, starts_with, contains, to_lower,
  trim_space, ends_with, itoa, is_empty, trim_suffix,
}

abbrev pub perm_keys : List Str
perm_keys =
    codes "console.access"
    ∷ codes "company.create"
    ∷ codes "company.update"
    ∷ codes "company.archive"
    ∷ codes "company.reparent"
    ∷ codes "company.admin"
    ∷ codes "report.view"
    ∷ codes "report.create"
    ∷ codes "report.update"
    ∷ codes "report.delete"
    ∷ codes "report.assign"
    ∷ codes "employee.view"
    ∷ codes "team.view"
    ∷ codes "customer.view"
    ∷ codes "site.view"
    ∷ codes "node.view"
    ∷ codes "kb.search"
    ∷ codes "portal.view"
    ∷ []

mem_str : Str → List Str → Bool
mem_str key [] = false
mem_str key (k ∷ ks) = str_eq k key || mem_str key ks

-- `Valid`.
unfoldable pub valid_perm : Str → Bool
unfolding mem_str str_eq
valid_perm key = mem_str key perm_keys

-- The tests of one round of the loop of `Can`.
unfoldable pub grants : Str → Str → Bool
grants g required =
    str_eq g (codes "*")
    || str_eq g required
    || ends_with g (codes ".*") && starts_with required (trim_suffix g (codes "*"))

grants_any : List Str → Str → Bool
unfolding grants
grants_any [] required = false
grants_any (g ∷ gs) required = if grants g required then true else grants_any gs required

-- `Can`.
unfoldable pub can : List Str → Str → Bool
unfolding grants_any
can granted required = if is_empty required then true else grants_any granted required
