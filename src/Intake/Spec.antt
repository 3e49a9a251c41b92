-- ===== src/Intake/Spec.antt =====
-- Which fields an intake needs: internal/application/workflows/intake/spec.go, without `Lineage`.
pub mod Normal
use kb_retv_services.Prelude.{
  ℕ, zero, suc, ◌+◌, ◌-◌, ◌*◌, ◌/◌, ◌%◌, ◌^◌, ◌≤◌, ◌<◌, ◌≡◌, refl, sym, ap, ◌∙◌, ◌≢◌, ◌↔◌, ◌⊎◌, inl,
  inr, Bool, true, false, not, ◌&&◌, ◌||◌, Option, none, some, List, [], ◌∷◌, ◌++◌, map, arith, ltb,
  leb, ◌==◌, if◌then◌else◌, ltb→lt, lt→ltb, leb→le, le→leb, ==_iff, tests, Bool-cases, Option-cases,
  length, get_elem?, take, any, all, keep, length-append, length-take_le, length-keep_le, All,
  All-append, All-take, All-keep, Result, ok, err, Result-cases,
}
use kb_retv_services.Prelude.Int.{
  ℤ, pos, negsuc, pos_part, neg_part, sub_ℕ, ◌+ℤ◌, ◌≤ℤ◌, ◌<ℤ◌, ltb_ℤ, leb_ℤ, max_ℤ, min_ℤ, +ℤ_parts,
  eq_of_parts, int_laws, max_ℤ_bounds, min_ℤ_bounds, min_max_bounds,
}
use kb_retv_services.Prelude.Str.{
  Str, codes, str_eq, str_eq_refl, eq_of_str_eq, str_eq_iff, starts_with, contains, to_lower,
  trim_space, ends_with, itoa, is_empty, trim_suffix,
}
use kb_retv_services.Prelude.Dict.{
  Dict, find, remove, put, prune, find-remove, find-put, length-remove_le, length-prune_le, IsMap,
  passing, find-prune, prune_absent, prune-IsMap, remove-IsMap, put-IsMap,
}

pub record Spec : Type 0 where
  pub required : List Str
  pub optional : List Str

abbrev pub default_spec : Spec
default_spec = record {
  required = codes "problem_detail" ∷ codes "product" ∷ [];
  optional = codes "contact" ∷ codes "severity" ∷ [];
}

-- `contains`.
unfoldable pub mem_str : Str → List Str → Bool
mem_str k [] = false
mem_str k (j ∷ js) = str_eq j k || mem_str k js

abbrev pub clean_key : Str → Str
clean_key s = to_lower (trim_space s)

-- The loop of `cleanKeys`, with the keys that were seen.
unfoldable pub clean_after : List Str → List Str → List Str
unfolding mem_str
clean_after seen [] = []
clean_after seen (s ∷ ss) =
    let key = clean_key s in
    let skip = clean_after seen ss in
    let rest = clean_after (key ∷ seen) ss in
    if is_empty key || mem_str key seen then skip else key ∷ rest

-- `cleanKeys`.
unfoldable pub clean_keys : List Str → List Str
unfolding clean_after
clean_keys ss = clean_after [] ss

abbrev pub or_default : List Str → List Str
or_default [] = default_spec.required
or_default (k ∷ ks) = k ∷ ks

-- `Normalized`.
unfoldable pub normalized : Spec → Spec
unfolding clean_keys mem_str
normalized s =
    let required = or_default (clean_keys s.required) in
    record {
      required = required;
      optional = keep (λ k. not (mem_str k required)) (clean_keys s.optional);
    }

-- `Fields`.
unfoldable pub spec_fields : Spec → List Str
unfolding normalized
spec_fields s = let n = normalized s in n.required ++ n.optional

abbrev pub field_text : Option Str → Str
field_text none = []
field_text (some v) = v

-- `strings.TrimSpace(fields[key]) == ""`.
abbrev pub is_missing : Dict Str → Str → Bool
is_missing fields key = is_empty (trim_space (field_text (find key fields)))

-- `Missing`.
unfoldable pub missing : Spec → Dict Str → List Str
unfolding normalized
missing s fields = keep (is_missing fields) (normalized s).required

pub data IntakeStatus : Type 0 where
  ready incomplete : IntakeStatus

abbrev status_of : List Str → IntakeStatus
status_of [] = ready
status_of (k ∷ ks) = incomplete

-- `StatusFor`.
unfoldable pub status_for : Spec → Dict Str → IntakeStatus
unfolding missing
status_for s fields = status_of (missing s fields)

pub record FieldDefinition : Type 0 where
  pub key : Str
  pub required : Bool

abbrev usable_keys : Bool → List FieldDefinition → List Str
usable_keys required [] = []
usable_keys required (d ∷ ds) =
    let rest = usable_keys required ds in
    let key = clean_key d.key in
    if is_empty key
    then rest
    else if required
    then (if d.required then key ∷ rest else rest)
    else if d.required
    then rest
    else key ∷ rest

abbrev spec_or_default : List Str → List Str → Spec × Bool
spec_or_default [] [] = (default_spec, false)
spec_or_default rs os = (normalized (record { required = rs; optional = os }), true)

-- `SpecFromDefinitions`.
unfoldable pub spec_from_definitions : List FieldDefinition → Spec × Bool
unfolding normalized
spec_from_definitions ds = spec_or_default (usable_keys true ds) (usable_keys false ds)
