-- ===== src/Skeleton/Template.antt =====
-- The templates of tool answers: `fillTemplate` to `renderHeadlineVariants` of
-- internal/application/skeleton/orchestrator.go, with the functions of `strings` and the regular
-- expression `\{[a-z_]+\}` that they call.
pub mod Bars
use kb_retv_services.Prelude.{
  ℕ, zero, suc, ◌+◌, ◌-◌, ◌*◌, ◌/◌, ◌%◌, ◌^◌, ◌≤◌, ◌<◌, ◌≡◌, refl, sym, ap, ◌∙◌, ◌≢◌, ◌↔◌, ◌⊎◌, inl,
  inr, Bool, true, false, not, ◌&&◌, ◌||◌, Option, none, some, List, [], ◌∷◌, ◌++◌, map, arith, ltb,
  leb, ◌==◌, if◌then◌else◌, ltb→lt, lt→ltb, leb→le, le→leb, ==_iff, tests, Bool-cases, Option-cases,
  length, get_elem?, take, any, all, keep, length-append, length-take_le, length-keep_le, All,
  All-append, All-take, All-keep, Result, ok, err, Result-cases,
}
use kb_retv_services.Prelude.Int.{
  ℤ, pos, negsuc, pos_part, neg_part, sub_ℕ, ◌+ℤ◌, ◌≤ℤ◌, ◌<ℤ◌, ltb_ℤ, leb_ℤ, max_ℤ, min_ℤ, +ℤ_parts,
  eq_of_parts, int_laws, max_ℤ_bounds, min_ℤ_bounds, min_max_bounds,
}
use kb_retv_services.Prelude.Str.{
  Str, codes, str_eq, str_eq_refl, eq_of_str_eq, str_eq_iff, starts_with, contains, to_lower,
  trim_space, ends_with, itoa, is_empty, trim_suffix,
}
use kb_retv_services.Prelude.Dict.{
  Dict, find, remove, put, prune, find-remove, find-put, length-remove_le, length-prune_le, IsMap,
  passing, find-prune, prune-IsMap, remove-IsMap, put-IsMap,
}

-- `strings.ReplaceAll(s, old, new)` for a text `old` that is not empty; `skip` bytes of a match are
-- still to be dropped.
unfoldable pub replace_from : ℕ → Str → Str → Str → Str
replace_from skip [] old new = []
replace_from (suc k) (c ∷ s) old new = replace_from k s old new
replace_from zero (c ∷ s) old new =
    let hit = starts_with (c ∷ s) old in
    let rest = replace_from (if hit then length old - 1 else 0) s old new in
    if hit then new ++ rest else c ∷ rest

abbrev pub replace_all : Str → Str → Str → Str
replace_all s old new = replace_from 0 s old new

abbrev is_name : ℕ → Bool
is_name c = leb b'a' c && leb c b'z' || c == b'_'

abbrev one_more : Option ℕ → Option ℕ
one_more none = none
one_more (some n) = some (suc n)

-- The bytes up to and with the brace that closes a placeholder, after its opening brace.
name_end : Bool → Str → Option ℕ
name_end seen [] = none
name_end seen (c ∷ s) =
    let rest = name_end true s in
    if is_name c then one_more rest else if c == b'}' && seen then some 1 else none

-- The length less one of the placeholder that the text starts with.
placeholder_at : Str → Option ℕ
unfolding name_end
placeholder_at [] = none
placeholder_at (c ∷ s) = if c == b'{' then name_end false s else none

-- `placeholderRe.MatchString(s)`.
unfoldable pub has_placeholder : Str → Bool
unfolding placeholder_at
has_placeholder [] = false
has_placeholder (c ∷ s) = elim (placeholder_at (c ∷ s)) [ some n ↦ true | none ↦ has_placeholder s ]

abbrev skip_of : Option ℕ → ℕ
skip_of none = 0
skip_of (some n) = n

abbrev kept : Option ℕ → ℕ → Str → Str
kept none c rest = c ∷ rest
kept (some n) c rest = rest

strip_from : ℕ → Str → Str
unfolding placeholder_at
strip_from skip [] = []
strip_from (suc k) (c ∷ s) = strip_from k s
strip_from zero (c ∷ s) =
    let found = placeholder_at (c ∷ s) in kept found c (strip_from (skip_of found) s)

-- `placeholderRe.ReplaceAllString(s, "")`.
unfoldable pub strip_placeholders : Str → Str
unfolding strip_from
strip_placeholders s = strip_from 0 s

abbrev pub bars : Str
bars = codes "||"

abbrev pub bar : Str
bar = codes "|"

-- The loop of `tidyTemplate`, with fuel.
unfoldable pub collapse : ℕ → Str → Str
collapse zero s = s
collapse (suc fuel) s =
    let rest = collapse fuel (replace_all s bars bar) in if contains s bars then rest else s

trim_bars_left : Str → Str
trim_bars_left [] = []
trim_bars_left (c ∷ s) = if c == b'|' then trim_bars_left s else c ∷ s

trim_bars_right : Str → Str
trim_bars_right [] = []
trim_bars_right (c ∷ s) =
    let rest = trim_bars_right s in if is_empty rest && c == b'|' then [] else c ∷ rest

-- `tidyTemplate`; each round of its loop shortens the text, whose length is fuel enough.
unfoldable pub tidy_template : Str → Str
unfolding strip_placeholders collapse trim_bars_left trim_bars_right trim_space
tidy_template s =
    let t = strip_placeholders s in
    trim_bars_right (trim_bars_left (trim_space (collapse (length t) t)))

abbrev pub Row : Type 0
Row = Dict Str

-- `fillTemplate`: the keys are replaced one after the other, in the order of the loop.
unfoldable pub fill_template : Str → Row → Str
unfolding replace_from
fill_template tmpl [] = tmpl
fill_template tmpl ((k, v) ∷ row) =
    fill_template (replace_all tmpl (codes "{" ++ k ++ codes "}") v) row

-- `maps.Copy(dst, src)`.
unfoldable pub copy_into : Row → Row → Row
unfolding put
copy_into dst [] = dst
copy_into dst ((k, v) ∷ src) = copy_into (put k v dst) src

-- `headlineFields`.
unfoldable pub headline_fields : List Row → Row → Row
unfolding copy_into
headline_fields [] params = copy_into [] params
headline_fields (row ∷ rows) params = copy_into (copy_into [] params) row

-- `renderHeadline`: the text, and whether a placeholder was left unfilled.
unfoldable pub render_headline : Str → ℕ → Row → Str × Bool
unfolding replace_from fill_template has_placeholder tidy_template itoa
render_headline tmpl n fields =
    let filled = fill_template (replace_all tmpl (codes "{n}") (itoa n)) fields in
    (tidy_template filled, has_placeholder filled)

-- `renderHeadlineVariants`; a nil map is the empty one.
unfoldable pub render_headline_variants : Row → ℕ → Row → Row
unfolding render_headline
render_headline_variants [] n fields = []
render_headline_variants ((locale, tmpl) ∷ tmpls) n fields =
    (locale, (render_headline tmpl n fields).0) ∷ render_headline_variants tmpls n fields

test_headline :
    render_headline (codes "{n} cases|{site}||{who} ") 3 ((codes "who", codes "Ann") ∷ [])
    ≡ (codes "3 cases|Ann", true)
unfolding render_headline contains starts_with
test_headline = refl
