-- ===== src/Tools/Params.antt =====
-- The parameters that a message gives a tool: internal/application/tools/params.go. What a pattern
-- finds, the match of a message with names, and the reference to an earlier answer are arguments; a
-- map of keywords is in the order in which the loop meets it.
use kb_retv_services.Prelude.{
  ℕ, Bool, true, not, ◌&&◌, ◌||◌, Option, none, some, List, [], ◌∷◌, map, ltb, if◌then◌else◌,
  length, keep, Result, ok, err,
}
use kb_retv_services.Prelude.Str.{Str, codes, str_eq, contains, to_lower, trim_space, is_empty}
use kb_retv_services.Prelude.Dict.{Dict, find, put}
use kb_retv_services.Tools.Caseref.{CaseRef, parse_case_ref}
use kb_retv_services.Prelude.Str.{to_upper}

pub record Param : Type 0 where
  pub name : Str
  pub required : Bool
  pub pattern : Str
  pub keywords : Dict Str
  pub lookup : Str

-- `find_in` is `FindString` of a compiled pattern, `names` the names behind a lookup, `match_name`
-- is `matchLookupName`, and `cited` what `ResolveReference` finds among the citations that match a
-- pattern, empty where there is nothing.
pub record ParamSources : Type 0 where
  pub compile_error : Str → Option Str
  pub find_in : Str → Str → Str
  pub names : Option (Str → Result Str (List Str))
  pub match_name : List Str → Str → Str
  pub cited : Str → Str → Str

abbrev lower_keys : Dict Str → Dict Str
unfolding put to_lower
lower_keys [] = []
lower_keys ((k, v) ∷ m) = put (to_lower k) v (lower_keys m)

abbrev and_param : Option Str → Param → Result Str (List Param) → Result Str (List Param)
and_param (some e) p rest = err e
and_param none p (err e) = err e
and_param none p (ok ps) = ok (p ∷ ps)

-- `isCaseRefParamPattern`.
unfoldable pub is_case_pattern : Str → Bool
unfolding str_eq
is_case_pattern p = str_eq p (codes "(?i)\\bREP-?\\d+\\b")

module _ (s : ParamSources) where
  abbrev compile_one : Param → Option Str
  compile_one p = if is_empty p.pattern then none else s.compile_error p.pattern

  -- `compileParams`.
  unfoldable pub compile_params : List Param → Result Str (List Param)
  unfolding lower_keys
  compile_params [] = ok []
  compile_params (p ∷ ps) =
      and_param (compile_one p) (record p { keywords = lower_keys p.keywords }) (compile_params ps)

  abbrev case_code : Option CaseRef → Str
  case_code none = []
  case_code (some r) = r.code

  by_pattern : Str → Param → Str
  unfolding parse_case_ref trim_space to_upper is_case_pattern
  by_pattern text p =
      if is_empty p.pattern
      then []
      else if is_case_pattern p.pattern
      then case_code (parse_case_ref text)
      else to_upper (trim_space (s.find_in p.pattern text))

  -- The loop over the keywords: the longest that the text contains.
  unfoldable pub longest_keyword : Str → ℕ → Str → Dict Str → Str
  unfolding contains
  longest_keyword lower best value [] = value
  longest_keyword lower best value ((k, v) ∷ m) =
      let better = contains lower k && ltb best (length k) in
      longest_keyword lower (if better then length k else best) (if better then v else value) m

  abbrev or_keyword : Str → Param → Str → Str
  unfolding longest_keyword
  or_keyword lower p value = if is_empty value then longest_keyword lower 0 [] p.keywords else value

  named : Str → Result Str (List Str) → Result Str Str
  named lower (err e) = err e
  named lower (ok names) = ok (s.match_name names lower)

  looked_up : Str → Param → Option (Str → Result Str (List Str)) → Str → Result Str Str
  unfolding named
  looked_up lower p none value = ok value
  looked_up lower p (some names) value =
      if is_empty value && not (is_empty p.lookup) then named lower (names p.lookup) else ok value

  or_cited : Str → Param → Result Str Str → Result Str Str
  unfolding to_upper
  or_cited text p (err e) = err e
  or_cited text p (ok value) =
      if is_empty value && not (is_empty p.pattern)
      then ok (to_upper (s.cited p.pattern text))
      else ok value

  -- The value of one parameter, empty where the message gives none.
  unfoldable pub value_of : Str → Param → Result Str Str
  unfolding or_cited looked_up or_keyword by_pattern to_lower
  value_of text p =
      or_cited text p
        (looked_up (to_lower text) p s.names (or_keyword (to_lower text) p (by_pattern text p)))

  unfoldable pub stored_in : Param → Str → Dict Str → Dict Str
  unfolding put
  stored_in p v out = if is_empty v then out else put p.name v out

  abbrev pub still_satisfied : Param → Str → Bool → Bool
  still_satisfied p v sat = if is_empty v then sat && not p.required else sat

  unfoldable pub extract_from : Str → Dict Str → Bool → List Param → Result Str (Dict Str × Bool)
  unfolding value_of stored_in
  extract_from text out sat [] = ok (out, sat)
  extract_from text out sat (p ∷ ps) = elim (value_of text p) [
    | err e ↦ err e
    | ok v ↦ extract_from text (stored_in p v out) (still_satisfied p v sat) ps
  ]

  -- `extractParams`: the values, and whether all that are required are there.
  unfoldable pub extract_params : Str → List Param → Result Str (Dict Str × Bool)
  unfolding extract_from
  extract_params text ps = extract_from text [] true ps

unfoldable pub value_in : Dict Str → Str → Str
unfolding find
value_in m k = elim (find k m) [ some v ↦ v | none ↦ [] ]

unfoldable pub has_required : Dict Str → Param → Bool
unfolding value_in
has_required found p = p.required && not (is_empty (value_in found p.name))

-- `missingRequired`.
unfoldable pub missing_required : List Param → Dict Str → List Str
unfolding value_in
missing_required ps found =
    map (λ (p : Param). p.name) (keep (λ p. p.required && is_empty (value_in found p.name)) ps)

-- `requiredMatched`.
unfoldable pub required_matched : List Param → Dict Str → ℕ
unfolding has_required
required_matched ps found = length (keep (has_required found) ps)

-- `entityMatched`.
unfoldable pub entity_matched : List Param → Dict Str → ℕ
unfolding has_required is_case_pattern
entity_matched ps found =
    length (
      keep (λ p. has_required found p && (not (is_empty p.lookup) || is_case_pattern p.pattern)) ps)
