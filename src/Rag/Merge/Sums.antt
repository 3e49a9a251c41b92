-- ===== src/Rag/Merge/Sums.antt =====
-- The scores of the fusion of ranked lists.
use kb_retv_services.Prelude.{
  ℕ, suc, ◌+◌, ◌≡◌, refl, sym, ap, ◌∙◌, inl, inr, true, false, Option, none, some, List, [], ◌∷◌,
  map, arith, if◌then◌else◌, Bool-cases,
}
use kb_retv_services.Prelude.Str.{Str, str_eq, eq_of_str_eq, str_eq_iff, is_empty}
use kb_retv_services.Prelude.Dict.{find, find-put}
use mathlib.Core.Bool.{true≢false}
use kb_retv_services.Rag.Types.{Floats, Candidate}
use kb_retv_services.Rag.Merge.{
  Merged, merge_entry, merge_one, merge_set, merge_sets, scored, insert, sort_candidates, rrf_merge,
}
use kb_retv_services.Rag.Merge.Fused.{
  has_id, IsUnique, IsKeyed, merge_sets-invariant, scored-IsUnique, sort-IsUnique, has_id-sort,
  blank_id,
}
use kb_retv_services.Rag.Merge.Ranked.{IsDescending, sort-IsDescending}

module _ {F : Type 0} where
  -- The score under an identifier.
  abbrev pub score_in : Str → List (Candidate F) → Option F
  score_in i [] = none
  score_in i (c ∷ cs) = if str_eq c.id i then some c.score else score_in i cs

module _ {F : Type 0} (fl : Floats F) where
  abbrev pub plus : Option F → F → F
  plus none x = x
  plus (some s) x = fl.add s x

  -- What the ranked lists give an identifier: 1/61 for the first place of a list, 1/62 for the
  -- second and so on, added up in the order of the lists.
  abbrev pub sum_in : Str → ℕ → List (Candidate F) → Option F → Option F
  sum_in i rank [] s = s
  sum_in i rank (c ∷ cs) s =
      sum_in i (suc rank) cs
        (if str_eq c.id i then some (plus s (fl.reciprocal (61 + rank))) else s)

  abbrev pub sum_over : Str → List (List (Candidate F)) → Option F → Option F
  sum_over i [] s = s
  sum_over i (cs ∷ sets) s = sum_over i sets (sum_in i 0 cs s)

  abbrev sum_of : Option (Candidate F × F) → Option F
  sum_of none = none
  sum_of (some e) = some e.1

  entry_sum :
      (c : Candidate F) (x : F) (found : Option (Candidate F × F))
      → (merge_entry fl c x found).1 ≡ plus (sum_of found) x
  entry_sum c x none = refl
  entry_sum c x (some (old, s)) = refl

  sum_of-merge_one :
      (i : Str) (rank : ℕ) (c : Candidate F) (m : Merged fl)
      → is_empty i ≡ false
      → sum_of (find i (merge_one fl rank c m)) ≡ (
          if str_eq c.id i
          then some (plus (sum_of (find i m)) (fl.reciprocal (61 + rank)))
          else sum_of (find i m))
  unfolding merge_one
  sum_of-merge_one i rank c m named = elim (Bool-cases (is_empty c.id)) [
    | inl blank ↦ rw (blank, other blank) refl
    | inr full ↦
        rw (full, find-put c.id i (merge_entry fl c (fl.reciprocal (61 + rank)) (find c.id m)) m)
          (elim (Bool-cases (str_eq c.id i)) [
            | inl same ↦ rw same (
                ap some (
                  entry_sum c (fl.reciprocal (61 + rank)) (find c.id m)
                  ∙ ap (λ k. plus (sum_of (find k m)) (fl.reciprocal (61 + rank)))
                      (eq_of_str_eq c.id i same)))
            | inr apart ↦ rw apart refl
          ])
  ]
    where
      other : is_empty c.id ≡ true → str_eq c.id i ≡ false
      other blank = elim (Bool-cases (str_eq c.id i)) [
        | inl same ↦ absurd (true≢false (sym (blank_id fl c.id i blank same) ∙ named))
        | inr apart ↦ apart
      ]

  sum_of-merge_set :
      (i : Str) (rank : ℕ) (cs : List (Candidate F)) (m : Merged fl)
      → is_empty i ≡ false
      → sum_of (find i (merge_set fl rank cs m)) ≡ sum_in i rank cs (sum_of (find i m))
  unfolding merge_set
  sum_of-merge_set i rank [] m named = refl
  sum_of-merge_set i rank (c ∷ cs) m named =
      sum_of-merge_set i (suc rank) cs (merge_one fl rank c m) named
      ∙ ap (sum_in i (suc rank) cs) (sum_of-merge_one i rank c m named)

  sum_of-merge_sets :
      (i : Str) (sets : List (List (Candidate F))) (m : Merged fl)
      → is_empty i ≡ false
      → sum_of (find i (merge_sets fl sets m)) ≡ sum_over i sets (sum_of (find i m))
  unfolding merge_sets
  sum_of-merge_sets i [] m named = refl
  sum_of-merge_sets i (cs ∷ sets) m named =
      sum_of-merge_sets i sets (merge_set fl 0 cs m) named
      ∙ ap (sum_over i sets) (sum_of-merge_set i 0 cs m named)

  score_in-scored :
      (i : Str) (m : Merged fl) → IsKeyed fl m → score_in i (map (scored fl) m) ≡ sum_of (find i m)
  unfolding find
  score_in-scored i [] h = refl
  score_in-scored i ((k, (c, x)) ∷ m) (same, h) = rw same (ground (arith, score_in-scored i m h))

  score_in-insert :
      (i : Str) (c : Candidate F) (cs : List (Candidate F))
      → has_id c.id cs ≡ false
      → score_in i (insert fl c cs) ≡ (if str_eq c.id i then some c.score else score_in i cs)
  unfolding insert
  score_in-insert i c [] fresh = refl
  score_in-insert i c (d ∷ ds) fresh =
      ground
        (arith, score_in-insert i c ds, str_eq_iff c.id i, str_eq_iff d.id i, str_eq_iff d.id c.id)

  score_in-sort :
      (i : Str) (cs : List (Candidate F))
      → IsUnique cs
      → score_in i (sort_candidates fl cs) ≡ score_in i cs
  unfolding sort_candidates
  score_in-sort i [] u = refl
  score_in-sort i (c ∷ cs) (fresh, u) =
      score_in-insert i c (sort_candidates fl cs) (has_id-sort fl c.id cs ∙ fresh)
      ∙ ap (λ r. if str_eq c.id i then some c.score else r) (score_in-sort i cs u)

  module _ (lt_asym : (x y : F) → fl.lt x y ≡ true → fl.lt y x ≡ false)
      (same_sym : (x y : F) → fl.same x y ≡ fl.same y x)
      (same_lt : (x y : F) → fl.same x y ≡ true → fl.lt y x ≡ false) where
    -- The fusion of ranked lists has each identifier at most once. An identifier that is
    -- not empty has
    -- the score that its places in the lists add up to, and is there only if it has such a
    -- place. Where
    -- the comparisons of the scores are those of numbers, the scores do not grow along the
    -- list, and
    -- candidates of the same score stand in the order of their identifiers.
    pub rrf_merge-score_in :
        (sets : List (List (Candidate F))) (i : Str)
        → is_empty i ≡ false
        → IsUnique (rrf_merge fl sets)
          × (score_in i (rrf_merge fl sets) ≡ sum_over i sets none)
          × IsDescending fl (rrf_merge fl sets)
    unfolding rrf_merge find
    rrf_merge-score_in sets i named =
        let (keyed, unique) = merge_sets-invariant fl sets [] tt tt in
        let m = merge_sets fl sets [] in
        let once = scored-IsUnique fl m keyed unique in
        (
          sort-IsUnique fl (map (scored fl) m) once,
          score_in-sort i (map (scored fl) m) once
              ∙ score_in-scored i m keyed
              ∙ sum_of-merge_sets i sets [] named,
          sort-IsDescending fl lt_asym same_sym same_lt (map (scored fl) m),
        )
