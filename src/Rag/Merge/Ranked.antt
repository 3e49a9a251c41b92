-- ===== src/Rag/Merge/Ranked.antt =====
-- The order of the fusion of ranked lists.
use kb_retv_services.Prelude.{
  ◌≡◌, refl, ◌⊎◌, inl, inr, true, false, List, [], ◌∷◌, arith, Bool-cases,
}
use kb_retv_services.Prelude.Str.{Str}
use kb_retv_services.Rag.Types.{Floats, Candidate}
use kb_retv_services.Rag.Merge.{str_lt, comes_before, insert, sort_candidates}

str_lt_asym : (s t : Str) → str_lt s t ≡ true → str_lt t s ≡ false
unfolding str_lt
str_lt_asym [] [] h = refl
str_lt_asym [] (d ∷ t) h = refl
str_lt_asym (c ∷ s) [] h = cc
str_lt_asym (c ∷ s) (d ∷ t) h = ground (arith, str_lt_asym s t)

module _ {F : Type 0} (fl : Floats F) where
  -- No candidate comes before the one that stands in front of it.
  abbrev IsRanked : List (Candidate F) → Type 0
  IsRanked [] = Unit
  IsRanked (c ∷ []) = Unit
  IsRanked (c ∷ d ∷ ds) = (comes_before fl d c ≡ false) × IsRanked (d ∷ ds)

  -- The scores do not grow, and where two that follow each other are the same, neither do the
  -- identifiers shrink.
  abbrev pub IsDescending : List (Candidate F) → Type 0
  IsDescending [] = Unit
  IsDescending (c ∷ []) = Unit
  IsDescending (c ∷ d ∷ ds) =
      (fl.lt c.score d.score ≡ false)
      × ((fl.same d.score c.score ≡ false) ⊎ (str_lt d.id c.id ≡ false))
      × IsDescending (d ∷ ds)

module _ {F : Type 0} (fl : Floats F) (lt_asym : (x y : F) → fl.lt x y ≡ true → fl.lt y x ≡ false)
    (same_sym : (x y : F) → fl.same x y ≡ fl.same y x) where
  comes_before_asym : (a b : Candidate F) → comes_before fl a b ≡ true → comes_before fl b a ≡ false
  comes_before_asym a b h =
      ground (arith, same_sym a.score b.score, lt_asym b.score a.score, str_lt_asym a.id b.id)

  insert-after :
      (d c : Candidate F) (ds : List (Candidate F))
      → comes_before fl c d ≡ false
      → IsRanked fl (d ∷ ds)
      → IsRanked fl (d ∷ insert fl c ds)
  unfolding insert
  insert-after d c [] h r = (h, tt)
  insert-after d c (e ∷ es) h (first, r) = elim (Bool-cases (comes_before fl e c)) [
    | inl before ↦ rw before (first, insert-after e c es (comes_before_asym e c before) r)
    | inr behind ↦ rw behind (h, (behind, r))
  ]

  insert-IsRanked :
      (c : Candidate F) (ds : List (Candidate F)) → IsRanked fl ds → IsRanked fl (insert fl c ds)
  unfolding insert
  insert-IsRanked c [] r = tt
  insert-IsRanked c (d ∷ ds) r = elim (Bool-cases (comes_before fl d c)) [
    | inl before ↦ rw before (insert-after d c ds (comes_before_asym d c before) r)
    | inr behind ↦ rw behind (behind, r)
  ]

  sort-IsRanked : (cs : List (Candidate F)) → IsRanked fl (sort_candidates fl cs)
  unfolding sort_candidates
  sort-IsRanked [] = tt
  sort-IsRanked (c ∷ cs) = insert-IsRanked c (sort_candidates fl cs) (sort-IsRanked cs)

  module _ (same_lt : (x y : F) → fl.same x y ≡ true → fl.lt y x ≡ false) where
    IsRanked-IsDescending : (cs : List (Candidate F)) → IsRanked fl cs → IsDescending fl cs
    IsRanked-IsDescending [] h = tt
    IsRanked-IsDescending (c ∷ []) h = tt
    IsRanked-IsDescending (c ∷ d ∷ ds) (first, h) = elim (Bool-cases (fl.same d.score c.score)) [
      | inl tie ↦
          (same_lt d.score c.score tie, inr (rw tie at first), IsRanked-IsDescending (d ∷ ds) h)
      | inr apart ↦ (rw apart at first, inl apart, IsRanked-IsDescending (d ∷ ds) h)
    ]

    -- The sort leaves the candidates in descending order.
    pub sort-IsDescending : (cs : List (Candidate F)) → IsDescending fl (sort_candidates fl cs)
    sort-IsDescending cs = IsRanked-IsDescending (sort_candidates fl cs) (sort-IsRanked cs)
