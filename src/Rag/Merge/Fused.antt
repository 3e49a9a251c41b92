-- ===== src/Rag/Merge/Fused.antt =====
-- What the fusion of ranked lists keeps, and in which order.
use kb_retv_services.Prelude.{
  ℕ, suc, ◌+◌, ◌≡◌, refl, ap, ◌∙◌, inl, inr, Bool, true, false, not, ◌&&◌, ◌||◌, Option, none, some,
  List, [], ◌∷◌, map, arith, Bool-cases, any,
}
use kb_retv_services.Prelude.Str.{Str, str_eq, eq_of_str_eq, str_eq_iff, is_empty}
use kb_retv_services.Prelude.Dict.{find, remove, put, find-put, IsMap, put-IsMap}
use kb_retv_services.Rag.Types.{Floats, Candidate}
use kb_retv_services.Rag.Merge.{
  Merged, merge_entry, merge_one, merge_set, merge_sets, scored, insert, sort_candidates, rrf_merge,
}

abbrev is_there {ℓ} : {A : Type ℓ} → Option A → Bool
is_there none = false
is_there (some a) = true

module _ {F : Type 0} where
  -- A candidate of this identifier stands in the list.
  abbrev pub has_id : Str → List (Candidate F) → Bool
  has_id i [] = false
  has_id i (c ∷ cs) = str_eq c.id i || has_id i cs

  -- No identifier stands twice.
  abbrev pub IsUnique : List (Candidate F) → Type 0
  IsUnique [] = Unit
  IsUnique (c ∷ cs) = (has_id c.id cs ≡ false) × IsUnique cs

module _ {F : Type 0} (fl : Floats F) where
  has_id-insert :
      (i : Str) (c : Candidate F) (cs : List (Candidate F))
      → has_id i (insert fl c cs) ≡ (str_eq c.id i || has_id i cs)
  unfolding insert
  has_id-insert i c [] = refl
  has_id-insert i c (d ∷ ds) = ground (arith, has_id-insert i c ds)

  pub has_id-sort :
      (i : Str) (cs : List (Candidate F)) → has_id i (sort_candidates fl cs) ≡ has_id i cs
  unfolding sort_candidates
  has_id-sort i [] = refl
  has_id-sort i (c ∷ cs) =
      has_id-insert i c (sort_candidates fl cs) ∙ ap (λ b. str_eq c.id i || b) (has_id-sort i cs)

  insert-IsUnique :
      (c : Candidate F) (cs : List (Candidate F))
      → has_id c.id cs ≡ false
      → IsUnique cs
      → IsUnique (insert fl c cs)
  unfolding insert
  insert-IsUnique c [] fresh u = (refl, tt)
  insert-IsUnique c (d ∷ ds) fresh u = ground (
    arith,
    insert-IsUnique c ds,
    has_id-insert d.id c ds,
    str_eq_iff c.id d.id,
    str_eq_iff d.id c.id,
  )

  pub sort-IsUnique : (cs : List (Candidate F)) → IsUnique cs → IsUnique (sort_candidates fl cs)
  unfolding sort_candidates
  sort-IsUnique [] u = tt
  sort-IsUnique (c ∷ cs) (fresh, u) =
      insert-IsUnique c (sort_candidates fl cs) (has_id-sort c.id cs ∙ fresh) (sort-IsUnique cs u)

  -- Each entry stands under the identifier of its candidate.
  abbrev pub IsKeyed : Merged fl → Type 0
  IsKeyed [] = Unit
  IsKeyed ((k, (c, s)) ∷ m) = (c.id ≡ k) × IsKeyed m

  has_id-scored :
      (i : Str) (m : Merged fl) → IsKeyed m → has_id i (map (scored fl) m) ≡ is_there (find i m)
  unfolding find
  has_id-scored i [] h = refl
  has_id-scored i ((k, (c, s)) ∷ m) (same, h) = rw same (ground (arith, has_id-scored i m h))

  pub scored-IsUnique : (m : Merged fl) → IsKeyed m → IsMap m → IsUnique (map (scored fl) m)
  scored-IsUnique [] h u = tt
  scored-IsUnique ((k, (c, s)) ∷ m) (same, h) (fresh, u) = (
    has_id-scored c.id m h ∙ ap is_there (ap (λ j. find j m) same ∙ fresh),
    scored-IsUnique m h u,
  )

  remove-IsKeyed : (k : Str) (m : Merged fl) → IsKeyed m → IsKeyed (remove k m)
  unfolding remove
  remove-IsKeyed k [] h = tt
  remove-IsKeyed k ((j, (c, s)) ∷ m) h = ground (arith, remove-IsKeyed k m)

  find-IsKeyed :
      (k : Str) (m : Merged fl) → IsKeyed m → (e : Candidate F × F) → find k m ≡ some e → e.0.id ≡ k
  unfolding find
  find-IsKeyed k [] h e there = cc
  find-IsKeyed k ((j, (c, s)) ∷ m) (same, h) e there =
      ground (arith, find-IsKeyed k m h e, str_eq_iff j k, same)

  entry_keyed :
      (c : Candidate F) (inc : F) (found : Option (Candidate F × F))
      → ((e : Candidate F × F) → found ≡ some e → e.0.id ≡ c.id)
      → (merge_entry fl c inc found).0.id ≡ c.id
  entry_keyed c inc none h = refl
  entry_keyed c inc (some (old, sum)) h = elim (Bool-cases (fl.lt old.score c.score)) [
    | inl up ↦ rw up refl
    | inr down ↦ rw down (h (old, sum) refl)
  ]

  merge_one-IsKeyed :
      (rank : ℕ) (c : Candidate F) (m : Merged fl) → IsKeyed m → IsKeyed (merge_one fl rank c m)
  unfolding merge_one put
  merge_one-IsKeyed rank c m h = elim (Bool-cases (is_empty c.id)) [
    | inl blank ↦ rw blank h
    | inr named ↦ rw named (
      entry_keyed c (fl.reciprocal (61 + rank)) (find c.id m) (find-IsKeyed c.id m h),
      remove-IsKeyed c.id m h,
    )
  ]

  merge_one-IsMap :
      (rank : ℕ) (c : Candidate F) (m : Merged fl) → IsMap m → IsMap (merge_one fl rank c m)
  unfolding merge_one
  merge_one-IsMap rank c m h = elim (Bool-cases (is_empty c.id)) [
    | inl blank ↦ rw blank h
    | inr named ↦
        rw named (put-IsMap c.id (merge_entry fl c (fl.reciprocal (61 + rank)) (find c.id m)) m h)
  ]

  -- A candidate of this identifier, which is not empty, stands in the list.
  abbrev offers : Str → List (Candidate F) → Bool
  offers i cs = not (is_empty i) && has_id i cs

  pub blank_id : (a i : Str) → is_empty a ≡ true → str_eq a i ≡ true → is_empty i ≡ true
  blank_id a i blank same = rw⁻¹ (eq_of_str_eq a i same) blank

  named_id : (a i : Str) → is_empty a ≡ false → str_eq a i ≡ true → is_empty i ≡ false
  named_id a i named same = rw⁻¹ (eq_of_str_eq a i same) named

  find-merge_one :
      (i : Str) (rank : ℕ) (c : Candidate F) (m : Merged fl)
      → is_there (find i (merge_one fl rank c m))
        ≡ (is_there (find i m) || (not (is_empty i) && str_eq c.id i))
  unfolding merge_one
  find-merge_one i rank c m = elim (Bool-cases (is_empty c.id)) [
    | inl blank ↦ ground (arith, blank, blank_id c.id i)
    | inr named ↦ ground (
      arith,
      named,
      named_id c.id i,
      find-put c.id i (merge_entry fl c (fl.reciprocal (61 + rank)) (find c.id m)) m,
    )
  ]

  -- What the loops keep of the table, and which identifiers are in it.
  merge_set-invariant :
      (rank : ℕ) (cs : List (Candidate F)) (m : Merged fl)
      → IsKeyed m
      → IsMap m
      → IsKeyed (merge_set fl rank cs m) × IsMap (merge_set fl rank cs m)
  unfolding merge_set
  merge_set-invariant rank [] m k u = (k, u)
  merge_set-invariant rank (c ∷ cs) m k u =
      merge_set-invariant (suc rank) cs (merge_one fl rank c m) (merge_one-IsKeyed rank c m k)
        (merge_one-IsMap rank c m u)

  find-merge_set :
      (i : Str) (rank : ℕ) (cs : List (Candidate F)) (m : Merged fl)
      → is_there (find i (merge_set fl rank cs m)) ≡ (is_there (find i m) || offers i cs)
  unfolding merge_set
  find-merge_set i rank [] m = ground arith
  find-merge_set i rank (c ∷ cs) m =
      ground
        (arith, find-merge_set i (suc rank) cs (merge_one fl rank c m), find-merge_one i rank c m)

  pub merge_sets-invariant :
      (sets : List (List (Candidate F))) (m : Merged fl)
      → IsKeyed m
      → IsMap m
      → IsKeyed (merge_sets fl sets m) × IsMap (merge_sets fl sets m)
  unfolding merge_sets
  merge_sets-invariant [] m k u = (k, u)
  merge_sets-invariant (s ∷ ss) m k u =
      let (k', u') = merge_set-invariant 0 s m k u in
      merge_sets-invariant ss (merge_set fl 0 s m) k' u'

  find-merge_sets :
      (i : Str) (sets : List (List (Candidate F))) (m : Merged fl)
      → is_there (find i (merge_sets fl sets m)) ≡ (is_there (find i m) || any (offers i) sets)
  unfolding merge_sets
  find-merge_sets i [] m = ground arith
  find-merge_sets i (s ∷ ss) m =
      ground (arith, find-merge_sets i ss (merge_set fl 0 s m), find-merge_set i 0 s m)

  -- The fusion of ranked lists keeps exactly the identifiers that are not empty and that one
  -- of the lists has, and each of them once.
  pub rrf_merge-IsUnique :
      (sets : List (List (Candidate F))) (i : Str)
      → IsUnique (rrf_merge fl sets)
        × (has_id i (rrf_merge fl sets) ≡ any (λ cs. not (is_empty i) && has_id i cs) sets)
  unfolding rrf_merge find
  rrf_merge-IsUnique sets i =
      let (k, u) = merge_sets-invariant sets [] tt tt in
      let m = merge_sets fl sets [] in
      (
        sort-IsUnique (map (scored fl) m) (scored-IsUnique m k u),
        has_id-sort i (map (scored fl) m) ∙ has_id-scored i m k ∙ find-merge_sets i sets [],
      )
