-- ===== src/Rag/Merge.antt =====
-- Reciprocal rank fusion: `rrfMerge` of internal/ai/rag/rrf.go.
pub mod Fused
pub mod Ranked
pub mod Sums
use kb_retv_services.Prelude.{
  ℕ, suc, ◌+◌, Bool, true, false, Option, none, some, List, [], ◌∷◌, map, ltb, ◌==◌, if◌then◌else◌,
}
use kb_retv_services.Prelude.Str.{Str, is_empty}
use kb_retv_services.Prelude.Dict.{Dict, find, put}
use kb_retv_services.Rag.Types.{Floats, Candidate}

-- `a < b` on strings.
unfoldable pub str_lt : Str → Str → Bool
str_lt [] [] = false
str_lt [] (d ∷ t) = true
str_lt (c ∷ s) [] = false
str_lt (c ∷ s) (d ∷ t) = if c == d then str_lt s t else ltb c d

module _ {F : Type 0} (fl : Floats F) where
  -- The table of the best candidate and the sum of the increments of each identifier.
  abbrev pub Merged : Type 0
  Merged = Dict (Candidate F × F)

  abbrev better : Candidate F → Candidate F → Candidate F
  better old c = if fl.lt old.score c.score then c else old

  abbrev merge_entry : Candidate F → F → Option (Candidate F × F) → Candidate F × F
  merge_entry c inc none = (c, inc)
  merge_entry c inc (some (old, sum)) = (better old c, fl.add sum inc)

  -- The body of the inner loop, for the candidate of a rank.
  unfoldable pub merge_one : ℕ → Candidate F → Merged → Merged
  merge_one rank c m =
      if is_empty c.id
      then m
      else put c.id (merge_entry c (fl.reciprocal (61 + rank)) (find c.id m)) m

  unfoldable pub merge_set : ℕ → List (Candidate F) → Merged → Merged
  unfolding merge_one
  merge_set rank [] m = m
  merge_set rank (c ∷ cs) m = merge_set (suc rank) cs (merge_one rank c m)

  unfoldable pub merge_sets : List (List (Candidate F)) → Merged → Merged
  unfolding merge_set
  merge_sets [] m = m
  merge_sets (s ∷ ss) m = merge_sets ss (merge_set 0 s m)

  abbrev scored : Str × (Candidate F × F) → Candidate F
  scored (id, (c, sum)) = record c { score = sum }

  -- The order of the sort.
  abbrev pub comes_before : Candidate F → Candidate F → Bool
  comes_before a b = if fl.same a.score b.score then str_lt a.id b.id else fl.lt b.score a.score

  unfoldable pub insert : Candidate F → List (Candidate F) → List (Candidate F)
  insert c [] = c ∷ []
  insert c (d ∷ ds) = let rest = insert c ds in if comes_before d c then d ∷ rest else c ∷ d ∷ ds

  unfoldable pub sort_candidates : List (Candidate F) → List (Candidate F)
  unfolding insert
  sort_candidates [] = []
  sort_candidates (c ∷ cs) = insert c (sort_candidates cs)

  unfoldable pub rrf_merge : List (List (Candidate F)) → List (Candidate F)
  unfolding merge_sets sort_candidates
  rrf_merge sets = sort_candidates (map scored (merge_sets sets []))
