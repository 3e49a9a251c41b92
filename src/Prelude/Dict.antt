-- ===== src/Prelude/Dict.antt =====
-- Go's maps with string keys, as association lists. Where a loop runs over a map, the order of the
-- list is the order in which that loop meets the keys.
use mathlib.Core.Path.{◌≡◌, refl}
use mathlib.Core.Bool.{Bool}
use mathlib.Core.Option.{Option, none, some}
use mathlib.Core.List.{List, [], ◌∷◌}
use Prim.Native.Nat.{◌≤◌}
use native.Mathlib.Omega.{arith}
use kb_retv_services.Prelude.Tests.{if◌then◌else◌}
use kb_retv_services.Prelude.Lists.{length}
use kb_retv_services.Prelude.Str.{Str, str_eq, str_eq_iff, str_eq_refl}

abbrev pub Dict : Type 0 → Type 0
Dict V = List (Str × V)

module _ {V : Type 0} where
  -- `v, ok := m[k]`.
  unfoldable pub find : Str → Dict V → Option V
  find k [] = none
  find k ((j, v) ∷ m) = if str_eq j k then some v else find k m

  -- `delete(m, k)`.
  unfoldable pub remove : Str → Dict V → Dict V
  remove k [] = []
  remove k ((j, v) ∷ m) = if str_eq j k then remove k m else (j, v) ∷ remove k m

  -- `m[k] = v`.
  unfoldable pub put : Str → V → Dict V → Dict V
  unfolding remove
  put k v m = (k, v) ∷ remove k m

  -- Deletes the entries that fail a test: `for k, v := range m { if … { delete(m, k) } }`.
  unfoldable pub prune : (V → Bool) → Dict V → Dict V
  prune p [] = []
  prune p ((j, v) ∷ m) = if p v then (j, v) ∷ prune p m else prune p m

  pub find-remove :
      (k j : Str) (m : Dict V) → find j (remove k m) ≡ (if str_eq k j then none else find j m)
  unfolding find remove
  find-remove k j [] = ground arith
  find-remove k j ((i, v) ∷ m) =
      ground (arith, find-remove k j m, str_eq_iff i k, str_eq_iff i j, str_eq_iff k j)

  pub find-put :
      (k j : Str) (v : V) (m : Dict V)
      → find j (put k v m) ≡ (if str_eq k j then some v else find j m)
  unfolding find put
  find-put k j v m = ground (arith, find-remove k j m)

  pub length-remove_le : (k : Str) (m : Dict V) → length (remove k m) ≤ length m
  unfolding remove
  length-remove_le k [] = omega arith
  length-remove_le k ((j, v) ∷ m) = ground (arith, length-remove_le k m)

  pub length-prune_le : (p : V → Bool) (m : Dict V) → length (prune p m) ≤ length m
  unfolding prune
  length-prune_le p [] = omega arith
  length-prune_le p ((j, v) ∷ m) = ground (arith, length-prune_le p m)

  -- No key stands twice, as in a Go map.
  abbrev pub IsMap : Dict V → Type 0
  IsMap [] = Unit
  IsMap ((k, v) ∷ m) = (find k m ≡ none) × IsMap m

  abbrev pub passing : (V → Bool) → Option V → Option V
  passing p none = none
  passing p (some v) = if p v then some v else none

  pub prune_absent :
      (p : V → Bool) (j : Str) (m : Dict V) → find j m ≡ none → find j (prune p m) ≡ none
  unfolding find prune
  prune_absent p j [] h = refl
  prune_absent p j ((i, v) ∷ m) h = ground (arith, prune_absent p j m)

  pub find-prune :
      (p : V → Bool) (j : Str) (m : Dict V) → IsMap m → find j (prune p m) ≡ passing p (find j m)
  unfolding find prune
  find-prune p j [] h = refl
  find-prune p j ((i, v) ∷ m) (fresh, h) =
      ground (arith, find-prune p j m h, prune_absent p j m, str_eq_iff i j, fresh)

  pub prune-IsMap : (p : V → Bool) (m : Dict V) → IsMap m → IsMap (prune p m)
  unfolding prune
  prune-IsMap p [] h = tt
  prune-IsMap p ((k, v) ∷ m) (fresh, h) =
      ground (arith, prune_absent p k m fresh, prune-IsMap p m h)

  pub remove-IsMap : (k : Str) (m : Dict V) → IsMap m → IsMap (remove k m)
  unfolding remove
  remove-IsMap k [] h = tt
  remove-IsMap k ((j, v) ∷ m) (fresh, h) = ground (arith, find-remove k j m, remove-IsMap k m h)

  pub put-IsMap : (k : Str) (v : V) (m : Dict V) → IsMap m → IsMap (put k v m)
  unfolding put
  put-IsMap k v m h = (gone, remove-IsMap k m h)
    where
      gone : find k (remove k m) ≡ none
      gone = ground (arith, find-remove k k m, str_eq_refl k)
