-- ===== src/Skeleton/Pending/Refine.antt =====
-- About the store of pending actions against a store that forgets nothing but what is taken.
use kb_retv_services.Prelude.{
  ℕ, ◌+◌, ◌≡◌, refl, sym, ap, ◌∙◌, ◌⊎◌, inl, inr, Bool, true, false, Option, none, some, List, [],
  ◌∷◌, map, arith, if◌then◌else◌, Bool-cases,
}
use kb_retv_services.Prelude.Str.{Str, str_eq}
use kb_retv_services.Prelude.Dict.{
  Dict, find, prune, find-remove, find-put, IsMap, passing, find-prune, prune-IsMap, remove-IsMap,
  put-IsMap,
}
use mathlib.Core.Path.{subst, ap₂}
use kb_retv_services.Skeleton.Pending.{
  Actor, PendingEntry, PendingStore, pending_ttl, is_live, put_entry, put_pending, claimed, belongs,
  take_pending,
}

-- A call of the store, and what it returns.
pub data Call : Type 0 where
  put_call : Option Str → Actor → Str → Dict Str → Call
  take_call : Actor → Str → Call

pub data Reply : Type 0 where
  stored_as : Option Str → Reply
  taken : Option (Str × Dict Str) → Reply

-- The store that a client sees: which action an id names, expired or not.
abbrev pub Ledger : Type 0
Ledger = Str → Option PendingEntry

pub serve : ℕ → Call → PendingStore → PendingStore × Reply
unfolding put_pending take_pending
serve now (put_call id actor tool params) s =
    let (s', id') = put_pending now id actor tool params s in (s', stored_as id')
serve now (take_call actor id) s = let (s', r) = take_pending now actor id s in (s', taken r)

-- The ledger writes an entry, and strikes one out when it is asked for. It has no clean-up.
pub note : ℕ → Call → Ledger → Ledger × Reply
unfolding str_eq
note now (put_call none actor tool params) m = (m, stored_as none)
note now (put_call (some id) actor tool params) m =
    let entry : PendingEntry = record {
      company_id = actor.company_id;
      user_id = actor.user_id;
      tool_id = tool;
      params = params;
      expires = now + pending_ttl;
    } in
    (λ k. if str_eq id k then some entry else m k, stored_as (some id))
note now (take_call actor id) m =
    (λ k. if str_eq id k then none else m k, taken (claimed now actor (m id)))

-- The replies to calls that each come some time after the one before.
unfoldable pub run_store : ℕ → List (ℕ × Call) → PendingStore → List Reply
unfolding serve
run_store now [] s = []
run_store now ((d, call) ∷ calls) s =
    let (s', r) = serve (now + d) call s in r ∷ run_store (now + d) calls s'

unfoldable pub run_ledger : ℕ → List (ℕ × Call) → Ledger → List Reply
unfolding note
run_ledger now [] m = []
run_ledger now ((d, call) ∷ calls) m =
    let (m', r) = note (now + d) call m in r ∷ run_ledger (now + d) calls m'

-- The store has the entry of the ledger, or none where that has expired.
abbrev Agrees : ℕ → Option PendingEntry → Option PendingEntry → Type 0
Agrees now a b =
    (a ≡ b) ⊎ ((a ≡ none) × (e : PendingEntry) × (b ≡ some e) × (is_live now e ≡ false))

abbrev Refines : ℕ → PendingStore → Ledger → Type 0
Refines now s m = IsMap s × ((k : Str) → Agrees now (find k s) (m k))

Agrees-later : (now d : ℕ) (a b : Option PendingEntry) → Agrees now a b → Agrees (now + d) a b
Agrees-later now d a b (inl same) = inl same
Agrees-later now d a b (inr (gone, e, there, dead)) = inr (gone, e, there, ground arith)

claimed_dead :
    (now : ℕ) (actor : Actor) (e : PendingEntry)
    → is_live now e ≡ false
    → claimed now actor (some e) ≡ none
claimed_dead now actor e dead = elim (Bool-cases (belongs actor e)) [
  | inl mine ↦ ground (arith, mine, dead)
  | inr other ↦ ground (arith, other)
]

claimed-Agrees :
    (now : ℕ) (actor : Actor) (a b : Option PendingEntry)
    → Agrees now a b
    → claimed now actor a ≡ claimed now actor b
claimed-Agrees now actor a b (inl same) = ap (claimed now actor) same
claimed-Agrees now actor a b (inr (gone, e, there, dead)) =
    ap (claimed now actor) gone ∙ sym (ap (claimed now actor) there ∙ claimed_dead now actor e dead)

passing-Agrees :
    (now : ℕ) (a b : Option PendingEntry) → Agrees now a b → Agrees now (passing (is_live now) a) b
passing-Agrees now a none (inl same) = inl (ap (passing (is_live now)) same)
passing-Agrees now a (some e) (inl same) = elim (Bool-cases (is_live now e)) [
  | inl live ↦ inl (ap (passing (is_live now)) same ∙ ground (arith, live))
  | inr dead ↦ inr (ap (passing (is_live now)) same ∙ ground (arith, dead), e, refl, dead)
]
passing-Agrees now a b (inr (gone, e, there, dead)) =
    inr (ap (passing (is_live now)) gone, e, there, dead)

-- Both sides overwrite one key.
Agrees-overwritten :
    (now : ℕ) (hit : Bool) (v a b : Option PendingEntry)
    → Agrees now a b
    → Agrees now (if hit then v else a) (if hit then v else b)
Agrees-overwritten now true v a b h = inl refl
Agrees-overwritten now false v a b h = h

serve-Refines :
    (now : ℕ) (call : Call) (s : PendingStore) (m : Ledger)
    → Refines now s m
    → Refines now (serve now call s).0 (note now call m).0
      × ((serve now call s).1 ≡ (note now call m).1)
unfolding serve note put_pending put_entry take_pending
serve-Refines now (put_call none actor tool params) s m h = (h, refl)
serve-Refines now (put_call (some id) actor tool params) s m (map, same) = (
  (
    put-IsMap id _ (prune (is_live now) s) (prune-IsMap (is_live now) s map),
    λ k.
        subst (λ a. Agrees now a (if str_eq id k then some entry else m k))
          (sym (find-put id k entry (prune (is_live now) s)))
          (Agrees-overwritten now (str_eq id k) (some entry) _ _ (
            subst (λ a. Agrees now a (m k)) (sym (find-prune (is_live now) k s map))
              (passing-Agrees now (find k s) (m k) (same k)))),
  ),
  refl,
)
  where
    entry : PendingEntry
    entry = record {
      company_id = actor.company_id;
      user_id = actor.user_id;
      tool_id = tool;
      params = params;
      expires = now + pending_ttl;
    }
serve-Refines now (take_call actor id) s m (map, same) = (
  (
    remove-IsMap id s map,
    λ k.
        subst (λ a. Agrees now a (if str_eq id k then none else m k)) (sym (find-remove id k s))
          (Agrees-overwritten now (str_eq id k) none (find k s) (m k) (same k)),
  ),
  ap taken (claimed-Agrees now actor (find id s) (m id) (same id)),
)

run_store_from :
    (now : ℕ) (calls : List (ℕ × Call)) (s : PendingStore) (m : Ledger)
    → Refines now s m
    → run_store now calls s ≡ run_ledger now calls m
unfolding run_store run_ledger
run_store_from now [] s m h = refl
run_store_from now ((d, call) ∷ calls) s m (map, same) =
    let (next, reply) =
      serve-Refines (now + d) call s m (map, λ k. Agrees-later now d (find k s) (m k) (same k)) in
    ap₂ ◌∷◌ reply (run_store_from (now + d) calls _ _ next)

-- No calls, at whatever times, tell the store of pending actions from a ledger that has no
-- clean-up: an action is named by its id until somebody asks for it or writes another under the
-- same id, and what expired is refused. The clean-up of `Put` is never seen.
pub run_store-run_ledger :
    (now : ℕ) (calls : List (ℕ × Call)) → run_store now calls [] ≡ run_ledger now calls (λ k. none)
unfolding find
run_store-run_ledger now calls = run_store_from now calls [] (λ k. none) (tt, λ k. inl refl)
