-- ===== src/Skeleton/Pending/Confirming.antt =====
-- Who can take a proposed action, when, and how often.
use kb_retv_services.Prelude.{
  ℕ, ◌+◌, ◌≤◌, ◌≡◌, ap, ◌∙◌, ◌↔◌, inl, inr, false, Option, none, some, List, [], ◌∷◌, arith, leb,
  if◌then◌else◌, Option-cases, All,
}
use kb_retv_services.Prelude.Str.{Str, str_eq, str_eq_refl}
use kb_retv_services.Prelude.Dict.{
  Dict, find, remove, prune, find-remove, find-put, IsMap, passing, find-prune, prune_absent,
}
use kb_retv_services.Skeleton.Pending.{
  Actor, PendingStore, pending_ttl, is_live, put_entry, put_pending, claimed, take_pending,
}

-- `Take` hands out a tool and its parameters exactly when the store holds an entry of that id
-- for them, which the same user of the same company proposed and which has not expired.
pub take_pending_iff :
    (now : ℕ) (actor : Actor) (id tool_id : Str) (params : Dict Str) (s : PendingStore)
    → ((take_pending now actor id s).1 ≡ some (tool_id, params)) ↔ (
        (expires : ℕ) × (now ≤ expires)
        × (find id s
            ≡ some (record {
              company_id = actor.company_id;
              user_id = actor.user_id;
              tool_id = tool_id;
              params = params;
              expires = expires;
            })))
unfolding take_pending
take_pending_iff now actor id tool_id params s = elim (Option-cases (find id s)) [
  | inl gone ↦ rw gone (λ h. cc, λ w. cc w.2)
  | inr (e, there) ↦
      rw there (λ h. (e.expires, ground arith, ground arith), λ w. ground (arith, w.1, w.2))
]

pub data Request : Type 0 where
  taken : ℕ → Actor → Str → Request
  proposed : ℕ → Option Str → Actor → Str → Dict Str → Request

serve : PendingStore → Request → PendingStore
serve s (taken now actor id) = (take_pending now actor id s).0
serve s (proposed now id actor tool_id params) = (put_pending now id actor tool_id params s).0

pub serve_all : PendingStore → List Request → PendingStore
serve_all s [] = s
serve_all s (q ∷ qs) = serve_all (serve s q) qs

-- The request does not propose an action under this id.
abbrev pub IsOther : Str → Request → Type 0
IsOther id (taken now actor j) = Unit
IsOther id (proposed now none actor tool_id params) = Unit
IsOther id (proposed now (some j) actor tool_id params) = str_eq j id ≡ false

find-put_entry_other :
    (now : ℕ) (j id : Str) (actor : Actor) (tool_id : Str) (params : Dict Str) (s : PendingStore)
    → str_eq j id ≡ false
    → find id (put_entry now j actor tool_id params s) ≡ find id (prune (is_live now) s)
unfolding put_entry
find-put_entry_other now j id actor tool_id params s h = rw (find-put, h)

pub find-put_entry_self :
    (now : ℕ) (id : Str) (actor : Actor) (tool_id : Str) (params : Dict Str) (s : PendingStore)
    → find id (put_entry now id actor tool_id params s)
      ≡ some (record {
        company_id = actor.company_id;
        user_id = actor.user_id;
        tool_id = tool_id;
        params = params;
        expires = now + pending_ttl;
      })
unfolding put_entry
find-put_entry_self now id actor tool_id params s = rw (find-put, str_eq_refl id)

serve_absent :
    (id : Str) (s : PendingStore) (q : Request)
    → IsOther id q
    → find id s ≡ none
    → find id (serve s q) ≡ none
unfolding serve take_pending put_pending
serve_absent id s (taken now actor j) o h = ground (arith, find-remove j id s)
serve_absent id s (proposed now none actor tool_id params) o h = h
serve_absent id s (proposed now (some j) actor tool_id params) o h =
    find-put_entry_other now j id actor tool_id params s o ∙ prune_absent (is_live now) id s h

serve_all_absent :
    (id : Str) (s : PendingStore) (qs : List Request)
    → All (IsOther id) qs
    → find id s ≡ none
    → find id (serve_all s qs) ≡ none
unfolding serve_all
serve_all_absent id s [] o h = h
serve_all_absent id s (q ∷ qs) (o, os) h =
    serve_all_absent id (serve s q) qs os (serve_absent id s q o h)

-- Once an action was asked for under its id, by anybody and at any time, no later request for
-- it succeeds, whatever is taken or proposed under other ids in between: an action is handed
-- out at most once.
pub take_pending-once :
    (now later : ℕ) (first second : Actor) (id : Str) (s : PendingStore) (qs : List Request)
    → All (IsOther id) qs
    → (take_pending later second id (serve_all (take_pending now first id s).0 qs)).1 ≡ none
unfolding take_pending
take_pending-once now later first second id s qs o =
    let gone : find id (remove id s) ≡ none =
      find-remove id id s ∙ ap (λ b. if b then none else find id s) (str_eq_refl id) in
    ap (claimed later second) (serve_all_absent id (remove id s) qs o gone)

-- An action that was just proposed can be taken by the user who proposed it, with the tool and
-- the parameters that were proposed, up to ten minutes later and not after. In a store where no
-- id stands twice, the proposal leaves each entry of another id as it was if it has not
-- expired, and drops it otherwise.
pub put_pending-take :
    (now later : ℕ) (id j : Str) (actor : Actor) (tool_id : Str) (params : Dict Str)
    (s : PendingStore)
    → IsMap s
    → str_eq id j ≡ false
    → let s' = (put_pending now (some id) actor tool_id params s).0 in
      ((take_pending later actor id s').1
        ≡ (if leb later (now + pending_ttl) then some (tool_id, params) else none))
      × (find j s' ≡ passing (is_live now) (find j s))
unfolding take_pending put_pending
put_pending-take now later id j actor tool_id params s m apart =
    let here = find-put_entry_self now id actor tool_id params s in
    (
      rw here (ground arith),
      find-put_entry_other now id j actor tool_id params s apart ∙ find-prune (is_live now) j s m,
    )
