-- ===== src/Skeleton/Pending.antt =====
-- The proposed actions that wait for a confirmation: `PendingStore` of
-- internal/application/skeleton/pending.go. A method runs under the mutex and reads the clock once;
-- the 16 random bytes of an id come from outside.
pub mod Confirming
pub mod Refine
use kb_retv_services.Prelude.{
  ℕ, zero, suc, ◌+◌, ◌-◌, ◌*◌, ◌/◌, ◌%◌, ◌^◌, ◌≤◌, ◌<◌, ◌≡◌, refl, sym, ap, ◌∙◌, ◌≢◌, ◌↔◌, ◌⊎◌, inl,
  inr, Bool, true, false, not, ◌&&◌, ◌||◌, Option, none, some, List, [], ◌∷◌, ◌++◌, map, arith, ltb,
  leb, ◌==◌, if◌then◌else◌, ltb→lt, lt→ltb, leb→le, le→leb, ==_iff, tests, Bool-cases, Option-cases,
  length, get_elem?, take, any, all, keep, length-append, length-take_le, length-keep_le, All,
  All-append, All-take, All-keep, Result, ok, err, Result-cases,
}
use kb_retv_services.Prelude.Int.{
  ℤ, pos, negsuc, pos_part, neg_part, sub_ℕ, ◌+ℤ◌, ◌≤ℤ◌, ◌<ℤ◌, ltb_ℤ, leb_ℤ, max_ℤ, min_ℤ, +ℤ_parts,
  eq_of_parts, int_laws, max_ℤ_bounds, min_ℤ_bounds, min_max_bounds,
}
use kb_retv_services.Prelude.Str.{
  Str, codes, str_eq, str_eq_refl, eq_of_str_eq, str_eq_iff, starts_with, contains, to_lower,
  trim_space, ends_with, itoa, is_empty, trim_suffix,
}
use kb_retv_services.Prelude.Dict.{
  Dict, find, remove, put, prune, find-remove, find-put, length-remove_le, length-prune_le, IsMap,
  passing, find-prune, prune-IsMap, remove-IsMap, put-IsMap,
}

pub record Actor : Type 0 where
  pub company_id : ℕ
  pub user_id : ℕ
  pub perms : List Str
  pub coverage : List ℕ

pub record PendingEntry : Type 0 where
  pub company_id : ℕ
  pub user_id : ℕ
  pub tool_id : Str
  pub params : Dict Str
  pub expires : ℕ

abbrev pub PendingStore : Type 0
PendingStore = Dict PendingEntry

-- `pendingTTL`, in nanoseconds.
abbrev pub pending_ttl : ℕ
pending_ttl = 600_000_000_000

-- `!now.After(entry.expires)`.
abbrev pub is_live : ℕ → PendingEntry → Bool
is_live now e = leb now e.expires

-- The body of `Put` once the id is drawn.
unfoldable pub put_entry : ℕ → Str → Actor → Str → Dict Str → PendingStore → PendingStore
put_entry now id actor tool_id params s =
    put id
      (record {
        company_id = actor.company_id;
        user_id = actor.user_id;
        tool_id = tool_id;
        params = params;
        expires = now + pending_ttl;
      })
      (prune (is_live now) s)

-- `Put`: `none` is the empty id of a failed random source.
unfoldable pub put_pending :
    ℕ → Option Str → Actor → Str → Dict Str → PendingStore → PendingStore × Option Str
unfolding put_entry
put_pending now none actor tool_id params s = (s, none)
put_pending now (some id) actor tool_id params s =
    (put_entry now id actor tool_id params s, some id)

abbrev pub belongs : Actor → PendingEntry → Bool
belongs actor e = e.company_id == actor.company_id && e.user_id == actor.user_id

abbrev pub claimed : ℕ → Actor → Option PendingEntry → Option (Str × Dict Str)
claimed now actor none = none
claimed now actor (some e) =
    if belongs actor e && is_live now e then some (e.tool_id, e.params) else none

-- `Take`: the entry is deleted whoever asks for it, if it is there.
unfoldable pub take_pending :
    ℕ → Actor → Str → PendingStore → PendingStore × Option (Str × Dict Str)
take_pending now actor id s = (remove id s, claimed now actor (find id s))
