-- ===== src/Memcache.antt =====
-- The cache in memory: internal/infra/memcache/memcache.go. A method runs under the mutex and reads
-- the clock once; the loops of `makeRoomLocked` meet the keys in the order of the list.
pub mod Bounds
use kb_retv_services.Prelude.{
  ℕ, zero, suc, ◌+◌, ◌-◌, ◌*◌, ◌/◌, ◌%◌, ◌^◌, ◌≤◌, ◌<◌, ◌≡◌, refl, sym, ap, ◌∙◌, ◌≢◌, ◌↔◌, ◌⊎◌, inl,
  inr, Bool, true, false, not, ◌&&◌, ◌||◌, Option, none, some, List, [], ◌∷◌, ◌++◌, map, arith, ltb,
  leb, ◌==◌, if◌then◌else◌, ltb→lt, lt→ltb, leb→le, le→leb, ==_iff, tests, Bool-cases, Option-cases,
  length, get_elem?, take, any, all, keep, length-append, length-take_le, length-keep_le, All,
  All-append, All-take, All-keep, Result, ok, err, Result-cases,
}
use kb_retv_services.Prelude.Int.{
  ℤ, pos, negsuc, pos_part, neg_part, sub_ℕ, ◌+ℤ◌, ◌≤ℤ◌, ◌<ℤ◌, ltb_ℤ, leb_ℤ, max_ℤ, min_ℤ, +ℤ_parts,
  eq_of_parts, int_laws, max_ℤ_bounds, min_ℤ_bounds, min_max_bounds,
}
use kb_retv_services.Prelude.Str.{
  Str, codes, str_eq, str_eq_refl, eq_of_str_eq, str_eq_iff, starts_with, contains, to_lower,
  trim_space, ends_with, itoa, is_empty, trim_suffix,
}
use kb_retv_services.Prelude.Dict.{
  Dict, find, remove, put, prune, find-remove, find-put, length-remove_le, length-prune_le, IsMap,
  passing, find-prune, prune_absent, prune-IsMap, remove-IsMap, put-IsMap,
}

pub record CacheEntry : Type 0 where
  pub value : Str
  pub expires_at : ℕ

pub record Cache : Type 0 where
  pub items : Dict CacheEntry
  pub max_entries : ℕ

-- `New`.
unfoldable pub new_cache : ℤ → Cache
new_cache n = record { items = []; max_entries = if leb_ℤ n (pos 0) then 4096 else pos_part n }

-- `!now.After(item.expiresAt)`.
abbrev pub is_fresh : ℕ → CacheEntry → Bool
is_fresh now e = leb now e.expires_at

abbrev read_entry : ℕ → Str → Cache → Option CacheEntry → Cache × Option Str
read_entry now key c none = (c, none)
read_entry now key c (some e) =
    if is_fresh now e then (c, some e.value) else (record c { items = remove key c.items }, none)

-- `Get`: `none` is `ErrMiss`.
unfoldable pub get : ℕ → Str → Cache → Cache × Option Str
get now key c = read_entry now key c (find key c.items)

-- The second loop of `makeRoomLocked`: deletes until there is room.
unfoldable pub evict : ℕ → Dict CacheEntry → Dict CacheEntry
evict max [] = []
evict max (e ∷ m) = let rest = evict max m in if ltb (length (e ∷ m)) max then e ∷ m else rest

abbrev is_there : Option CacheEntry → Bool
is_there none = false
is_there (some e) = true

-- `makeRoomLocked`.
unfoldable pub make_room : ℕ → Str → Cache → Dict CacheEntry
unfolding evict
make_room now incoming c =
    if is_there (find incoming c.items) || ltb (length c.items) c.max_entries
    then c.items
    else evict c.max_entries (prune (is_fresh now) c.items)

-- A time to live that is not positive is a minute.
abbrev pub lifetime : ℤ → ℕ
lifetime ttl = if leb_ℤ ttl (pos 0) then 60_000_000_000 else pos_part ttl

-- `Set`.
unfoldable pub set : ℕ → Str → Str → ℤ → Cache → Cache
unfolding make_room
set now key value ttl c = record c {
  items = put key (record { value = value; expires_at = now + lifetime ttl }) (make_room now key c);
}

-- `Delete`.
unfoldable pub delete : List Str → Cache → Cache
delete [] c = c
delete (k ∷ ks) c = delete ks (record c { items = remove k c.items })

-- `c.now().Before(item.expiresAt)`.
abbrev is_held : ℕ → Option CacheEntry → Bool
is_held now none = false
is_held now (some e) = ltb now e.expires_at

-- `SetNX`.
unfoldable pub set_nx : ℕ → Str → Str → ℤ → Cache → Cache × Bool
unfolding set
set_nx now key value ttl c =
    if is_held now (find key c.items) then (c, false) else (set now key value ttl c, true)
