-- ===== src/Budget.antt =====
-- How many calls of a model a request and a company may make: internal/ai/budget/budget.go. The
-- clock
-- is read once in a call. `strconv.Atoi` keeps the range of 64 bits written out. `window.Seconds()`
-- is a float64, which is exact enough for windows of up to some weeks.
pub mod Windows
use kb_retv_services.Prelude.{
  ℕ, zero, suc, ◌+◌, ◌-◌, ◌*◌, ◌/◌, ◌%◌, ◌^◌, ◌≤◌, ◌<◌, ◌≡◌, refl, sym, ap, ◌∙◌, ◌≢◌, ◌↔◌, ◌⊎◌, inl,
  inr, Bool, true, false, not, ◌&&◌, ◌||◌, Option, none, some, List, [], ◌∷◌, ◌++◌, map, arith, ltb,
  leb, ◌==◌, if◌then◌else◌, ltb→lt, lt→ltb, leb→le, le→leb, ==_iff, tests, Bool-cases, Option-cases,
  length, get_elem?, take, any, all, keep, length-append, length-take_le, length-keep_le, All,
  All-append, All-take, All-keep, Result, ok, err, Result-cases, ok_inj, err_ne_ok, if_both,
}
use kb_retv_services.Prelude.Int.{
  ℤ, pos, negsuc, pos_part, neg_part, sub_ℕ, ◌+ℤ◌, ◌≤ℤ◌, ◌<ℤ◌, ltb_ℤ, leb_ℤ, max_ℤ, min_ℤ, +ℤ_parts,
  eq_of_parts, ℤ_cases, int_laws, max_ℤ_bounds, min_ℤ_bounds, min_max_bounds,
}
use kb_retv_services.Prelude.Str.{
  Str, codes, str_eq, str_eq_refl, eq_of_str_eq, str_eq_iff, starts_with, contains, to_lower,
  trim_space, ends_with, itoa, is_empty, trim_suffix,
}
use kb_retv_services.Prelude.Dict.{
  Dict, find, remove, put, prune, find-remove, find-put, length-remove_le, length-prune_le, IsMap,
  passing, find-prune, prune_absent, prune-IsMap, remove-IsMap, put-IsMap,
}
use kb_retv_services.Prelude.Str.Numbers.{value, is_digit}
use kb_retv_services.Memcache.{Cache, get, set}

-- `strconv.Atoi`.
abbrev pub all_digits : Str → Option ℕ
all_digits s = if is_empty s || not (all is_digit s) then none else some (value s)

abbrev within_positive : Option ℕ → Option ℤ
within_positive none = none
within_positive (some n) = if ltb n (2 ^ 63) then some (pos n) else none

abbrev within_negative : Option ℕ → Option ℤ
within_negative none = none
within_negative (some n) = if leb n (2 ^ 63) then some (sub_ℕ 0 n) else none

unfoldable pub atoi : Str → Option ℤ
atoi [] = none
atoi (c ∷ s) =
    if c == b'-'
    then within_negative (all_digits s)
    else if c == b'+'
    then within_positive (all_digits s)
    else within_positive (all_digits (c ∷ s))

unfoldable pub itoa_int : ℤ → Str
itoa_int (pos n) = itoa n
itoa_int (negsuc n) = b'-' ∷ itoa (suc n)

-- `ports.Cache`, as far as it is used here, on a state of the cache.
pub record CachePort (S E : Type 0) : Type 0 where
  pub read : ℕ → Str → S → S × Result E Str
  pub write : ℕ → Str → Str → ℤ → S → S × Option E

-- `Limiter`.
pub record Budget (S E : Type 0) : Type 0 where
  pub cache : Option (CachePort S E)
  pub max_per_req : ℤ
  pub max_per_window : ℤ
  pub window : ℕ

-- `New`: a window that is not positive is a minute.
unfoldable pub new_budget : {S E : Type 0} → Option (CachePort S E) → ℤ → ℤ → ℤ → Budget S E
new_budget cache per_request per_window window = record {
  cache = cache;
  max_per_req = per_request;
  max_per_window = per_window;
  window = if leb_ℤ window (pos 0) then 60_000_000_000 else pos_part window;
}

-- What `ctx.Err()` is after a failed read and after a failed write.
pub record CallContext (E : Type 0) : Type 0 where
  pub after_read : Option E
  pub after_write : Option E

-- A division by zero panics.
pub data Answer (E : Type 0) : Type 0 where
  granted : Bool → Answer E
  failed : E → Answer E
  panicked : Answer E

-- The `Add(1)` of an `atomic.Int32`.
abbrev next_int32 : ℤ → ℤ
next_int32 n = if leb_ℤ (pos (2 ^ 31 - 1)) n then negsuc (2 ^ 31 - 1) else n +ℤ pos 1

-- `Unix()`, and `int64(window.Seconds())`.
abbrev pub seconds : ℕ → ℕ
seconds t = t / 1_000_000_000

abbrev pub used_of : Option ℤ → ℤ
used_of none = pos 0
used_of (some n) = n

module _ {S E : Type 0} where
  -- `allowRequest`, with the counter of the request, which `Begin` makes.
  unfoldable pub allow_request : Budget S E → Option ℤ → Option ℤ × Bool
  unfolding ◌+ℤ◌
  allow_request l none = (none, true)
  allow_request l (some n) =
      if leb_ℤ l.max_per_req (pos 0)
      then (some n, true)
      else (some (next_int32 n), leb_ℤ (next_int32 n) l.max_per_req)

  unfoldable pub bucket_of : Budget S E → ℕ → ℕ
  bucket_of l now = seconds now / seconds l.window

  unfoldable pub key_of : Budget S E → ℕ → ℤ → Str
  unfolding bucket_of itoa_int
  key_of l now company =
      codes "rag:budget:" ++ itoa_int company ++ codes ":" ++ itoa (bucket_of l now)

  abbrev written : Option E → S × Option E → S × Answer E
  written ended (s, none) = (s, granted true)
  written none (s, some e) = (s, granted true)
  written (some c) (s, some e) = (s, failed c)

  unfoldable pub count_up :
      Budget S E → CachePort S E → CallContext E → ℕ → Str → Str → S → S × Answer E
  unfolding atoi itoa_int ◌+ℤ◌
  count_up l port ctx now key raw s =
      let used = used_of (atoi raw) in
      if leb_ℤ l.max_per_window used
      then (s, granted false)
      else written ctx.after_write (port.write now key (itoa_int (used +ℤ pos 1)) (pos l.window) s)

  abbrev pub counted :
      Budget S E
      → CachePort S E
      → CallContext E
      → ℕ
      → Str
      → Option E
      → S × Result E Str
      → S × Answer E
  counted l port ctx now key ended (s, ok raw) = count_up l port ctx now key raw s
  counted l port ctx now key (some c) (s, err e) = (s, failed c)
  counted l port ctx now key none (s, err e) = count_up l port ctx now key [] s

  abbrev by_port : Budget S E → CallContext E → ℕ → ℤ → Option (CachePort S E) → S → S × Answer E
  by_port l ctx now company none s = (s, granted true)
  by_port l ctx now company (some port) s =
      if seconds l.window == 0
      then (s, panicked)
      else counted l port ctx now (key_of l now company) ctx.after_read
          (port.read now (key_of l now company) s)

  -- `allowWindow`.
  unfoldable pub allow_window : Budget S E → CallContext E → ℕ → ℤ → S → S × Answer E
  unfolding count_up key_of
  allow_window l ctx now company s =
      if leb_ℤ l.max_per_window (pos 0)
      then (s, granted true)
      else by_port l ctx now company l.cache s

  -- `Acquire`: the counter of the request, the cache, and the answer.
  unfoldable pub acquire :
      Budget S E → CallContext E → ℕ → ℤ → Option ℤ → S → Option ℤ × S × Answer E
  unfolding allow_request allow_window
  acquire l ctx now company counter s =
      let (counter', may) = allow_request l counter in
      let (s', answer) = allow_window l ctx now company s in
      if may then (counter', s', answer) else (counter', s, granted false)

-- The cache in memory: a read fails where there is nothing to read, and a write never does.
pub data CacheMiss : Type 0 where
  cache_miss : CacheMiss

abbrev hit_or_miss : Cache × Option Str → Cache × Result CacheMiss Str
hit_or_miss (c, none) = (c, err cache_miss)
hit_or_miss (c, some raw) = (c, ok raw)

unfoldable pub memory_port : CachePort Cache CacheMiss
memory_port = record {
  read = λ now key c. hit_or_miss (get now key c);
  write = λ now key text ttl c. (set now key text ttl c, none);
}
