-- ===== src/Memcache/Bounds.antt =====
-- About the size of the cache, and what is read back from it.
use kb_retv_services.Prelude.{
  ℕ, zero, suc, ◌⊎◌, ◌+◌, ◌≤◌, ◌<◌, ◌≡◌, refl, ap, ◌∙◌, inl, inr, true, false, Option, none, some,
  List, [], ◌∷◌, arith, ltb, leb, if◌then◌else◌, Bool-cases, length,
}
use kb_retv_services.Prelude.Int.{ℤ, pos, negsuc, ◌≤ℤ◌}
use kb_retv_services.Prelude.Str.{Str, str_eq_refl}
use kb_retv_services.Prelude.Dict.{
  Dict, find, remove, put, prune, find-put, length-remove_le, IsMap, prune-IsMap, remove-IsMap,
  put-IsMap,
}
use kb_retv_services.Memcache.{
  CacheEntry, Cache, new_cache, is_fresh, read_entry, get, evict, is_there, make_room, lifetime,
  set, delete, is_held, set_nx,
}

pub data CacheCall : Type 0 where
  got : ℕ → Str → CacheCall
  put_value : ℕ → Str → Str → ℤ → CacheCall
  put_new : ℕ → Str → Str → ℤ → CacheCall
  deleted : List Str → CacheCall

unfoldable pub serve : Cache → CacheCall → Cache
unfolding get set delete set_nx
serve c (got now key) = (get now key c).0
serve c (put_value now key value ttl) = set now key value ttl c
serve c (put_new now key value ttl) = (set_nx now key value ttl c).0
serve c (deleted keys) = delete keys c

unfoldable pub serve_all : Cache → List CacheCall → Cache
unfolding serve
serve_all c [] = c
serve_all c (q ∷ qs) = serve_all (serve c q) qs

-- No key stands twice, and there are no more entries than allowed.
abbrev pub IsWithin : Cache → Type 0
IsWithin c = IsMap c.items × (length c.items ≤ c.max_entries) × (1 ≤ c.max_entries)

length-evict : (max : ℕ) (m : Dict CacheEntry) → 1 ≤ max → length (evict max m) < max
unfolding evict
length-evict max [] h = omega arith
length-evict max (e ∷ m) h = ground (arith, length-evict max m h)

evict-IsMap : (max : ℕ) (m : Dict CacheEntry) → IsMap m → IsMap (evict max m)
unfolding evict
evict-IsMap max [] h = tt
evict-IsMap max ((k, v) ∷ m) (fresh, h) = ground (arith, evict-IsMap max m h)

length-remove_lt :
    (k : Str) (m : Dict CacheEntry) → is_there (find k m) ≡ true → length (remove k m) < length m
unfolding find remove
length-remove_lt k [] h = cc
length-remove_lt k ((j, v) ∷ m) h = ground (arith, length-remove_lt k m, length-remove_le k m)

make_room-IsMap : (now : ℕ) (k : Str) (c : Cache) → IsMap c.items → IsMap (make_room now k c)
unfolding make_room
make_room-IsMap now k c h = ground (
  arith,
  evict-IsMap c.max_entries (prune (is_fresh now) c.items) (prune-IsMap (is_fresh now) c.items h),
)

-- After the call there is room for the key.
length-remove-make_room :
    (now : ℕ) (k : Str) (c : Cache)
    → IsWithin c
    → length (remove k (make_room now k c)) < c.max_entries
unfolding make_room
length-remove-make_room now k c (m, small, room) = ground (
  arith,
  length-evict c.max_entries (prune (is_fresh now) c.items) room,
  length-remove_le k (evict c.max_entries (prune (is_fresh now) c.items)),
  length-remove_le k c.items,
  length-remove_lt k c.items,
)

set-IsWithin :
    (now : ℕ) (k v : Str) (ttl : ℤ) (c : Cache) → IsWithin c → IsWithin (set now k v ttl c)
unfolding set put
set-IsWithin now k v ttl c (m, small, room) = (
  put-IsMap k (record { value = v; expires_at = now + lifetime ttl }) (make_room now k c)
      (make_room-IsMap now k c m),
  length-remove-make_room now k c (m, small, room),
  room,
)

remove-IsWithin :
    (k : Str) (c : Cache) → IsWithin c → IsWithin (record c { items = remove k c.items })
remove-IsWithin k c (m, small, room) =
    (remove-IsMap k c.items m, omega (arith, length-remove_le k c.items), room)

delete-IsWithin : (ks : List Str) (c : Cache) → IsWithin c → IsWithin (delete ks c)
unfolding delete
delete-IsWithin [] c h = h
delete-IsWithin (k ∷ ks) c h =
    delete-IsWithin ks (record c { items = remove k c.items }) (remove-IsWithin k c h)

read_entry-IsWithin :
    (now : ℕ) (k : Str) (c : Cache) (e : Option CacheEntry)
    → IsWithin c
    → IsWithin (read_entry now k c e).0
read_entry-IsWithin now k c none h = h
read_entry-IsWithin now k c (some e) h = elim (Bool-cases (is_fresh now e)) [
  | inl f ↦ rw f h
  | inr old ↦ rw old (remove-IsWithin k c h)
]

set_nx-IsWithin :
    (now : ℕ) (k v : Str) (ttl : ℤ) (c : Cache) → IsWithin c → IsWithin (set_nx now k v ttl c).0
unfolding set_nx
set_nx-IsWithin now k v ttl c h = elim (Bool-cases (is_held now (find k c.items))) [
  | inl held ↦ rw held h
  | inr free ↦ rw free (set-IsWithin now k v ttl c h)
]

serve-IsWithin : (c : Cache) (q : CacheCall) → IsWithin c → IsWithin (serve c q)
unfolding serve get
serve-IsWithin c (got now key) h = read_entry-IsWithin now key c (find key c.items) h
serve-IsWithin c (put_value now key value ttl) h = set-IsWithin now key value ttl c h
serve-IsWithin c (put_new now key value ttl) h = set_nx-IsWithin now key value ttl c h
serve-IsWithin c (deleted keys) h = delete-IsWithin keys c h

serve_all-IsWithin : (c : Cache) (qs : List CacheCall) → IsWithin c → IsWithin (serve_all c qs)
unfolding serve_all
serve_all-IsWithin c [] h = h
serve_all-IsWithin c (q ∷ qs) h = serve_all-IsWithin (serve c q) qs (serve-IsWithin c q h)

max_entries-delete : (ks : List Str) (c : Cache) → (delete ks c).max_entries ≡ c.max_entries
unfolding delete
max_entries-delete [] c = refl
max_entries-delete (k ∷ ks) c = max_entries-delete ks (record c { items = remove k c.items })

max_entries-read_entry :
    (now : ℕ) (k : Str) (c : Cache) (e : Option CacheEntry)
    → (read_entry now k c e).0.max_entries ≡ c.max_entries
max_entries-read_entry now k c none = refl
max_entries-read_entry now k c (some e) = elim (Bool-cases (is_fresh now e)) [
  | inl f ↦ rw f refl
  | inr old ↦ rw old refl
]

max_entries-set_nx :
    (now : ℕ) (k v : Str) (ttl : ℤ) (c : Cache)
    → (set_nx now k v ttl c).0.max_entries ≡ c.max_entries
unfolding set_nx set
max_entries-set_nx now k v ttl c = elim (Bool-cases (is_held now (find k c.items))) [
  | inl held ↦ rw held refl
  | inr free ↦ rw free refl
]

-- A call leaves the size that the cache was made for.
max_entries-serve : (c : Cache) (q : CacheCall) → (serve c q).max_entries ≡ c.max_entries
unfolding serve get set
max_entries-serve c (got now key) = max_entries-read_entry now key c (find key c.items)
max_entries-serve c (put_value now key value ttl) = refl
max_entries-serve c (put_new now key value ttl) = max_entries-set_nx now key value ttl c
max_entries-serve c (deleted keys) = max_entries-delete keys c

max_entries-serve_all :
    (c : Cache) (qs : List CacheCall) → (serve_all c qs).max_entries ≡ c.max_entries
unfolding serve_all
max_entries-serve_all c [] = refl
max_entries-serve_all c (q ∷ qs) = max_entries-serve_all (serve c q) qs ∙ max_entries-serve c q

new-IsWithin : (n : ℤ) → IsWithin (new_cache n)
unfolding new_cache
new-IsWithin n = (tt, ground arith, ground arith)

within :
    (n : ℤ) (qs : List CacheCall)
    → let c = serve_all (new_cache n) qs in
      length c.items ≤ c.max_entries
      → ((k : ℕ) × (n ≡ pos (suc k)) × (length c.items ≤ suc k))
        ⊎ ((n ≤ℤ pos 0) × (length c.items ≤ 4096))
unfolding new_cache
within (pos zero) qs small =
    inr (omega arith, ground (arith, small, max_entries-serve_all (new_cache (pos zero)) qs))
within (pos (suc k)) qs small =
    inl (k, refl, ground (arith, small, max_entries-serve_all (new_cache (pos (suc k))) qs))
within (negsuc k) qs small =
    inr (omega arith, ground (arith, small, max_entries-serve_all (new_cache (negsuc k)) qs))

-- Whatever calls a new cache serves and whenever, no key stands twice in it, and it holds no more
-- entries than the number it was made with, or than 4096 where that number was not positive.
pub new_cache-IsWithin :
    (n : ℤ) (qs : List CacheCall)
    → let items = (serve_all (new_cache n) qs).items in
      IsMap items
      × (((k : ℕ) × (n ≡ pos (suc k)) × (length items ≤ suc k))
          ⊎ ((n ≤ℤ pos 0) × (length items ≤ 4096)))
new_cache-IsWithin n qs =
    let (map, small, _) = serve_all-IsWithin (new_cache n) qs (new-IsWithin n) in
    (map, within n qs small)

-- What was set is read back until its time to live is over, and not after it; before that time
-- `SetNX` refuses to set the key anew and leaves the cache as it is, and from it on sets the
-- key. A time to live that is not positive is a minute.
pub set-get :
    (now later : ℕ) (key value other_value : Str) (ttl other_ttl : ℤ) (c : Cache)
    → let c' = set now key value ttl c in
      let over = now + lifetime ttl in
      ((get later key c').1 ≡ (if leb later over then some value else none))
      × (set_nx later key other_value other_ttl c' ≡ (
          if ltb later over then (c', false) else (set later key other_value other_ttl c', true)))
unfolding set get set_nx
set-get now later key value other_value ttl other_ttl c =
    let here =
      find-put key key (record { value = value; expires_at = now + lifetime ttl })
        (make_room now key c)
      ∙ ap
          (λ b.
            if b
            then some (record { value = value; expires_at = now + lifetime ttl })
            else find key (make_room now key c))
          (str_eq_refl key) in
    (rw here (ground arith), simp here refl)
