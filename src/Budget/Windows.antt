-- ===== src/Budget/Windows.antt =====
-- How many calls a window lets through, over the cache in memory.
use kb_retv_services.Prelude.{
  ℕ, zero, suc, ◌+◌, ◌*◌, ◌/◌, ◌^◌, ◌≤◌, ◌<◌, ◌≡◌, refl, sym, ap, ◌∙◌, ◌⊎◌, inl, inr, true, false,
  none, some, List, [], ◌∷◌, ◌++◌, arith, leb, ◌==◌, if◌then◌else◌, lt→ltb, le→leb, all, All,
}
use kb_retv_services.Prelude.Int.{ℤ, pos, ◌+ℤ◌, leb_ℤ}
use kb_retv_services.Prelude.Str.{Str, codes, str_eq_refl, itoa}
use kb_retv_services.Prelude.Dict.{find, find-put}
use native.Mathlib.Nat.{lt-mul-div-succ, div-mul-le_self}
use mathlib.Core.Path.{subst, ap₂}
use kb_retv_services.Prelude.Str.Numbers.{
  value, value_from, is_digit, value-itoa, AllDigits, AllDigits-itoa,
}
use kb_retv_services.Memcache.{Cache, CacheEntry, get, set, lifetime, make_room}
use kb_retv_services.Budget.{
  all_digits, atoi, itoa_int, Budget, CallContext, Answer, granted, seconds, bucket_of, key_of,
  used_of, count_up, counted, allow_window, memory_port, CacheMiss,
}

all-AllDigits : (s : Str) → AllDigits s → all is_digit s ≡ true
all-AllDigits [] h = refl
all-AllDigits (c ∷ s) (d, h) = ground (arith, d, all-AllDigits s h)

atoi-AllDigits :
    (c n : ℕ) (s : Str)
    → AllDigits (c ∷ s)
    → value (c ∷ s) ≡ n
    → n < 2 ^ 63
    → atoi (c ∷ s) ≡ some (pos n)
unfolding atoi
atoi-AllDigits c n s (d, h) v small = rw (minus, plus, digits, v, lt→ltb _ _ small) refl
  where
    minus : (c == b'-') ≡ false
    minus = ground (arith, d)

    plus : (c == b'+') ≡ false
    plus = ground (arith, d)

    digits : all_digits (c ∷ s) ≡ some (value (c ∷ s))
    digits = rw (all-AllDigits (c ∷ s) (d, h)) refl

starts : (n : ℕ) (s : Str) → value s ≡ suc n → (c : ℕ) × (t : Str) × (s ≡ c ∷ t)
unfolding value_from
starts n [] h = absurd (omega (arith, h))
starts n (c ∷ t) h = (c, t, refl)

itoa-cons : (n : ℕ) → (c : ℕ) × (s : Str) × (itoa n ≡ c ∷ s)
unfolding itoa
itoa-cons zero = (b'0', [], refl)
itoa-cons (suc n) = starts n (itoa (suc n)) (value-itoa (suc n))

-- A counter that was printed is read back.
pub atoi-itoa : (n : ℕ) → n < 2 ^ 63 → atoi (itoa n) ≡ some (pos n)
atoi-itoa n small =
    let (c, s, e) = itoa-cons n in
    ap atoi e
    ∙ atoi-AllDigits c n s (subst AllDigits e (AllDigits-itoa n)) (ap value (sym e) ∙ value-itoa n)
        small

near : (a b w q : ℕ) → q * w ≤ a → b < w * (q + 1) → b < a + w
near a b w q h k = grind arith

-- Two moments of one bucket are less than a window apart.
bucket-close :
    (t u w : ℕ) → 1 ≤ seconds w → seconds u / seconds w ≡ seconds t / seconds w → u ≤ t + w
bucket-close t u w one same =
    let before : seconds u < seconds t + seconds w =
      near (seconds t) (seconds u) (seconds w) (seconds t / seconds w)
        (div-mul-le_self (seconds t) (seconds w))
        (subst (λ q. seconds u < seconds w * (q + 1)) same (lt-mul-div-succ (seconds u) one)) in
    omega (arith, before)

plus_one : (u : ℕ) → pos u +ℤ pos 1 ≡ pos (suc u)
unfolding ◌+ℤ◌
plus_one u = ground arith

-- A context that is not done.
abbrev pub alive : CallContext CacheMiss
alive = record { after_read = none; after_write = none }

abbrev pub over_memory : ℤ → ℕ → ℕ → Budget Cache CacheMiss
over_memory per_request m w = record {
  cache = some memory_port;
  max_per_req = per_request;
  max_per_window = pos m;
  window = w;
}

-- The answers to calls of one company, one after the other.
unfoldable pub answers : Budget Cache CacheMiss → ℤ → List ℕ → Cache → List (Answer CacheMiss)
unfolding allow_window
answers l company [] c = []
answers l company (now ∷ times) c =
    let (c', answer) = allow_window l alive now company c in answer ∷ answers l company times c'

-- As many calls as are left pass, and no call after them.
unfoldable pub first_granted : ℕ → List ℕ → List (Answer CacheMiss)
first_granted left [] = []
first_granted zero (t ∷ times) = granted false ∷ first_granted zero times
first_granted (suc left) (t ∷ times) = granted true ∷ first_granted left times

module _ (per_request : ℤ) (m w : ℕ) (company : ℤ) where
  abbrev l : Budget Cache CacheMiss
  l = over_memory per_request m w

  abbrev entry : ℕ → ℕ → CacheEntry
  entry u t = record { value = itoa u; expires_at = t + w }

  -- The cache counts `u` calls under the key, since a moment of the bucket `b`.
  abbrev Counts : ℕ → Str → ℕ → Cache → Type 0
  Counts b key u c =
      ((find key c.items ≡ none) × (u ≡ 0))
      ⊎ ((t : ℕ) × (find key c.items ≡ some (entry u t)) × (bucket_of l t ≡ b))

  abbrev next_state : ℕ → Str → ℕ → Cache → Cache × Answer CacheMiss
  next_state now key u c =
      if leb m u then (c, granted false) else (set now key (itoa (suc u)) (pos w) c, granted true)

  count_up-next_state :
      (now u : ℕ) (key raw : Str) (c : Cache)
      → used_of (atoi raw) ≡ pos u
      → count_up l memory_port alive now key raw c ≡ next_state now key u c
  unfolding count_up memory_port itoa_int
  count_up-next_state now u key raw c h = rw h (
      ap₂
        (λ over text.
          if over then (c, granted false) else (set now key text (pos w) c, granted true))
        (ap₂ leb (omega arith) (omega arith)) (ap itoa_int (plus_one u)))

  allow_window-counted :
      (now : ℕ) (c : Cache)
      → 1 ≤ m
      → 1 ≤ seconds w
      → allow_window l alive now company c
        ≡ counted l memory_port alive now
            (key_of l now company)
            none
            (memory_port.read now (key_of l now company) c)
  unfolding allow_window
  allow_window-counted now c some_calls one = rw (limited, long) refl
    where
      limited : leb_ℤ (pos m) (pos 0) ≡ false
      limited = ground arith

      long : (seconds w == 0) ≡ false
      long = ground arith

  read-Counts :
      (now b u : ℕ) (key : Str) (c : Cache)
      → u ≤ m
      → m < 2 ^ 63
      → 1 ≤ seconds w
      → bucket_of l now ≡ b
      → Counts b key u c
      → counted l memory_port alive now key none (memory_port.read now key c)
        ≡ next_state now key u c
  unfolding memory_port get bucket_of atoi
  read-Counts now b u key c most small one here (inl (fresh, none_yet)) =
      rw fresh (count_up-next_state now u key [] c (ap pos (sym none_yet)))
  read-Counts now b u key c most small one here (inr (t, found, there)) =
      rw (found, le→leb _ _ (bucket-close t now w one (here ∙ sym there)))
        (count_up-next_state now u key (itoa u) c (ap used_of (atoi-itoa u (omega arith))))

  set-Counts :
      (now b u : ℕ) (key : Str) (c : Cache)
      → 1 ≤ seconds w
      → bucket_of l now ≡ b
      → Counts b key u (set now key (itoa u) (pos w) c)
  unfolding set
  set-Counts now b u key c one here = inr (
    now,
    find-put key key (record { value = itoa u; expires_at = now + lifetime (pos w) })
          (make_room now key c)
        ∙ rw (str_eq_refl key, lasts) refl,
    here,
  )
    where
      lasts : lifetime (pos w) ≡ w
      lasts = ground arith

  one_call :
      (now b u : ℕ) (key : Str) (c : Cache)
      → 1 ≤ m
      → m < 2 ^ 63
      → 1 ≤ seconds w
      → u ≤ m
      → bucket_of l now ≡ b
      → key_of l now company ≡ key
      → Counts b key u c
      → allow_window l alive now company c ≡ next_state now key u c
  one_call now b u key c some_calls small one most here same counts =
      subst
        (λ k.
          allow_window l alive now company c
          ≡ counted l memory_port alive now k none (memory_port.read now k c))
        same (allow_window-counted now c some_calls one)
      ∙ read-Counts now b u key c most small one here counts

  answers-from :
      (times : List ℕ) (b u left : ℕ) (key : Str) (c : Cache)
      → 1 ≤ m
      → m < 2 ^ 63
      → 1 ≤ seconds w
      → u + left ≡ m
      → All (λ t. bucket_of l t ≡ b) times
      → All (λ t. key_of l t company ≡ key) times
      → Counts b key u c
      → answers l company times c ≡ first_granted left times
  unfolding answers first_granted
  answers-from [] b u left key c some_calls small one sum here same counts = refl
  answers-from (now ∷ times) b u zero key c some_calls small one sum (h, here) (k, same) counts =
      rw
        (
          one_call now b u key c some_calls small one (omega arith) h k counts,
          le→leb m u (omega arith),
        )
        (ap (λ r. granted false ∷ r)
          (answers-from times b u zero key c some_calls small one sum here same counts))
  answers-from (now ∷ times) b u (suc left) key c some_calls small one sum (h, here) (k, same)
        counts =
      rw (one_call now b u key c some_calls small one (omega arith) h k counts, under)
        (ap (λ r. granted true ∷ r)
          (answers-from times b (suc u) left key _ some_calls small one (omega arith) here same
            (set-Counts now b (suc u) key c one h)))
    where
      under : leb m u ≡ false
      under = ground arith

same_keys :
    (per_request : ℤ) (m w b : ℕ) (company : ℤ) (times : List ℕ)
    → All (λ t. bucket_of (over_memory per_request m w) t ≡ b) times
    → All
        (λ t.
          key_of (over_memory per_request m w) t company
          ≡ codes "rag:budget:" ++ itoa_int company ++ codes ":" ++ itoa b)
        times
unfolding key_of
same_keys per_request m w b company [] h = tt
same_keys per_request m w b company (t ∷ times) (h, rest) = (
  ap (λ b. codes "rag:budget:" ++ itoa_int company ++ codes ":" ++ itoa b) h,
  same_keys per_request m w b company times rest,
)

-- Over a cache in memory that has no count for them yet, the calls of one company in one
-- window, one
-- after the other and in whatever order of their times, are granted until as many have passed
-- as the
-- window allows, and refused after that. The limit is positive and below 2^63, and the window is at
-- least a second.
pub answers-first_granted :
    (per_request : ℤ) (m w b : ℕ) (company : ℤ) (times : List ℕ) (c : Cache)
    → 1 ≤ m
    → m < 2 ^ 63
    → 1 ≤ seconds w
    → All (λ t. bucket_of (over_memory per_request m w) t ≡ b) times
    → find (codes "rag:budget:" ++ itoa_int company ++ codes ":" ++ itoa b) c.items ≡ none
    → answers (over_memory per_request m w) company times c ≡ first_granted m times
answers-first_granted per_request m w b company times c some_calls small one here fresh =
    answers-from per_request m w company times b 0 m _ c some_calls small one (omega arith) here
      (same_keys per_request m w b company times here) (inl (fresh, refl))
