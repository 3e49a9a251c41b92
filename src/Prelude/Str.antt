-- ===== src/Prelude/Str.antt =====
-- Go's strings, as lists of bytes; a literal is written `codes "…"`. The functions are those of
-- Go's
-- `strings` and `strconv` that the modelled code calls. Case and white space are those of ASCII:
-- Unicode case folding and the two white-space characters beyond ASCII are not modelled.
pub mod Affixes
pub mod Numbers
pub mod Trim
use Prim.Native.Char.{code}
use Prim.Native.String.{String}
use Prim.Native.Nat.{ℕ, zero, suc, ◌+◌, ◌-◌, ◌/◌, ◌%◌}
use mathlib.Core.Path.{◌≡◌, refl}
use mathlib.Core.Logic.{◌↔◌}
use mathlib.Core.Bool.{Bool, true, false, ◌&&◌, ◌||◌}
use mathlib.Core.List.{List, [], ◌∷◌, map, reverse}
use native.Mathlib.Omega.{arith}
use kb_retv_services.Prelude.Tests.{◌==◌, ltb, leb, if◌then◌else◌}

abbrev pub Str : Type 0
Str = List ℕ

abbrev pub codes : String → Str
codes String.[] = []
codes (String.◌∷◌ c s) = code c ∷ codes s

-- `s == t`.
unfoldable pub str_eq : Str → Str → Bool
str_eq [] [] = true
str_eq (c ∷ s) (d ∷ t) = c == d && str_eq s t
str_eq _ _ = false

pub str_eq_refl : (s : Str) → str_eq s s ≡ true
unfolding str_eq
str_eq_refl [] = refl
str_eq_refl (c ∷ s) = ground (arith, str_eq_refl s)

pub eq_of_str_eq : (s t : Str) → str_eq s t ≡ true → s ≡ t
unfolding str_eq
eq_of_str_eq [] [] h = refl
eq_of_str_eq (c ∷ s) (d ∷ t) h = ground (arith, eq_of_str_eq s t)
eq_of_str_eq _ _ h = cc

pub str_eq_iff : (s t : Str) → (str_eq s t ≡ true) ↔ (s ≡ t)
str_eq_iff s t = (eq_of_str_eq s t, λ e. rw e (str_eq_refl t))

-- `s == ""`.
abbrev pub is_empty : Str → Bool
is_empty [] = true
is_empty (c ∷ s) = false

-- `strings.HasPrefix(s, p)`.
unfoldable pub starts_with : Str → Str → Bool
starts_with s [] = true
starts_with [] (c ∷ p) = false
starts_with (d ∷ s) (c ∷ p) = d == c && starts_with s p

-- `strings.HasSuffix(s, p)`.
unfoldable pub ends_with : Str → Str → Bool
unfolding str_eq
ends_with [] p = str_eq [] p
ends_with (d ∷ s) p = str_eq (d ∷ s) p || ends_with s p

-- `strings.Contains(s, p)`.
unfoldable pub contains : Str → Str → Bool
contains [] p = starts_with [] p
contains (d ∷ s) p = starts_with (d ∷ s) p || contains s p

abbrev pub lower_byte : ℕ → ℕ
lower_byte c = if leb b'A' c && leb c b'Z' then c + 32 else c

-- `strings.ToLower(s)`.
unfoldable pub to_lower : Str → Str
to_lower s = map lower_byte s

abbrev pub upper_byte : ℕ → ℕ
upper_byte c = if leb b'a' c && leb c b'z' then c - 32 else c

-- `strings.ToUpper(s)`.
unfoldable pub to_upper : Str → Str
to_upper s = map upper_byte s

abbrev pub is_space : ℕ → Bool
is_space c = c == b' ' || (leb 9 c && leb c 13)

unfoldable pub trim_left : Str → Str
trim_left [] = []
trim_left (c ∷ s) = if is_space c then trim_left s else c ∷ s

-- `strings.TrimSpace(s)`.
unfoldable pub trim_space : Str → Str
unfolding trim_left
trim_space s = reverse (trim_left (reverse (trim_left s)))

-- The decimal digits of a number, the last of at most `fuel` first.
unfoldable pub digits_rev : ℕ → ℕ → Str
digits_rev zero n = []
digits_rev (suc fuel) n =
    let rest = digits_rev fuel (n / 10) in
    if ltb n 10 then (b'0' + n) ∷ [] else (b'0' + n % 10) ∷ rest

-- `strconv.Itoa(n)`; a number has no more digits than its value plus one.
unfoldable pub itoa : ℕ → Str
unfolding digits_rev
itoa n = reverse (digits_rev (suc n) n)

test_trim : trim_space (codes "  a b\n") ≡ codes "a b"
unfolding trim_space
test_trim = refl

test_itoa : itoa 4290 ≡ codes "4290"
unfolding itoa
test_itoa = refl

test_contains : contains (codes "rate limit") (codes "e l") ≡ true
unfolding contains starts_with
test_contains = refl

test_ends : ends_with (codes "report.*") (codes ".*") ≡ true
unfolding ends_with
test_ends = refl

-- `strings.TrimSuffix(s, p)`.
unfoldable pub trim_suffix : Str → Str → Str
unfolding str_eq
trim_suffix [] p = []
trim_suffix (c ∷ s) p = if str_eq (c ∷ s) p then [] else c ∷ trim_suffix s p
