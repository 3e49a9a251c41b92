-- ===== src/Concurrency/Limiter.antt =====
-- `Limiter` of pkg/concurrency/limiter.go: a channel with a buffer is the number of its values.
use kb_retv_services.Prelude.{
  ℕ, zero, suc, ◌≤◌, ◌<◌, ◌≡◌, refl, ◌∙◌, Option, none, some, arith, if◌then◌else◌,
}
use kb_retv_services.Prelude.Int.{ℤ, pos, pos_part, leb_ℤ}
use mathlib.Core.Path.{subst}
use kb_retv_services.Concurrency.Parallel.{Cause}

pub record Limiter : Type 0 where
  pub capacity : ℕ
  pub held : ℕ

unfoldable pub new_limiter : ℤ → Limiter
new_limiter max_concurrent = record {
  capacity = if leb_ℤ max_concurrent (pos 0) then 1 else pos_part max_concurrent;
  held = 0;
}

-- `Acquire`: the context that is done, the limiter after the call, and the error. Where both cases
-- of the `select` are ready, it takes either.
pub data Acquire (l : Limiter) : Option Cause → Limiter → Option Cause → Type 0 where
  refused : (c : Cause) → Acquire l (some c) l (some c)
  entered :
      (ctx : Option Cause)
      → l.held < l.capacity
      → Acquire l ctx (record l { held = suc l.held }) none

-- `Release` takes one value out, or does nothing where there is none.
abbrev one_less : ℕ → ℕ
one_less zero = zero
one_less (suc n) = n

abbrev pub release : Limiter → Limiter
release l = record l { held = one_less l.held }

-- Callers of `Do`: those whose function runs are counted.
pub record Callers : Type 0 where
  pub limiter : Limiter
  pub inside : ℕ

pub data DoStep (s : Callers) : Callers → Type 0 where
  turned_away : (c : Cause) → Acquire s.limiter (some c) s.limiter (some c) → DoStep s s
  begins :
      (ctx : Option Cause) (l : Limiter)
      → Acquire s.limiter ctx l none
      → DoStep s (record { limiter = l; inside = suc s.inside })
  returns :
      (n : ℕ) → s.inside ≡ suc n → DoStep s (record { limiter = release s.limiter; inside = n })

pub data Reached (max_concurrent : ℤ) : Callers → Type 0 where
  unused : Reached max_concurrent (record { limiter = new_limiter max_concurrent; inside = 0 })
  later : (s t : Callers) → Reached max_concurrent s → DoStep s t → Reached max_concurrent t

abbrev IsCounted : ℤ → Callers → Type 0
IsCounted n s =
    (s.limiter.capacity ≡ (new_limiter n).capacity)
    × (s.limiter.held ≡ s.inside)
    × (s.inside ≤ s.limiter.capacity)

release-held : (h n : ℕ) → h ≡ suc n → one_less h ≡ n
release-held zero n e = absurd cc
release-held (suc h) n e = omega (arith, e)

Acquire-none :
    (l m : Limiter) (ctx res : Option Cause)
    → res ≡ none
    → Acquire l ctx m res
    → (m.capacity ≡ l.capacity) × (m.held ≡ suc l.held) × (l.held < l.capacity)
Acquire-none l m ctx res e (refused c) = absurd cc
Acquire-none l m ctx res e (entered _ room) = (refl, refl, room)

DoStep-IsCounted : (n : ℤ) (s t : Callers) → DoStep s t → IsCounted n s → IsCounted n t
DoStep-IsCounted n s t (turned_away c a) h = h
DoStep-IsCounted n s t (begins ctx l a) (cap, same, most) =
    let (c, held, room) = Acquire-none s.limiter l ctx none refl a in
    (c ∙ cap, omega (arith, held, same), omega (arith, c, same, room))
DoStep-IsCounted n s t (returns k e) (cap, same, most) =
    (cap, release-held s.limiter.held k (same ∙ e), omega (arith, e))

Reached-IsCounted : (n : ℤ) (s : Callers) → Reached n s → IsCounted n s
unfolding new_limiter
Reached-IsCounted n s unused = (refl, refl, omega arith)
Reached-IsCounted n s (later r t before st) =
    DoStep-IsCounted n r s st (Reached-IsCounted n r before)

-- However callers of `Do` come and go, the room that is taken is the number of those whose function
-- runs, and these are no more than the limiter was made for.
pub inside-capacity :
    (n : ℤ) (s : Callers)
    → Reached n s
    → (s.limiter.held ≡ s.inside) × (s.inside ≤ (new_limiter n).capacity)
inside-capacity n s r =
    let (cap, same, most) = Reached-IsCounted n s r in (same, subst (λ c. s.inside ≤ c) cap most)
