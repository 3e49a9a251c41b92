-- ===== src/Concurrency/Parallel/Ends.antt =====
-- How long `Map` runs, and that it does not stop before its end.
use kb_retv_services.Prelude.{
  ℕ, zero, suc, ◌+◌, ◌*◌, ◌≤◌, ◌<◌, ◌≡◌, refl, ap, ◌≢◌, ◌⊎◌, inl, inr, Bool, true, false, Option,
  none, some, List, [], ◌∷◌, ◌++◌, arith, length, length-append, Result, ok, err,
}
use kb_retv_services.Prelude.Int.{ℤ}
use kb_retv_services.Concurrency.Parallel.{
  Cause, canceled, MapState, keep_first, workers_of, Step, hand, all_sent, give_up, succeed, fail,
  leave_done, leave_closed, parent_ends, Reach, begin, later, IsOver,
}

length-removed :
    {A : Type 0} (before after : List A) (x : A)
    → length (before ++ x ∷ after) ≡ suc (length (before ++ after))
length-removed before after x =
    omega (arith, length-append before (x ∷ after), length-append before after)

workers_of-pos : (n : ℤ) → 1 ≤ workers_of n
unfolding workers_of
workers_of-pos n = ground (arith)

keep_first_full : {A : Type 0} (a : Option A) (d : A) → keep_first a d ≢ none
keep_first_full none d h = absurd cc
keep_first_full (some c) d h = absurd cc

abbrev is_none : {A : Type 0} → Option A → ℕ
is_none none = 1
is_none (some a) = 0

abbrev to_close : Bool → ℕ
to_close true = 0
to_close false = 1

module _ {I O E : Type 0} (Gives : I → Result E O → Type 0) (workers : ℤ) (inputs : List I) where
  -- The number of steps that are still possible is no larger than this.
  abbrev size : MapState I O E → ℕ
  size s = 3 * length s.queue + 2 * length s.running + s.idle + to_close s.closed + is_none s.parent

  Step-shrinks : {s t : MapState I O E} → Step Gives s t → size t < size s
  Step-shrinks {s} (hand x xs k unsent q w) = omega (arith, ap length q, w)
  Step-shrinks {s} (all_sent unsent q) = omega (arith, ap to_close unsent)
  Step-shrinks {s} (give_up c unsent d) = omega (arith, ap to_close unsent)
  Step-shrinks {s} (succeed before after i x v r g) =
      omega (arith, ap length r, length-removed before after (i, x))
  Step-shrinks {s} (fail before after i x e r g) =
      omega (arith, ap length r, length-removed before after (i, x))
  Step-shrinks {s} (leave_done k c d w) = omega (arith, w)
  Step-shrinks {s} (leave_closed k c w) = omega (arith, w)
  Step-shrinks {s} (parent_ends c alone) = omega (arith, ap is_none alone)

  -- The workers that have not left.
  abbrev crew : MapState I O E → ℕ
  crew s = s.idle + length s.running

  abbrev IsStaffed : MapState I O E → Type 0
  IsStaffed s =
      (crew s ≤ workers_of workers)
      × (s.closed ≡ false → s.done ≡ none → crew s ≡ workers_of workers)

  Step-IsStaffed : {s t : MapState I O E} → Step Gives s t → IsStaffed s → IsStaffed t
  Step-IsStaffed (hand x xs k unsent q w) (most, full) =
      (omega (arith, w), λ c d. omega (arith, w, full c d))
  Step-IsStaffed (all_sent unsent q) (most, full) = (most, λ c d. absurd cc)
  Step-IsStaffed (give_up c unsent e) (most, full) = (most, λ c d. absurd cc)
  Step-IsStaffed (succeed before after i x v r g) (most, full) = (
    omega (arith, ap length r, length-removed before after (i, x)),
    λ c d. omega (arith, full c d, ap length r, length-removed before after (i, x)),
  )
  Step-IsStaffed {s} (fail before after i x e r g) (most, full) = (
    omega (arith, ap length r, length-removed before after (i, x)),
    λ c d. absurd (keep_first_full s.done canceled d),
  )
  Step-IsStaffed (leave_done k c e w) (most, full) = (omega (arith, w), λ c d. absurd cc)
  Step-IsStaffed (leave_closed k shut w) (most, full) = (omega (arith, w), λ c d. absurd cc)
  Step-IsStaffed {s} (parent_ends c alone) (most, full) =
      (most, λ o d. absurd (keep_first_full s.done c d))

  Reach-IsStaffed : {s : MapState I O E} → Reach Gives workers inputs s → IsStaffed s
  Reach-IsStaffed begin = (omega arith, λ c d. omega arith)
  Reach-IsStaffed (later s t r st) = Step-IsStaffed st (Reach-IsStaffed r)

  -- No more than `workers` calls of the function run at the same time, and one if `workers`
  -- is not positive.
  pub length-running_le :
      (s : MapState I O E) → Reach Gives workers inputs s → length s.running ≤ workers_of workers
  length-running_le s r = omega (arith, (Reach-IsStaffed r).0)

  abbrev pub steps : {s : MapState I O E} → Reach Gives workers inputs s → ℕ
  steps begin = 0
  steps (later s t r st) = suc (steps r)

  steps-size :
      {s : MapState I O E} (r : Reach Gives workers inputs s)
      → steps r + size s ≤ 3 * length inputs + workers_of workers + 2
  steps-size begin = omega arith
  steps-size (later s t r st) = omega (arith, steps-size r, Step-shrinks st)

  abbrev CanMove : MapState I O E → Type 0
  CanMove s = (t : MapState I O E) × Step Gives s t × (t.parent ≡ s.parent)

  finish_job :
      (s : MapState I O E) (i : ℕ) (x : I) (rest : List (ℕ × I))
      → s.running ≡ (i, x) ∷ rest
      → (y : Result E O) → Gives x y
      → CanMove s
  finish_job s i x rest r (ok v) g = (_, succeed [] rest i x v r g, refl)
  finish_job s i x rest r (err e) g = (_, fail [] rest i x e r g, refl)

  send_on :
      (s : MapState I O E) (queue : List I) (cause : Option Cause) (idle : ℕ)
      → IsStaffed s
      → s.running ≡ []
      → s.closed ≡ false
      → s.queue ≡ queue
      → s.done ≡ cause
      → s.idle ≡ idle
      → CanMove s
  send_on s [] cause idle staff r c q d w = (_, all_sent c q, refl)
  send_on s (x ∷ xs) (some a) idle staff r c q d w = (_, give_up a c d, refl)
  send_on s (x ∷ xs) none (suc k) staff r c q d w = (_, hand x xs k c q w, refl)
  send_on s (x ∷ xs) none zero staff r c q d w =
      absurd (omega (arith, staff.1 c d, workers_of-pos workers, ap length r, w))

  wind_up :
      (s : MapState I O E) (idle : ℕ)
      → s.running ≡ []
      → s.closed ≡ true
      → s.idle ≡ idle
      → IsOver s ⊎ CanMove s
  wind_up s zero r c w = inl (c, w, r)
  wind_up s (suc k) r c w = inr (_, leave_closed k c w, refl)

  go_on :
      ((x : I) → (y : Result E O) × Gives x y)
      → (s : MapState I O E) → IsStaffed s
      → (running : List (ℕ × I)) (closed : Bool) → s.running ≡ running
      → s.closed ≡ closed
      → IsOver s ⊎ CanMove s
  go_on answers s staff ((i, x) ∷ rest) closed r c =
      let (y, g) = answers x in inr (finish_job s i x rest r y g)
  go_on answers s staff [] true r c = wind_up s s.idle r c refl
  go_on answers s staff [] false r c =
      inr (send_on s s.queue s.done s.idle staff r c refl refl refl)

  -- `Map` ends where the function does: from any moment that is not the end, the sender or a worker
  -- can go on, and no run has more than 3 steps for each input, one for each worker, and two more.
  pub steps-ends :
      (answers : (x : I) → (y : Result E O) × Gives x y) (s : MapState I O E)
      (r : Reach Gives workers inputs s)
      → (steps r ≤ 3 * length inputs + workers_of workers + 2)
        × (IsOver s ⊎ ((t : MapState I O E) × Step Gives s t × (t.parent ≡ s.parent)))
  steps-ends answers s r = (
    omega (arith, steps-size r),
    go_on answers s (Reach-IsStaffed r) s.running s.closed refl refl,
  )
