-- ===== src/Concurrency/Parallel.antt =====
-- `Map` of pkg/concurrency/map.go: a sender hands the inputs to workers over a channel without a
-- buffer, so a job passes from the one to the other in one step. Workers have no names: the model
-- counts those that wait and lists the jobs that run.
pub mod Invariant
pub mod Order
pub mod Ends
use kb_retv_services.Prelude.{
  ℕ, zero, suc, ◌+◌, ◌-◌, ◌*◌, ◌/◌, ◌%◌, ◌^◌, ◌≤◌, ◌<◌, ◌≡◌, refl, sym, ap, ◌∙◌, ◌≢◌, ◌↔◌, ◌⊎◌, inl,
  inr, Bool, true, false, not, ◌&&◌, ◌||◌, Option, none, some, List, [], ◌∷◌, ◌++◌, map, arith, ltb,
  leb, ◌==◌, if◌then◌else◌, ltb→lt, lt→ltb, leb→le, le→leb, ==_iff, tests, Bool-cases, Option-cases,
  length, get_elem?, take, any, all, keep, length-append, length-take_le, length-keep_le, All,
  All-append, All-take, All-keep, Result, ok, err, Result-cases, ok_inj, err_ne_ok, if_both,
}
use kb_retv_services.Prelude.Int.{
  ℤ, pos, negsuc, pos_part, neg_part, sub_ℕ, ◌+ℤ◌, ◌≤ℤ◌, ◌<ℤ◌, ltb_ℤ, leb_ℤ, max_ℤ, min_ℤ, +ℤ_parts,
  eq_of_parts, ℤ_cases, int_laws, max_ℤ_bounds, min_ℤ_bounds, min_max_bounds,
}
use kb_retv_services.Prelude.Str.{
  Str, codes, str_eq, str_eq_refl, eq_of_str_eq, str_eq_iff, starts_with, contains, to_lower,
  trim_space, ends_with, itoa, is_empty, trim_suffix,
}
use kb_retv_services.Prelude.Dict.{
  Dict, find, remove, put, prune, find-remove, find-put, length-remove_le, length-prune_le, IsMap,
  passing, find-prune, prune_absent, prune-IsMap, remove-IsMap, put-IsMap,
}

-- Why a context is done: `context.Canceled` or `context.DeadlineExceeded`.
pub data Cause : Type 0 where
  canceled deadline : Cause

-- `queue` is what the sender has not handed over, `next` the index of its head, `done` why the
-- inner context is done, `parent` why that of the caller is.
pub record MapState (I O E : Type 0) : Type 0 where
  pub next : ℕ
  pub queue : List I
  pub closed : Bool
  pub idle : ℕ
  pub running : List (ℕ × I)
  pub results : ℕ → Option O
  pub first_err : Option E
  pub done : Option Cause
  pub parent : Option Cause

-- `cancel()`, or what the parent passes on: a context keeps its first cause. `setErr` keeps the
-- first error in the same way.
abbrev pub keep_first : {A : Type 0} → Option A → A → Option A
keep_first (some c) d = some c
keep_first none d = some d

unfoldable pub store : {O : Type 0} → ℕ → O → (ℕ → Option O) → ℕ → Option O
store i v r n = if n == i then some v else r n

unfoldable pub workers_of : ℤ → ℕ
workers_of n = if leb_ℤ n (pos 0) then 1 else pos_part n

abbrev pub start : {I O E : Type 0} → ℤ → List I → MapState I O E
start workers inputs = record {
  next = 0;
  queue = inputs;
  closed = false;
  idle = workers_of workers;
  running = [];
  results = λ n. none;
  first_err = none;
  done = none;
  parent = none;
}

-- One step of the sender, of a worker or of the caller. What the function may return for an input
-- is a relation, since it may look at the context.
pub data Step {I O E : Type 0} (Gives : I → Result E O → Type 0) (s : MapState I O E)
    : MapState I O E → Type 0 where
  hand :
      (x : I) (xs : List I) (k : ℕ)
      → s.closed ≡ false
      → s.queue ≡ x ∷ xs
      → s.idle ≡ suc k
      → Step Gives s
          (record s { queue = xs; next = suc s.next; idle = k; running = (s.next, x) ∷ s.running })
  all_sent : s.closed ≡ false → s.queue ≡ [] → Step Gives s (record s { closed = true })
  give_up :
      (c : Cause) → s.closed ≡ false → s.done ≡ some c → Step Gives s (record s { closed = true })
  succeed :
      (before after : List (ℕ × I)) (i : ℕ) (x : I) (v : O)
      → s.running ≡ before ++ (i, x) ∷ after
      → Gives x (ok v)
      → Step Gives s
          (record s { running = before ++ after; results = store i v s.results; idle = suc s.idle })
  fail :
      (before after : List (ℕ × I)) (i : ℕ) (x : I) (e : E)
      → s.running ≡ before ++ (i, x) ∷ after
      → Gives x (err e)
      → Step Gives s (record s {
        running = before ++ after;
        first_err = keep_first s.first_err e;
        done = keep_first s.done canceled;
      })
  leave_done :
      (k : ℕ) (c : Cause) → s.done ≡ some c → s.idle ≡ suc k → Step Gives s (record s { idle = k })
  leave_closed : (k : ℕ) → s.closed ≡ true → s.idle ≡ suc k → Step Gives s (record s { idle = k })
  parent_ends :
      (c : Cause)
      → s.parent ≡ none
      → Step Gives s (record s { parent = some c; done = keep_first s.done c })

pub data Reach {I O E : Type 0} (Gives : I → Result E O → Type 0) (workers : ℤ) (inputs : List I)
    : MapState I O E → Type 0 where
  begin : Reach Gives workers inputs (start workers inputs)
  later :
      (s t : MapState I O E)
      → Reach Gives workers inputs s
      → Step Gives s t
      → Reach Gives workers inputs t

-- `wg.Wait()` has returned: the sender is done, and no worker is left.
abbrev pub IsOver : {I O E : Type 0} → MapState I O E → Type 0
IsOver s = (s.closed ≡ true) × (s.idle ≡ 0) × (s.running ≡ [])

-- What `Map` then returns; an index without a value has the zero value of `O`.
pub data Outcome (O E : Type 0) : Type 0 where
  failed : E → Outcome O E
  timed_out : Outcome O E
  returned : (ℕ → Option O) → Outcome O E

abbrev pub outcome_of : {O E : Type 0} → Option E → Option Cause → (ℕ → Option O) → Outcome O E
outcome_of (some e) cause r = failed e
outcome_of none (some deadline) r = timed_out
outcome_of none (some canceled) r = returned r
outcome_of none none r = returned r

unfoldable pub outcome : {I O E : Type 0} → MapState I O E → Outcome O E
outcome s = outcome_of s.first_err s.done s.results
