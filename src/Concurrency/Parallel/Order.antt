-- ===== src/Concurrency/Parallel/Order.antt =====
-- What `Map` returns when it ends.
use kb_retv_services.Prelude.{
  ℕ, ◌-◌, ◌≡◌, refl, sym, ap, ◌∙◌, inl, inr, Option, none, some, List, arith, get_elem?, Result, ok,
}
use kb_retv_services.Prelude.Int.{ℤ}
use mathlib.Core.Path.{subst}
use mathlib.Core.Option.{some_inj}
use kb_retv_services.Concurrency.Parallel.{
  Cause, canceled, deadline, MapState, Reach, IsOver, Outcome, failed, timed_out, returned,
  outcome_of, outcome,
}
use kb_retv_services.Concurrency.Parallel.Invariant.{Inv, IsFault, IsIn, Reach-Inv}

module _ {I O E : Type 0} (Gives : I → Result E O → Type 0) (inputs : List I) where
  -- What a caller may conclude, given why its own context is done.
  abbrev pub IsAnswer : Option Cause → Outcome O E → Type 0
  IsAnswer parent (failed e) = IsFault {O = O} Gives inputs e
  IsAnswer parent timed_out = (c : Cause) × (parent ≡ some c)
  IsAnswer none (returned r) =
      (i : ℕ) (x : I) → get_elem? inputs i ≡ some x → (v : O) × (r i ≡ some v) × Gives x (ok v)
  IsAnswer (some c) (returned r) =
      (i : ℕ) (v : O) → r i ≡ some v → (x : I) × (get_elem? inputs i ≡ some x) × Gives x (ok v)

  -- Nothing is left behind where no call failed and the caller's context is not done.
  all_there :
      (s : MapState I O E)
      → Inv Gives inputs s
      → IsOver s
      → s.first_err ≡ none
      → s.parent ≡ none
      → (i : ℕ) (x : I) → get_elem? inputs i ≡ some x
      → (v : O) × (s.results i ≡ some v) × Gives x (ok v)
  all_there s inv (closed, idle, running) clean alone i x h = elim (inv.placed i x h) [
    | inl le ↦ elim (inv.sent closed) [
      | inl empty ↦ absurd (
          let gone =
            sym (ap (λ q. get_elem? q (i - s.next)) empty)
            ∙ inv.left (i - s.next)
            ∙ ap (get_elem? inputs) (omega arith)
            ∙ h in
          cc)
      | inr (c, d) ↦ elim (inv.ended c d) [ inl (e, q) ↦ absurd cc | inr (c', q) ↦ absurd cc ]
    ]
    | inr (inl k) ↦ absurd (subst (IsIn (i, x)) running k)
    | inr (inr (inl (v, q))) ↦
        let (y, at, g) = inv.right i v q in
        (v, q, subst (λ z. Gives z (ok v)) (some_inj.0 (sym at ∙ h)) g)
    | inr (inr (inr (e, q))) ↦ absurd cc
  ]

  outcome_of-IsAnswer :
      (s : MapState I O E) (parent done : Option Cause) (first : Option E)
      → Inv Gives inputs s
      → IsOver s
      → s.parent ≡ parent
      → s.done ≡ done
      → s.first_err ≡ first
      → IsAnswer parent (outcome_of first done s.results)
  outcome_of-IsAnswer s parent cause (some e) inv over p d f = inv.fault e f
  outcome_of-IsAnswer s parent (some deadline) none inv over p d f =
      let (c, q) = inv.late d in (c, sym p ∙ q)
  outcome_of-IsAnswer s none (some canceled) none inv over p d f = all_there s inv over f p
  outcome_of-IsAnswer s none none none inv over p d f = all_there s inv over f p
  outcome_of-IsAnswer s (some c) (some canceled) none inv over p d f = inv.right
  outcome_of-IsAnswer s (some c) none none inv over p d f = inv.right

  -- In whatever order the sender, the workers and the caller take their steps, when `Map` returns,
  -- an error is one that the function gave for one of the inputs, or the caller's context is done.
  -- Where it returns results and the caller's context is not done, every input has at its own
  -- index a
  -- value that the function gave for it; where that context is done, some may be missing, but
  -- what is
  -- there stands at the right index.
  pub outcome-IsAnswer :
      (workers : ℤ) (s : MapState I O E)
      → Reach Gives workers inputs s
      → IsOver s
      → IsAnswer s.parent (outcome s)
  unfolding outcome
  outcome-IsAnswer workers s reach over =
      outcome_of-IsAnswer s s.parent s.done s.first_err (Reach-Inv Gives inputs workers reach) over
        refl refl refl
