-- ===== src/Concurrency/Parallel/Invariant.antt =====
-- What holds at every moment of a run of `Map`: where each input is, and why the run ends.
use kb_retv_services.Prelude.{
  ℕ, suc, ◌+◌, ◌≤◌, ◌≡◌, refl, sym, ap, ◌∙◌, ◌⊎◌, inl, inr, true, Option, none, some, List, [], ◌∷◌,
  ◌++◌, arith, ◌==◌, ==_iff, Bool-cases, get_elem?, Result, ok, err,
}
use kb_retv_services.Prelude.Int.{ℤ}
use mathlib.Core.Path.{subst, ap₂}
use mathlib.Core.Option.{some_inj}
use kb_retv_services.Concurrency.Parallel.{
  Cause, canceled, deadline, MapState, keep_first, store, start, Step, hand, all_sent, give_up,
  succeed, fail, leave_done, leave_closed, parent_ends, Reach, begin, later,
}

abbrev pub IsIn : {A : Type 0} → A → List A → Type 0
IsIn a [] = ⊥
IsIn a (b ∷ bs) = (a ≡ b) ⊎ IsIn a bs

IsIn-removed :
    {A : Type 0} (a b : A) (before after : List A)
    → IsIn a (before ++ b ∷ after)
    → (a ≡ b) ⊎ IsIn a (before ++ after)
IsIn-removed a b [] after h = h
IsIn-removed a b (c ∷ before) after (inl e) = inr (inl e)
IsIn-removed a b (c ∷ before) after (inr h) = elim (IsIn-removed a b before after h) [
  | inl e ↦ inl e
  | inr k ↦ inr (inr k)
]

IsIn-kept :
    {A : Type 0} (a b : A) (before after : List A)
    → IsIn a (before ++ after)
    → IsIn a (before ++ b ∷ after)
IsIn-kept a b [] after h = inr h
IsIn-kept a b (c ∷ before) after (inl e) = inl e
IsIn-kept a b (c ∷ before) after (inr h) = inr (IsIn-kept a b before after h)

IsIn-middle : {A : Type 0} (b : A) (before after : List A) → IsIn b (before ++ b ∷ after)
IsIn-middle b [] after = inl refl
IsIn-middle b (c ∷ before) after = inr (IsIn-middle b before after)

-- What is left of the inputs after the first `n`.
abbrev pub AreLeft : {A : Type 0} → ℕ → List A → List A → Type 0
AreLeft n inputs rest = (i : ℕ) → get_elem? rest i ≡ get_elem? inputs (n + i)

AreLeft-head :
    {A : Type 0} (n : ℕ) (inputs : List A) (x : A) (rest : List A)
    → AreLeft n inputs (x ∷ rest)
    → get_elem? inputs n ≡ some x
AreLeft-head n inputs x rest h = sym (h 0 ∙ ap (get_elem? inputs) (omega arith))

AreLeft-next :
    {A : Type 0} (n : ℕ) (inputs : List A) (x : A) (rest : List A)
    → AreLeft n inputs (x ∷ rest)
    → AreLeft (suc n) inputs rest
AreLeft-next n inputs x rest h i = h (suc i) ∙ ap (get_elem? inputs) (omega arith)

keep_first-some : {A : Type 0} (a : Option A) (d : A) → (c : A) × (keep_first a d ≡ some c)
keep_first-some none d = (d, refl)
keep_first-some (some c) d = (c, refl)

keep_first_or :
    {A : Type 0} (a : Option A) (d c : A) → keep_first a d ≡ some c → (a ≡ some c) ⊎ (c ≡ d)
keep_first_or none d c h = inr (sym (some_inj.0 h))
keep_first_or (some b) d c h = inl h

store_here : {O : Type 0} (i j : ℕ) (v : O) (r : ℕ → Option O) → j ≡ i → store i v r j ≡ some v
unfolding store
store_here i j v r h = ground (arith, h)

store_cases :
    {O : Type 0} (i j : ℕ) (v w : O) (r : ℕ → Option O)
    → store i v r j ≡ some w
    → ((j ≡ i) × (w ≡ v)) ⊎ (r j ≡ some w)
unfolding store
store_cases i j v w r h = elim (Bool-cases (j == i)) [
  | inl same ↦ inl ((==_iff _ _).0 same, sym (some_inj.0 (rw same at h)))
  | inr other ↦ inr (rw other at h)
]

store_keeps :
    {O : Type 0} (i j : ℕ) (v w : O) (r : ℕ → Option O)
    → r j ≡ some w
    → (u : O) × (store i v r j ≡ some u)
unfolding store
store_keeps i j v w r h = elim (Bool-cases (j == i)) [
  | inl same ↦ (v, rw same)
  | inr other ↦ (w, rw (other, h))
]

module _ {I O E : Type 0} (Gives : I → Result E O → Type 0) (inputs : List I) where
  -- An input is still to be sent, or being worked on, or has a result, or some call has failed.
  abbrev pub IsPlaced : MapState I O E → ℕ → I → Type 0
  IsPlaced s i x =
      (s.next ≤ i)
      ⊎ IsIn (i, x) s.running
      ⊎ ((v : O) × (s.results i ≡ some v))
      ⊎ ((e : E) × (s.first_err ≡ some e))

  -- What the function gave for an input stands at its index, and so for the first error.
  abbrev pub IsRight : ℕ → O → Type 0
  IsRight i v = (x : I) × (get_elem? inputs i ≡ some x) × Gives x (ok v)

  abbrev pub IsFault : E → Type 0
  IsFault e = (i : ℕ) × (x : I) × (get_elem? inputs i ≡ some x) × Gives x (err e)

  pub record Inv (s : MapState I O E) : Type 0 where
    pub left : AreLeft s.next inputs s.queue
    pub jobs : (i : ℕ) (x : I) → IsIn (i, x) s.running → get_elem? inputs i ≡ some x
    pub placed : (i : ℕ) (x : I) → get_elem? inputs i ≡ some x → IsPlaced s i x
    pub right : (i : ℕ) (v : O) → s.results i ≡ some v → IsRight i v
    pub fault : (e : E) → s.first_err ≡ some e → IsFault e
    pub sent : s.closed ≡ true → (s.queue ≡ []) ⊎ ((c : Cause) × (s.done ≡ some c))
    pub ended :
        (c : Cause)
        → s.done ≡ some c
        → ((e : E) × (s.first_err ≡ some e)) ⊎ ((d : Cause) × (s.parent ≡ some d))
    pub late : s.done ≡ some deadline → (d : Cause) × (s.parent ≡ some d)

  Inv-start : (workers : ℤ) → Inv (start workers inputs)
  Inv-start workers = record {
    left = λ i. ap (get_elem? inputs) (omega arith);
    jobs = λ i x h. absurd h;
    placed = λ i x h. inl (omega arith);
    right = λ i v h. cc;
    fault = λ e h. cc;
    sent = λ h. cc;
    ended = λ c h. cc;
    late = λ h. cc;
  }

  hand-placed :
      (s : MapState I O E) (x : I) (i : ℕ) (y : I)
      → get_elem? inputs s.next ≡ some x
      → get_elem? inputs i ≡ some y
      → IsPlaced s i y
      → (suc s.next ≤ i)
        ⊎ (◌≡◌ {A = ℕ × I} (i, y) (s.next, x))
        ⊎ IsIn (i, y) s.running
        ⊎ ((v : O) × (s.results i ≡ some v))
        ⊎ ((e : E) × (s.first_err ≡ some e))
  hand-placed s x i y hx hy (inl le) = elim (Bool-cases (s.next == i)) [
    | inl same ↦ inr (
        inl (
          let eq : s.next ≡ i = (==_iff _ _).0 same in
          ap₂ (λ a b. (a, b)) (sym eq) (some_inj.0 (sym hy ∙ ap (get_elem? inputs) (sym eq) ∙ hx))))
    | inr other ↦ inl (ground (arith, other))
  ]
  hand-placed s x i y hx hy (inr h) = inr (inr h)

  Step-Inv : {s t : MapState I O E} → Step Gives s t → Inv s → Inv t
  Step-Inv {s} (hand x xs k unsent q w) inv = record {
    left = AreLeft-next s.next inputs x xs rest;
    jobs = λ i y h. elim h [
      | inl e ↦ ap (λ j. get_elem? inputs j.0) e ∙ head ∙ ap (λ j. some j.1) (sym e)
      | inr h ↦ inv.jobs i y h
    ];
    placed = λ i y h. elim (hand-placed s x i y head h (inv.placed i y h)) [
      | inl le ↦ inl le
      | inr (inl e) ↦ inr (inl (inl e))
      | inr (inr (inl k)) ↦ inr (inl (inr k))
      | inr (inr (inr k)) ↦ inr (inr k)
    ];
    sent = λ h. cc;
    right = inv.right;
    fault = inv.fault;
    ended = inv.ended;
    late = inv.late;
  }
    where
      rest : AreLeft s.next inputs (x ∷ xs)
      rest = subst (AreLeft s.next inputs) q inv.left

      head : get_elem? inputs s.next ≡ some x
      head = AreLeft-head s.next inputs x xs rest
  Step-Inv (all_sent unsent q) inv = record {
    sent = λ h. inl q;
    left = inv.left;
    jobs = inv.jobs;
    placed = inv.placed;
    right = inv.right;
    fault = inv.fault;
    ended = inv.ended;
    late = inv.late;
  }
  Step-Inv (give_up c unsent d) inv = record {
    sent = λ h. inr (c, d);
    left = inv.left;
    jobs = inv.jobs;
    placed = inv.placed;
    right = inv.right;
    fault = inv.fault;
    ended = inv.ended;
    late = inv.late;
  }
  Step-Inv {s} (succeed before after i x v r g) inv = record {
    left = inv.left;
    jobs = λ j y h.
        inv.jobs j y (subst (IsIn (j, y)) (sym r) (IsIn-kept (j, y) (i, x) before after h));
    placed = λ j y h. elim (inv.placed j y h) [
      | inl le ↦ inl le
      | inr (inl k) ↦ elim (IsIn-removed (j, y) (i, x) before after (subst (IsIn (j, y)) r k)) [
        | inl eq ↦ inr (inr (inl (v, store_here i j v s.results (ap (λ p. p.0) eq))))
        | inr m ↦ inr (inl m)
      ]
      | inr (inr (inl (w, q))) ↦ inr (inr (inl (store_keeps i j v w s.results q)))
      | inr (inr (inr q)) ↦ inr (inr (inr q))
    ];
    right = λ j w h. elim (store_cases i j v w s.results h) [
      | inl (eq, same) ↦ (
        x,
        ap (get_elem? inputs) eq
            ∙ inv.jobs i x (subst (IsIn (i, x)) (sym r) (IsIn-middle (i, x) before after)),
        subst (λ w. Gives x (ok w)) (sym same) g,
      )
      | inr k ↦ inv.right j w k
    ];
    fault = inv.fault;
    sent = inv.sent;
    ended = inv.ended;
    late = inv.late;
  }
  Step-Inv {s} (fail before after i x e r g) inv = record {
    left = inv.left;
    jobs = λ j y h.
        inv.jobs j y (subst (IsIn (j, y)) (sym r) (IsIn-kept (j, y) (i, x) before after h));
    placed = λ j y h. inr (inr (inr (keep_first-some s.first_err e)));
    right = inv.right;
    fault = λ d h. elim (keep_first_or s.first_err e d h) [
      | inl k ↦ inv.fault d k
      | inr eq ↦ (
        i,
        x,
        inv.jobs i x (subst (IsIn (i, x)) (sym r) (IsIn-middle (i, x) before after)),
        subst (λ e. Gives x (err e)) (sym eq) g,
      )
    ];
    sent = λ c. elim (inv.sent c) [ inl q ↦ inl q | inr h ↦ inr (keep_first-some s.done canceled) ];
    ended = λ c h. inl (keep_first-some s.first_err e);
    late = λ h. elim (keep_first_or s.done canceled deadline h) [
      | inl k ↦ inv.late k
      | inr eq ↦ absurd cc
    ];
  }
  Step-Inv (leave_done k c d w) inv = record {
    left = inv.left;
    jobs = inv.jobs;
    placed = inv.placed;
    right = inv.right;
    fault = inv.fault;
    sent = inv.sent;
    ended = inv.ended;
    late = inv.late;
  }
  Step-Inv (leave_closed k c w) inv = record {
    left = inv.left;
    jobs = inv.jobs;
    placed = inv.placed;
    right = inv.right;
    fault = inv.fault;
    sent = inv.sent;
    ended = inv.ended;
    late = inv.late;
  }
  Step-Inv {s} (parent_ends c alone) inv = record {
    left = inv.left;
    jobs = inv.jobs;
    placed = inv.placed;
    right = inv.right;
    fault = inv.fault;
    sent = λ h. elim (inv.sent h) [ inl q ↦ inl q | inr k ↦ inr (keep_first-some s.done c) ];
    ended = λ d h. inr (c, refl);
    late = λ h. (c, refl);
  }

  pub Reach-Inv : (workers : ℤ) {s : MapState I O E} → Reach Gives workers inputs s → Inv s
  Reach-Inv workers begin = Inv-start workers
  Reach-Inv workers (later s t r st) = Step-Inv st (Reach-Inv workers r)
