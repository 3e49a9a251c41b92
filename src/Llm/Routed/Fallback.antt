-- ===== src/Llm/Routed/Fallback.antt =====
-- Which candidate answers, and how many attempts are made.
use kb_retv_services.Prelude.{
  ℕ, ◌+◌, ◌≤◌, ◌<◌, ◌≡◌, refl, ◌↔◌, ◌⊎◌, inl, inr, true, false, Option, none, some, List, [], ◌∷◌,
  arith, length, Result, ok, err, Result-cases,
}
use kb_retv_services.Llm.Errors.{GoError, route_failure, falls_back}
use kb_retv_services.Llm.Routed.{
  RouteConfig, Completion, Visit, Routed, candidate_completion, outcome, skipped, after_attempt,
  call_from, call,
}

-- The rules by which a route serves a completion, with `made` attempts made so far.
pub data Serves (config : RouteConfig) : ℕ → List Visit → Completion → Type 0 where
  -- The candidate is active and answers.
  answers :
      {made : ℕ} {v : Visit} {vs : List Visit} {out c : Completion}
      → made < config.max_attempts
      → v.late ≡ none
      → v.resolved ≡ none
      → v.answer ≡ ok out
      → c ≡ candidate_completion v.candidate out
      → Serves config made (v ∷ vs) c
  -- The connection is disabled: the next candidate is tried at no cost.
  disabled :
      {made : ℕ} {v : Visit} {vs : List Visit} {c : Completion}
      → made < config.max_attempts
      → v.late ≡ none
      → skipped v.resolved ≡ true
      → Serves config made vs c
      → Serves config made (v ∷ vs) c
  -- The candidate fails in a way that the route falls back on, before the deadline.
  fails :
      {made : ℕ} {v : Visit} {vs : List Visit} {c : Completion} {e : GoError}
      → made < config.max_attempts
      → v.late ≡ none
      → skipped v.resolved ≡ false
      → outcome v.resolved v.answer ≡ err e
      → v.expired ≡ false
      → falls_back config.fallback_on (route_failure (some e)) ≡ true
      → Serves config (made + 1) vs c
      → Serves config made (v ∷ vs) c

call_from_complete :
    (config : RouteConfig) (index : ℕ) {made : ℕ} {vs : List Visit} {c : Completion}
    → Serves config made vs c
    → (call_from config index made vs).result ≡ ok c
unfolding call_from
call_from_complete config index (answers l t r a e) = ground arith
call_from_complete config index (disabled l t s h) =
    ground (arith, call_from_complete config (index + 1) h)
call_from_complete config index (fails l t s o x f h) =
    ground (arith, call_from_complete config (index + 1) h)

-- The step of the loop on a candidate that is reached in time.
reached :
    (config : RouteConfig) (index made : ℕ) (v : Visit) (vs : List Visit) (c : Completion)
    → (call_from config index made (v ∷ vs)).result ≡ ok c
    → (made < config.max_attempts)
      × (v.late ≡ none)
      × (((skipped v.resolved ≡ true) × ((call_from config (index + 1) made vs).result ≡ ok c))
          ⊎ ((skipped v.resolved ≡ false)
              × ((after_attempt config index v
                    (outcome v.resolved v.answer)
                    (call_from config (index + 1) (made + 1) vs)).result
                  ≡ ok c)))
unfolding call_from
reached config index made v vs c h = ground arith

fell_back :
    (config : RouteConfig) (index : ℕ) (v : Visit) (e : GoError) (rest : Routed) (c : Completion)
    → (after_attempt config index v (err e) rest).result ≡ ok c
    → (v.expired ≡ false)
      × (falls_back config.fallback_on (route_failure (some e)) ≡ true)
      × (rest.result ≡ ok c)
fell_back config index v e rest c h = ground arith

served :
    (config : RouteConfig) (index : ℕ) (v : Visit) (out : Completion) (rest : Routed)
    (c : Completion)
    → (after_attempt config index v (ok out) rest).result ≡ ok c
    → c ≡ candidate_completion v.candidate out
served config index v out rest c h = cc

answered_by :
    (o : Option GoError) (m : Result GoError Completion) {out : Completion}
    → outcome o m ≡ ok out
    → (o ≡ none) × (m ≡ ok out)
answered_by none m h = (refl, h)
answered_by (some e) m h = cc

call_from_sound :
    (config : RouteConfig) (index made : ℕ) (vs : List Visit) (c : Completion)
    → (call_from config index made vs).result ≡ ok c
    → Serves config made vs c
unfolding call_from
call_from_sound config index made [] c h = cc
call_from_sound config index made (v ∷ vs) c h =
    let (l, t, step) = reached config index made v vs c h in
    elim step [
      | inl (s, rest) ↦ disabled l t s (call_from_sound config (index + 1) made vs c rest)
      | inr (s, rest) ↦ elim (Result-cases (outcome v.resolved v.answer)) [
        | inl (e, failed) ↦
            let (alive, falls, later) = fell_back config index v e _ c (rw failed at rest) in
            fails l t s failed alive falls
              (call_from_sound config (index + 1) (made + 1) vs c later)
        | inr (out, answered) ↦
            let (found, answer) = answered_by v.resolved v.answer answered in
            answers l t found answer (
              served config index v out (call_from config (index + 1) (made + 1) vs) c
                (rw answered at rest))
      ]
    ]

attempts_le :
    (config : RouteConfig) (index made : ℕ) (vs : List Visit)
    → (made ≤ config.max_attempts
        → made + (call_from config index made vs).attempts ≤ config.max_attempts)
      × (length (call_from config index made vs).rows ≤ length vs)
unfolding call_from
attempts_le config index made [] = (λ h. omega arith, omega arith)
attempts_le config index made (v ∷ vs) =
    ground
      (arith, attempts_le config (index + 1) made vs, attempts_le config (index + 1) (made + 1) vs)

-- A task route returns the completion `c` exactly when the rules serve it: the candidates are
-- taken in order, a disabled connection is passed over, a candidate that fails is left for the
-- next one only for a failure that the route falls back on and before the deadline, and fewer
-- than `max_attempts` attempts were made before each candidate that is tried.
pub call-Serves_iff :
    (config : RouteConfig) (visits : List Visit) (c : Completion)
    → ((call config visits).result ≡ ok c) ↔ Serves config 0 visits c
unfolding call
call-Serves_iff config visits c =
    (λ h. call_from_sound config 0 0 visits c h, λ s. call_from_complete config 0 s)

-- A task route makes at most `max_attempts` attempts, disabled connections not counted, and
-- records at most one row for each candidate, whatever the outcome.
pub call-attempts_le :
    (config : RouteConfig) (visits : List Visit)
    → ((call config visits).attempts ≤ config.max_attempts)
      × (length (call config visits).rows ≤ length visits)
unfolding call
call-attempts_le config visits =
    let (few, rows) = attempts_le config 0 0 visits in (omega (arith, few), rows)
