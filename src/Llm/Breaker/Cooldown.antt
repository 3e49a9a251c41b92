-- ===== src/Llm/Breaker/Cooldown.antt =====
-- About an open breaker, before and after its cooldown.
use kb_retv_services.Prelude.{ℕ, ◌+◌, ◌≤◌, ◌<◌, ◌≡◌, refl, true, false, List, [], ◌∷◌, arith, All}
use kb_retv_services.Llm.Breaker.{
  Breaker, closed, open_, allow, record_failure, record_success, Event, asked, failed, succeeded,
  step, run,
}

-- The call is no success, and it is made before the given time.
abbrev pub IsEarly : ℕ → Event → Type 0
IsEarly limit (asked now) = now < limit
IsEarly limit (failed now) = now < limit
IsEarly limit (succeeded now) = ⊥

-- The breaker is open, and stays shut at least up to the given time.
pub record HoldsUntil (limit : ℕ) (b : Breaker) : Type 0 where
  pub is_open : b.state ≡ open_
  pub late : limit ≤ b.opened_at + b.cooldown

-- A clock that does not run backwards past the opening.
abbrev pub IsAfter : ℕ → Event → Type 0
IsAfter start (asked now) = start ≤ now
IsAfter start (failed now) = start ≤ now
IsAfter start (succeeded now) = start ≤ now

step_held :
    (start limit : ℕ) (b : Breaker) (e : Event)
    → limit ≤ start + b.cooldown
    → HoldsUntil limit b
    → IsEarly limit e
    → IsAfter start e
    → HoldsUntil limit (step b e).0 × ((step b e).1 ≡ false) × ((step b e).0.cooldown ≡ b.cooldown)
unfolding step
step_held start limit b (asked now) l h early after = ground arith
step_held start limit b (failed now) l h early after = ground arith
step_held start limit b (succeeded now) l h early after = absurd early

run_held :
    (start limit : ℕ) (b : Breaker) (es : List Event)
    → limit ≤ start + b.cooldown
    → HoldsUntil limit b
    → All (IsEarly limit) es
    → All (IsAfter start) es
    → HoldsUntil limit (run b es).0 × ((run b es).1 ≡ 0)
unfolding run
run_held start limit b [] l h early after = (h, refl)
run_held start limit b (e ∷ es) l h (early, earlies) (after, afters) =
    let (held, shut, same) = step_held start limit b e l h early after in
    let l' : limit ≤ start + (step b e).0.cooldown = rw same l in
    let (held', none_passed) = run_held start limit (step b e).0 es l' held earlies afters in
    (held', rw shut none_passed)

-- After a breaker has opened at time t, whatever failures and requests follow, in any order, at
-- times from t to before t + cooldown and with no success among them, not one call is let
-- through and the breaker is still open.
pub run-open_refuses :
    (b : Breaker) (es : List Event)
    → b.state ≡ open_
    → All (IsEarly (b.opened_at + b.cooldown)) es
    → All (IsAfter b.opened_at) es
    → ((run b es).0.state ≡ open_) × ((run b es).1 ≡ 0)
run-open_refuses b es o early after =
    let (held, shut) =
      run_held b.opened_at (b.opened_at + b.cooldown) b es (omega arith)
        (record { is_open = o; late = omega arith }) early after in
    (held.is_open, shut)

-- Once the cooldown has passed the next call is let through as a probe; its success closes the
-- breaker with no failure counted, and its failure opens it again from that moment, however
-- many failures it takes to open a closed breaker.
pub allow-probe :
    (b : Breaker) (now later : ℕ)
    → b.state ≡ open_
    → b.opened_at + b.cooldown ≤ now
    → ((allow now b).1 ≡ true)
      × ((record_success (allow now b).0).state ≡ closed)
      × ((record_success (allow now b).0).failures ≡ 0)
      × ((record_failure later (allow now b).0).state ≡ open_)
      × ((record_failure later (allow now b).0).opened_at ≡ later)
unfolding allow record_failure record_success
allow-probe b now later o c = ground arith
