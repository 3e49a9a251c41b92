-- ===== src/Intake/Score/Weights.antt =====
-- The score of a message as the sum of what its reasons weigh.
use kb_retv_services.Prelude.{
  ◌≡◌, refl, sym, ap, ◌∙◌, Bool, true, false, ◌&&◌, ◌||◌, List, [], ◌∷◌, ◌++◌, arith, any,
}
use kb_retv_services.Prelude.Int.{ℤ, pos, ◌+ℤ◌, ◌≤ℤ◌, +ℤ_parts, eq_of_parts}
use kb_retv_services.Prelude.Str.{to_lower}
use kb_retv_services.Intake.Score.{
  Signals, ScoreReason, weight, add_if, clamp_score, grade, evidence, add_all, score, base_score,
  is_auto_submitted, is_no_reply,
}
use kb_retv_services.Intake.Confidence.{is_junk_strong}

-- The sum of the weights.
abbrev pub total_weight : List ScoreReason → ℤ
total_weight [] = pos 0
total_weight (r ∷ rs) = weight r +ℤ total_weight rs

+ℤ_assoc : (a b c : ℤ) → (a +ℤ b) +ℤ c ≡ a +ℤ (b +ℤ c)
+ℤ_assoc a b c =
    eq_of_parts ((a +ℤ b) +ℤ c) (a +ℤ (b +ℤ c))
      (omega (arith, +ℤ_parts (a +ℤ b) c, +ℤ_parts a b, +ℤ_parts a (b +ℤ c), +ℤ_parts b c))

+ℤ_comm : (a b : ℤ) → a +ℤ b ≡ b +ℤ a
+ℤ_comm a b = eq_of_parts (a +ℤ b) (b +ℤ a) (omega (arith, +ℤ_parts a b, +ℤ_parts b a))

total_weight-append :
    (rs : List ScoreReason) (r : ScoreReason)
    → total_weight (rs ++ r ∷ []) ≡ total_weight rs +ℤ weight r
total_weight-append [] r = +ℤ_comm (weight r) (pos 0)
total_weight-append (q ∷ rs) r =
    ap (λ n. weight q +ℤ n) (total_weight-append rs r)
    ∙ sym (+ℤ_assoc (weight q) (total_weight rs) (weight r))

abbrev IsSum : ℤ × List ScoreReason → Type 0
IsSum (s, rs) = s ≡ base_score +ℤ total_weight rs

add_if-IsSum :
    (b : Bool) (r : ScoreReason) (g : ℤ × List ScoreReason) → IsSum g → IsSum (add_if b r g)
add_if-IsSum true r (s, rs) h =
    ap (λ n. n +ℤ weight r) h
    ∙ +ℤ_assoc base_score (total_weight rs) (weight r)
    ∙ ap (λ n. base_score +ℤ n) (sym (total_weight-append rs r))
add_if-IsSum false r g h = h

add_all-IsSum :
    (es : List (Bool × ScoreReason)) (g : ℤ × List ScoreReason) → IsSum g → IsSum (add_all es g)
add_all-IsSum [] g h = h
add_all-IsSum ((b, r) ∷ es) g h = add_all-IsSum es (add_if b r g) (add_if-IsSum b r g h)

any-append :
    (p : ScoreReason → Bool) (rs : List ScoreReason) (r : ScoreReason)
    → any p (rs ++ r ∷ []) ≡ (any p rs || p r)
any-append p [] r = ground arith
any-append p (q ∷ rs) r = ground (arith, any-append p rs r)

-- One of the tests holds and adds a strong sign of bulk mail.
abbrev adds_junk : List (Bool × ScoreReason) → Bool
adds_junk [] = false
adds_junk ((b, r) ∷ es) = b && is_junk_strong r || adds_junk es

any-add_all :
    (es : List (Bool × ScoreReason)) (g : ℤ × List ScoreReason)
    → any is_junk_strong (add_all es g).1 ≡ (any is_junk_strong g.1 || adds_junk es)
any-add_all [] g = ground arith
any-add_all ((b, r) ∷ es) (s, rs) =
    ground (arith, any-add_all es (add_if b r (s, rs)), any-append is_junk_strong rs r)

module _ (sig : Signals) where
  grade-IsSum : IsSum (grade sig)
  unfolding grade ◌+ℤ◌
  grade-IsSum = add_all-IsSum (evidence sig) (base_score, []) refl

  -- The score is 50 and the weights of the reasons that it is given with, kept between 5 and 95.
  pub score-total_weight :
      ((score sig).0 ≡ clamp_score (pos 50 +ℤ total_weight (score sig).1))
      × (pos 5 ≤ℤ (score sig).0)
      × ((score sig).0 ≤ℤ pos 95)
  unfolding score
  score-total_weight =
      (ap clamp_score grade-IsSum, clamped_above (grade sig).0, clamped_below (grade sig).0)
    where
      clamped_above : (s : ℤ) → pos 5 ≤ℤ clamp_score s
      clamped_above s = ground arith

      clamped_below : (s : ℤ) → clamp_score s ≤ℤ pos 95
      clamped_below s = ground arith

  -- The reasons of a score hold a strong sign of bulk mail exactly when the message has a
  -- List-Unsubscribe header, was submitted by a program, or comes from a no-reply address.
  pub score-junk : any is_junk_strong (score sig).1 ≡ (
      sig.list_unsubscribe
      || is_auto_submitted sig.auto_submitted
      || is_no_reply (to_lower sig.sender))
  unfolding score grade evidence
  score-junk = ground (arith, any-add_all (evidence sig) (base_score, []))
