-- ===== src/Router/Scores.antt =====
-- What stands behind the intent of a message.
use kb_retv_services.Prelude.{
  ◌≡◌, refl, inl, inr, Bool, true, false, ◌&&◌, ◌||◌, Option, none, some, List, [], ◌∷◌, arith,
  if◌then◌else◌, Bool-cases, All, Result, ok, err,
}
use kb_retv_services.Prelude.Str.{Str}
use mathlib.Core.Path.{subst}
use kb_retv_services.Router.Highest.{
  IsIn, IsOrder, Reaches, same_intent_sound, find_pos-Reaches, best_from-clears,
}
use kb_retv_services.Rag.Types.{Floats}
use kb_retv_services.Router.{
  Intent, off_domain, social_intent, RouterDecision, Anchor, Router, same_intent, is_action,
  in_domain, beats, best_from, higher, pos_from, find_pos, score_of, retrieved, by_anchor, route,
}

module _ {F : Type 0} where
  abbrev IsFrom : List (Anchor F) → Option (Anchor F) → Type 0
  IsFrom xs none = Unit
  IsFrom xs (some a) = IsIn a xs

module _ {F : Type 0} (fl : Floats F) where
  best_from-IsIn :
      (i : Intent) (xs ys : List (Anchor F)) (best : Option (Anchor F))
      → ((a : Anchor F) → IsIn a xs → IsIn a ys)
      → IsFrom ys best
      → IsFrom ys (best_from fl i xs best)
  unfolding best_from
  best_from-IsIn i [] ys best inside h = h
  best_from-IsIn i (x ∷ xs) ys best inside h =
      elim (Bool-cases (same_intent x.intent i && beats fl x.similarity best)) [
        | inl up ↦
            rw up (best_from-IsIn i xs ys (some x) (λ a m. inside a (inr m)) (inside x (inl refl)))
        | inr down ↦ rw down (best_from-IsIn i xs ys best (λ a m. inside a (inr m)) h)
      ]

  higher-IsFrom :
      (xs : List (Anchor F)) (found best : Option (Anchor F))
      → IsFrom xs found
      → IsFrom xs best
      → IsFrom xs (higher fl found best)
  higher-IsFrom xs found none f b = f
  higher-IsFrom xs found (some a) f b = elim (Bool-cases (beats fl a.similarity found)) [
    | inl up ↦ rw up b
    | inr down ↦ rw down f
  ]

  pos_from-IsFrom :
      (xs : List (Anchor F)) (intents : List Intent) (found : Option (Anchor F))
      → IsFrom xs found
      → IsFrom xs (pos_from fl xs intents found)
  unfolding pos_from
  pos_from-IsFrom xs [] found f = f
  pos_from-IsFrom xs (i ∷ more) found f =
      pos_from-IsFrom xs more (higher fl found (best_from fl i xs none)) (
        higher-IsFrom xs found (best_from fl i xs none) f
          (best_from-IsIn i xs xs none (λ a m. m) tt))

-- The intent is one on which the program acts by itself: a wish about cases or for a person, or
-- small talk.
abbrev pub acts : Intent → Bool
acts i = is_action i || same_intent i social_intent

module _ {F : Type 0} (fl : Floats F) (r : Router F) (xs : List (Anchor F)) where
  -- The anchor is not more similar than the confidence says; outside the domain, not by the margin.
  abbrev pub IsBelow : F → Anchor F → Type 0
  IsBelow c b =
      (if same_intent b.intent off_domain
        then fl.le (fl.add c r.margin) b.similarity
        else fl.lt c b.similarity)
      ≡ false

  -- An anchor of the intent is as similar to the message as the confidence says, similar
  -- enough to be accepted, and no anchor is more
  -- similar, or none outside the domain by the margin.
  abbrev pub HasAnchor : RouterDecision F → Type 0
  HasAnchor d =
      (a : Anchor F) × IsIn a xs
      × (a.intent ≡ d.intent)
      × (a.similarity ≡ d.confidence)
      × (fl.le r.accept d.confidence ≡ true)
      × All (IsBelow d.confidence) xs

  abbrev IsBacked : Result Str (RouterDecision F) → Type 0
  IsBacked (err e) = Unit
  IsBacked (ok d) = acts d.intent ≡ true → HasAnchor d

  module _ (ord : IsOrder fl) where
    All-inside :
        (P : Anchor F → Type 0) (ys : List (Anchor F))
        → ((b : Anchor F) → IsIn b ys → P b)
        → All P ys
    All-inside P [] h = tt
    All-inside P (y ∷ ys) h = (h y (inl refl), All-inside P ys (λ b inside. h b (inr inside)))

    -- No anchor inside the domain is more similar than the found one.
    abbrev IsTop : Option (Anchor F) → Type 0
    IsTop found =
        (b : Anchor F)
        → IsIn b xs
        → same_intent b.intent off_domain ≡ false
        → Reaches fl ord found b.similarity

    All-IsBelow :
        (c : F)
        → fl.le (fl.add c r.margin) (score_of fl (best_from fl off_domain xs none)) ≡ false
        → ((b : Anchor F)
            → IsIn b xs
            → same_intent b.intent off_domain ≡ false
            → fl.lt c b.similarity ≡ false)
        → All (IsBelow c) xs
    All-IsBelow c clear top = All-inside (IsBelow c) xs (λ b inside.
        elim (Bool-cases (same_intent b.intent off_domain)) [
          | inl out ↦ rw out (
              best_from-clears fl ord off_domain xs b (fl.add c r.margin) inside
                (same_intent_sound b.intent off_domain out) clear)
          | inr own ↦ rw own (top b inside own)
        ])

    retrieved-IsBacked : (c : F) (top : Result Str F) → IsBacked (retrieved fl r c top)
    retrieved-IsBacked c (err e) = tt
    retrieved-IsBacked c (ok score) = λ h. absurd (ground arith)

    by_anchor-IsBacked :
        (found : Option (Anchor F)) (top : Result Str F)
        → IsFrom xs found
        → fl.le
            (fl.add (score_of fl found) r.margin)
            (score_of fl (best_from fl off_domain xs none))
          ≡ false
        → IsTop found
        → IsBacked (by_anchor fl r found top)
    by_anchor-IsBacked none top f clear highest = retrieved-IsBacked (fl.hundredths 0) top
    by_anchor-IsBacked (some a) top f clear highest =
        elim (Bool-cases (same_intent a.intent social_intent && fl.le r.accept a.similarity)) [
          | inl chat ↦ rw chat (λ h. (
            a,
            f,
            same_intent_sound a.intent social_intent (ground arith),
            refl,
            ground arith,
            All-IsBelow a.similarity clear highest,
          ))
          | inr other ↦
              rw other (elim (Bool-cases (is_action a.intent && fl.le r.accept a.similarity)) [
                | inl action ↦
                    rw action (λ h.
                      (a, f, refl, refl, ground arith, All-IsBelow a.similarity clear highest))
                | inr weak ↦ rw weak (retrieved-IsBacked a.similarity top)
              ])
        ]

    route-IsBacked : (top : Result Str F) → IsBacked (route fl r xs top)
    unfolding route find_pos
    route-IsBacked top =
        elim (Bool-cases (
          fl.le (fl.add (score_of fl (find_pos fl xs)) r.margin)
            (score_of fl (best_from fl off_domain xs none)))) [
              | inl outside ↦ rw outside (λ h. cc)
              | inr inside ↦ rw inside (
                  by_anchor-IsBacked (find_pos fl xs) top (pos_from-IsFrom fl xs in_domain none tt)
                    inside (find_pos-Reaches fl ord xs))
            ]

    -- Where the comparisons of similarities are those of numbers, a message is taken for a
    -- wish about
    -- cases, a wish for a person or small talk only if an anchor of that intent is similar
    -- enough to it,
    -- no anchor inside the domain is more similar, and none outside it is so by the margin;
    -- the confidence
    -- is that similarity.
    pub route-HasAnchor :
        (top : Result Str F) (d : RouterDecision F)
        → route fl r xs top ≡ ok d
        → acts d.intent ≡ true
        → HasAnchor d
    route-HasAnchor top d h acting = (subst IsBacked h (route-IsBacked top)) acting
