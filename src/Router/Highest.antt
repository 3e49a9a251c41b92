-- ===== src/Router/Highest.antt =====
-- That the loops of the router find anchors of the highest similarity.
use kb_retv_services.Prelude.{
  ◌≡◌, sym, ap, ◌∙◌, ◌⊎◌, inl, inr, true, false, ◌&&◌, Option, none, some, List, [], ◌∷◌, arith,
  if◌then◌else◌, Bool-cases, any,
}
use mathlib.Core.Path.{subst}
use mathlib.Core.Bool.{true≢false}
use kb_retv_services.Rag.Types.{Floats}
use kb_retv_services.Router.{
  Intent, off_domain, Anchor, same_intent, in_domain, beats, best_from, higher, pos_from, find_pos,
  score_of,
}

-- The anchor stands in the list.
abbrev pub IsIn : {F : Type 0} → Anchor F → List (Anchor F) → Type 0
IsIn a [] = ⊥
IsIn a (b ∷ bs) = (a ≡ b) ⊎ IsIn a bs

-- What holds of the comparisons of numbers, which similarities are.
pub record IsOrder {F : Type 0} (fl : Floats F) : Type 0 where
  pub asym : (x y : F) → fl.lt x y ≡ true → fl.lt y x ≡ false
  pub trans : (x y z : F) → fl.lt x y ≡ false → fl.lt y z ≡ false → fl.lt x z ≡ false
  pub weaken : (x y z : F) → fl.le x z ≡ true → fl.lt y z ≡ false → fl.le x y ≡ true

pub same_intent_sound : (i j : Intent) → same_intent i j ≡ true → i ≡ j
same_intent_sound i j h = ground arith

within : (i : Intent) → same_intent i off_domain ≡ false → any (same_intent i) in_domain ≡ true
within i h = ground (arith, h)

module _ {F : Type 0} (fl : Floats F) (ord : IsOrder fl) where
  -- The found anchor is at least as similar.
  abbrev pub Reaches : Option (Anchor F) → F → Type 0
  Reaches none x = ⊥
  Reaches (some a) x = fl.lt a.similarity x ≡ false

  irrefl : (x : F) → fl.lt x x ≡ false
  irrefl x = elim (Bool-cases (fl.lt x x)) [
    | inl less ↦ ord.asym x x less
    | inr not_less ↦ not_less
  ]

  beats-Reaches :
      (a : Anchor F) (best : Option (Anchor F)) (x : F)
      → beats fl a.similarity best ≡ true
      → Reaches best x
      → Reaches (some a) x
  beats-Reaches a none x up h = absurd h
  beats-Reaches a (some b) x up h =
      ord.trans a.similarity b.similarity x (ord.asym b.similarity a.similarity up) h

  not_beaten-Reaches :
      (a : Anchor F) (best : Option (Anchor F))
      → beats fl a.similarity best ≡ false
      → Reaches best a.similarity
  not_beaten-Reaches a none down = absurd cc
  not_beaten-Reaches a (some b) down = down

  Reaches-trans :
      (found : Option (Anchor F)) (y x : F) → Reaches found y → fl.lt y x ≡ false → Reaches found x
  Reaches-trans none y x h k = h
  Reaches-trans (some a) y x h k = ord.trans a.similarity y x h k

  same_intent_refl : (i : Intent) → same_intent i i ≡ true
  same_intent_refl i = ground arith

  best_from-keeps :
      (i : Intent) (xs : List (Anchor F)) (best : Option (Anchor F)) (x : F)
      → Reaches best x
      → Reaches (best_from fl i xs best) x
  unfolding best_from
  best_from-keeps i [] best x h = h
  best_from-keeps i (a ∷ xs) best x h =
      elim (Bool-cases (same_intent a.intent i && beats fl a.similarity best)) [
        | inl up ↦ rw up (best_from-keeps i xs (some a) x (beats-Reaches a best x (ground arith) h))
        | inr down ↦ rw down (best_from-keeps i xs best x h)
      ]

  -- No anchor of the intent is more similar than the one that is found.
  pub best_from-Reaches :
      (i : Intent) (xs : List (Anchor F)) (best : Option (Anchor F)) (b : Anchor F)
      → IsIn b xs
      → b.intent ≡ i
      → Reaches (best_from fl i xs best) b.similarity
  unfolding best_from
  best_from-Reaches i [] best b inside is = absurd inside
  best_from-Reaches i (a ∷ xs) best b (inr inside) is =
      best_from-Reaches i xs
        (if same_intent a.intent i && beats fl a.similarity best then some a else best) b inside is
  best_from-Reaches i (a ∷ xs) best b (inl same) is =
      best_from-keeps i xs
        (if same_intent a.intent i && beats fl a.similarity best then some a else best) b.similarity
        (subst
          (λ x.
            Reaches (if same_intent a.intent i && beats fl a.similarity best then some a else best)
              x)
          (ap (λ c. c.similarity) (sym same))
          (elim (Bool-cases (beats fl a.similarity best)) [
            | inl up ↦ rw (up, wanted) (irrefl a.similarity)
            | inr down ↦ rw (down, wanted) (not_beaten-Reaches a best down)
          ]))
    where
      wanted : same_intent a.intent i ≡ true
      wanted =
          subst (λ j. same_intent j i ≡ true) (sym (ap (λ c. c.intent) (sym same) ∙ is))
            (same_intent_refl i)

  higher-Reaches :
      (found best : Option (Anchor F)) (x : F)
      → Reaches found x ⊎ Reaches best x
      → Reaches (higher fl found best) x
  higher-Reaches found none x (inl h) = h
  higher-Reaches found none x (inr h) = absurd h
  higher-Reaches found (some a) x h = elim (Bool-cases (beats fl a.similarity found)) [
    | inl up ↦ rw up (elim h [ inl k ↦ beats-Reaches a found x up k | inr k ↦ k ])
    | inr down ↦ rw down (elim h [
      | inl k ↦ k
      | inr k ↦ Reaches-trans found a.similarity x (not_beaten-Reaches a found down) k
    ])
  ]

  pos_from-keeps :
      (xs : List (Anchor F)) (intents : List Intent) (found : Option (Anchor F)) (x : F)
      → Reaches found x
      → Reaches (pos_from fl xs intents found) x
  unfolding pos_from
  pos_from-keeps xs [] found x h = h
  pos_from-keeps xs (i ∷ more) found x h =
      pos_from-keeps xs more (higher fl found (best_from fl i xs none)) x
        (higher-Reaches found (best_from fl i xs none) x (inl h))

  pos_from-Reaches :
      (xs : List (Anchor F)) (intents : List Intent) (found : Option (Anchor F)) (b : Anchor F)
      → IsIn b xs
      → any (same_intent b.intent) intents ≡ true
      → Reaches (pos_from fl xs intents found) b.similarity
  unfolding pos_from
  pos_from-Reaches xs [] found b inside is = absurd cc
  pos_from-Reaches xs (i ∷ more) found b inside is = elim (Bool-cases (same_intent b.intent i)) [
    | inl here ↦ pos_from-keeps xs more (higher fl found (best_from fl i xs none)) b.similarity (
        higher-Reaches found (best_from fl i xs none) b.similarity
          (inr (best_from-Reaches i xs none b inside (same_intent_sound b.intent i here))))
    | inr there ↦
        pos_from-Reaches xs more (higher fl found (best_from fl i xs none)) b inside (ground arith)
  ]

  -- No anchor of the domain is more similar than the one that is found.
  pub find_pos-Reaches :
      (xs : List (Anchor F)) (b : Anchor F)
      → IsIn b xs
      → same_intent b.intent off_domain ≡ false
      → Reaches (find_pos fl xs) b.similarity
  unfolding find_pos
  find_pos-Reaches xs b inside is = pos_from-Reaches xs in_domain none b inside (within b.intent is)

  -- What lies above the best anchor of an intent lies above every one.
  pub best_from-clears :
      (i : Intent) (xs : List (Anchor F)) (b : Anchor F) (x : F)
      → IsIn b xs
      → b.intent ≡ i
      → fl.le x (score_of fl (best_from fl i xs none)) ≡ false
      → fl.le x b.similarity ≡ false
  best_from-clears i xs b x inside is clear =
      go (best_from fl i xs none) (best_from-Reaches i xs none b inside is) clear
    where
      go :
          (best : Option (Anchor F))
          → Reaches best b.similarity
          → fl.le x (score_of fl best) ≡ false
          → fl.le x b.similarity ≡ false
      go none h c = absurd h
      go (some a) h c = elim (Bool-cases (fl.le x b.similarity)) [
        | inl up ↦ absurd (true≢false (sym (ord.weaken x a.similarity b.similarity up h) ∙ c))
        | inr down ↦ down
      ]
