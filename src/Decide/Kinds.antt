-- ===== src/Decide/Kinds.antt =====
-- Which answers a turn can get.
use kb_retv_services.Prelude.{
  ◌≡◌, refl, ap, ◌∙◌, ◌≢◌, ◌↔◌, ◌⊎◌, inl, inr, Bool, true, false, Option, none, some, arith,
}
use kb_retv_services.Prelude.Str.{codes, str_eq}
use kb_retv_services.Rag.Types.{Floats}
use kb_retv_services.Skeleton.Response.{Response}
use kb_retv_services.Skeleton.Orchestrator.{SkeletonError}
use kb_retv_services.Router.{social_intent, RouterDecision}
use kb_retv_services.Decide.{
  Kind, tool, clarify, tool_failed, permission_denied, social, authoritative, is_social, by_intent,
  classify, decide_turn,
}

-- The answer states what the tool said, that it failed, what is missing, or that the user may not.
abbrev pub is_grounded : Kind → Bool
is_grounded tool = true
is_grounded clarify = true
is_grounded tool_failed = true
is_grounded permission_denied = true
is_grounded _ = false

module _ {F : Type 0} (fl : Floats F) (margin : F) (d : RouterDecision F) where
  -- The intent alone never gives an answer of a tool.
  by_intent_grounded : is_grounded (by_intent fl margin d) ≡ false
  by_intent_grounded = ground arith

  -- A question about a case or the wish to open one that a tool was asked for, and any write
  -- of a tool that failed, is never answered by a generated text, small talk or a hand-off:
  -- the answer is the tool's, its failure, a question for what is missing, or a refusal. A
  -- write that failed is never answered as if it had been done.
  pub classify-is_grounded :
      (resp : Response F) (e : Option SkeletonError)
      → (authoritative d.intent ≡ true) ⊎ ((str_eq resp.kind (codes "write") ≡ true) × (e ≢ none))
      → (is_grounded (classify fl d (some (resp, e)) margin).0 ≡ true)
        × ((e ≡ none) ⊎ ((classify fl d (some (resp, e)) margin).0 ≢ tool))
  unfolding classify
  classify-is_grounded resp none (inl h) = (ground arith, inl refl)
  classify-is_grounded resp none (inr (w, h)) = absurd (h refl)
  classify-is_grounded resp (some e) (inl h) = (ground arith, inr (ground arith))
  classify-is_grounded resp (some e) (inr (w, h)) = (ground arith, inr (ground arith))

  answered :
      {resp : Response F} (r : Response F)
      → is_social d.intent ≡ false
      → (let a : Option (Response F × Option SkeletonError) = some (resp, none) in a)
        ≡ some (r, none)
      → r.matched ≡ true
      → (decide_turn fl (some (resp, none)) margin d).kind ≡ tool
  unfolding decide_turn classify
  answered {resp = resp} r chatty same m =
      let same_response : resp ≡ r = cc in
      let matched : resp.matched ≡ true = ap (λ x. x.matched) same_response ∙ m in
      ground (arith, chatty, matched)

  -- The answer of a turn is a tool's exactly when a tool was asked, which a social turn never
  -- does, and it matched and did not fail.
  pub decide_turn-tool_iff :
      (runner : Option (Response F × Option SkeletonError))
      → ((decide_turn fl runner margin d).kind ≡ tool) ↔ (
          (is_social d.intent ≡ false)
          × ((resp : Response F) × (runner ≡ some (resp, none)) × (resp.matched ≡ true)))
  unfolding decide_turn classify
  decide_turn-tool_iff none = (λ h. absurd (ground arith), λ (_, (_, there, _)). cc there)
  decide_turn-tool_iff (some (resp, none)) = (
    λ h. (ground arith, (resp, refl, ground arith)),
    λ (chatty, (r, same, m)). answered r chatty same m,
  )
  decide_turn-tool_iff (some (resp, some e)) =
      (λ h. absurd (ground arith), λ (_, (_, there, _)). cc there)

  -- A turn is small talk exactly when the router says so, whatever a tool would have
  -- answered; no tool is asked then.
  pub decide_turn-social_iff :
      (runner : Option (Response F × Option SkeletonError))
      → ((decide_turn fl runner margin d).kind ≡ social) ↔ (d.intent ≡ social_intent)
  unfolding decide_turn classify
  decide_turn-social_iff runner = ground arith
