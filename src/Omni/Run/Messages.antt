-- ===== src/Omni/Run/Messages.antt =====
-- About messages that are none of the mails that verify a mailbox.
use kb_retv_services.Prelude.{ℕ, ◌≡◌, refl, ap, ◌∙◌, false, Option, none, some, List, ok, if_both}
use kb_retv_services.Prelude.Str.{Str, str_eq, trim_space, is_empty}
use kb_retv_services.Omni.{InboundRequest, Normalized, channel_email}
use kb_retv_services.Omni.Request.{Validation}
use kb_retv_services.Omni.Services.{Verifier, Services}
use kb_retv_services.Omni.Verify.{verify_with, try_verify, confirm_with, try_forward_confirm}
use kb_retv_services.Omni.Control.{verification_code, forward_confirmation}
use kb_retv_services.Omni.Run.{
  Answer, in_context, admitted, unconfirmed, unverified, validated, checked_request, run,
}

module _ {W : Type 0} (s : Services W) where
  verify_with-none : (v : Option (Verifier W)) (w : W) → verify_with s v none w ≡ (none, w)
  unfolding verify_with
  verify_with-none none w = refl
  verify_with-none (some v) w = refl

  confirm_with-none :
      (v : Option (Verifier W)) (keys : List Str) (w : W) → confirm_with s v none keys w ≡ (none, w)
  unfolding confirm_with
  confirm_with-none none keys w = refl
  confirm_with-none (some v) keys w = refl

  module _ (n : Normalized) (r : InboundRequest) where
    -- Nothing about the mail makes it one of those that verify a mailbox, and it has a sender.
    abbrev pub IsMessage : Type 0
    IsMessage =
        (is_empty (trim_space n.external_sender) ≡ false)
        × (verification_code r.subject ≡ none)
        × (forward_confirmation n.external_sender n.request.subject n.request.body ≡ none)

    try_verify-none : (w : W) → IsMessage → try_verify s r.subject w ≡ (none, w)
    unfolding try_verify
    try_verify-none w (sender, code, confirmed) = rw code (verify_with-none s.verifier w)

    try_forward_confirm-none : (w : W) → IsMessage → try_forward_confirm s n w ≡ (none, w)
    unfolding try_forward_confirm
    try_forward_confirm-none w (sender, code, confirmed) =
        rw confirmed (confirm_with-none s.verifier n.routing_keys w)

    admitted-in_context :
        (raw : List ℕ) (w : W) → IsMessage → admitted s none n raw r w ≡ in_context s none n raw r w
    unfolding admitted
    admitted-in_context raw w (sender, code, confirmed) = rw sender refl

    unverified-in_context :
        (raw : List ℕ) (w : W)
        → IsMessage
        → unverified s none n raw r (none, w) ≡ in_context s none n raw r w
    unfolding unverified unconfirmed
    unverified-in_context raw w is =
        rw (try_forward_confirm-none w is) (admitted-in_context raw w is)

    validated-in_context :
        (raw : List ℕ) (w : W)
        → IsMessage
        → validated s none n raw (ok r) w ≡ in_context s none n raw r w
    unfolding validated
    validated-in_context raw w is =
        if_both (λ (a : Answer W). a ≡ in_context s none n raw r w) (str_eq r.channel channel_email)
          (ap (unverified s none n raw r) (try_verify-none w is) ∙ unverified-in_context raw w is)
          (admitted-in_context raw w is)

  pub run-in_context :
      (v : Validation) (n : Normalized) (r : InboundRequest) (raw : List ℕ) (w : W)
      → checked_request s v n ≡ ok r
      → IsMessage n r
      → run s v none n raw w ≡ in_context s none n raw r w
  unfolding run
  run-in_context v n r raw w valid is = rw valid (validated-in_context n r raw w is)
