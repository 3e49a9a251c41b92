-- ===== src/Omni/Verify.antt =====
-- The mails of the loop that verifies a forwarding mailbox: `tryVerify` and `tryForwardConfirm` of
-- internal/application/workflows/omnichannel/workflow.go.
use kb_retv_services.Prelude.{
  true, Option, none, some, List, [], ◌∷◌, if◌then◌else◌, Result, ok, err,
}
use kb_retv_services.Prelude.Str.{Str, trim_space, is_empty}
use kb_retv_services.Omni.{Normalized, ChannelAccount, InboundResult, no_result}
use kb_retv_services.Omni.Control.{verification_code, forward_confirmation}
use kb_retv_services.Omni.Services.{LookupError, Verifier, Services}

module _ {W : Type 0} (s : Services W) where
  unfoldable pub verified_by : Result LookupError ChannelAccount × W → Option InboundResult × W
  verified_by (ok a, w) = (
    some (record no_result {
      company_id = a.company_id;
      verified = true;
      verified_account_id = a.id;
    }),
    w,
  )
  verified_by (err e, w) = (none, w)

  unfoldable pub verify_with : Option (Verifier W) → Option Str → W → Option InboundResult × W
  unfolding verified_by
  verify_with none code w = (none, w)
  verify_with (some v) none w = (none, w)
  verify_with (some v) (some code) w = verified_by (v.mark_verified w code)

  -- `tryVerify`.
  unfoldable pub try_verify : Str → W → Option InboundResult × W
  unfolding verify_with
  try_verify subject w = verify_with s.verifier (verification_code subject) w

  -- The account that a key belongs to, or what the loop finds later.
  abbrev pub or_later :
      Result LookupError ChannelAccount × W → InboundResult × W → InboundResult × W
  or_later (ok a, w) later = (
    record no_result {
      company_id = a.company_id;
      forward_confirm = true;
      verified_account_id = a.id;
    },
    w,
  )
  or_later (err e, w) later = later

  -- The loop of `tryForwardConfirm` over the routing keys.
  unfoldable pub store_confirm : Verifier W → Str → Str → List Str → W → InboundResult × W
  unfolding trim_space
  store_confirm v code link [] w = (record no_result { forward_confirm = true }, w)
  store_confirm v code link (k ∷ ks) w =
      let key = trim_space k in
      let answer = v.store_forward_confirm w key code link in
      let later = store_confirm v code link ks (if is_empty key then w else answer.1) in
      if is_empty key then later else or_later answer later

  unfoldable pub confirm_with :
      Option (Verifier W) → Option (Str × Str) → List Str → W → Option InboundResult × W
  unfolding store_confirm
  confirm_with none found keys w = (none, w)
  confirm_with (some v) none keys w = (none, w)
  confirm_with (some v) (some (code, link)) keys w =
      let (r, w') = store_confirm v code link keys w in (some r, w')

  -- `tryForwardConfirm`.
  unfoldable pub try_forward_confirm : Normalized → W → Option InboundResult × W
  unfolding confirm_with
  try_forward_confirm n w =
      confirm_with s.verifier
        (forward_confirmation n.external_sender n.request.subject n.request.body) n.routing_keys w
