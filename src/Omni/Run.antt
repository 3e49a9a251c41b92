-- ===== src/Omni/Run.antt =====
-- `Run` of internal/application/workflows/omnichannel/workflow.go: what becomes of an incoming
-- message, with the state of everything outside before and after. The error of a cancelled context
-- is an argument. The lock of a conversation is left out: a run is one function on the state.
pub mod Frame
pub mod Tenants
pub mod Tickets
pub mod Outcomes
pub mod Messages
pub mod Redelivery
use kb_retv_services.Prelude.{
  ℕ, Bool, ◌&&◌, Option, none, some, List, [], ◌∷◌, if◌then◌else◌, any, Result, ok, err,
}
use kb_retv_services.Prelude.Int.{ℤ, pos, leb_ℤ}
use kb_retv_services.Prelude.Str.{Str, codes, str_eq, trim_space, is_empty}
use kb_retv_services.Omni.{
  InboundRequest, Normalized, channel_email, Completeness, InboundResult, no_result,
}
use kb_retv_services.Omni.Request.{Validation, normalize_request, validate, validate_event}
use kb_retv_services.Omni.Services.{
  Verifier, dedup_failed, insert_failed, invalid_request, sender_required, cancelled, account_error,
  no_company, RunError, LookupError, touched, cleaned, Services,
}
use kb_retv_services.Omni.Accounts.{Resolved, resolve_account}
use kb_retv_services.Omni.Stored.{
  Stored, after, promote_attachments, record_inbound, run_backfills, detect_referenced_case,
}
use kb_retv_services.Omni.Intake.{Assessed, queued, inline, assess_intake, enqueue_ticket}
use kb_retv_services.Omni.Verify.{try_verify, try_forward_confirm}
use kb_retv_services.Omni.Threads.{resolve_conversation}

abbrev pub Answer : Type 0 → Type 0
Answer W = Result RunError InboundResult × W

-- `isLineEvent`.
unfoldable pub is_line_event : Normalized → Bool
unfolding str_eq
is_line_event n =
    any (str_eq n.event_type) (codes "follow" ∷ codes "unfollow" ∷ codes "postback" ∷ [])

module _ {W : Type 0} (s : Services W) where
  abbrev pub touched_by : Option (Verifier W) → ℤ → W → W
  touched_by none id w = w
  touched_by (some v) id w = if leb_ℤ id (pos 0) then w else after s w (touched id)

  -- `touchInboundAsync`; the call is placed where the goroutine starts.
  abbrev pub touch_inbound : ℤ → W → W
  touch_inbound id w = touched_by s.verifier id w

  -- `deleteEmptyConversation`.
  abbrev pub clean_up : (company conversation : ℤ) → Bool → W → W
  clean_up c v created w = if created && s.has_cleaner then after s w (cleaned c v) else w

  -- The end of `Run`, once the message is stored.
  abbrev pub base_result : Stored → Resolved → InboundResult
  base_result x found = record no_result {
    company_id = x.account.company_id;
    conversation_id = x.conversation;
    message_id = x.message;
    referenced_case = x.referenced_case;
    matched_via = found.via;
    matched_address = found.address;
  }

  abbrev pub with_intake : Option Completeness → InboundResult → InboundResult
  with_intake none r = r
  with_intake (some a) r = record r { intake_status = a.status; intake_missing = a.missing }

  abbrev pub with_ticket : InboundResult → Bool × W → Answer W
  with_ticket r (ticket, w) = (ok (record r { ticket_enqueued = ticket }), w)

  unfoldable pub after_assessed : Stored → InboundResult → Assessed × W → Answer W
  unfolding enqueue_ticket
  after_assessed x r (queued, w) = (ok r, w)
  after_assessed x r (inline assessed, w) =
      with_ticket (with_intake assessed r) (enqueue_ticket s x assessed w)

  -- What `Run` does to the state before the assessment.
  abbrev pub followed_up : Stored → W → W
  unfolding promote_attachments run_backfills
  followed_up x w = run_backfills s x (record_inbound s x (promote_attachments s x w))

  unfoldable pub after_stored : Stored → Resolved → W → Answer W
  unfolding after_assessed assess_intake followed_up
  after_stored x found w =
      after_assessed x (base_result x found) (assess_intake s x (followed_up x w))

  module _ (n : Normalized) (raw : List ℕ) (customer : Str) (r : InboundRequest)
      (found : Resolved) where
    abbrev pub stored : ℤ × Bool × Bool → ℤ → Stored
    unfolding detect_referenced_case
    stored (v, created, threaded) m = record {
      account = found.account;
      conversation = v;
      message = m;
      customer = customer;
      request = r;
      normalized = n;
      referenced_case = detect_referenced_case r.subject r.body;
      thread_matched = threaded;
      created = created;
    }

    unfoldable pub inserted : ℤ × Bool × Bool → Result Str ℤ × W → Answer W
    unfolding after_stored stored
    inserted (v, created, threaded) (err e, w) =
        (err (insert_failed e), clean_up found.account.company_id v created w)
    inserted at_ (ok m, w) = after_stored (stored at_ m) found w

    unfoldable pub conversed : Result RunError (ℤ × Bool × Bool) × W → Answer W
    unfolding inserted
    conversed (err e, w) = (err e, w)
    conversed (ok (v, created, threaded), w) =
        inserted (v, created, threaded)
          (s.insert_message (touch_inbound found.account.id w) found.account.company_id (record {
            conversation_id = v;
            external_message_id = r.external_message_id;
            sender_external = customer;
            body = r.body;
            raw_payload = raw;
            attachments = r.attachments;
          }))

    -- What `findExisting` returns: an error, a result, or nothing.
    unfoldable pub deduplicated : Result Str (Option (ℤ × ℤ)) → W → Answer W
    unfolding conversed resolve_conversation
    deduplicated (err e) w = (err (dedup_failed e), w)
    deduplicated (ok (some (v, m))) w = (
      ok (record no_result {
        company_id = found.account.company_id;
        conversation_id = v;
        message_id = m;
        matched_via = found.via;
        matched_address = found.address;
      }),
      w,
    )
    deduplicated (ok none) w = conversed (resolve_conversation s n found.account customer r w)

    -- `findExisting`.
    unfoldable pub find_existing : W → Result Str (Option (ℤ × ℤ))
    unfolding trim_space
    find_existing w =
        let id = trim_space r.external_message_id in
        if is_empty id then ok none else s.find_message w found.account.company_id id

    -- The result of an event of LINE, which is no message.
    abbrev pub event_result : InboundResult
    event_result = record no_result {
      company_id = found.account.company_id;
      matched_via = found.via;
      matched_address = found.address;
    }

    -- From the resolved account on.
    unfoldable pub receive : W → Answer W
    unfolding deduplicated find_existing
    receive w =
        if leb_ℤ found.account.company_id (pos 0)
        then (err no_company, w)
        else if is_line_event n
        then (ok event_result, w)
        else deduplicated (find_existing w) w

  unfoldable pub account_resolved :
      Normalized → List ℕ → Str → InboundRequest → Result LookupError Resolved → W → Answer W
  unfolding receive
  account_resolved n raw customer r (err e) w = (err (account_error e), w)
  account_resolved n raw customer r (ok found) w = receive n raw customer r found w

  -- `accountKey`.
  abbrev pub account_key : Normalized → Str
  unfolding trim_space
  account_key n =
      let key = trim_space n.account_external_id in
      if is_empty key then trim_space n.external_sender else key

  unfoldable pub in_context : Option Str → Normalized → List ℕ → InboundRequest → W → Answer W
  unfolding account_resolved resolve_account account_key trim_space
  in_context (some e) n raw r w = (err (cancelled e), w)
  in_context none n raw r w =
      account_resolved n raw (trim_space n.external_sender) r
        (resolve_account s w r.channel (account_key n) n) w

  unfoldable pub admitted : Option Str → Normalized → List ℕ → InboundRequest → W → Answer W
  unfolding in_context trim_space
  admitted ctx_err n raw r w =
      if is_empty (trim_space n.external_sender)
      then (err sender_required, w)
      else in_context ctx_err n raw r w

  unfoldable pub unconfirmed :
      Option Str → Normalized → List ℕ → InboundRequest → Option InboundResult × W → Answer W
  unfolding admitted
  unconfirmed ctx_err n raw r (some res, w) = (ok res, w)
  unconfirmed ctx_err n raw r (none, w) = admitted ctx_err n raw r w

  unfoldable pub unverified :
      Option Str → Normalized → List ℕ → InboundRequest → Option InboundResult × W → Answer W
  unfolding unconfirmed try_forward_confirm
  unverified ctx_err n raw r (some res, w) = (ok res, w)
  unverified ctx_err n raw r (none, w) = unconfirmed ctx_err n raw r (try_forward_confirm s n w)

  unfoldable pub validated :
      Option Str → Normalized → List ℕ → Result Str InboundRequest → W → Answer W
  unfolding admitted unverified try_verify str_eq
  validated ctx_err n raw (err e) w = (err (invalid_request e), w)
  validated ctx_err n raw (ok r) w =
      if str_eq r.channel channel_email
      then unverified ctx_err n raw r (try_verify s r.subject w)
      else admitted ctx_err n raw r w

  -- The request as `Run` goes on with it.
  unfoldable pub checked_request : Validation → Normalized → Result Str InboundRequest
  unfolding validate validate_event is_line_event
  checked_request v n =
      let r = normalize_request n.request in
      if is_line_event n then validate_event v r else validate v r

  -- `Run`.
  unfoldable pub run : Validation → Option Str → Normalized → List ℕ → W → Answer W
  unfolding validated checked_request
  run v ctx_err n raw w = validated ctx_err n raw (checked_request v n) w
