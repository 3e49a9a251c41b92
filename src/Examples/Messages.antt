-- ===== src/Examples/Messages.antt =====
-- Concrete runs of the workflow of incoming messages, over a store that is a list of messages.
use kb_retv_services.Prelude.{
  ◌≤◌, ◌≡◌, refl, ap, ◌↔◌, Bool, true, false, ◌&&◌, Option, none, some, List, [], ◌∷◌, ◌++◌, arith,
  if◌then◌else◌, length, ok, err, ok_inj,
}
use kb_retv_services.Prelude.Int.{ℤ, pos, leb_ℤ}
use kb_retv_services.Prelude.Str.{Str, codes, str_eq, str_eq_refl, trim_space, itoa}
use kb_retv_services.Tools.Caseref.{rep, draft, max_int64, parse_case_ref}
use kb_retv_services.Tools.Caseref.Codes.{parse_case_ref-again, parse-code_iff}
use kb_retv_services.Prelude.Str.Numbers.{value_from}
use kb_retv_services.Omni.{InboundRequest, Normalized, ChannelAccount, InboundResult, no_result}
use kb_retv_services.Omni.Request.{Validation}
use kb_retv_services.Omni.Services.{account_not_found, Services}
use kb_retv_services.Omni.Accounts.{resolve_account}
use kb_retv_services.Omni.Accounts.Order.{probes, search_in, resolve_account-search_in}
use kb_retv_services.Omni.Control.{verification_code, forward_confirmation}
use kb_retv_services.Omni.Stored.{Stored}
use kb_retv_services.Omni.Run.{run, checked_request, is_line_event}
use kb_retv_services.Omni.Run.Messages.{IsMessage}
use kb_retv_services.Omni.Run.Redelivery.{Remembers, seen_again, run-again}
use kb_retv_services.Omni.Run.Tickets.{IsDue}
use kb_retv_services.Omni.Run.Outcomes.{WasCreated, WasStored, run-IsDue}

abbrev eq_ℤ : ℤ → ℤ → Bool
eq_ℤ a b = leb_ℤ a b && leb_ℤ b a

eq_ℤ_refl : (a : ℤ) → eq_ℤ a a ≡ true
eq_ℤ_refl a = ground arith

-- A stored message: its company, external id, conversation and id.
abbrev Row : Type 0
Row = ℤ × Str × ℤ × ℤ

abbrev has_key : ℤ → Str → Row → Bool
unfolding str_eq
has_key c k (d, e, v, i) = eq_ℤ d c && str_eq e k

abbrev look_up : List Row → ℤ → Str → Option (ℤ × ℤ)
unfolding has_key
look_up [] c k = none
look_up ((d, e, v, i) ∷ rows) c k =
    if has_key c k (d, e, v, i) then some (v, i) else look_up rows c k

abbrev company_of : Row → ℤ
company_of (d, e, v, i) = d

abbrev shop : ChannelAccount
shop = record { id = pos 3; company_id = pos 7; channel = codes "line"; external_id = codes "shop" }

abbrev services : Services (List Row)
unfolding str_eq look_up
services = record {
  by_routing_key = λ w k. err account_not_found;
  by_alias = λ w k. err account_not_found;
  by_external_id =
      λ w channel k. if str_eq k (codes "shop") then ok shop else err account_not_found;
  verifier = none;
  upsert_conversation = λ w c. (ok (pos 20, true), w);
  insert_message = λ w c m.
      (ok (pos (length w)), (c, m.external_message_id, m.conversation_id, pos (length w)) ∷ w);
  find_message = λ w c k. ok (look_up w c k);
  assess = none;
  case_by_code = none;
  customer_by_email_hash = none;
  attempt = λ w e. (none, w);
  has_cleaner = true;
  has_tickets = true;
  has_assess_queue = false;
  has_media = true;
  has_backfill = true;
  has_activity = true;
  assess_mode = [];
  app_key = codes "key";
  hmac = λ k t. k ++ t;
  line_bot = λ w c. false;
}

services-Remembers : Remembers services
unfolding services look_up has_key
services-Remembers = record {
  by_insert = λ c m w id w' fresh is.
      rw (← ap (λ p. p.1) is, ← ok_inj (ap (λ p. p.0) is))
        (rw (eq_ℤ_refl c, str_eq_refl m.external_message_id) refl);
  by_attempt = λ w e c k. refl;
  by_upsert = λ w n c k. refl;
  by_assess = λ f is w d v sig c k. absurd cc;
}

abbrev validation : Validation
validation = record {
  valid_request = λ r. none;
  valid_attachment = λ r. none;
  url_error = λ u. none;
  request_uri = λ u. none;
}

-- A message of LINE to the account `shop`.
abbrev hello : Normalized
hello = record {
  request = record {
    channel = codes "line";
    external_message_id = codes "m1";
    customer_id = codes "u1";
    site_id = [];
    conversation_id = [];
    subject = [];
    body = codes "rep-7 is down";
    attachments = [];
    metadata = [];
  };
  external_sender = codes "u1";
  account_external_id = codes "shop";
  account_candidates = codes "other" ∷ codes " shop " ∷ [];
  routing_keys = [];
  in_reply_to = [];
  references = [];
  sender_name = [];
  auto_submitted = [];
  list_unsubscribe = false;
  precedence = [];
  attachment_count = pos 0;
  attachment_mime_types = [];
  attachments = [];
  event_type = codes "message";
  reply_token = [];
  postback_data = [];
  is_redelivery = false;
}

abbrev received : InboundResult
received = record no_result {
  company_id = pos 7;
  conversation_id = pos 20;
  message_id = pos 0;
  ticket_enqueued = true;
  referenced_case = codes "REP-7";
  matched_via = codes "address";
  matched_address = codes "shop";
}

abbrev after_hello : List Row
after_hello = (pos 7, codes "m1", pos 20, pos 0) ∷ []

test_hello : run services validation none hello [] [] ≡ (ok received, after_hello)
unfolding run value_from
test_hello = refl

abbrev hello_request : InboundRequest
hello_request = hello.request

hello_checked : checked_request services validation hello ≡ ok hello_request
unfolding checked_request trim_space
hello_checked = refl

hello-IsMessage : IsMessage services hello hello_request
unfolding verification_code forward_confirmation trim_space
hello-IsMessage = (refl, refl, refl)

run-again_example :
    run services validation none hello (1 ∷ []) after_hello
    ≡ (ok (seen_again received), after_hello)
unfolding is_line_event resolve_account
run-again_example =
    run-again services services-Remembers validation hello hello_request received [] after_hello []
      (1 ∷ []) hello_checked hello-IsMessage refl refl refl test_hello

run-IsDue_example :
    (x : Stored) × IsDue services x
    × (checked_request services validation hello ≡ ok x.request)
    × WasCreated services x.account.company_id x.conversation
    × WasStored services x
    × (pos 0 ≡ x.message)
    × (pos 20 ≡ x.conversation)
    × (pos 7 ≡ x.account.company_id)
run-IsDue_example =
    run-IsDue services validation none hello [] [] after_hello received test_hello refl

-- Services with a verifier, which marks an account of company 9.
abbrev mailbox : ChannelAccount
mailbox = record {
  id = pos 4;
  company_id = pos 9;
  channel = codes "email";
  external_id = codes "box";
}

abbrev with_verifier : Services (List Row)
with_verifier = record services {
  verifier = some (record {
    mark_verified = λ w code. (ok mailbox, (pos 9, code, pos 0, pos 0) ∷ w);
    store_forward_confirm = λ w key code link. (ok mailbox, (pos 9, key, pos 0, pos 0) ∷ w);
  });
}

abbrev code_mail : Normalized
code_mail = record hello {
  request = record hello_request { channel = codes "email"; subject = codes "SJT-VERIFY-AB2CD3EF" };
}

code_mail_marks :
    (run with_verifier validation none code_mail [] []).1
    ≡ (pos 9, codes "AB2CD3EF", pos 0, pos 0) ∷ []
unfolding run verification_code
code_mail_marks = refl

resolve_account-search_in_example :
    resolve_account services [] (codes "line") (codes "other") hello
    ≡ search_in (probes services [] (codes "line") (codes "other") hello)
resolve_account-search_in_example =
    resolve_account-search_in services [] (codes "line") (codes "other") hello

parse_case_ref-again_example :
    parse_case_ref (codes "DRAFT-0042")
    ≡ some (record { namespace = draft; id = 42; code = codes "DRAFT-0042" })
unfolding parse_case_ref value_from
parse_case_ref-again_example =
    parse_case_ref-again (codes "see Draft:0042.")
      (record { namespace = draft; id = 42; code = codes "DRAFT-0042" }) refl

parse-code_iff_example : (4290 ≤ max_int64) ↔ (
    parse_case_ref (codes "REP-" ++ itoa 4290)
    ≡ some (record { namespace = rep; id = 4290; code = codes "REP-" ++ itoa 4290 }))
parse-code_iff_example = parse-code_iff rep 4290
