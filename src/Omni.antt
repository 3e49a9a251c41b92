-- ===== src/Omni.antt =====
-- Incoming messages of the channels: internal/application/workflows/omnichannel, with the request
-- of internal/application/dto/inbound_message.go. This module holds the records that its parts
-- share; ids are Go's `int64`.
pub mod Request
pub mod Control
pub mod Services
pub mod Accounts
pub mod Verify
pub mod Threads
pub mod Stored
pub mod Intake
pub mod Run
use kb_retv_services.Prelude.{
  ℕ, zero, suc, ◌+◌, ◌-◌, ◌*◌, ◌/◌, ◌%◌, ◌^◌, ◌≤◌, ◌<◌, ◌≡◌, refl, sym, ap, ◌∙◌, ◌≢◌, ◌↔◌, ◌⊎◌, inl,
  inr, Bool, true, false, not, ◌&&◌, ◌||◌, Option, none, some, List, [], ◌∷◌, ◌++◌, map, arith, ltb,
  leb, ◌==◌, if◌then◌else◌, ltb→lt, lt→ltb, leb→le, le→leb, ==_iff, tests, Bool-cases, Option-cases,
  length, get_elem?, take, any, all, keep, length-append, length-take_le, length-keep_le, All,
  All-append, All-take, All-keep, Result, ok, err, Result-cases,
}
use kb_retv_services.Prelude.Int.{
  ℤ, pos, negsuc, pos_part, neg_part, sub_ℕ, ◌+ℤ◌, ◌≤ℤ◌, ◌<ℤ◌, ltb_ℤ, leb_ℤ, max_ℤ, min_ℤ, +ℤ_parts,
  eq_of_parts, int_laws, max_ℤ_bounds, min_ℤ_bounds, min_max_bounds,
}
use kb_retv_services.Prelude.Str.{
  Str, codes, str_eq, str_eq_refl, eq_of_str_eq, str_eq_iff, starts_with, contains, to_lower,
  trim_space, ends_with, itoa, is_empty, trim_suffix,
}
use kb_retv_services.Intake.Confidence.{Classification}
use kb_retv_services.Prelude.Dict.{
  Dict, find, remove, put, prune, find-remove, find-put, length-remove_le, length-prune_le, IsMap,
  passing, find-prune, prune_absent, prune-IsMap, remove-IsMap, put-IsMap,
}

pub record AttachmentRef : Type 0 where
  pub id : Str
  pub url : Str
  pub storage_key : Str
  pub mime_type : Str
  pub size_bytes : ℤ

pub record InboundRequest : Type 0 where
  pub channel : Str
  pub external_message_id : Str
  pub customer_id : Str
  pub site_id : Str
  pub conversation_id : Str
  pub subject : Str
  pub body : Str
  pub attachments : List AttachmentRef
  pub metadata : Dict Str

pub record InboundAttachment : Type 0 where
  pub filename : Str
  pub mime_type : Str
  pub content : List ℕ

pub record Normalized : Type 0 where
  pub request : InboundRequest
  pub external_sender : Str
  pub account_external_id : Str
  pub account_candidates : List Str
  pub routing_keys : List Str
  pub in_reply_to : Str
  pub references : List Str
  pub sender_name : Str
  pub auto_submitted : Str
  pub list_unsubscribe : Bool
  pub precedence : Str
  pub attachment_count : ℤ
  pub attachment_mime_types : List Str
  pub attachments : List InboundAttachment
  pub event_type : Str
  pub reply_token : Str
  pub postback_data : Str
  pub is_redelivery : Bool

pub record ChannelAccount : Type 0 where
  pub id : ℤ
  pub company_id : ℤ
  pub channel : Str
  pub external_id : Str

abbrev pub channel_line : Str
channel_line = codes "line"

abbrev pub channel_email : Str
channel_email = codes "email"

pub record IntakeSignals : Type 0 where
  pub sender : Str
  pub subject : Str
  pub body : Str
  pub list_unsubscribe : Bool
  pub auto_submitted : Str
  pub precedence : Str
  pub has_attachments : Bool
  pub referenced_case : Str
  pub thread_matched : Bool
  pub images : List (Str × List ℕ)

pub record Completeness : Type 0 where
  pub auto_create_disabled : Bool
  pub status : Str
  pub missing : List Str
  pub score : ℤ
  pub reasons : List Str
  pub classification : Classification
  pub reasoning : Str
  pub catalog_related : Option Bool
  pub confidence : ℤ
  pub promote_threshold : ℤ

-- `Result` of workflow.go. `matched_via` is empty where no account was resolved.
pub record InboundResult : Type 0 where
  pub company_id : ℤ
  pub conversation_id : ℤ
  pub message_id : ℤ
  pub ticket_enqueued : Bool
  pub intake_status : Str
  pub intake_missing : List Str
  pub referenced_case : Str
  pub verified : Bool
  pub verified_account_id : ℤ
  pub forward_confirm : Bool
  pub matched_via : Str
  pub matched_address : Str

-- `Result{}`.
abbrev pub no_result : InboundResult
no_result = record {
  company_id = pos 0;
  conversation_id = pos 0;
  message_id = pos 0;
  ticket_enqueued = false;
  intake_status = [];
  intake_missing = [];
  referenced_case = [];
  verified = false;
  verified_account_id = pos 0;
  forward_confirm = false;
  matched_via = [];
  matched_address = [];
}
