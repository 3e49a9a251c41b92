-- ===== src/Omni/Services.antt =====
-- What the workflow of incoming messages calls: the interfaces of
-- internal/application/workflows/omnichannel/workflow.go over the state `W` of everything outside.
-- A call that returns nothing but an error is an effect.
use kb_retv_services.Prelude.{ℕ, Bool, Option, List, Result}
use kb_retv_services.Prelude.Int.{ℤ}
use kb_retv_services.Prelude.Str.{Str}
use kb_retv_services.Omni.{
  AttachmentRef, InboundRequest, InboundAttachment, ChannelAccount, IntakeSignals, Completeness,
}

-- `ErrAccountNotFound`, or another error.
pub data LookupError : Type 0 where
  account_not_found : LookupError
  lookup_failed : Str → LookupError

pub record CaseLookupResult : Type 0 where
  pub customer_id : Option ℤ
  pub site_id : Option ℤ

pub record NewConversation : Type 0 where
  pub company_id : ℤ
  pub channel_account_id : ℤ
  pub external_customer : Str
  pub subject : Str
  pub force_new : Bool

pub record StoredMessage : Type 0 where
  pub conversation_id : ℤ
  pub external_message_id : Str
  pub sender_external : Str
  pub body : Str
  pub raw_payload : List ℕ
  pub attachments : List AttachmentRef

-- The `Context` of an activity.
pub data ActivityContext : Type 0 where
  of_inbound : (channel : Str) (account conversation : ℤ) → ActivityContext
  of_assessment : Completeness → ActivityContext
  of_failure : (message : ℤ) (error : Str) → ActivityContext

pub record ActivityEntry : Type 0 where
  pub company_id : ℤ
  pub actor_type : Str
  pub actor_external : Str
  pub subject_type : Str
  pub subject_id : ℤ
  pub subject_label : Str
  pub action : Str
  pub context : ActivityContext

-- The first number is the company; a call that has no such argument takes it from its context.
pub data Effect : Type 0 where
  -- `TouchInbound` of an account, which a goroutine calls with a context of its own.
  touched : ℤ → Effect
  -- `DeleteConversationIfEmpty`.
  cleaned : (company conversation : ℤ) → Effect
  -- `Promote` and `PromoteBytes`.
  promoted : (company conversation message : ℤ) → AttachmentRef → Effect
  promoted_bytes :
      (company conversation message : ℤ) (external_id : Str) → InboundAttachment → Effect
  -- `RecordActivity`.
  recorded : ActivityEntry → Effect
  -- `WriteBackfill`.
  backfilled : (company conversation : ℤ) (customer site : Option ℤ) (source : Str) → Effect
  -- `EnqueueAssess` and `EnqueueTicket`.
  assess_queued :
      (company conversation message : ℤ) (customer : Str) → IntakeSignals → InboundRequest → Effect
  ticket_queued : (company conversation message : ℤ) (customer : Str) → InboundRequest → Effect

pub record Verifier (W : Type 0) : Type 0 where
  pub mark_verified : W → Str → Result LookupError ChannelAccount × W
  pub store_forward_confirm : W → Str → Str → Str → Result LookupError ChannelAccount × W

-- `Config`. A call that may be unset is an option, or has a flag where it is an effect. `attempt`
-- makes the call of an effect and returns its error.
pub record Services (W : Type 0) : Type 0 where
  pub by_routing_key : W → Str → Result LookupError ChannelAccount
  pub by_alias : W → Str → Result LookupError ChannelAccount
  pub by_external_id : W → Str → Str → Result LookupError ChannelAccount
  pub verifier : Option (Verifier W)
  pub upsert_conversation : W → NewConversation → Result Str (ℤ × Bool) × W
  -- The company is that of the context.
  pub insert_message : W → ℤ → StoredMessage → Result Str ℤ × W
  pub find_message : W → ℤ → Str → Result Str (Option (ℤ × ℤ))
  pub assess : Option (W → ℤ → ℤ → IntakeSignals → Result Str Completeness × W)
  pub case_by_code : Option (W → ℤ → Str → Result Str CaseLookupResult)
  pub customer_by_email_hash : Option (W → ℤ → Str → Result Str (Option ℤ))
  pub attempt : W → Effect → Option Str × W
  pub has_cleaner : Bool
  pub has_tickets : Bool
  pub has_assess_queue : Bool
  pub has_media : Bool
  pub has_backfill : Bool
  pub has_activity : Bool
  pub assess_mode : Str
  pub app_key : Str
  -- HMAC-SHA256 in hexadecimal, of a key and a text.
  pub hmac : Str → Str → Str
  -- `features.Enabled(ctx, companyID, FeatureLineBot)`, false where no reader is set.
  pub line_bot : W → ℤ → Bool

-- What `Run` fails with.
pub data RunError : Type 0 where
  invalid_request : Str → RunError
  sender_required : RunError
  cancelled : Str → RunError
  account_error : LookupError → RunError
  no_company : RunError
  dedup_failed : Str → RunError
  conversation_failed : Str → RunError
  insert_failed : Str → RunError
