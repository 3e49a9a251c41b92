-- ===== src/Omni/Stored.antt =====
-- What follows a stored message: attachments, activities and suggestions of a customer, of
-- internal/application/workflows/omnichannel/workflow.go.
use kb_retv_services.Prelude.{
  ℕ, suc, Bool, true, false, not, ◌||◌, Option, none, some, List, [], ◌∷◌, ◌++◌, if◌then◌else◌,
  Result, ok, err,
}
use kb_retv_services.Prelude.Int.{ℤ}
use kb_retv_services.Prelude.Str.{Str, codes, str_eq, to_lower, trim_space, itoa, is_empty}
use kb_retv_services.Tools.Caseref.{CaseRef, parse_case_ref}
use kb_retv_services.Omni.{
  AttachmentRef, InboundRequest, InboundAttachment, Normalized, ChannelAccount, channel_line,
  channel_email,
}
use kb_retv_services.Omni.Services.{
  CaseLookupResult, ActivityEntry, of_inbound, Effect, promoted, promoted_bytes, recorded,
  backfilled, Services,
}

abbrev case_code : Option CaseRef → Str
case_code none = []
case_code (some r) = r.code

-- `detectReferencedCase`.
unfoldable pub detect_referenced_case : Str → Str → Str
unfolding trim_space parse_case_ref
detect_referenced_case subject body =
    let text = trim_space subject in
    let b = trim_space body in
    case_code (parse_case_ref (if is_empty b then text else text ++ codes "\n" ++ b))

-- A message that was stored: its account, conversation, id, and who sent it.
pub record Stored : Type 0 where
  pub account : ChannelAccount
  pub conversation : ℤ
  pub message : ℤ
  pub customer : Str
  pub request : InboundRequest
  pub normalized : Normalized
  pub referenced_case : Str
  pub thread_matched : Bool
  pub created : Bool

module _ {W : Type 0} (s : Services W) where
  abbrev pub after : W → Effect → W
  after w e = (s.attempt w e).1

  unfoldable pub promote_refs : (company conversation message : ℤ) → List AttachmentRef → W → W
  promote_refs c v m [] w = w
  promote_refs c v m (r ∷ rs) w = promote_refs c v m rs (after w (promoted c v m r))

  unfoldable pub promote_mails :
      (company conversation message : ℤ) → Str → ℕ → List InboundAttachment → W → W
  promote_mails c v m id i [] w = w
  promote_mails c v m id i (a ∷ as_) w =
      promote_mails c v m id (suc i) as_
        (after w (promoted_bytes c v m (id ++ codes "#" ++ itoa i) a))

  -- `promoteAttachments`.
  unfoldable pub promote_attachments : Stored → W → W
  unfolding promote_refs promote_mails str_eq
  promote_attachments x w =
      if not s.has_media
      then w
      else if str_eq x.request.channel channel_line
      then promote_refs x.account.company_id x.conversation x.message x.request.attachments w
      else if str_eq x.request.channel channel_email
      then promote_mails x.account.company_id x.conversation x.message x.request.external_message_id
          0 x.normalized.attachments w
      else w

  abbrev pub record_if_set : ActivityEntry → W → W
  record_if_set e w = if s.has_activity then after w (recorded e) else w

  -- `recordInbound`.
  abbrev pub record_inbound : Stored → W → W
  record_inbound x w =
      record_if_set
        (record {
          company_id = x.account.company_id;
          actor_type = codes "channel";
          actor_external = x.customer;
          subject_type = codes "message";
          subject_id = x.message;
          subject_label = x.request.subject;
          action = codes "create";
          context = of_inbound x.request.channel x.account.id x.conversation;
        })
        w

  -- `WriteBackfill` of a customer that was found, and whether it succeeded.
  unfoldable pub write_backfill :
      (company conversation : ℤ) → (customer site : Option ℤ) → Str → W → Bool × W
  write_backfill c v none site source w = (false, w)
  write_backfill c v (some customer) site source w =
      if not s.has_backfill
      then (false, w)
      else let (e, w') = s.attempt w (backfilled c v (some customer) site source) in
        (elim e [ none ↦ true | some _ ↦ false ], w')

  unfoldable pub with_case_lookup :
      (company conversation : ℤ) → Result Str CaseLookupResult → W → Bool × W
  unfolding write_backfill
  with_case_lookup c v (err e) w = (false, w)
  with_case_lookup c v (ok l) w =
      write_backfill c v l.customer_id l.site_id (codes "referenced_case") w

  unfoldable pub case_looked_up :
      (company conversation : ℤ)
      → Str
      → Option (W → ℤ → Str → Result Str CaseLookupResult)
      → W
      → Bool × W
  unfolding with_case_lookup
  case_looked_up c v code none w = (false, w)
  case_looked_up c v code (some look) w =
      if is_empty code then (false, w) else with_case_lookup c v (look w c code) w

  -- `backfillReferencedCase`, where a reference was found and the lookup is set.
  abbrev pub case_backfill : (company conversation : ℤ) → Str → W → Bool × W
  unfolding case_looked_up
  case_backfill c v code w = case_looked_up c v code s.case_by_code w

  unfoldable pub with_customer : (company conversation : ℤ) → Result Str (Option ℤ) → W → W
  unfolding write_backfill
  with_customer c v (err e) w = w
  with_customer c v (ok customer) w = (write_backfill c v customer none (codes "sender_email") w).1

  -- `EmailHash`.
  unfoldable pub email_hash : Str → Str
  unfolding to_lower trim_space
  email_hash email =
      let text = to_lower (trim_space email) in if is_empty text then [] else s.hmac s.app_key text

  unfoldable pub sender_looked_up :
      (company conversation : ℤ) → Str → Option (W → ℤ → Str → Result Str (Option ℤ)) → W → W
  unfolding with_customer email_hash
  sender_looked_up c v sender none w = w
  sender_looked_up c v sender (some look) w =
      if not s.has_backfill || is_empty s.app_key || is_empty sender || is_empty (email_hash sender)
      then w
      else with_customer c v (look w c (email_hash sender)) w

  -- `backfillSenderCustomer`.
  abbrev pub sender_backfill : (company conversation : ℤ) → Str → W → W
  unfolding sender_looked_up
  sender_backfill c v sender w = sender_looked_up c v sender s.customer_by_email_hash w

  -- `runBackfills`: the sender is asked for only where the case gave no customer.
  unfoldable pub run_backfills : Stored → W → W
  unfolding case_backfill sender_backfill
  run_backfills x w =
      let (filled, w') = case_backfill x.account.company_id x.conversation x.referenced_case w in
      if filled then w' else sender_backfill x.account.company_id x.conversation x.customer w'
