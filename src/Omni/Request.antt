-- ===== src/Omni/Request.antt =====
-- What is asked of an incoming request: internal/application/dto/inbound_message.go and
-- validator.go. The tags of the fields are read by a validation package, and addresses are parsed
-- by Go's `net/url`: both are arguments.
use kb_retv_services.Prelude.{
  Bool, true, false, not, ◌&&◌, ◌||◌, Option, none, some, List, [], ◌∷◌, if◌then◌else◌, Result, ok,
  err,
}
use kb_retv_services.Prelude.Str.{Str, codes, str_eq, starts_with, to_lower, trim_space, is_empty}
use kb_retv_services.Omni.{AttachmentRef, InboundRequest}

-- `valid_request` and `valid_attachment` are `validate.Struct` on the two types, `url_error` what
-- `url.Parse` fails with, and `request_uri` the scheme and host that `url.ParseRequestURI` finds.
pub record Validation : Type 0 where
  pub valid_request : InboundRequest → Option Str
  pub valid_attachment : AttachmentRef → Option Str
  pub url_error : Str → Option Str
  pub request_uri : Str → Option (Str × Str)

-- `AttachmentRef.Normalize`.
abbrev pub normalize_attachment : AttachmentRef → AttachmentRef
normalize_attachment r = record r {
  id = trim_space r.id;
  url = trim_space r.url;
  storage_key = trim_space r.storage_key;
  mime_type = trim_space r.mime_type;
}

-- `InboundMessageRequest.Normalize`.
abbrev pub normalize_request : InboundRequest → InboundRequest
normalize_request r = record r {
  channel = trim_space r.channel;
  external_message_id = trim_space r.external_message_id;
  customer_id = trim_space r.customer_id;
  site_id = trim_space r.site_id;
  conversation_id = trim_space r.conversation_id;
  subject = trim_space r.subject;
  body = trim_space r.body;
}

module _ (v : Validation) where
  abbrev is_web : Option (Str × Str) → Bool
  unfolding str_eq
  is_web none = false
  is_web (some (scheme, host)) =
      (str_eq scheme (codes "http") || str_eq scheme (codes "https")) && not (is_empty host)

  abbrev is_valid_url : Str → Bool
  unfolding starts_with is_web
  is_valid_url u =
      if is_empty u
      then true
      else if starts_with u (codes "//")
      then false
      else if starts_with u (codes "/")
      then elim (v.url_error u) [ some _ ↦ false | none ↦ true ]
      else is_web (v.request_uri u)

  -- `AttachmentRef.Validate`.
  unfoldable pub validate_attachment : AttachmentRef → Option Str
  unfolding starts_with is_valid_url
  validate_attachment r =
      if starts_with (to_lower r.url) (codes "data:")
      then some (codes "attachment url must reference stored media")
      else if is_empty r.url && is_empty r.storage_key && is_empty r.id
      then some (codes "attachment reference is required")
      else if not (is_valid_url r.url)
      then some (codes "attachment url is invalid")
      else v.valid_attachment r

  abbrev and_more :
      Option Str → AttachmentRef → Result Str (List AttachmentRef) → Result Str (List AttachmentRef)
  and_more (some e) r rest = err e
  and_more none r (err e) = err e
  and_more none r (ok rs) = ok (r ∷ rs)

  -- `validateAttachmentRefs`, which normalises the list in place.
  unfoldable pub validate_attachments : List AttachmentRef → Result Str (List AttachmentRef)
  unfolding validate_attachment
  validate_attachments [] = ok []
  validate_attachments (r ∷ rs) =
      and_more (validate_attachment (normalize_attachment r)) (normalize_attachment r)
        (validate_attachments rs)

  abbrev pub checked : InboundRequest → Option Str → Result Str InboundRequest
  checked r (some e) = err e
  checked r none = ok r

  abbrev pub no_attachment : List AttachmentRef → Bool
  no_attachment [] = true
  no_attachment (r ∷ rs) = false

  abbrev pub with_body :
      Bool → InboundRequest → Result Str (List AttachmentRef) → Result Str InboundRequest
  with_body needs_body r (err e) = err e
  with_body needs_body r (ok rs) =
      let r' = record r { attachments = rs } in
      if needs_body && is_empty (trim_space r.body) && no_attachment rs
      then err (codes "body or attachment is required")
      else checked r' (v.valid_request r')

  -- `Validate`, with the request as it is afterwards.
  unfoldable pub validate : InboundRequest → Result Str InboundRequest
  unfolding validate_attachments
  validate r = with_body true (normalize_request r) (validate_attachments r.attachments)

  -- `ValidateEvent` asks for no body.
  unfoldable pub validate_event : InboundRequest → Result Str InboundRequest
  unfolding validate_attachments
  validate_event r = with_body false (normalize_request r) (validate_attachments r.attachments)
