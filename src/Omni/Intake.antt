-- ===== src/Omni/Intake.antt =====
-- The assessment of a stored mail and the ticket that may follow, of
-- internal/application/workflows/omnichannel/workflow.go.
use kb_retv_services.Prelude.{
  Bool, true, false, not, ◌&&◌, ◌||◌, Option, none, some, [], map, if◌then◌else◌, Result, ok, err,
}
use kb_retv_services.Prelude.Int.{pos, ltb_ℤ}
use kb_retv_services.Prelude.Str.{Str, codes, str_eq}
use kb_retv_services.Intake.Confidence.{other_class, confidence_promotable}
use kb_retv_services.Omni.{channel_line, channel_email, IntakeSignals, Completeness}
use kb_retv_services.Prelude.Int.{ℤ}
use kb_retv_services.Omni.Services.{
  of_assessment, of_failure, assess_queued, ticket_queued, Services,
}
use kb_retv_services.Omni.Stored.{Stored, record_if_set}

-- What the workflow learns of the intake: it was left to the queue, or an assessment, if any.
pub data Assessed : Type 0 where
  queued : Assessed
  inline : Option Completeness → Assessed

abbrev pub signals : Stored → IntakeSignals
signals x = record {
  sender = x.customer;
  subject = x.request.subject;
  body = x.request.body;
  list_unsubscribe = x.normalized.list_unsubscribe;
  auto_submitted = x.normalized.auto_submitted;
  precedence = x.normalized.precedence;
  has_attachments = ltb_ℤ (pos 0) x.normalized.attachment_count;
  referenced_case = x.referenced_case;
  thread_matched = x.thread_matched;
  images = map (λ a. (a.mime_type, a.content)) x.normalized.attachments;
}

abbrev pub auto_create_off : Option Completeness → Bool
auto_create_off none = false
auto_create_off (some a) = a.auto_create_disabled

-- `promotableTicket`; without an assessment the classification is the empty text.
abbrev pub is_promotable : Option Completeness → Bool
unfolding confidence_promotable
is_promotable none = confidence_promotable (other_class []) (pos 0) (pos 0)
is_promotable (some a) = confidence_promotable a.classification a.confidence a.promote_threshold

module _ {W : Type 0} (s : Services W) where
  -- `recordIntakeAssessed`.
  unfoldable pub record_assessed : Stored → Completeness → W → W
  record_assessed x result w =
      record_if_set s
        (record {
          company_id = x.account.company_id;
          actor_type = codes "ai_agent";
          actor_external = [];
          subject_type = codes "conversation";
          subject_id = x.conversation;
          subject_label = x.request.subject;
          action = codes "ai_intake_assessed";
          context = of_assessment result;
        })
        w

  unfoldable pub after_assess : Stored → Result Str Completeness × W → Assessed × W
  unfolding record_assessed
  after_assess x (err e, w) = (inline none, w)
  after_assess x (ok result, w) = (inline (some result), record_assessed x result w)

  unfoldable pub assess_by :
      Stored → Option (W → ℤ → ℤ → IntakeSignals → Result Str Completeness × W) → W → Assessed × W
  unfolding after_assess
  assess_by x none w = (inline none, w)
  assess_by x (some assess) w =
      after_assess x (assess w x.account.company_id x.conversation (signals x))

  abbrev pub assess_inline : Stored → W → Assessed × W
  unfolding assess_by
  assess_inline x w = assess_by x s.assess w

  unfoldable pub after_queue : Stored → Option Str × W → Assessed × W
  unfolding assess_inline
  after_queue x (none, w) = (queued, w)
  after_queue x (some e, w) = assess_inline x w

  -- `asyncEmail`.
  abbrev pub is_async : Stored → Bool
  unfolding str_eq
  is_async x =
      str_eq s.assess_mode (codes "async")
      && str_eq x.request.channel channel_email
      && s.has_assess_queue
      && x.created

  -- `assessIntake`.
  unfoldable pub assess_intake : Stored → W → Assessed × W
  unfolding after_queue is_async str_eq
  assess_intake x w =
      if not (str_eq x.request.channel channel_email)
      then (inline none, w)
      else if is_async x
      then after_queue x (
          s.attempt w (
            assess_queued x.account.company_id x.conversation x.message x.customer (signals x)
              x.request))
      else assess_inline x w

  -- `recordTicketEnqueueFailed`.
  unfoldable pub record_ticket_failed : Stored → Str → W → W
  record_ticket_failed x e w =
      record_if_set s
        (record {
          company_id = x.account.company_id;
          actor_type = codes "ai_agent";
          actor_external = [];
          subject_type = codes "conversation";
          subject_id = x.conversation;
          subject_label = x.request.subject;
          action = codes "ai_ticket_enqueue_failed";
          context = of_failure x.message e;
        })
        w

  unfoldable pub after_ticket : Stored → Option Str × W → Bool × W
  unfolding record_ticket_failed
  after_ticket x (none, w) = (true, w)
  after_ticket x (some e, w) = (false, record_ticket_failed x e w)

  -- The guards of `enqueueTicket`.
  unfoldable pub wants_ticket : Stored → Option Completeness → W → Bool
  unfolding str_eq is_promotable
  wants_ticket x assessed w =
      let line = str_eq x.request.channel channel_line in
      let email = str_eq x.request.channel channel_email in
      if not s.has_tickets || not x.created
      then false
      else if email && auto_create_off assessed
      then false
      else if line && s.line_bot w x.account.company_id
      then false
      else if not line && not (email && is_promotable assessed)
      then false
      else true

  -- `enqueueTicket`, with whether a ticket was enqueued.
  unfoldable pub enqueue_ticket : Stored → Option Completeness → W → Bool × W
  unfolding wants_ticket after_ticket
  enqueue_ticket x assessed w =
      if wants_ticket x assessed w
      then after_ticket x (
          s.attempt w
            (ticket_queued x.account.company_id x.conversation x.message x.customer x.request))
      else (false, w)
