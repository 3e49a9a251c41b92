-- ===== src/Omni/Run/Frame.antt =====
-- About what the steps after the resolution of an account keep: a predicate on the state that the
-- calls for the company of the account keep.
use kb_retv_services.Prelude.{
  ℕ, suc, ◌≡◌, refl, inl, inr, not, ◌||◌, Option, none, some, List, [], ◌∷◌, ◌++◌, Bool-cases,
  Result, ok, err, if_both,
}
use kb_retv_services.Prelude.Int.{ℤ}
use kb_retv_services.Prelude.Str.{Str, codes, str_eq, itoa, is_empty}
use kb_retv_services.Omni.{
  AttachmentRef, InboundAttachment, IntakeSignals, Completeness, InboundResult, channel_email,
}
use kb_retv_services.Omni.Services.{
  CaseLookupResult, ActivityEntry, Effect, touched, cleaned, promoted, promoted_bytes, recorded,
  backfilled, assess_queued, ticket_queued, Services,
}
use kb_retv_services.Omni.Accounts.{Resolved}
use kb_retv_services.Omni.Stored.{
  Stored, promote_refs, promote_mails, promote_attachments, record_if_set, write_backfill,
  with_case_lookup, case_looked_up, case_backfill, with_customer, email_hash, sender_looked_up,
  run_backfills,
}
use kb_retv_services.Omni.Intake.{
  Assessed, queued, inline, after_assess, assess_by, after_queue, is_async, assess_intake,
  after_ticket, wants_ticket, enqueue_ticket, record_assessed, record_ticket_failed, signals,
}
use kb_retv_services.Omni.Run.{followed_up, after_assessed, after_stored, base_result}

-- The effect is made for a company.
abbrev pub Concerns : ℤ → Effect → Type 0
Concerns c (touched a) = Unit
Concerns c (cleaned d v) = d ≡ c
Concerns c (promoted d v m r) = d ≡ c
Concerns c (promoted_bytes d v m id a) = d ≡ c
Concerns c (recorded e) = e.company_id ≡ c
Concerns c (backfilled d v x y source) = d ≡ c
Concerns c (assess_queued d v m x sig r) = d ≡ c
Concerns c (ticket_queued d v m x r) = d ≡ c

-- The calls after a message is stored keep a predicate.
pub record Keeps {W : Type 0} (s : Services W) (P : W → Type 0) (c : ℤ) : Type 0 where
  pub by_attempt : (w : W) (e : Effect) → Concerns c e → P w → P (s.attempt w e).1
  pub by_assess :
      (f : W → ℤ → ℤ → IntakeSignals → Result Str Completeness × W)
      → s.assess ≡ some f
      → (w : W) (v : ℤ) (sig : IntakeSignals) → P w
      → P (f w c v sig).1

module _ {W : Type 0} (s : Services W) (P : W → Type 0) where
  module _ (c : ℤ) (k : Keeps s P c) where
    promote_refs_keep :
        (v m : ℤ) (rs : List AttachmentRef) (w : W) → P w → P (promote_refs s c v m rs w)
    unfolding promote_refs
    promote_refs_keep v m [] w p = p
    promote_refs_keep v m (r ∷ rs) w p =
        promote_refs_keep v m rs _ (k.by_attempt w (promoted c v m r) refl p)

    promote_mails_keep :
        (v m : ℤ) (id : Str) (i : ℕ) (xs : List InboundAttachment) (w : W)
        → P w
        → P (promote_mails s c v m id i xs w)
    unfolding promote_mails
    promote_mails_keep v m id i [] w p = p
    promote_mails_keep v m id i (a ∷ xs) w p =
        promote_mails_keep v m id (suc i) xs _
          (k.by_attempt w (promoted_bytes c v m (id ++ codes "#" ++ itoa i) a) refl p)

    record_keep : (e : ActivityEntry) (w : W) → e.company_id ≡ c → P w → P (record_if_set s e w)
    record_keep e w same p = elim (Bool-cases s.has_activity) [
      | inl t ↦ simp t (k.by_attempt w (recorded e) same p)
      | inr f ↦ simp f p
    ]

    write_backfill_keep :
        (v : ℤ) (x y : Option ℤ) (source : Str) (w : W)
        → P w
        → P (write_backfill s c v x y source w).1
    unfolding write_backfill
    write_backfill_keep v none y source w p = p
    write_backfill_keep v (some x) y source w p = elim (Bool-cases s.has_backfill) [
      | inl t ↦ simp t (k.by_attempt w (backfilled c v (some x) y source) refl p)
      | inr f ↦ simp f p
    ]

    with_case_lookup_keep :
        (v : ℤ) (r : Result Str CaseLookupResult) (w : W) → P w → P (with_case_lookup s c v r w).1
    unfolding with_case_lookup
    with_case_lookup_keep v (err e) w p = p
    with_case_lookup_keep v (ok l) w p = write_backfill_keep v l.customer_id l.site_id _ w p

    case_keep :
        (v : ℤ) (code : Str) (o : Option (W → ℤ → Str → Result Str CaseLookupResult)) (w : W)
        → P w
        → P (case_looked_up s c v code o w).1
    unfolding case_looked_up
    case_keep v code none w p = p
    case_keep v code (some look) w p = elim (Bool-cases (is_empty code)) [
      | inl e ↦ rw e p
      | inr e ↦ rw e (with_case_lookup_keep v (look w c code) w p)
    ]

    with_customer_keep :
        (v : ℤ) (r : Result Str (Option ℤ)) (w : W) → P w → P (with_customer s c v r w)
    unfolding with_customer
    with_customer_keep v (err e) w p = p
    with_customer_keep v (ok x) w p = write_backfill_keep v x none _ w p

    sender_keep :
        (v : ℤ) (sender : Str) (o : Option (W → ℤ → Str → Result Str (Option ℤ))) (w : W)
        → P w
        → P (sender_looked_up s c v sender o w)
    unfolding sender_looked_up
    sender_keep v sender none w p = p
    sender_keep v sender (some look) w p =
        elim (Bool-cases (
          not s.has_backfill
          || is_empty s.app_key
          || is_empty sender
          || is_empty (email_hash s sender))) [
            | inl e ↦ rw e p
            | inr e ↦ rw e (with_customer_keep v (look w c (email_hash s sender)) w p)
          ]

  module _ (x : Stored) (k : Keeps s P x.account.company_id) where
    promote_keep : (w : W) → P w → P (promote_attachments s x w)
    unfolding promote_attachments
    promote_keep w p = if_both P (not s.has_media) p (
        if_both P _ (promote_refs_keep _ k _ _ x.request.attachments w p)
          (if_both P _ (promote_mails_keep _ k _ _ _ 0 x.normalized.attachments w p) p))

    backfills_keep : (w : W) → P w → P (run_backfills s x w)
    unfolding run_backfills
    backfills_keep w p =
        elim (Bool-cases
          (case_backfill s x.account.company_id x.conversation x.referenced_case w).0) [
            | inl e ↦ rw e (case_keep _ k x.conversation x.referenced_case s.case_by_code w p)
            | inr e ↦ rw e (
                sender_keep _ k x.conversation x.customer s.customer_by_email_hash _
                  (case_keep _ k x.conversation x.referenced_case s.case_by_code w p))
          ]

    followed_up_keep : (w : W) → P w → P (followed_up s x w)
    unfolding followed_up
    followed_up_keep w p = backfills_keep _ (record_keep _ k _ _ refl (promote_keep w p))

    after_assess_keep : (r : Result Str Completeness × W) → P r.1 → P (after_assess s x r).1
    unfolding after_assess record_assessed
    after_assess_keep (err e, w) p = p
    after_assess_keep (ok a, w) p = record_keep _ k _ w refl p

    assess_by_keep :
        (o : Option (W → ℤ → ℤ → IntakeSignals → Result Str Completeness × W))
        → s.assess ≡ o
        → (w : W) → P w
        → P (assess_by s x o w).1
    unfolding assess_by
    assess_by_keep none e w p = p
    assess_by_keep (some f) e w p =
        after_assess_keep _ (k.by_assess f e w x.conversation (signals x) p)

    after_queue_keep : (r : Option Str × W) → P r.1 → P (after_queue s x r).1
    unfolding after_queue
    after_queue_keep (none, w) p = p
    after_queue_keep (some e, w) p = assess_by_keep s.assess refl w p

    assess_intake_keep : (w : W) → P w → P (assess_intake s x w).1
    unfolding assess_intake
    assess_intake_keep w p =
        if_both (λ (y : Assessed × W). P y.1) (not (str_eq x.request.channel channel_email)) p
          (if_both (λ (y : Assessed × W). P y.1) (is_async s x)
            (after_queue_keep _ (
              k.by_attempt w
                (assess_queued x.account.company_id x.conversation x.message x.customer (signals x)
                  x.request)
                refl p))
            (assess_by_keep s.assess refl w p))

    after_ticket_keep : (r : Option Str × W) → P r.1 → P (after_ticket s x r).1
    unfolding after_ticket record_ticket_failed
    after_ticket_keep (none, w) p = p
    after_ticket_keep (some e, w) p = record_keep _ k _ w refl p

    enqueue_ticket_keep : (a : Option Completeness) (w : W) → P w → P (enqueue_ticket s x a w).1
    unfolding enqueue_ticket
    enqueue_ticket_keep a w p = elim (Bool-cases (wants_ticket s x a w)) [
      | inl e ↦ rw e (
          after_ticket_keep _ (
            k.by_attempt w
              (ticket_queued x.account.company_id x.conversation x.message x.customer x.request)
              refl p))
      | inr e ↦ rw e p
    ]

    after_assessed_keep :
        (r : InboundResult) (y : Assessed × W) → P y.1 → P (after_assessed s x r y).1
    unfolding after_assessed
    after_assessed_keep r (queued, w) p = p
    after_assessed_keep r (inline a, w) p = enqueue_ticket_keep a w p

    -- The steps after a message is stored keep what the calls for its company keep.
    pub after_stored_keep : (found : Resolved) (w : W) → P w → P (after_stored s x found w).1
    unfolding after_stored
    after_stored_keep found w p =
        after_assessed_keep (base_result s x found) _ (assess_intake_keep _ (followed_up_keep w p))
