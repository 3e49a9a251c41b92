-- ===== src/Omni/Run/Redelivery.antt =====
-- About a message that is delivered twice.
use kb_retv_services.Prelude.{
  ℕ, ◌≡◌, refl, sym, ap, ◌∙◌, inl, inr, Bool, true, false, ◌&&◌, Option, none, some, List,
  Bool-cases, Result, ok, err, ok_inj, err_ne_ok, if_both,
}
use kb_retv_services.Prelude.Int.{ℤ, pos, leb_ℤ}
use kb_retv_services.Prelude.Str.{Str, trim_space, is_empty}
use mathlib.Core.Path.{subst}
use kb_retv_services.Prelude.Str.Trim.{trim_space_idem}
use kb_retv_services.Omni.{
  AttachmentRef, InboundRequest, Normalized, IntakeSignals, Completeness, InboundResult, no_result,
}
use kb_retv_services.Omni.Request.{
  Validation, normalize_request, with_body, checked, no_attachment, validate, validate_event,
}
use kb_retv_services.Omni.Services.{
  LookupError, RunError, no_company, NewConversation, StoredMessage, Verifier, Effect, touched,
  Services,
}
use kb_retv_services.Omni.Accounts.{Resolved, resolve_account}
use kb_retv_services.Omni.Threads.{upserted, resolve_with, resolve_conversation}
use kb_retv_services.Omni.Stored.{Stored}
use kb_retv_services.Omni.Intake.{Assessed, queued, inline}
use kb_retv_services.Omni.Run.{
  is_line_event, touch_inbound, touched_by, stored, inserted, conversed, deduplicated,
  find_existing, receive, event_result, in_context, account_resolved, account_key, checked_request,
  run, base_result, after_assessed, after_stored,
}
use kb_retv_services.Omni.Run.Frame.{Keeps, after_stored_keep}
use kb_retv_services.Omni.Run.Messages.{IsMessage, run-in_context}

-- A stored message is found under its external id, and no other call but the storing of messages
-- changes what is found.
pub record Remembers {W : Type 0} (s : Services W) : Type 0 where
  pub by_insert :
      (c : ℤ) (m : StoredMessage) (w : W) (id : ℤ) (w' : W)
      → s.find_message w c m.external_message_id ≡ ok none
      → s.insert_message w c m ≡ (ok id, w')
      → s.find_message w' c m.external_message_id ≡ ok (some (m.conversation_id, id))
  pub by_attempt :
      (w : W) (e : Effect) (c : ℤ) (k : Str)
      → s.find_message (s.attempt w e).1 c k ≡ s.find_message w c k
  pub by_upsert :
      (w : W) (n : NewConversation) (c : ℤ) (k : Str)
      → s.find_message (s.upsert_conversation w n).1 c k ≡ s.find_message w c k
  pub by_assess :
      (f : W → ℤ → ℤ → IntakeSignals → Result Str Completeness × W)
      → s.assess ≡ some f
      → (w : W) (d v : ℤ) (sig : IntakeSignals) (c : ℤ) (k : Str)
      → s.find_message (f w d v sig).1 c k ≡ s.find_message w c k

-- What a second delivery returns of the result of the first.
abbrev pub seen_again : InboundResult → InboundResult
seen_again res = record no_result {
  company_id = res.company_id;
  conversation_id = res.conversation_id;
  message_id = res.message_id;
  matched_via = res.matched_via;
  matched_address = res.matched_address;
}

trimmed_id : (x y : Str) → y ≡ trim_space (trim_space x) → trim_space y ≡ y
trimmed_id x y e = ap trim_space e ∙ trim_space_idem (trim_space x) ∙ sym e

module _ (v : Validation) where
  checked_id :
      (r r' : InboundRequest) (e : Option Str)
      → checked v r e ≡ ok r'
      → r'.external_message_id ≡ r.external_message_id
  checked_id r r' (some e) h = absurd cc
  checked_id r r' none h = ap (λ (x : InboundRequest). x.external_message_id) (sym (ok_inj h))

  with_body_id :
      (b : Bool) (r r' : InboundRequest) (rs : Result Str (List AttachmentRef))
      → with_body v b r rs ≡ ok r'
      → r'.external_message_id ≡ r.external_message_id
  with_body_id b r r' (err e) h = absurd cc
  with_body_id b r r' (ok rs) h =
      elim (Bool-cases (b && is_empty (trim_space r.body) && no_attachment v rs)) [
        | inl e ↦ absurd (err_ne_ok (rw e at h))
        | inr e ↦ checked_id (record r { attachments = rs }) r' _ (rw e at h)
      ]

  module _ {W : Type 0} (s : Services W) where
    -- The external id of a request that was admitted has no white space around it.
    checked_request_id :
        (n : Normalized) (r : InboundRequest)
        → checked_request s v n ≡ ok r
        → trim_space r.external_message_id ≡ r.external_message_id
    unfolding checked_request validate validate_event
    checked_request_id n r h = elim (Bool-cases (is_line_event n)) [
      | inl e ↦
          trimmed_id n.request.external_message_id _
            (with_body_id false (normalize_request (normalize_request n.request)) r _ (rw e at h))
      | inr e ↦
          trimmed_id n.request.external_message_id _
            (with_body_id true (normalize_request (normalize_request n.request)) r _ (rw e at h))
    ]

module _ {W : Type 0} (s : Services W) (m : Remembers s) (c : ℤ) (k : Str) (v id : ℤ) where
  abbrev Found : W → Type 0
  Found w = s.find_message w c k ≡ ok (some (v, id))

  Found-Keeps : (d : ℤ) → Keeps s Found d
  Found-Keeps d = record {
    by_attempt = λ w e for p. m.by_attempt w e c k ∙ p;
    by_assess = λ f is w u sig p. m.by_assess f is w d u sig c k ∙ p;
  }

module _ {W : Type 0} (s : Services W) where
  after_assessed-again :
      (x : Stored) (r res : InboundResult) (y : Assessed × W) (w' : W)
      → after_assessed s x r y ≡ (ok res, w')
      → seen_again res ≡ seen_again r
  unfolding after_assessed
  after_assessed-again x r res (queued, w) w' h = ap seen_again (sym (ok_inj (ap (λ p. p.0) h)))
  after_assessed-again x r res (inline none, w) w' h =
      ap seen_again (sym (ok_inj (ap (λ p. p.0) h)))
  after_assessed-again x r res (inline (some a), w) w' h =
      ap seen_again (sym (ok_inj (ap (λ p. p.0) h)))

  module _ (m : Remembers s) (n : Normalized) (customer : Str) (r : InboundRequest)
      (found : Resolved) (res : InboundResult) (w' : W) (raw raw' : List ℕ) where
    abbrev c : ℤ
    c = found.account.company_id

    abbrev Again : Type 0
    Again =
        deduplicated s n raw' customer r found (s.find_message w' c r.external_message_id) w'
        ≡ (ok (seen_again res), w')

    -- The message is there, and its result is that of the first delivery.
    again_at :
        (v id : ℤ)
        → s.find_message w' c r.external_message_id ≡ ok (some (v, id))
        → seen_again res
          ≡ record (event_result s n raw customer r found) { conversation_id = v; message_id = id }
        → Again
    unfolding deduplicated
    again_at v id e same = rw e (ap (λ x. (ok x, w')) (sym same))

    inserted_again :
        (at : ℤ × Bool × Bool) (a : Result Str ℤ × W)
        → ((id : ℤ) (w : W) → a ≡ (ok id, w) → Found s m c r.external_message_id (at.0) id w)
        → inserted s n raw customer r found at a ≡ (ok res, w')
        → Again
    unfolding inserted after_stored
    inserted_again (v, created, threaded) (err e, w) there h = absurd (err_ne_ok (ap (λ p. p.0) h))
    inserted_again (v, created, threaded) (ok id, w) there h =
        again_at v id kept (after_assessed-again x (base_result s x found) res _ w' h)
      where
        x : Stored
        x = stored s n raw customer r found (v, created, threaded) id

        kept : Found s m c r.external_message_id v id w'
        kept =
            subst (λ u. Found s m c r.external_message_id v id u) (ap (λ p. p.1) h)
              (after_stored_keep s (Found s m c r.external_message_id v id) x
                (Found-Keeps s m c r.external_message_id v id c) found w (there id w refl))

    abbrev Unseen : W → Type 0
    Unseen w = s.find_message w c r.external_message_id ≡ ok none

    touched-Unseen :
        (v : Option (Verifier W)) (id : ℤ) (w : W) → Unseen w → Unseen (touched_by s v id w)
    touched-Unseen none id w p = p
    touched-Unseen (some v) id w p =
        if_both Unseen (leb_ℤ id (pos 0)) p
          (m.by_attempt w (touched id) c r.external_message_id ∙ p)

    conversed_again :
        (a : Result RunError (ℤ × Bool × Bool) × W)
        → Unseen a.1
        → conversed s n raw customer r found a ≡ (ok res, w')
        → Again
    unfolding conversed
    conversed_again (err e, w) p h = absurd (err_ne_ok (ap (λ p. p.0) h))
    conversed_again (ok (v, created, threaded), w) p h =
        inserted_again (v, created, threaded)
          (s.insert_message (touch_inbound s found.account.id w) c message)
          (λ id u is.
            m.by_insert c message _ id u (touched-Unseen s.verifier found.account.id w p) is)
          h
      where
        message : StoredMessage
        message = record {
          conversation_id = v;
          external_message_id = r.external_message_id;
          sender_external = customer;
          body = r.body;
          raw_payload = raw;
          attachments = r.attachments;
        }

    upserted-Unseen : (a : Result Str (ℤ × Bool) × W) → Unseen a.1 → Unseen (upserted s a).1
    unfolding upserted
    upserted-Unseen (err e, w) p = p
    upserted-Unseen (ok (v, created), w) p = p

    resolved-Unseen :
        (t : Option ℤ) (k : NewConversation) (w : W) → Unseen w → Unseen (resolve_with s t k w).1
    unfolding resolve_with
    resolved-Unseen (some v) k w p = p
    resolved-Unseen none k w p = upserted-Unseen _ (m.by_upsert w k c r.external_message_id ∙ p)

    deduplicated_again :
        (a : Result Str (Option (ℤ × ℤ))) (w : W)
        → s.find_message w c r.external_message_id ≡ a
        → deduplicated s n raw customer r found a w ≡ (ok res, w')
        → Again
    unfolding deduplicated resolve_conversation
    deduplicated_again (err e) w is h = absurd (err_ne_ok (ap (λ p. p.0) h))
    deduplicated_again (ok (some (v, id))) w is h =
        again_at v id (subst (λ u. Found s m c r.external_message_id v id u) (ap (λ p. p.1) h) is)
          (ap seen_again (sym (ok_inj (ap (λ p. p.0) h))))
    deduplicated_again (ok none) w is h = conversed_again _ (resolved-Unseen _ _ w is) h

    module _ (trimmed : trim_space r.external_message_id ≡ r.external_message_id)
        (there : is_empty r.external_message_id ≡ false) (message : is_line_event n ≡ false) where
      find_existing-find_message :
          (raw : List ℕ) (w : W)
          → find_existing s n raw customer r found w ≡ s.find_message w c r.external_message_id
      unfolding find_existing
      find_existing-find_message raw w = rw (trimmed, there) refl

      receive_message :
          (raw : List ℕ) (w : W)
          → leb_ℤ c (pos 0) ≡ false
          → receive s n raw customer r found w
            ≡ deduplicated s n raw customer r found (s.find_message w c r.external_message_id) w
      unfolding receive
      receive_message raw w e =
          rw (e, message)
            (ap (λ a. deduplicated s n raw customer r found a w) (find_existing-find_message raw w))

      no_company_fails :
          (w : W)
          → leb_ℤ c (pos 0) ≡ true
          → receive s n raw customer r found w ≡ (err no_company, w)
      unfolding receive
      no_company_fails w e = rw e refl

      receive_again :
          (w : W)
          → receive s n raw customer r found w ≡ (ok res, w')
          → receive s n raw' customer r found w' ≡ (ok (seen_again res), w')
      receive_again w h = elim (Bool-cases (leb_ℤ c (pos 0))) [
        | inl e ↦ absurd (err_ne_ok (ap (λ p. p.0) (sym (no_company_fails w e) ∙ h)))
        | inr e ↦
            receive_message raw' w' e
            ∙ deduplicated_again (s.find_message w c r.external_message_id) w refl
                (sym (receive_message raw w e) ∙ h)
      ]

  account_again :
      (m : Remembers s) (n : Normalized) (r : InboundRequest) (res : InboundResult) (w w' : W)
      (raw raw' : List ℕ) (a : Result LookupError Resolved)
      → trim_space r.external_message_id ≡ r.external_message_id
      → is_empty r.external_message_id ≡ false
      → is_line_event n ≡ false
      → account_resolved s n raw (trim_space n.external_sender) r a w ≡ (ok res, w')
      → account_resolved s n raw' (trim_space n.external_sender) r a w' ≡ (ok (seen_again res), w')
  unfolding account_resolved
  account_again m n r res w w' raw raw' (err e) trimmed there message h =
      absurd (err_ne_ok (ap (λ p. p.0) h))
  account_again m n r res w w' raw raw' (ok found) trimmed there message h =
      receive_again m n _ r found res w' raw raw' trimmed there message w h

-- A message that was received is received only once: where its account is still the same, a second
-- delivery changes nothing at all, and answers with the conversation and the message of the first.
pub run-again :
    {W : Type 0} (s : Services W)
    → Remembers s
    → (v : Validation) (n : Normalized) (r : InboundRequest) (res : InboundResult) (w w' : W)
      (raw raw' : List ℕ)
    → checked_request s v n ≡ ok r
    → IsMessage s n r
    → is_line_event n ≡ false
    → is_empty r.external_message_id ≡ false
    → resolve_account s w' r.channel (account_key s n) n
      ≡ resolve_account s w r.channel (account_key s n) n
    → run s v none n raw w ≡ (ok res, w')
    → run s v none n raw' w' ≡ (ok (seen_again res), w')
unfolding in_context
run-again s m v n r res w w' raw raw' valid is message there steady h =
    run-in_context s v n r raw' w' valid is
    ∙ ap (λ a. account_resolved s n raw' (trim_space n.external_sender) r a w') steady
    ∙ account_again s m n r res w w' raw raw' (resolve_account s w r.channel (account_key s n) n)
        (checked_request_id v s n r valid) there message
        (sym (run-in_context s v n r raw w valid is) ∙ h)
