-- ===== src/Omni/Run/Outcomes.antt =====
-- About the tickets of all outcomes of a run.
use kb_retv_services.Prelude.{
  ℕ, ◌≡◌, refl, sym, ap, ◌∙◌, ◌⊎◌, inl, inr, Bool, true, false, Option, none, some, List, [], ◌∷◌,
  if◌then◌else◌, Result, ok, err, if_both,
}
use kb_retv_services.Prelude.Int.{ℤ, pos, leb_ℤ}
use kb_retv_services.Prelude.Str.{Str, str_eq, trim_space, is_empty}
use mathlib.Core.Path.{subst}
use mathlib.Core.Bool.{true≢false}
use kb_retv_services.Omni.{InboundRequest, Normalized, ChannelAccount, InboundResult, channel_email}
use kb_retv_services.Omni.Request.{Validation}
use kb_retv_services.Omni.Services.{
  LookupError, RunError, no_company, sender_required, NewConversation, StoredMessage, Verifier,
  Services,
}
use kb_retv_services.Omni.Accounts.{Resolved, resolve_account}
use kb_retv_services.Omni.Verify.{
  verified_by, verify_with, try_verify, or_later, store_confirm, confirm_with, try_forward_confirm,
}
use kb_retv_services.Omni.Control.{verification_code}
use kb_retv_services.Omni.Threads.{upserted, resolve_with, resolve_conversation}
use kb_retv_services.Omni.Stored.{Stored}
use kb_retv_services.Omni.Intake.{Assessed, queued, inline, assess_intake}
use kb_retv_services.Omni.Run.{
  Answer, is_line_event, stored, inserted, conversed, deduplicated, find_existing, receive,
  event_result, in_context, account_resolved, account_key, admitted, unconfirmed, unverified,
  validated, checked_request, run, base_result, after_assessed, after_stored, followed_up,
}
use kb_retv_services.Omni.Run.Tickets.{IsDue, Gave, enqueue_ticket-IsDue, assess_intake-Gave}

module _ {W : Type 0} (s : Services W) where
  -- The conversation was created for the company of the message.
  abbrev pub WasCreated : ℤ → ℤ → Type 0
  WasCreated company v =
      (u : W) × (c : NewConversation) × (c.company_id ≡ company)
      × ((s.upsert_conversation u c).0 ≡ ok (v, true))

  -- The message was stored in its conversation, for its company and under its external id.
  abbrev pub WasStored : Stored → Type 0
  WasStored x =
      (u : W) × (m : StoredMessage) × (m.conversation_id ≡ x.conversation)
      × (m.external_message_id ≡ x.request.external_message_id)
      × ((s.insert_message u x.account.company_id m).0 ≡ ok x.message)

  module _ (req : Result Str InboundRequest) where
    -- The message was stored by a run of the request, and its conversation created, if it says so.
    abbrev Made : Stored → Type 0
    Made x =
        (req ≡ ok x.request)
        × (x.created ≡ true → WasCreated x.account.company_id x.conversation)
        × WasStored x

    -- What a run returns has no ticket, or one that is due.
    abbrev Sound : Answer W → Type 0
    Sound (err e, w) = Unit
    Sound (ok res, w) =
        (res.ticket_enqueued ≡ false)
        ⊎ ((x : Stored) × IsDue s x
            × Made x
            × (res.message_id ≡ x.message)
            × (res.conversation_id ≡ x.conversation)
            × (res.company_id ≡ x.account.company_id))

    after_assessed-Sound :
        (x : Stored) (found : Resolved) (y : Assessed × W)
        → Made x
        → Gave s x y.0
        → Sound (after_assessed s x (base_result s x found) y)
    unfolding after_assessed
    after_assessed-Sound x found (queued, w) made given = inl refl
    after_assessed-Sound x found (inline none, w) made given =
        elim (enqueue_ticket-IsDue s x none w given) [
          | inl none_sent ↦ inl none_sent
          | inr due ↦ inr (x, due, made, refl, refl, refl)
        ]
    after_assessed-Sound x found (inline (some a), w) made given =
        elim (enqueue_ticket-IsDue s x (some a) w given) [
          | inl none_sent ↦ inl none_sent
          | inr due ↦ inr (x, due, made, refl, refl, refl)
        ]

    after_stored-Sound :
        (x : Stored) (found : Resolved) (w : W) → Made x → Sound (after_stored s x found w)
    unfolding after_stored
    after_stored-Sound x found w made =
        after_assessed-Sound x found (assess_intake s x (followed_up s x w)) made
          (assess_intake-Gave s x (followed_up s x w))

  -- A conversation that is said to be created was.
  abbrev IsOrigin : ℤ → Result RunError (ℤ × Bool × Bool) × W → Type 0
  IsOrigin company (err e, w) = Unit
  IsOrigin company (ok (v, created, threaded), w) = created ≡ true → WasCreated company v

  upserted-IsOrigin :
      (u : W) (c : NewConversation) (y : Result Str (ℤ × Bool) × W)
      → (s.upsert_conversation u c).0 ≡ y.0
      → IsOrigin c.company_id (upserted s y)
  unfolding upserted
  upserted-IsOrigin u c (err e, w) is = tt
  upserted-IsOrigin u c (ok (v, created), w) is = λ new. (u, c, refl, is ∙ ap (λ b. ok (v, b)) new)

  resolve_with-IsOrigin :
      (t : Option ℤ) (c : NewConversation) (w : W) → IsOrigin c.company_id (resolve_with s t c w)
  unfolding resolve_with
  resolve_with-IsOrigin (some v) c w = λ new. absurd cc
  resolve_with-IsOrigin none c w = upserted-IsOrigin w c (s.upsert_conversation w c) refl

  module _ (n : Normalized) (raw : List ℕ) (customer : Str) (r : InboundRequest)
      (found : Resolved) where
    inserted-Sound :
        (v : ℤ) (created threaded : Bool) (u : W) (x : StoredMessage) (m : Result Str ℤ × W)
        → (created ≡ true → WasCreated found.account.company_id v)
        → x.conversation_id ≡ v
        → x.external_message_id ≡ r.external_message_id
        → (s.insert_message u found.account.company_id x).0 ≡ m.0
        → Sound (ok r) (inserted s n raw customer r found (v, created, threaded) m)
    unfolding inserted
    inserted-Sound v created threaded u x (err e, w) new at named is = tt
    inserted-Sound v created threaded u x (ok m, w) new at named is =
        after_stored-Sound (ok r) (stored s n raw customer r found (v, created, threaded) m) found w
          (refl, new, (u, x, at, named, is))

    conversed-Sound :
        (m : Result RunError (ℤ × Bool × Bool) × W)
        → IsOrigin found.account.company_id m
        → Sound (ok r) (conversed s n raw customer r found m)
    unfolding conversed
    conversed-Sound (err e, w) origin = tt
    conversed-Sound (ok (v, created, threaded), w) origin =
        inserted-Sound v created threaded _ _ _ origin refl refl refl

    deduplicated-Sound :
        (m : Result Str (Option (ℤ × ℤ))) (w : W)
        → Sound (ok r) (deduplicated s n raw customer r found m w)
    unfolding deduplicated resolve_conversation
    deduplicated-Sound (err e) w = tt
    deduplicated-Sound (ok (some (v, m))) w = inl refl
    deduplicated-Sound (ok none) w = conversed-Sound _ (resolve_with-IsOrigin _ _ w)

    receive-Sound : (w : W) → Sound (ok r) (receive s n raw customer r found w)
    unfolding receive
    receive-Sound w =
        if_both (Sound (ok r)) (leb_ℤ found.account.company_id (pos 0)) {x = (err no_company, w)} tt
          (if_both (Sound (ok r)) (is_line_event n)
            {x = (ok (event_result s n raw customer r found), w)} (inl refl)
            (deduplicated-Sound (find_existing s n raw customer r found w) w))

  account_resolved-Sound :
      (n : Normalized) (raw : List ℕ) (customer : Str) (r : InboundRequest)
      (a : Result LookupError Resolved) (w : W)
      → Sound (ok r) (account_resolved s n raw customer r a w)
  unfolding account_resolved
  account_resolved-Sound n raw customer r (err e) w = tt
  account_resolved-Sound n raw customer r (ok found) w = receive-Sound n raw customer r found w

  in_context-Sound :
      (c : Option Str) (n : Normalized) (raw : List ℕ) (r : InboundRequest) (w : W)
      → Sound (ok r) (in_context s c n raw r w)
  unfolding in_context
  in_context-Sound (some e) n raw r w = tt
  in_context-Sound none n raw r w =
      account_resolved-Sound n raw (trim_space n.external_sender) r
        (resolve_account s w r.channel (account_key s n) n) w

  admitted-Sound :
      (c : Option Str) (n : Normalized) (raw : List ℕ) (r : InboundRequest) (w : W)
      → Sound (ok r) (admitted s c n raw r w)
  unfolding admitted
  admitted-Sound c n raw r w =
      if_both (Sound (ok r)) (is_empty (trim_space n.external_sender))
        {x = (err sender_required, w)} tt (in_context-Sound c n raw r w)

  -- A mail that verifies a mailbox has no ticket.
  abbrev NoTicket : Option InboundResult × W → Type 0
  NoTicket (some res, w) = res.ticket_enqueued ≡ false
  NoTicket (none, w) = Unit

  verify_with-NoTicket :
      (v : Option (Verifier W)) (code : Option Str) (w : W) → NoTicket (verify_with s v code w)
  unfolding verify_with verified_by
  verify_with-NoTicket none code w = tt
  verify_with-NoTicket (some v) none w = tt
  verify_with-NoTicket (some v) (some code) w = go (v.mark_verified w code)
    where
      go : (y : Result LookupError ChannelAccount × W) → NoTicket (verified_by s y)
      go (ok a, w) = refl
      go (err e, w) = tt

  or_later-ticket :
      (a : Result LookupError ChannelAccount × W) (y : InboundResult × W)
      → y.0.ticket_enqueued ≡ false
      → (or_later s a y).0.ticket_enqueued ≡ false
  or_later-ticket (ok a, w') y h = refl
  or_later-ticket (err e, w') y h = h

  store_confirm-ticket :
      (v : Verifier W) (code link : Str) (keys : List Str) (w : W)
      → (store_confirm s v code link keys w).0.ticket_enqueued ≡ false
  unfolding store_confirm
  store_confirm-ticket v code link [] w = refl
  store_confirm-ticket v code link (k ∷ ks) w =
      let answer = v.store_forward_confirm w (trim_space k) code link in
      let later =
        store_confirm-ticket v code link ks (if is_empty (trim_space k) then w else answer.1) in
      if_both (λ (y : InboundResult × W). y.0.ticket_enqueued ≡ false) (is_empty (trim_space k))
        later (or_later-ticket answer _ later)

  confirm_with-NoTicket :
      (v : Option (Verifier W)) (found : Option (Str × Str)) (keys : List Str) (w : W)
      → NoTicket (confirm_with s v found keys w)
  unfolding confirm_with
  confirm_with-NoTicket none found keys w = tt
  confirm_with-NoTicket (some v) none keys w = tt
  confirm_with-NoTicket (some v) (some (code, link)) keys w =
      store_confirm-ticket v code link keys w

  module _ (c : Option Str) (n : Normalized) (raw : List ℕ) (r : InboundRequest) where
    unconfirmed-Sound :
        (m : Option InboundResult × W) → NoTicket m → Sound (ok r) (unconfirmed s c n raw r m)
    unfolding unconfirmed
    unconfirmed-Sound (some res, w) p = inl p
    unconfirmed-Sound (none, w) p = admitted-Sound c n raw r w

    unverified-Sound :
        (m : Option InboundResult × W) → NoTicket m → Sound (ok r) (unverified s c n raw r m)
    unfolding unverified try_forward_confirm
    unverified-Sound (some res, w) p = inl p
    unverified-Sound (none, w) p =
        unconfirmed-Sound _ (confirm_with-NoTicket s.verifier _ n.routing_keys w)

  validated-Sound :
      (c : Option Str) (n : Normalized) (raw : List ℕ) (r : Result Str InboundRequest) (w : W)
      → Sound r (validated s c n raw r w)
  unfolding validated try_verify
  validated-Sound c n raw (err e) w = tt
  validated-Sound c n raw (ok r) w =
      if_both (Sound (ok r)) (str_eq r.channel channel_email)
        (unverified-Sound c n raw r _
          (verify_with-NoTicket s.verifier (verification_code r.subject) w))
        (admitted-Sound c n raw r w)

-- A run reports a ticket only for the message of the request that it stored itself, in a
-- conversation
-- that the same company's call created anew: a message of LINE, where the bot of the company is
-- off,
-- or a mail that the assessor found promotable and did not exclude; and only after the queue
-- took the
-- ticket. The message, the conversation and the company are those that the run reports.
pub run-IsDue :
    {W : Type 0} (s : Services W) (v : Validation) (ctx_err : Option Str) (n : Normalized)
    (raw : List ℕ) (w w' : W) (res : InboundResult)
    → run s v ctx_err n raw w ≡ (ok res, w')
    → res.ticket_enqueued ≡ true
    → (x : Stored) × IsDue s x
      × (checked_request s v n ≡ ok x.request)
      × WasCreated s x.account.company_id x.conversation
      × WasStored s x
      × (res.message_id ≡ x.message)
      × (res.conversation_id ≡ x.conversation)
      × (res.company_id ≡ x.account.company_id)
unfolding run
run-IsDue s v ctx_err n raw w w' res h sent =
    let checked = checked_request s v n in
    elim (subst (Sound s checked) h (validated-Sound s ctx_err n raw checked w)) [
      | inl unsent ↦ absurd (true≢false (sym sent ∙ unsent))
      | inr (x, due, (is, new, kept), message, conversation, company) ↦
          (x, due, is, new due.1, kept, message, conversation, company)
    ]
