-- ===== src/Omni/Run/Tickets.antt =====
-- About when a run enqueues a ticket.
use kb_retv_services.Prelude.{
  ◌≡◌, refl, ap, ◌∙◌, ◌≢◌, ◌⊎◌, inl, inr, Bool, true, false, not, ◌&&◌, ◌||◌, Option, none, some,
  if◌then◌else◌, Bool-cases, Result, ok, err, if_both,
}
use kb_retv_services.Prelude.Int.{ℤ}
use kb_retv_services.Prelude.Str.{Str, str_eq, eq_of_str_eq}
use kb_retv_services.Intake.Confidence.{confidence_promotable}
use kb_retv_services.Omni.{IntakeSignals, Completeness, channel_email, channel_line}
use kb_retv_services.Omni.Services.{Effect, ticket_queued, Services}
use kb_retv_services.Omni.Stored.{Stored}
use kb_retv_services.Omni.Intake.{
  Assessed, queued, inline, signals, after_assess, assess_by, after_queue, is_async, assess_intake,
  auto_create_off, is_promotable, wants_ticket, after_ticket, enqueue_ticket,
}

guards :
    (t c l e off bot p : Bool)
    → (if not t || not c
        then false
        else if e && off
        then false
        else if l && bot
        then false
        else if not l && not (e && p)
        then false
        else true)
      ≡ true
    → (c ≡ true) × (((l ≡ true) × (bot ≡ false)) ⊎ ((e ≡ true) × (off ≡ false) × (p ≡ true)))
guards false c l e off bot p h = absurd cc
guards true false l e off bot p h = absurd cc
guards true true true true true bot p h = absurd cc
guards true true false true true bot p h = absurd cc
guards true true true true false true p h = absurd cc
guards true true true true false false p h = (refl, inl (refl, refl))
guards true true true false off true p h = absurd cc
guards true true true false off false p h = (refl, inl (refl, refl))
guards true true false true false bot true h = (refl, inr (refl, refl, refl))
guards true true false true false bot false h = absurd cc
guards true true false false off bot p h = absurd cc

no_class : is_promotable none ≢ true
unfolding confidence_promotable
no_class h = cc

module _ {W : Type 0} (s : Services W) where
  module _ (x : Stored) where
    -- The assessor gave this assessment of the stored mail.
    abbrev pub GaveOf : Completeness → Type 0
    GaveOf c =
        (f : W → ℤ → ℤ → IntakeSignals → Result Str Completeness × W) × (u : W) × (s.assess
          ≡ some f)
        × ((f u x.account.company_id x.conversation (signals x)).0 ≡ ok c)

    -- A message of LINE, whose bot is off, or a mail whose assessment lets it be promoted.
    abbrev pub IsPromoted : W → Type 0
    IsPromoted u =
        ((x.request.channel ≡ channel_line) × (s.line_bot u x.account.company_id ≡ false))
        ⊎ ((x.request.channel ≡ channel_email)
            × ((c : Completeness) × GaveOf c
                × (c.auto_create_disabled ≡ false)
                × (confidence_promotable c.classification c.confidence c.promote_threshold ≡ true)))

    -- Why a ticket was enqueued for a stored message.
    abbrev pub IsDue : Type 0
    IsDue =
        (u : W) × (x.created ≡ true)
        × IsPromoted u
        × ((s.attempt u
              (ticket_queued x.account.company_id x.conversation x.message x.customer x.request)).0
            ≡ none)

    -- An assessment that a run goes on with was given.
    abbrev pub Gave : Assessed → Type 0
    Gave queued = Unit
    Gave (inline none) = Unit
    Gave (inline (some c)) = GaveOf c

    assess_by-Gave :
        (o : Option (W → ℤ → ℤ → IntakeSignals → Result Str Completeness × W))
        → s.assess ≡ o
        → (w : W) → Gave (assess_by s x o w).0
    unfolding assess_by after_assess
    assess_by-Gave none e w = tt
    assess_by-Gave (some f) e w = go (f w x.account.company_id x.conversation (signals x)) refl
      where
        go :
            (r : Result Str Completeness × W)
            → f w x.account.company_id x.conversation (signals x) ≡ r
            → Gave (after_assess s x r).0
        go (err e', w') is = tt
        go (ok c, w') is = (f, w, e, ap (λ p. p.0) is)

    after_queue-Gave : (r : Option Str × W) → Gave (after_queue s x r).0
    unfolding after_queue
    after_queue-Gave (none, w) = tt
    after_queue-Gave (some e, w) = assess_by-Gave s.assess refl w

    pub assess_intake-Gave : (w : W) → Gave (assess_intake s x w).0
    unfolding assess_intake
    assess_intake-Gave w =
        if_both (λ (y : Assessed × W). Gave y.0) (not (str_eq x.request.channel channel_email)) tt
          (if_both (λ (y : Assessed × W). Gave y.0) (is_async s x) (after_queue-Gave _)
            (assess_by-Gave s.assess refl w))

    IsPromoted-guards :
        (u : W) (l e : Bool) (a : Option Completeness)
        → str_eq x.request.channel channel_line ≡ l
        → str_eq x.request.channel channel_email ≡ e
        → Gave (inline a)
        → ((l ≡ true) × (s.line_bot u x.account.company_id ≡ false))
          ⊎ ((e ≡ true) × (auto_create_off a ≡ false) × (is_promotable a ≡ true))
        → IsPromoted u
    unfolding confidence_promotable
    IsPromoted-guards u l e a is_l is_e given (inl (t, off)) =
        inl (eq_of_str_eq _ channel_line (is_l ∙ t), off)
    IsPromoted-guards u l e none is_l is_e given (inr (t, off, may)) = absurd (no_class may)
    IsPromoted-guards u l e (some c) is_l is_e given (inr (t, off, may)) =
        inr (eq_of_str_eq _ channel_email (is_e ∙ t), (c, given, off, may))

    wants_ticket-IsPromoted :
        (a : Option Completeness) (u : W)
        → Gave (inline a)
        → wants_ticket s x a u ≡ true
        → (x.created ≡ true) × IsPromoted u
    unfolding wants_ticket
    wants_ticket-IsPromoted a u given h =
        let (made, why) =
          guards s.has_tickets x.created (str_eq x.request.channel channel_line)
            (str_eq x.request.channel channel_email) (auto_create_off a)
            (s.line_bot u x.account.company_id) (is_promotable a) h in
        (made, IsPromoted-guards u _ _ a refl refl given why)

    pub enqueue_ticket-IsDue :
        (a : Option Completeness) (u : W)
        → Gave (inline a)
        → ((enqueue_ticket s x a u).0 ≡ false) ⊎ IsDue
    unfolding enqueue_ticket after_ticket
    enqueue_ticket-IsDue a u given = elim (Bool-cases (wants_ticket s x a u)) [
      | inr e ↦ rw e (inl refl)
      | inl e ↦
          let (made, why) = wants_ticket-IsPromoted a u given e in
          rw e (answered made why (s.attempt u ticket) refl)
    ]
      where
        ticket : Effect
        ticket = ticket_queued x.account.company_id x.conversation x.message x.customer x.request

        answered :
            x.created ≡ true
            → IsPromoted u
            → (y : Option Str × W) → s.attempt u ticket ≡ y
            → ((after_ticket s x y).0 ≡ false) ⊎ IsDue
        answered made why (some e, w) is = inl refl
        answered made why (none, w) is = inr (u, made, why, ap (λ p. p.0) is)
