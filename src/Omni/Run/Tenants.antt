-- ===== src/Omni/Run/Tenants.antt =====
-- About whose data a run changes.
use kb_retv_services.Prelude.{ℕ, ◌≡◌, ◌≢◌, ◌⊎◌, Option, none, some, List, if◌then◌else◌, Result, ok}
use kb_retv_services.Prelude.Int.{ℤ}
use kb_retv_services.Prelude.Str.{Str, str_eq}
use kb_retv_services.Omni.{
  InboundRequest, Normalized, IntakeSignals, Completeness, InboundResult, channel_email,
}
use kb_retv_services.Omni.Services.{NewConversation, StoredMessage, Verifier, Effect, Services}
use kb_retv_services.Omni.Accounts.{Resolved, resolve_account}
use kb_retv_services.Omni.Verify.{try_verify, try_forward_confirm}
use kb_retv_services.Omni.Control.{verification_code, forward_confirmation}
use kb_retv_services.Omni.Run.{Answer, account_key}
use kb_retv_services.Omni.Run.Frame.{Concerns}

-- What is stored for a company is changed only by calls for that company. The time of the last
-- message of an account is not counted as stored for it. Nothing is asked of the calls that
-- verify a
-- mailbox.
pub record Separates {W V : Type 0} (s : Services W) (view : W → ℤ → V) : Type 0 where
  pub by_attempt :
      (c d : ℤ) → c ≢ d → (w : W) (e : Effect) → Concerns c e → view (s.attempt w e).1 d ≡ view w d
  pub by_assess :
      (f : W → ℤ → ℤ → IntakeSignals → Result Str Completeness × W)
      → s.assess ≡ some f
      → (c d : ℤ) → c ≢ d
      → (w : W) (v : ℤ) (sig : IntakeSignals) → view (f w c v sig).1 d ≡ view w d
  pub by_upsert :
      (d : ℤ) (w : W) (c : NewConversation)
      → c.company_id ≢ d
      → view (s.upsert_conversation w c).1 d ≡ view w d
  pub by_insert :
      (c d : ℤ) → c ≢ d → (w : W) (m : StoredMessage) → view (s.insert_message w c m).1 d ≡ view w d

-- The state in which the account of a message is looked up, or the run ends before that: a mail is
-- first taken for one of the mails that verify a mailbox.
abbrev pub after_verify : {W : Type 0} → Services W → Normalized → Option InboundResult × W → W
unfolding try_forward_confirm
after_verify s n (some res, w) = w
after_verify s n (none, w) = (try_forward_confirm s n w).1

abbrev pub at_lookup : {W : Type 0} → Services W → Normalized → InboundRequest → W → W
unfolding str_eq try_verify try_forward_confirm
at_lookup s n r w =
    if str_eq r.channel channel_email then after_verify s n (try_verify s r.subject w) else w

-- There is a verifier, and the message is a mail that carries a verification code or the
-- confirmation
-- of a forwarding.
abbrev pub IsControl : {W : Type 0} → Services W → Normalized → InboundRequest → Type 0
IsControl {W} s n r =
    (r.channel ≡ channel_email)
    × ((v : Verifier W) × (s.verifier ≡ some v))
    × (((code : Str) × (verification_code r.subject ≡ some code))
        ⊎ ((found : Str × Str) × (forward_confirmation n.external_sender n.request.subject
                n.request.body
              ≡ some found)))

module _ {W V : Type 0} (s : Services W) (view : W → ℤ → V) (sep : Separates s view) (d : ℤ)
    (v0 : V) where
  -- What is stored for the company `d` is `v0`.
  abbrev Same : W → Type 0
  Same w = view w d ≡ v0

  -- The account of the message was found to belong to the company `d`.
  abbrev Owned : Normalized → InboundRequest → W → Type 0
  Owned n r w =
      (found : Resolved) × (resolve_account s w r.channel (account_key s n) n ≡ ok found)
      × (found.account.company_id ≡ d)

-- What is stored for the company is what it was, or the account of the message belongs to it.
abbrev pub IsSpared :
    {W V : Type 0}
    → Services W
    → (W → ℤ → V)
    → ℤ
    → Normalized
    → InboundRequest
    → W
    → Answer W
    → Type 0
IsSpared s view d n r u a =
    (view a.1 d ≡ view u d)
    ⊎ ((found : Resolved) × (resolve_account s u r.channel (account_key s n) n ≡ ok found)
        × (found.account.company_id ≡ d))

module _ {W V : Type 0} (s : Services W) (view : W → ℤ → V) (sep : Separates s view) (d : ℤ)
    (ctx_err : Option Str) (n : Normalized) (raw : List ℕ) (r : InboundRequest) where
  abbrev Spared : W → Answer W → Type 0
  Spared u a = IsSpared s view d n r u a
