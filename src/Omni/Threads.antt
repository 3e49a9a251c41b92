-- ===== src/Omni/Threads.antt =====
-- The conversation that a message goes to: `resolveConversation` of
-- internal/application/workflows/omnichannel/workflow.go.
use kb_retv_services.Prelude.{
  Bool, true, false, not, Option, none, some, List, [], ◌∷◌, map, keep, Result, ok, err,
}
use kb_retv_services.Prelude.Int.{ℤ}
use kb_retv_services.Prelude.Str.{Str, str_eq, trim_space, is_empty}
use kb_retv_services.Omni.{InboundRequest, Normalized, ChannelAccount, channel_email}
use kb_retv_services.Omni.Services.{conversation_failed, RunError, NewConversation, Services}

-- `threadReferences`.
unfoldable pub thread_references : Normalized → List Str
unfolding trim_space
thread_references n = keep (λ r. not (is_empty r)) (map trim_space (n.in_reply_to ∷ n.references))

module _ {W : Type 0} (s : Services W) where
  abbrev on_thread : Result Str (Option (ℤ × ℤ)) → Option ℤ → Option ℤ
  on_thread (ok (some (v, m))) rest = some v
  on_thread _ rest = rest

  -- `resolveThreadConversation`.
  unfoldable pub thread_conversation : ℤ → List Str → W → Option ℤ
  thread_conversation c [] w = none
  thread_conversation c (r ∷ rs) w = on_thread (s.find_message w c r) (thread_conversation c rs w)

  unfoldable pub upserted : Result Str (ℤ × Bool) × W → Result RunError (ℤ × Bool × Bool) × W
  upserted (err e, w) = (err (conversation_failed e), w)
  upserted (ok (v, created), w) = (ok (v, created, false), w)

  unfoldable pub resolve_with :
      Option ℤ → NewConversation → W → Result RunError (ℤ × Bool × Bool) × W
  unfolding upserted
  resolve_with (some v) c w = (ok (v, false, true), w)
  resolve_with none c w = upserted (s.upsert_conversation w c)

  -- `resolveConversation`: the conversation, whether it was created, and whether by a thread.
  unfoldable pub resolve_conversation :
      Normalized → ChannelAccount → Str → InboundRequest → W → Result RunError (ℤ × Bool × Bool) × W
  unfolding resolve_with thread_conversation thread_references str_eq
  resolve_conversation n a customer r w =
      resolve_with (thread_conversation a.company_id (thread_references n) w)
        (record {
          company_id = a.company_id;
          channel_account_id = a.id;
          external_customer = customer;
          subject = r.subject;
          force_new = str_eq r.channel channel_email;
        })
        w
