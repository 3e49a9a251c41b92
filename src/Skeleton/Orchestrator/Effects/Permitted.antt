-- ===== src/Skeleton/Orchestrator/Effects/Permitted.antt =====
-- About the permissions of the users for whom handlers run.
use kb_retv_services.Prelude.{
  ◌≡◌, refl, inl, inr, true, Option, none, some, List, [], ◌∷◌, Bool-cases, All, All-append, Result,
  ok, err,
}
use kb_retv_services.Prelude.Str.{Str}
use kb_retv_services.Prelude.Dict.{Dict, find}
use kb_retv_services.Perms.{can}
use kb_retv_services.Tools.{Tool, is_write}
use kb_retv_services.Tools.Params.{ParamSources}
use kb_retv_services.Tools.Selector.{Scores, ToolVectors, select}
use kb_retv_services.Tools.Selector.Cascade.{ModelTool, as_pick, cascade, model_select}
use kb_retv_services.Tools.Selector.Permitted.{
  IsVisible, IsListed, IsAllowed, IsKnown, select-IsVisible, cascade-IsAllowed,
  model_select-IsAllowed,
}
use kb_retv_services.Skeleton.Pending.{Actor, PendingStore, put_pending}
use kb_retv_services.Skeleton.Response.{Response, Selection}
use kb_retv_services.Skeleton.Orchestrator.{
  Handler, Effect, audited, ran, Orchestrator, run_handler, resolved, audit_action, after_audit,
  execute_found, execute_handler, execute_tool, execute_selection, handle,
}
use kb_retv_services.Skeleton.Orchestrator.Effects.{query_of, effects-run_handler, effects-proposed}

-- A handler runs for a user who has the permission that its tool requires.
abbrev pub IsPermitted : Actor → Effect → Type 0
IsPermitted actor (audited action a id) = Unit
IsPermitted actor (ran q) = (q.actor ≡ actor) × (can actor.perms q.tool.requires_permission ≡ true)

module _ {Score : Type 0} (zero_score : Score) (o : Orchestrator) (actor : Actor) (tool : Tool)
    (may : can actor.perms tool.requires_permission ≡ true) where
  run_handler-IsPermitted :
      (handler : Handler) (msg : Str) (sel : Selection Score) (resp : Response Score)
      (store : Option PendingStore) (es : List Effect)
      → All (IsPermitted actor) es
      → All
          (IsPermitted actor)
          (run_handler zero_score o tool handler actor msg sel resp store es).effects
  run_handler-IsPermitted handler msg sel resp store es h =
      elim (effects-run_handler zero_score o tool handler actor msg sel resp store es) [
        | inl same ↦ rw same h
        | inr more ↦ rw more (
            All-append (IsPermitted actor) es
              (ran (query_of zero_score o tool actor msg sel.params) ∷ []) h ((refl, may), tt))
      ]

  after_audit-IsPermitted :
      (handler : Handler) (msg : Str) (sel : Selection Score) (store : Option PendingStore)
      (action : Str) (r : Option Str)
      → All
          (IsPermitted actor)
          (after_audit zero_score o tool handler actor msg sel store
            (audited action actor tool.id ∷ [])
            r).effects
  unfolding after_audit
  after_audit-IsPermitted handler msg sel store action (some e) = (tt, tt)
  after_audit-IsPermitted handler msg sel none action none =
      run_handler-IsPermitted handler msg sel (resolved zero_score o tool sel) none
        (audited action actor tool.id ∷ []) (tt, tt)
  after_audit-IsPermitted handler msg sel (some s) action none =
      rw
        (effects-proposed zero_score o tool actor sel (resolved zero_score o tool sel)
          (audited action actor tool.id ∷ [])
          (put_pending o.now o.fresh_id actor tool.id sel.params s))
        (tt, tt)

  execute_handler-IsPermitted :
      (h : Option Handler) (msg : Str) (sel : Selection Score) (store : Option PendingStore)
      → All (IsPermitted actor) (execute_handler zero_score o tool h actor msg sel store).effects
  unfolding execute_handler execute_found
  execute_handler-IsPermitted none msg sel store = tt
  execute_handler-IsPermitted (some handler) msg sel store = elim (Bool-cases (is_write tool)) [
    | inl w ↦
        rw w
          (after_audit-IsPermitted handler msg sel store (audit_action zero_score o tool store) _)
    | inr r ↦
        rw r (run_handler-IsPermitted handler msg sel (resolved zero_score o tool sel) store [] tt)
  ]

module _ {Score : Type 0} (zero_score : Score) (o : Orchestrator) (actor : Actor) where
  handle-IsPermitted :
      (msg : Str) (sel : Selection Score) (store : Option PendingStore)
      → IsAllowed o.catalog actor.perms sel
      → All (IsPermitted actor) (handle zero_score o actor msg sel store).effects
  unfolding handle execute_selection execute_tool
  handle-IsPermitted msg sel store (inl unmatched) = simp unmatched tt
  handle-IsPermitted msg sel store (inr (tool, is, may)) = elim (Bool-cases sel.matched) [
    | inl m ↦
        simp (m, is)
          (execute_handler-IsPermitted zero_score o actor tool may (find tool.handler o.handlers)
            msg sel store)
    | inr u ↦ simp u tt
  ]

as_pick-IsAllowed :
    {F : Type 0} (f : Scores F) (catalog : Dict Tool) (granted : List Str)
    (r : Result Str (Selection F))
    → ((sel : Selection F) → r ≡ ok sel → IsVisible catalog granted sel)
    → IsAllowed catalog granted (as_pick f r).0
as_pick-IsAllowed f catalog granted (err e) visible = inl refl
as_pick-IsAllowed f catalog granted (ok sel) visible = elim (visible sel refl) [
  | inl (unnamed, unmatched) ↦ inl unmatched
  | inr may ↦ inr may
]

-- Whatever the similarities, the parameters and the model say, a message makes handlers run only
-- of tools whose permission the user has, and for this user: where both selectors have the tools
-- of the catalogue, and the second is asked where the first is not sure.
pub turn-IsPermitted :
    {F : Type 0} (f : Scores F) (zero_score : F) (o : Orchestrator) (actor : Actor)
    (msg text intent : Str) (sources : ParamSources) (tools : List (ToolVectors F))
    (known : List ModelTool) (accept margin reject : F) (answer : Result Str (Str × Dict Str))
    (store : Option PendingStore)
    → All (IsListed f sources text intent actor.perms o.catalog) tools
    → All (IsKnown f actor.perms o.catalog) known
    → let pick =
        cascade f accept margin
          (as_pick f (select f sources text intent actor.perms reject tools))
          (model_select f actor.perms known answer) in
      All (IsPermitted actor) (handle zero_score o actor msg pick.0 store).effects
turn-IsPermitted f zero_score o actor msg text intent sources tools known accept margin reject
      answer store listed named =
    handle-IsPermitted zero_score o actor msg _ store (
      cascade-IsAllowed f actor.perms o.catalog accept margin
        (as_pick f (select f sources text intent actor.perms reject tools))
        (model_select f actor.perms known answer)
        (as_pick-IsAllowed f o.catalog actor.perms
          (select f sources text intent actor.perms reject tools)
          (λ sel is.
            select-IsVisible f sources text intent actor.perms o.catalog reject tools sel listed
              is))
        (model_select-IsAllowed f actor.perms o.catalog known answer named))
