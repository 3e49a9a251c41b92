-- ===== src/Skeleton/Orchestrator/Effects/Consent.antt =====
-- What a request may run before and after the confirmation of the user.
use kb_retv_services.Prelude.{
  ◌≤◌, ◌≡◌, refl, inl, inr, true, false, ◌&&◌, Option, none, some, List, [], ◌∷◌, arith, Bool-cases,
  All, Result, ok, err,
}
use kb_retv_services.Prelude.Str.{Str}
use kb_retv_services.Prelude.Dict.{Dict, find, remove}
use kb_retv_services.Perms.{can}
use kb_retv_services.Tools.{Tool, is_write}
use kb_retv_services.Skeleton.Template.{Row}
use kb_retv_services.Skeleton.Pending.{
  Actor, PendingEntry, PendingStore, put_pending, take_pending, is_live, belongs, claimed,
}
use kb_retv_services.Skeleton.Response.{Response, Selection}
use kb_retv_services.Skeleton.Orchestrator.{
  HandlerError, Handler, Effect, audited, ran, Orchestrator, Outcome, run_handler, resolved,
  audit_action, execute_handler, execute_tool, execute_selection, after_audit, execute_found,
  handle, confirm, confirm_taken, confirm_tool, confirm_handler, confirm_audited, confirmed,
}
use kb_retv_services.Skeleton.Orchestrator.Effects.{effects-run_handler, effects-proposed, query_of}

-- The effect does not run the handler of a write tool.
abbrev pub IsQuiet : Effect → Type 0
IsQuiet (audited action actor id) = Unit
IsQuiet (ran q) = is_write q.tool ≡ false

-- The effect runs a handler only for a stored entry of the actor, under the id, that has not
-- expired, for the tool and the parameters of that entry, with the permission that the tool
-- requires and with its audit entry written.
abbrev pub IsConsented : Orchestrator → Actor → Str → PendingStore → Effect → Type 0
IsConsented o actor id s (audited action a tool_id) = Unit
IsConsented o actor id s (ran q) =
    (e : PendingEntry) × (find id s ≡ some e)
    × (e.company_id ≡ actor.company_id)
    × (e.user_id ≡ actor.user_id)
    × (o.now ≤ e.expires)
    × (find e.tool_id o.catalog ≡ some q.tool)
    × (q.params ≡ e.params)
    × (can actor.perms q.tool.requires_permission ≡ true)
    × (o.audit q.tool.audit ≡ none)
    × (q.actor ≡ actor)

module _ {Score : Type 0} (zero_score : Score) (o : Orchestrator) where
  read-IsQuiet :
      (tool : Tool) (handler : Handler) (actor : Actor) (msg : Str) (sel : Selection Score)
      (resp : Response Score) (store : Option PendingStore)
      → is_write tool ≡ false
      → All IsQuiet (run_handler zero_score o tool handler actor msg sel resp store []).effects
  read-IsQuiet tool handler actor msg sel resp store w =
      elim (effects-run_handler zero_score o tool handler actor msg sel resp store []) [
        | inl same ↦ rw same tt
        | inr one ↦ rw one (w, tt)
      ]

  after_audit-IsQuiet :
      (tool : Tool) (handler : Handler) (actor : Actor) (msg : Str) (sel : Selection Score)
      (s : PendingStore) (r : Option Str)
      → All IsQuiet
          (after_audit zero_score o tool handler actor msg sel
            (some s)
            (audited (audit_action zero_score o tool (some s)) actor tool.id ∷ [])
            r).effects
  unfolding after_audit
  after_audit-IsQuiet tool handler actor msg sel s (some e) = (tt, tt)
  after_audit-IsQuiet tool handler actor msg sel s none =
      rw
        (effects-proposed zero_score o tool actor sel (resolved zero_score o tool sel)
          (audited (audit_action zero_score o tool (some s)) actor tool.id ∷ [])
          (put_pending o.now o.fresh_id actor tool.id sel.params s))
        (tt, tt)

  found-IsQuiet :
      (tool : Tool) (handler : Handler) (actor : Actor) (msg : Str) (sel : Selection Score)
      (s : PendingStore)
      → All IsQuiet (execute_found zero_score o tool handler actor msg sel (some s)).effects
  unfolding execute_found
  found-IsQuiet tool handler actor msg sel s = elim (Bool-cases (is_write tool)) [
    | inl w ↦ rw w (
        after_audit-IsQuiet tool handler actor msg sel s
          (o.audit (audit_action zero_score o tool (some s))))
    | inr r ↦
        rw r (read-IsQuiet tool handler actor msg sel (resolved zero_score o tool sel) (some s) r)
  ]

  handler-IsQuiet :
      (tool : Tool) (h : Option Handler) (actor : Actor) (msg : Str) (sel : Selection Score)
      (s : PendingStore)
      → All IsQuiet (execute_handler zero_score o tool h actor msg sel (some s)).effects
  unfolding execute_handler
  handler-IsQuiet tool none actor msg sel s = tt
  handler-IsQuiet tool (some h) actor msg sel s = found-IsQuiet tool h actor msg sel s

  tool-IsQuiet :
      (found : Option Tool) (actor : Actor) (msg : Str) (sel : Selection Score) (s : PendingStore)
      → All IsQuiet (execute_tool zero_score o found actor msg sel (some s)).effects
  unfolding execute_tool
  tool-IsQuiet none actor msg sel s = tt
  tool-IsQuiet (some tool) actor msg sel s =
      handler-IsQuiet tool (find tool.handler o.handlers) actor msg sel s

  -- Where a store of pending actions is configured, a request never runs the handler of a
  -- write tool, whatever the selector answered: a write is only proposed.
  pub handle-IsQuiet :
      (actor : Actor) (msg : Str) (sel : Selection Score) (s : PendingStore)
      → All IsQuiet (handle zero_score o actor msg sel (some s)).effects
  unfolding handle execute_selection
  handle-IsQuiet actor msg sel s = elim (Bool-cases sel.matched) [
    | inl m ↦ simp m (tool-IsQuiet (find sel.tool_id o.catalog) actor msg sel s)
    | inr u ↦ rw u tt
  ]

  effects-confirmed :
      (tool : Tool) (params : Dict Str) (es : List Effect) (s : PendingStore)
      (m : Result HandlerError (List Row))
      → (confirmed zero_score o tool params es s m).effects ≡ es
  effects-confirmed tool params es s (err e) = refl
  effects-confirmed tool params es s (ok rows) = refl

  module _ (actor : Actor) (id : Str) (s : PendingStore) (e : PendingEntry) where
    abbrev Consented : Outcome Score → Type 0
    Consented r = All (IsConsented o actor id s) r.effects

    module _ (there : find id s ≡ some e) (company : e.company_id ≡ actor.company_id)
        (user : e.user_id ≡ actor.user_id) (live : o.now ≤ e.expires) where
      confirm_audited-IsConsented :
          (tool : Tool) (handler : Handler) (s' : PendingStore) (r : Option Str)
          → find e.tool_id o.catalog ≡ some tool
          → can actor.perms tool.requires_permission ≡ true
          → o.audit tool.audit ≡ r
          → Consented (confirm_audited zero_score o tool handler actor e.params s' r)
      unfolding confirm_audited
      confirm_audited-IsConsented tool handler s' (some x) known allowed written = (tt, tt)
      confirm_audited-IsConsented tool handler s' none known allowed written =
          rw
            (effects-confirmed tool e.params
              (audited tool.audit actor tool.id
                ∷ ran (query_of zero_score o tool actor [] e.params)
                ∷ [])
              s' (handler (query_of zero_score o tool actor [] e.params)))
            (tt, ((e, there, company, user, live, known, refl, allowed, written, refl), tt))

      confirm_handler-IsConsented :
          (tool : Tool) (h : Option Handler) (s' : PendingStore)
          → find e.tool_id o.catalog ≡ some tool
          → can actor.perms tool.requires_permission ≡ true
          → Consented (confirm_handler zero_score o tool h actor e.params s')
      unfolding confirm_handler
      confirm_handler-IsConsented tool none s' known allowed = tt
      confirm_handler-IsConsented tool (some h) s' known allowed =
          confirm_audited-IsConsented tool h s' (o.audit tool.audit) known allowed refl

      confirm_tool-IsConsented :
          (found : Option Tool) (s' : PendingStore)
          → find e.tool_id o.catalog ≡ found
          → Consented (confirm_tool zero_score o e.tool_id found actor e.params s')
      unfolding confirm_tool
      confirm_tool-IsConsented none s' known = tt
      confirm_tool-IsConsented (some tool) s' known =
          elim (Bool-cases (can actor.perms tool.requires_permission)) [
            | inl allowed ↦
                rw allowed
                  (confirm_handler-IsConsented tool (find tool.handler o.handlers) s' known allowed)
            | inr denied ↦ rw denied tt
          ]

  taken-IsConsented :
      (actor : Actor) (id : Str) (s s' : PendingStore) (found : Option PendingEntry)
      → find id s ≡ found
      → All
          (IsConsented o actor id s)
          (confirm_taken zero_score o actor (s', claimed o.now actor found)).effects
  unfolding confirm_taken
  taken-IsConsented actor id s s' none there = tt
  taken-IsConsented actor id s s' (some e) there =
      elim (Bool-cases (belongs actor e && is_live o.now e)) [
        | inl mine ↦ rw mine (
            confirm_tool-IsConsented actor id s e there (ground arith) (ground arith) (ground arith)
              (find e.tool_id o.catalog) s' refl)
        | inr foreign ↦ rw foreign tt
      ]

  -- A confirmation runs a handler only if an action is stored under the id, was proposed by
  -- this user of this company and has not expired; what runs is then the tool and the
  -- parameters that were proposed, for the user, who still has the permission that the tool
  -- requires, and after the audit entry was written.
  pub confirm-IsConsented :
      (actor : Actor) (id : Str) (s : PendingStore)
      → All (IsConsented o actor id s) (confirm zero_score o actor id (some s)).effects
  unfolding confirm take_pending
  confirm-IsConsented actor id s = taken-IsConsented actor id s (remove id s) (find id s) refl
