-- ===== src/Skeleton/Orchestrator/Effects/Confirmed.antt =====
-- About proposals that are confirmed.
use kb_retv_services.Prelude.{
  ℕ, ◌+◌, ◌≤◌, ◌≡◌, refl, ap, ◌∙◌, true, none, some, List, [], ◌∷◌, ◌++◌, arith, if◌then◌else◌,
  Result, ok, err,
}
use kb_retv_services.Prelude.Str.{Str, codes, str_eq_refl}
use kb_retv_services.Prelude.Dict.{Dict, find, remove, find-remove}
use kb_retv_services.Perms.{can}
use kb_retv_services.Tools.{Tool, is_write}
use kb_retv_services.Skeleton.Template.{Row}
use kb_retv_services.Skeleton.Pending.{
  Actor, PendingStore, pending_ttl, put_entry, put_pending, take_pending, claimed,
}
use kb_retv_services.Skeleton.Pending.Confirming.{find-put_entry_self}
use kb_retv_services.Skeleton.Response.{Selection, proposal_summary}
use kb_retv_services.Skeleton.Orchestrator.{
  HandlerError, Handler, audited, ran, Orchestrator, Outcome, not_found, execute_handler,
  execute_tool, execute_selection, after_audit, execute_found, handle, confirm, confirm_taken,
  confirm_tool, confirm_handler, confirm_audited, confirmed,
}
use kb_retv_services.Skeleton.Orchestrator.Effects.{query_of}

module _ {Score : Type 0} (zero_score : Score) (o : Orchestrator) where
  -- A write tool was proposed: its entry is stored, and its proposal audited.
  abbrev pub Proposed : Tool → Actor → Str → Dict Str → PendingStore → Outcome Score → Type 0
  Proposed tool actor id params s out =
      (out.error ≡ none)
      × (out.response.pending ≡ some (record { id = id; summary = proposal_summary tool params }))
      × (out.store ≡ some (put_entry o.now id actor tool.id params s))
      × (out.effects ≡ audited (tool.audit ++ codes ".proposed") actor tool.id ∷ [])

  found-Proposed :
      (tool : Tool) (handler : Handler) (actor : Actor) (msg id : Str) (sel : Selection Score)
      (s : PendingStore)
      → is_write tool ≡ true
      → o.audit (tool.audit ++ codes ".proposed") ≡ none
      → o.fresh_id ≡ some id
      → Proposed tool actor id sel.params s
          (execute_found zero_score o tool handler actor msg sel (some s))
  unfolding execute_found after_audit put_pending
  found-Proposed tool handler actor msg id sel s w a i = simp (w, a, i) (refl, refl, refl, refl)

  handle-Proposed :
      (tool : Tool) (handler : Handler) (actor : Actor) (msg id : Str) (sel : Selection Score)
      (s : PendingStore)
      → sel.matched ≡ true
      → find sel.tool_id o.catalog ≡ some tool
      → find tool.handler o.handlers ≡ some handler
      → is_write tool ≡ true
      → o.audit (tool.audit ++ codes ".proposed") ≡ none
      → o.fresh_id ≡ some id
      → Proposed tool actor id sel.params s (handle zero_score o actor msg sel (some s))
  unfolding handle execute_selection execute_tool execute_handler
  handle-Proposed tool handler actor msg id sel s m t h w a i =
      simp (m, t, h) (found-Proposed tool handler actor msg id sel s w a i)

  confirm_tool-runs :
      (tool : Tool) (handler : Handler) (actor : Actor) (tool_id : Str) (params : Dict Str)
      (s : PendingStore)
      → find tool.handler o.handlers ≡ some handler
      → can actor.perms tool.requires_permission ≡ true
      → o.audit tool.audit ≡ none
      → let out = confirm_tool zero_score o tool_id (some tool) actor params s in
        (out.effects
          ≡ audited tool.audit actor tool.id
            ∷ ran (query_of zero_score o tool actor [] params)
            ∷ [])
        × (out.store ≡ some s)
  unfolding confirm_tool confirm_handler confirm_audited
  confirm_tool-runs tool handler actor tool_id params s h c a =
      rw (c, h, a) (closing (handler (query_of zero_score o tool actor [] params)))
    where
      closing :
          (m : Result HandlerError (List Row))
          → let out =
              confirmed zero_score o tool params
                (audited tool.audit actor tool.id
                  ∷ ran (query_of zero_score o tool actor [] params)
                  ∷ [])
                s
                m in
            (out.effects
              ≡ audited tool.audit actor tool.id
                ∷ ran (query_of zero_score o tool actor [] params)
                ∷ [])
            × (out.store ≡ some s)
      closing (err e) = (refl, refl)
      closing (ok rows) = (refl, refl)

  claimed-own :
      (later expires : ℕ) (actor : Actor) (tool_id : Str) (params : Dict Str)
      → later ≤ expires
      → claimed later actor (
          some (record {
            company_id = actor.company_id;
            user_id = actor.user_id;
            tool_id = tool_id;
            params = params;
            expires = expires;
          }))
        ≡ some (tool_id, params)
  claimed-own later expires actor tool_id params h = ground arith

  confirm-stored :
      (proposed_at : ℕ) (id tool_id : Str) (actor : Actor) (params : Dict Str) (s : PendingStore)
      → o.now ≤ proposed_at + pending_ttl
      → let stored = put_entry proposed_at id actor tool_id params s in
        confirm zero_score o actor id (some stored)
        ≡ confirm_tool zero_score o tool_id (find tool_id o.catalog) actor params (remove id stored)
  unfolding confirm confirm_taken take_pending
  confirm-stored proposed_at id tool_id actor params s h =
      let stored = put_entry proposed_at id actor tool_id params s in
      ap (λ f. confirm_taken zero_score o actor (remove id stored, claimed o.now actor f))
        (find-put_entry_self proposed_at id actor tool_id params s)
      ∙ ap (λ f. confirm_taken zero_score o actor (remove id stored, f))
          (claimed-own o.now (proposed_at + pending_ttl) actor tool_id params h)

  confirm-removed :
      (actor : Actor) (id : Str) (s : PendingStore)
      → let out = confirm zero_score o actor id (some (remove id s)) in
        (out.error ≡ some not_found) × (out.effects ≡ [])
  unfolding confirm confirm_taken take_pending
  confirm-removed actor id s =
      let gone : find id (remove id s) ≡ none =
        find-remove id id s ∙ ap (λ b. if b then none else find id s) (str_eq_refl id) in
      rw gone (refl, refl)

module _ {Score : Type 0} (zero_score : Score) (o : Orchestrator) where
  -- A write tool that the selector found is only proposed, under a fresh id: the one effect of the
  -- request is the audit entry of the proposal, and no handler runs. Where the same
  -- user confirms it within ten minutes, still has the permission and the audit works, its
  -- handler runs once, after an audit entry, with exactly the parameters that were proposed,
  -- and a second confirmation finds nothing and has no effect.
  pub handle-confirm :
      (tool : Tool) (handler : Handler) (actor : Actor) (msg id : Str) (sel : Selection Score)
      (s : PendingStore) (later : ℕ)
      → sel.matched ≡ true
      → find sel.tool_id o.catalog ≡ some tool
      → tool.id ≡ sel.tool_id
      → find tool.handler o.handlers ≡ some handler
      → is_write tool ≡ true
      → o.audit (tool.audit ++ codes ".proposed") ≡ none
      → o.audit tool.audit ≡ none
      → o.fresh_id ≡ some id
      → can actor.perms tool.requires_permission ≡ true
      → later ≤ o.now + pending_ttl
      → let o' = record o { now = later } in
        let proposal = handle zero_score o actor msg sel (some s) in
        let first = confirm zero_score o' actor id proposal.store in
        let second = confirm zero_score o' actor id first.store in
        (proposal.response.pending
          ≡ some (record { id = id; summary = proposal_summary tool sel.params }))
        × (proposal.effects ≡ audited (tool.audit ++ codes ".proposed") actor tool.id ∷ [])
        × (first.effects
            ≡ audited tool.audit actor tool.id
              ∷ ran (query_of zero_score o tool actor [] sel.params)
              ∷ [])
        × (second.error ≡ some not_found)
        × (second.effects ≡ [])
  handle-confirm tool handler actor msg id sel s later m t named h w a written fresh allowed soon =
      let (_, offer, kept, quietly) =
        handle-Proposed zero_score o tool handler actor msg id sel s m t h w a fresh in
      let o' : Orchestrator = record o { now = later } in
      let stored = put_entry o.now id actor tool.id sel.params s in
      let catalogued : find tool.id o.catalog ≡ some tool = ap (λ k. find k o.catalog) named ∙ t in
      let first : confirm zero_score o' actor id (some stored)
          ≡ confirm_tool zero_score o' tool.id (some tool) actor sel.params (remove id stored) =
        confirm-stored zero_score o' o.now id tool.id actor sel.params s soon
        ∙ ap (λ f. confirm_tool zero_score o' tool.id f actor sel.params (remove id stored))
            catalogued in
      let (effects, after) =
        confirm_tool-runs zero_score o' tool handler actor tool.id sel.params (remove id stored) h
          allowed written in
      let (missing, quiet) = confirm-removed zero_score o' actor id stored in
      rw (offer, kept, first, effects, after) (refl, quietly, refl, missing, quiet)
