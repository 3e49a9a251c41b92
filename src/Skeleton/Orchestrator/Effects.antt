-- ===== src/Skeleton/Orchestrator/Effects.antt =====
-- Which effects a request has, and in which order.
pub mod Consent
pub mod Permitted
pub mod Confirmed
use kb_retv_services.Prelude.{
  ℕ, zero, suc, ◌+◌, ◌-◌, ◌*◌, ◌/◌, ◌%◌, ◌^◌, ◌≤◌, ◌<◌, ◌≡◌, refl, sym, ap, ◌∙◌, ◌≢◌, ◌↔◌, ◌⊎◌, inl,
  inr, Bool, true, false, not, ◌&&◌, ◌||◌, Option, none, some, List, [], ◌∷◌, ◌++◌, map, arith, ltb,
  leb, ◌==◌, if◌then◌else◌, ltb→lt, lt→ltb, leb→le, le→leb, ==_iff, tests, Bool-cases, Option-cases,
  length, get_elem?, take, any, all, keep, length-append, length-take_le, length-keep_le, All,
  All-append, All-take, All-keep, Result, ok, err, Result-cases,
}
use kb_retv_services.Prelude.Int.{
  ℤ, pos, negsuc, pos_part, neg_part, sub_ℕ, ◌+ℤ◌, ◌≤ℤ◌, ◌<ℤ◌, ltb_ℤ, leb_ℤ, max_ℤ, min_ℤ, +ℤ_parts,
  eq_of_parts, int_laws, max_ℤ_bounds, min_ℤ_bounds, min_max_bounds,
}
use kb_retv_services.Prelude.Str.{
  Str, codes, str_eq, str_eq_refl, eq_of_str_eq, str_eq_iff, starts_with, contains, to_lower,
  trim_space, ends_with, itoa, is_empty, trim_suffix,
}
use kb_retv_services.Prelude.Dict.{
  Dict, find, remove, put, prune, find-remove, find-put, length-remove_le, length-prune_le, IsMap,
  passing, find-prune, prune_absent, prune-IsMap, remove-IsMap, put-IsMap,
}
use mathlib.Core.List.{Memᴰ}
use kb_retv_services.Perms.{can}
use kb_retv_services.Tools.{Tool, is_write}
use kb_retv_services.Skeleton.Template.{Row}
use kb_retv_services.Skeleton.Pending.{Actor, PendingStore, pending_ttl, put_pending, take_pending}
use kb_retv_services.Skeleton.Pending.Confirming.{put_pending-take}
use kb_retv_services.Skeleton.Response.{Response, Selection, PendingRef, proposal_summary}
use kb_retv_services.Skeleton.Orchestrator.{
  HandlerError, Query, Handler, SkeletonError, Effect, audited, ran, Orchestrator, Outcome,
  not_found, finish, run_handler, proposed, resolved, audit_action, execute_handler, execute_tool,
  execute_selection, requires_coverage, no_coverage, after_audit, execute_found, handle, confirm,
}

-- No effect, a call of the auditor alone, a run of a handler that does not write, or a call of the
-- auditor that it answered without an error, followed by the run of the handler that it names, for
-- the same actor.
unfoldable pub IsAccounted : Orchestrator → List Effect → Type 0
IsAccounted o [] = Unit
IsAccounted o (audited action actor id ∷ []) = Unit
IsAccounted o (ran q ∷ []) = is_write q.tool ≡ false
IsAccounted o (audited action actor id ∷ ran q ∷ []) =
    (o.audit action ≡ none) × (action ≡ q.tool.audit) × (id ≡ q.tool.id) × (actor ≡ q.actor)
IsAccounted o _ = ⊥

module _ {Score : Type 0} (zero_score : Score) (o : Orchestrator) where
  effects-finish :
      (tool : Tool) (sel : Selection Score) (resp : Response Score) (store : Option PendingStore)
      (es : List Effect) (m : Result HandlerError (List Row))
      → (finish zero_score o tool sel resp store es m).effects ≡ es
  effects-finish tool sel resp store es (ok rows) = refl
  effects-finish tool sel resp store es (err e) = refl

  effects-proposed :
      (tool : Tool) (actor : Actor) (sel : Selection Score) (resp : Response Score)
      (es : List Effect) (p : PendingStore × Option Str)
      → (proposed zero_score o tool actor sel resp es p).effects ≡ es
  effects-proposed tool actor sel resp es (s, none) = refl
  effects-proposed tool actor sel resp es (s, some id) = refl

  -- The query that `run_handler` passes to a handler.
  abbrev pub query_of : Tool → Actor → Str → Dict Str → Query
  query_of tool actor msg params = record {
    tool = tool;
    text = msg;
    params = params;
    coverage = actor.coverage;
    actor = actor;
  }

  effects-run_handler :
      (tool : Tool) (handler : Handler) (actor : Actor) (msg : Str) (sel : Selection Score)
      (resp : Response Score) (store : Option PendingStore) (before : List Effect)
      → let after =
          (run_handler zero_score o tool handler actor msg sel resp store before).effects in
        (after ≡ before) ⊎ (after ≡ before ++ ran (query_of tool actor msg sel.params) ∷ [])
  unfolding run_handler
  effects-run_handler tool handler actor msg sel resp store before =
      elim (Bool-cases (requires_coverage tool.handler && no_coverage actor)) [
        | inl skipped ↦ inl (rw skipped (effects-finish tool sel resp store before (ok [])))
        | inr run ↦ inr (
            rw run (
              effects-finish tool sel resp store
                (before ++ ran (query_of tool actor msg sel.params) ∷ [])
                (handler (query_of tool actor msg sel.params))))
      ]

  read-IsAccounted :
      (tool : Tool) (handler : Handler) (actor : Actor) (msg : Str) (sel : Selection Score)
      (resp : Response Score) (store : Option PendingStore)
      → is_write tool ≡ false
      → IsAccounted o (run_handler zero_score o tool handler actor msg sel resp store []).effects
  unfolding IsAccounted
  read-IsAccounted tool handler actor msg sel resp store w =
      elim (effects-run_handler tool handler actor msg sel resp store []) [
        | inl same ↦ rw same tt
        | inr one ↦ rw one w
      ]

  audited-IsAccounted :
      (tool : Tool) (handler : Handler) (actor : Actor) (msg : Str) (sel : Selection Score)
      (resp : Response Score) (store : Option PendingStore)
      → o.audit tool.audit ≡ none
      → IsAccounted o
          (run_handler zero_score o tool handler actor msg sel resp store
            (audited tool.audit actor tool.id ∷ [])).effects
  unfolding IsAccounted
  audited-IsAccounted tool handler actor msg sel resp store done =
      elim (effects-run_handler tool handler actor msg sel resp store
        (audited tool.audit actor tool.id ∷ [])) [
          | inl same ↦ rw same tt
          | inr two ↦ rw two (done, refl, refl, refl)
        ]

  after_audit-IsAccounted :
      (tool : Tool) (handler : Handler) (actor : Actor) (msg : Str) (sel : Selection Score)
      (store : Option PendingStore) (r : Option Str)
      → o.audit (audit_action zero_score o tool store) ≡ r
      → IsAccounted o
          (after_audit zero_score o tool handler actor msg sel store
            (audited (audit_action zero_score o tool store) actor tool.id ∷ [])
            r).effects
  unfolding after_audit IsAccounted
  after_audit-IsAccounted tool handler actor msg sel store (some e) is = tt
  after_audit-IsAccounted tool handler actor msg sel none none is =
      audited-IsAccounted tool handler actor msg sel (resolved zero_score o tool sel) none is
  after_audit-IsAccounted tool handler actor msg sel (some s) none is =
      rw
        (effects-proposed tool actor sel (resolved zero_score o tool sel)
          (audited (audit_action zero_score o tool (some s)) actor tool.id ∷ [])
          (put_pending o.now o.fresh_id actor tool.id sel.params s))
        tt

  found-IsAccounted :
      (tool : Tool) (handler : Handler) (actor : Actor) (msg : Str) (sel : Selection Score)
      (store : Option PendingStore)
      → IsAccounted o (execute_found zero_score o tool handler actor msg sel store).effects
  unfolding execute_found
  found-IsAccounted tool handler actor msg sel store = elim (Bool-cases (is_write tool)) [
    | inl w ↦ rw w (
        after_audit-IsAccounted tool handler actor msg sel store
          (o.audit (audit_action zero_score o tool store)) refl)
    | inr r ↦
        rw r (read-IsAccounted tool handler actor msg sel (resolved zero_score o tool sel) store r)
  ]

  execute_handler-IsAccounted :
      (tool : Tool) (h : Option Handler) (actor : Actor) (msg : Str) (sel : Selection Score)
      (store : Option PendingStore)
      → IsAccounted o (execute_handler zero_score o tool h actor msg sel store).effects
  unfolding execute_handler IsAccounted
  execute_handler-IsAccounted tool none actor msg sel store = tt
  execute_handler-IsAccounted tool (some h) actor msg sel store =
      found-IsAccounted tool h actor msg sel store

  execute_tool-IsAccounted :
      (found : Option Tool) (actor : Actor) (msg : Str) (sel : Selection Score)
      (store : Option PendingStore)
      → IsAccounted o (execute_tool zero_score o found actor msg sel store).effects
  unfolding execute_tool IsAccounted
  execute_tool-IsAccounted none actor msg sel store = tt
  execute_tool-IsAccounted (some tool) actor msg sel store =
      execute_handler-IsAccounted tool (find tool.handler o.handlers) actor msg sel store

  -- Whatever the selector answered, a request has no effect, or calls the auditor once, or runs a
  -- handler of a tool that does not write, or calls the auditor and, where that reports no error,
  -- then runs the handler of the tool that the entry names, for the actor that it names. A write
  -- tool never runs before its audit entry was written.
  pub handle-IsAccounted :
      (actor : Actor) (msg : Str) (sel : Selection Score) (store : Option PendingStore)
      → IsAccounted o (handle zero_score o actor msg sel store).effects
  unfolding handle execute_selection IsAccounted
  handle-IsAccounted actor msg sel store = elim (Bool-cases sel.matched) [
    | inl m ↦ simp m (execute_tool-IsAccounted (find sel.tool_id o.catalog) actor msg sel store)
    | inr u ↦ rw u tt
  ]
