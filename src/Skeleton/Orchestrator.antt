-- ===== src/Skeleton/Orchestrator.antt =====
-- The execution of a selected tool: internal/application/skeleton/orchestrator.go and `Confirm` of
-- pending.go. Scores are only passed on, as values of a type `Score`. What the code does to the
-- world
-- is a list of effects; the debug trace and the log are left out.
pub mod Effects
use kb_retv_services.Prelude.{
  ℕ, zero, suc, ◌+◌, ◌-◌, ◌*◌, ◌/◌, ◌%◌, ◌^◌, ◌≤◌, ◌<◌, ◌≡◌, refl, sym, ap, ◌∙◌, ◌≢◌, ◌↔◌, ◌⊎◌, inl,
  inr, Bool, true, false, not, ◌&&◌, ◌||◌, Option, none, some, List, [], ◌∷◌, ◌++◌, map, arith, ltb,
  leb, ◌==◌, if◌then◌else◌, ltb→lt, lt→ltb, leb→le, le→leb, ==_iff, tests, Bool-cases, Option-cases,
  length, get_elem?, take, any, all, keep, length-append, length-take_le, length-keep_le, All,
  All-append, All-take, All-keep, Result, ok, err, Result-cases,
}
use kb_retv_services.Prelude.Int.{
  ℤ, pos, negsuc, pos_part, neg_part, sub_ℕ, ◌+ℤ◌, ◌≤ℤ◌, ◌<ℤ◌, ltb_ℤ, leb_ℤ, max_ℤ, min_ℤ, +ℤ_parts,
  eq_of_parts, int_laws, max_ℤ_bounds, min_ℤ_bounds, min_max_bounds,
}
use kb_retv_services.Prelude.Str.{
  Str, codes, str_eq, str_eq_refl, eq_of_str_eq, str_eq_iff, starts_with, contains, to_lower,
  trim_space, ends_with, itoa, is_empty, trim_suffix,
}
use kb_retv_services.Prelude.Dict.{
  Dict, find, remove, put, prune, find-remove, find-put, length-remove_le, length-prune_le, IsMap,
  passing, find-prune, prune_absent, prune-IsMap, remove-IsMap, put-IsMap,
}
use kb_retv_services.Perms.{can}
use kb_retv_services.Tools.{Tool, is_write}
use kb_retv_services.Skeleton.Template.{Row}
use kb_retv_services.Skeleton.Pending.{Actor, PendingStore, put_pending, take_pending}
use kb_retv_services.Skeleton.Response.{
  Response, Selection, PendingRef, no_response, compose_response, proposal_summary,
}

-- What `Run` of a handler may fail with: a required parameter is missing, or anything else.
pub data HandlerError : Type 0 where
  needs_params : List Str → HandlerError
  handler_failed : Str → HandlerError

pub record Query : Type 0 where
  pub tool : Tool
  pub text : Str
  pub params : Dict Str
  pub coverage : List ℕ
  pub actor : Actor

abbrev pub Handler : Type 0
Handler = Query → Result HandlerError (List Row)

-- The errors that the orchestrator returns, by the text they start with.
pub data SkeletonError : Type 0 where
  unknown_tool no_handler : Str → SkeletonError
  audit_failed : Str → SkeletonError
  pending_id_failed : SkeletonError
  handler_error : HandlerError → SkeletonError
  no_pending_store not_found permission_denied : SkeletonError

pub data Effect : Type 0 where
  -- A call of `auditor.Log(ctx, action, actor, toolID)`, whatever it returns.
  audited : Str → Actor → Str → Effect
  -- `handler.Run(ctx, q)`.
  ran : Query → Effect

-- `pending` is `none` where no store is configured. `audit` is what the auditor returns for an
-- action, `now` the clock and `fresh_id` the next random id.
pub record Orchestrator : Type 0 where
  pub catalog : Dict Tool
  pub handlers : Dict Handler
  pub audit : Str → Option Str
  pub now : ℕ
  pub fresh_id : Option Str

-- What a call returns beside its response, the effects in order, and the store after it.
pub record Outcome (Score : Type 0) : Type 0 where
  pub response : Response Score
  pub error : Option SkeletonError
  pub effects : List Effect
  pub store : Option PendingStore

abbrev pub coverage_required_handlers : List Str
coverage_required_handlers =
    codes "reports.find"
    ∷ codes "reports.byProduct"
    ∷ codes "workload"
    ∷ codes "reports.track"
    ∷ codes "employee.status"
    ∷ codes "customer.profile"
    ∷ []

requires_coverage : Str → Bool
unfolding str_eq
requires_coverage handler = any (λ h. str_eq h handler) coverage_required_handlers

abbrev no_coverage : Actor → Bool
no_coverage a = elim a.coverage [ [] ↦ true | _ ∷ _ ↦ false ]

module _ {Score : Type 0} (zero_score : Score) (o : Orchestrator) where
  abbrev stop : Response Score → SkeletonError → List Effect → Option PendingStore → Outcome Score
  stop resp e effects store = record {
    response = resp;
    error = some e;
    effects = effects;
    store = store;
  }

  -- The response of a tool that was resolved, in `resolveTool`.
  abbrev resolved : Tool → Selection Score → Response Score
  resolved tool sel = record (no_response zero_score) {
    matched = true;
    tool_id = tool.id;
    handler = tool.handler;
    kind = tool.kind;
    required_permission = tool.requires_permission;
    params = sel.params;
    selection_score = sel.score;
    runner_up_score = sel.runner_up;
  }

  abbrev unresolved : Selection Score → Response Score
  unresolved sel = record (no_response zero_score) {
    matched = true;
    tool_id = sel.tool_id;
    params = sel.params;
    selection_score = sel.score;
    runner_up_score = sel.runner_up;
  }

  -- The end of `runHandler`.
  abbrev finish :
      Tool
      → Selection Score
      → Response Score
      → Option PendingStore
      → List Effect
      → Result HandlerError (List Row)
      → Outcome Score
  finish tool sel resp store effects (err e) =
      stop (record resp { called = true }) (handler_error e) effects store
  finish tool sel resp store effects (ok rows) = record {
    response = record (compose_response zero_score tool rows sel.params) {
      called = true;
      handler = resp.handler;
      required_permission = resp.required_permission;
      params = resp.params;
      selection_score = resp.selection_score;
      runner_up_score = resp.runner_up_score;
      row_count = length rows;
    };
    error = none;
    effects = effects;
    store = store;
  }

  -- `runHandler`: a handler that requires coverage is not run for an actor who has none.
  run_handler :
      Tool
      → Handler
      → Actor
      → Str
      → Selection Score
      → Response Score
      → Option PendingStore
      → List Effect
      → Outcome Score
  unfolding requires_coverage
  run_handler tool handler actor msg sel resp store before =
      let q : Query = record {
        tool = tool;
        text = msg;
        params = sel.params;
        coverage = actor.coverage;
        actor = actor;
      } in
      if requires_coverage tool.handler && no_coverage actor
      then finish tool sel resp store before (ok [])
      else finish tool sel resp store (before ++ ran q ∷ []) (handler q)

  -- The rest of `ExecuteSelection` for a write tool whose audit entry was written, by the store.
  abbrev proposed :
      Tool
      → Actor
      → Selection Score
      → Response Score
      → List Effect
      → PendingStore × Option Str
      → Outcome Score
  proposed tool actor sel resp effects (s, none) = stop resp pending_id_failed effects (some s)
  proposed tool actor sel resp effects (s, some id) = record {
    response = record resp {
      pending = some (record { id = id; summary = proposal_summary tool sel.params });
    };
    error = none;
    effects = effects;
    store = some s;
  }

  abbrev audit_action : Tool → Option PendingStore → Str
  audit_action tool none = tool.audit
  audit_action tool (some s) = tool.audit ++ codes ".proposed"

  after_audit :
      Tool
      → Handler
      → Actor
      → Str
      → Selection Score
      → Option PendingStore
      → List Effect
      → Option Str
      → Outcome Score
  unfolding run_handler
  after_audit tool handler actor msg sel store effects (some e) =
      stop (resolved tool sel) (audit_failed e) effects store
  after_audit tool handler actor msg sel none effects none =
      run_handler tool handler actor msg sel (resolved tool sel) none effects
  after_audit tool handler actor msg sel (some s) effects none =
      proposed tool actor sel (resolved tool sel) effects
        (put_pending o.now o.fresh_id actor tool.id sel.params s)

  -- `ExecuteSelection` once the tool and its handler are found.
  execute_found :
      Tool → Handler → Actor → Str → Selection Score → Option PendingStore → Outcome Score
  unfolding after_audit run_handler
  execute_found tool handler actor msg sel store =
      let action = audit_action tool store in
      if is_write tool
      then after_audit tool handler actor msg sel store (audited action actor tool.id ∷ [])
          (o.audit action)
      else run_handler tool handler actor msg sel (resolved tool sel) store []

  execute_handler :
      Tool → Option Handler → Actor → Str → Selection Score → Option PendingStore → Outcome Score
  unfolding execute_found
  execute_handler tool none actor msg sel store =
      stop (resolved tool sel) (no_handler tool.handler) [] store
  execute_handler tool (some handler) actor msg sel store =
      execute_found tool handler actor msg sel store

  execute_tool : Option Tool → Actor → Str → Selection Score → Option PendingStore → Outcome Score
  unfolding execute_handler
  execute_tool none actor msg sel store = stop (unresolved sel) (unknown_tool sel.tool_id) [] store
  execute_tool (some tool) actor msg sel store =
      execute_handler tool (find tool.handler o.handlers) actor msg sel store

  -- `ExecuteSelection`.
  unfoldable pub execute_selection :
      Actor → Str → Selection Score → Option PendingStore → Outcome Score
  unfolding execute_tool
  execute_selection actor msg sel store =
      execute_tool (find sel.tool_id o.catalog) actor msg sel store

  permission_of : Option Tool → Str
  permission_of none = []
  permission_of (some tool) = tool.requires_permission

  -- `Handle` once the selector has answered.
  unfoldable pub handle : Actor → Str → Selection Score → Option PendingStore → Outcome Score
  unfolding execute_selection permission_of
  handle actor msg sel store =
      if sel.matched then execute_selection actor msg sel store else record {
        response = record (no_response zero_score) {
          tool_id = sel.tool_id;
          required_permission = permission_of (find sel.tool_id o.catalog);
          params = sel.params;
          selection_score = sel.score;
          runner_up_score = sel.runner_up;
          perm_filtered = sel.perm_filtered;
          missing_params = sel.missing_params;
        };
        error = none;
        effects = [];
        store = store;
      }

  abbrev of_kind : Tool → Response Score
  of_kind tool = record (no_response zero_score) { kind = tool.kind }

  abbrev confirmed :
      Tool → Dict Str → List Effect → PendingStore → Result HandlerError (List Row) → Outcome Score
  confirmed tool params effects s (err e) = stop (of_kind tool) (handler_error e) effects (some s)
  confirmed tool params effects s (ok rows) = record {
    response = record (compose_response zero_score tool rows params) {
      called = true;
      params = params;
    };
    error = none;
    effects = effects;
    store = some s;
  }

  confirm_audited : Tool → Handler → Actor → Dict Str → PendingStore → Option Str → Outcome Score
  confirm_audited tool handler actor params s (some e) =
      stop (of_kind tool) (audit_failed e) (audited tool.audit actor tool.id ∷ []) (some s)
  confirm_audited tool handler actor params s none =
      let q : Query = record {
        tool = tool;
        text = [];
        params = params;
        coverage = actor.coverage;
        actor = actor;
      } in
      confirmed tool params (audited tool.audit actor tool.id ∷ ran q ∷ []) s (handler q)

  confirm_handler : Tool → Option Handler → Actor → Dict Str → PendingStore → Outcome Score
  unfolding confirm_audited
  confirm_handler tool none actor params s =
      stop (of_kind tool) (no_handler tool.handler) [] (some s)
  confirm_handler tool (some handler) actor params s =
      confirm_audited tool handler actor params s (o.audit tool.audit)

  confirm_tool : Str → Option Tool → Actor → Dict Str → PendingStore → Outcome Score
  unfolding confirm_handler
  confirm_tool id none actor params s = stop (no_response zero_score) (unknown_tool id) [] (some s)
  confirm_tool id (some tool) actor params s =
      if can actor.perms tool.requires_permission
      then confirm_handler tool (find tool.handler o.handlers) actor params s
      else stop (of_kind tool) permission_denied [] (some s)

  confirm_taken : Actor → PendingStore × Option (Str × Dict Str) → Outcome Score
  unfolding confirm_tool
  confirm_taken actor (s, none) = stop (no_response zero_score) not_found [] (some s)
  confirm_taken actor (s, some (tool_id, params)) =
      confirm_tool tool_id (find tool_id o.catalog) actor params s

  -- `Confirm`.
  unfoldable pub confirm : Actor → Str → Option PendingStore → Outcome Score
  unfolding confirm_taken
  confirm actor id none = stop (no_response zero_score) no_pending_store [] none
  confirm actor id (some s) = confirm_taken actor (take_pending o.now actor id s)
