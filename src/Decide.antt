-- ===== src/Decide.antt =====
-- The decision of a chat turn: internal/application/decide/decide.go. The router's answer is an
-- argument; traces are left out.
pub mod Kinds
use kb_retv_services.Prelude.{
  ℕ, zero, suc, ◌+◌, ◌-◌, ◌*◌, ◌/◌, ◌%◌, ◌^◌, ◌≤◌, ◌<◌, ◌≡◌, refl, sym, ap, ◌∙◌, ◌≢◌, ◌↔◌, ◌⊎◌, inl,
  inr, Bool, true, false, not, ◌&&◌, ◌||◌, Option, none, some, List, [], ◌∷◌, ◌++◌, map, arith, ltb,
  leb, ◌==◌, if◌then◌else◌, ltb→lt, lt→ltb, leb→le, le→leb, ==_iff, tests, Bool-cases, Option-cases,
  length, get_elem?, take, any, all, keep, length-append, length-take_le, length-keep_le, All,
  All-append, All-take, All-keep, Result, ok, err, Result-cases,
}
use kb_retv_services.Prelude.Int.{
  ℤ, pos, negsuc, pos_part, neg_part, sub_ℕ, ◌+ℤ◌, ◌≤ℤ◌, ◌<ℤ◌, ltb_ℤ, leb_ℤ, max_ℤ, min_ℤ, +ℤ_parts,
  eq_of_parts, int_laws, max_ℤ_bounds, min_ℤ_bounds, min_max_bounds,
}
use kb_retv_services.Prelude.Str.{
  Str, codes, str_eq, str_eq_refl, eq_of_str_eq, str_eq_iff, starts_with, contains, to_lower,
  trim_space, ends_with, itoa, is_empty, trim_suffix,
}
use kb_retv_services.Prelude.Dict.{
  Dict, find, remove, put, prune, find-remove, find-put, length-remove_le, length-prune_le, IsMap,
  passing, find-prune, prune_absent, prune-IsMap, remove-IsMap, put-IsMap,
}
use kb_retv_services.Router.{
  Intent, RouterDecision, kb_search, case_status, handoff_intent, open_case, general_support,
  off_domain, social_intent,
}
use kb_retv_services.Rag.Types.{Floats}
use kb_retv_services.Skeleton.Pending.{Actor, PendingStore}
use kb_retv_services.Skeleton.Response.{Response, Selection}
use kb_retv_services.Skeleton.Orchestrator.{
  HandlerError, needs_params, SkeletonError, handler_error, Orchestrator, handle,
}

pub data Kind : Type 0 where
  tool clarify tool_failed permission_denied handoff social off_topic generative : Kind

-- `Authoritative`.
abbrev pub authoritative : Intent → Bool
authoritative case_status = true
authoritative open_case = true
authoritative _ = false

abbrev pub is_social : Intent → Bool
is_social social_intent = true
is_social _ = false

-- `errors.Is(toolErr, skeleton.ErrNeedsParam)` with `missingFields`.
abbrev pub missing_fields : SkeletonError → Option (List Str)
missing_fields (handler_error (needs_params fields)) = some fields
missing_fields _ = none

module _ {F : Type 0} (fl : Floats F) where
  -- The switch on the intent at the end of `classify`.
  abbrev by_intent : F → RouterDecision F → Kind
  by_intent margin d = elim d.intent [
    | handoff_intent ↦ handoff
    | social_intent ↦ social
    | off_domain ↦
        if fl.lt (fl.hundredths 0) margin && fl.le margin d.off_margin
        then off_topic
        else generative
    | _ ↦ generative
  ]

  abbrev failed_tool : F → RouterDecision F → Response F → Option (List Str) → Kind × List Str
  failed_tool margin d resp (some fields) = (clarify, fields)
  failed_tool margin d resp none =
      if str_eq resp.kind (codes "write") || authoritative d.intent
      then (tool_failed, [])
      else (by_intent margin d, [])

  abbrev unmatched : F → RouterDecision F → Response F → List Str → Kind × List Str
  unmatched margin d resp (f ∷ fs) = (clarify, f ∷ fs)
  unmatched margin d resp [] =
      if authoritative d.intent
      then ((if resp.perm_filtered then permission_denied else clarify), [])
      else (by_intent margin d, [])

  abbrev with_tool : F → RouterDecision F → Response F → Option SkeletonError → Kind × List Str
  with_tool margin d resp (some e) = failed_tool margin d resp (missing_fields e)
  with_tool margin d resp none =
      if resp.matched then (tool, []) else unmatched margin d resp resp.missing_params

  -- `classify`, with the response and the error of the tool, if it was asked.
  unfoldable pub classify :
      RouterDecision F → Option (Response F × Option SkeletonError) → F → Kind × List Str
  classify d none margin = (by_intent margin d, [])
  classify d (some (resp, e)) margin = with_tool margin d resp e

  pub record Turn : Type 0 where
    pub kind : Kind
    pub missing : List Str
    pub response : Option (Response F × Option SkeletonError)

  -- `Decide` after the router, where the runner answers with its response and error.
  unfoldable pub decide_turn :
      Option (Response F × Option SkeletonError) → F → RouterDecision F → Turn
  unfolding classify
  decide_turn runner margin d =
      let asked = if is_social d.intent then none else runner in
      let (kind, missing) = classify d asked margin in
      record { kind = kind; missing = missing; response = asked }
