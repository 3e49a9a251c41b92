-- ===== src/Examples/ToolCalls.antt =====
-- Concrete requests for the permissions, the templates, the store of pending actions and the
-- execution of tools.
use kb_retv_services.Prelude.{
  ℕ, ◌≤◌, ◌≡◌, refl, ◌↔◌, ◌⊎◌, true, false, none, some, List, [], ◌∷◌, arith, length, All, Result,
  ok,
}
use kb_retv_services.Prelude.Str.{Str, codes, str_eq, starts_with, contains, ends_with, trim_suffix}
use kb_retv_services.Prelude.Dict.{Dict, find, passing}
use kb_retv_services.Perms.{can}
use kb_retv_services.Perms.Grants.{can_iff, CoveredBy}
use kb_retv_services.Tools.{Tool, is_write}
use kb_retv_services.Skeleton.Template.{Row, collapse, bars}
use kb_retv_services.Skeleton.Template.Bars.{collapse-done}
use kb_retv_services.Skeleton.Pending.{Actor, PendingStore, put_pending, take_pending, is_live}
use kb_retv_services.Skeleton.Pending.Confirming.{
  put_pending-take, take_pending_iff, take_pending-once, Request, taken, serve_all,
}
use kb_retv_services.Skeleton.Pending.Confirming
use kb_retv_services.Skeleton.Response.{Selection}
use kb_retv_services.Skeleton.Orchestrator.{
  Query, not_found, HandlerError, audited, ran, Orchestrator, handle, confirm,
}
use kb_retv_services.Skeleton.Orchestrator.Effects.{IsAccounted, handle-IsAccounted}
use kb_retv_services.Skeleton.Orchestrator.Effects.{query_of}
use kb_retv_services.Skeleton.Orchestrator.Effects.Confirmed.{handle-confirm}
use kb_retv_services.Skeleton.Response.{proposal_summary}
use kb_retv_services.Skeleton.Orchestrator.Effects.Consent.{
  IsQuiet, IsConsented, handle-IsQuiet, confirm-IsConsented,
}

abbrev grants_of_agent : List Str
grants_of_agent = codes "kb.search" ∷ codes "report.*" ∷ []

agent_may_close : can grants_of_agent (codes "report.close") ≡ true
unfolding can starts_with ends_with trim_suffix str_eq
agent_may_close = refl

can_iff_example :
    (can grants_of_agent (codes "report.close") ≡ true)
    ↔ ((codes "report.close" ≡ []) ⊎ CoveredBy grants_of_agent (codes "report.close"))
can_iff_example = can_iff grants_of_agent (codes "report.close")

test_collapse_done :
    (contains (collapse 9 (codes "a|||||b|c")) bars ≡ false)
    × (collapse 12 (codes "a|||||b|c") ≡ collapse 9 (codes "a|||||b|c"))
test_collapse_done = collapse-done (codes "a|||||b|c") 3

abbrev ann : Actor
ann = record { company_id = 7; user_id = 3; perms = grants_of_agent; coverage = 11 ∷ [] }

abbrev bob : Actor
bob = record { company_id = 7; user_id = 4; perms = grants_of_agent; coverage = 11 ∷ [] }

abbrev close_params : Dict Str
close_params = (codes "case", codes "R-12") ∷ []

abbrev stored : PendingStore
stored =
    (
      codes "ab01",
      record {
        company_id = 7;
        user_id = 3;
        tool_id = codes "case.close";
        params = close_params;
        expires = 900;
      },
    )
    ∷ []

test_take_pending_iff :
    ((take_pending 900 ann (codes "ab01") stored).1 ≡ some (codes "case.close", close_params)) ↔ (
      (expires : ℕ) × (900 ≤ expires)
      × (find (codes "ab01") stored
          ≡ some (record {
            company_id = 7;
            user_id = 3;
            tool_id = codes "case.close";
            params = close_params;
            expires = expires;
          })))
test_take_pending_iff =
    take_pending_iff 900 ann (codes "ab01") (codes "case.close") close_params stored

ann_takes : (take_pending 900 ann (codes "ab01") stored).1 ≡ some (codes "case.close", close_params)
unfolding take_pending find str_eq
ann_takes = refl

bob_does_not : (take_pending 900 bob (codes "ab01") stored).1 ≡ none
unfolding take_pending find str_eq
bob_does_not = refl

abbrev in_between : List Request
in_between =
    taken 905 ann (codes "ab01")
    ∷ Confirming.proposed 910 (some (codes "cd02")) ann (codes "case.close") close_params
    ∷ []

take_pending-once_example :
    (take_pending 920 ann
      (codes "ab01")
      (serve_all (take_pending 900 bob (codes "ab01") stored).0 in_between)).1
    ≡ none
unfolding str_eq
take_pending-once_example =
    take_pending-once 900 920 bob ann (codes "ab01") stored in_between (tt, (refl, tt))

abbrev after_proposal : PendingStore
after_proposal =
    (put_pending 800 (some (codes "cd02")) ann (codes "case.close") close_params stored).0

test_put_pending_take :
    ((take_pending 900 ann (codes "cd02") after_proposal).1
      ≡ some (codes "case.close", close_params))
    × (find (codes "ab01") after_proposal ≡ passing (is_live 800) (find (codes "ab01") stored))
unfolding find str_eq
test_put_pending_take =
    put_pending-take 800 900 (codes "cd02") (codes "ab01") ann (codes "case.close") close_params
      stored (refl, tt) refl

abbrev close_tool : Tool
close_tool = record {
  id = codes "case.close";
  kind = codes "write";
  handler = codes "close";
  audit = codes "close_case";
  requires_permission = codes "report.close";
  compose = record {
    mode = codes "template";
    headline = codes "Closed {case}";
    headline_i18n = [];
    confirm = codes "Close {case}?";
    row = [];
    cite = [];
    columns = [];
  };
}

abbrev desk : Orchestrator
desk = record {
  catalog = (codes "case.close", close_tool) ∷ [];
  handlers = (codes "close", λ q. ok (q.params ∷ [])) ∷ [];
  audit = λ action. none;
  now = 800;
  fresh_id = some (codes "cd02");
}

abbrev picked : Selection ℕ
picked = record {
  tool_id = codes "case.close";
  score = 81;
  runner_up = 40;
  matched = true;
  params = close_params;
  perm_filtered = false;
  missing_params = [];
  specificity = 0;
  entities = 0;
  margin_rejected = false;
}

-- Without a store the write tool runs, after its audit entry.
closed_at_once :
    (handle 0 desk ann (codes "close it") picked none).effects
    ≡ audited (codes "close_case") ann (codes "case.close")
      ∷ ran (record {
        tool = close_tool;
        text = codes "close it";
        params = close_params;
        coverage = 11 ∷ [];
        actor = ann;
      })
      ∷ []
unfolding handle find is_write str_eq
closed_at_once = refl

handle-IsAccounted_example :
    IsAccounted desk (handle 0 desk ann (codes "close it") picked none).effects
handle-IsAccounted_example = handle-IsAccounted 0 desk ann (codes "close it") picked none

-- With a store it is proposed.
only_proposed :
    (handle 0 desk ann (codes "close it") picked (some stored)).effects
    ≡ audited (codes "close_case.proposed") ann (codes "case.close") ∷ []
unfolding handle find is_write str_eq put_pending
only_proposed = refl

handle-IsQuiet_example :
    All IsQuiet (handle 0 desk ann (codes "close it") picked (some stored)).effects
handle-IsQuiet_example = handle-IsQuiet 0 desk ann (codes "close it") picked stored

confirm_runs : length (confirm {Score = ℕ} 0 desk ann (codes "ab01") (some stored)).effects ≡ 2
unfolding confirm find str_eq take_pending can starts_with ends_with trim_suffix
confirm_runs = refl

confirm-IsConsented_example :
    All
      (IsConsented desk ann (codes "ab01") stored)
      (confirm {Score = ℕ} 0 desk ann (codes "ab01") (some stored)).effects
confirm-IsConsented_example = confirm-IsConsented {Score = ℕ} 0 desk ann (codes "ab01") stored

abbrev close_rows : Query → Result HandlerError (List Row)
close_rows q = ok (q.params ∷ [])

handle-confirm_example :
    let o' = record desk { now = 900 } in
    let proposal = handle {Score = ℕ} 0 desk ann (codes "close it") picked (some stored) in
    let first = confirm {Score = ℕ} 0 o' ann (codes "cd02") proposal.store in
    let second = confirm {Score = ℕ} 0 o' ann (codes "cd02") first.store in
    (proposal.response.pending
      ≡ some (record { id = codes "cd02"; summary = proposal_summary close_tool close_params }))
    × (proposal.effects ≡ audited (codes "close_case.proposed") ann (codes "case.close") ∷ [])
    × (first.effects
        ≡ audited (codes "close_case") ann (codes "case.close")
          ∷ ran (query_of {Score = ℕ} 0 desk close_tool ann [] close_params)
          ∷ [])
    × (second.error ≡ some not_found)
    × (second.effects ≡ [])
unfolding find is_write str_eq can starts_with ends_with trim_suffix
handle-confirm_example =
    handle-confirm 0 desk close_tool close_rows ann (codes "close it") (codes "cd02") picked stored
      900 refl refl refl refl refl refl refl refl refl (omega arith)
