-- ===== src/Examples/Selections.antt =====
-- Concrete messages for the selectors of tools.
use kb_retv_services.Prelude.{
  ℕ, ◌+◌, ◌-◌, ◌*◌, ◌≡◌, refl, true, false, none, List, [], ◌∷◌, ltb, leb, All, ok,
}
use kb_retv_services.Prelude.Str.{Str, codes, str_eq, starts_with, to_lower, ends_with, trim_suffix}
use kb_retv_services.Prelude.Dict.{Dict, find}
use kb_retv_services.Perms.{can}
use kb_retv_services.Tools.{Tool}
use kb_retv_services.Tools.Caseref.{parse_case_ref}
use kb_retv_services.Prelude.Str.Numbers.{value_from}
use kb_retv_services.Tools.Params.{Param, ParamSources, entity_matched, required_matched}
use kb_retv_services.Tools.Selector.{Scores, ToolVectors, select, evidence, candidate, no_selection}
use kb_retv_services.Tools.Selector.Cascade.{ModelTool, as_pick, cascade, model_select}
use kb_retv_services.Tools.Selector.Permitted.{IsListed, IsKnown}
use kb_retv_services.Skeleton.Pending.{Actor}
use kb_retv_services.Skeleton.Response.{Selection}
use kb_retv_services.Skeleton.Orchestrator.{Orchestrator, handle}
use kb_retv_services.Skeleton.Orchestrator.Effects.Permitted.{IsPermitted, turn-IsPermitted}

-- Scores in thousandths.
abbrev mills : Scores ℕ
mills = record {
  lt = ltb;
  le = leb;
  add = λ a b. a + b;
  sub = λ a b. a - b;
  times = λ a n. a * n;
  thousandths = λ n. n;
}

abbrev sources : ParamSources
sources = record {
  compile_error = λ p. none;
  find_in = λ p t. [];
  names = none;
  match_name = λ names t. [];
  cited = λ p t. [];
}

abbrev case_param : Param
case_param = record {
  name = codes "case";
  required = true;
  pattern = codes "(?i)\\bREP-?\\d+\\b";
  keywords = [];
  lookup = [];
}

abbrev track : ToolVectors ℕ
track = record {
  id = codes "track";
  perm = codes "report.view";
  intent = [];
  accept = 550;
  floor = 350;
  similarities = 300 ∷ 500 ∷ [];
  params = case_param ∷ [];
}

abbrev workload : ToolVectors ℕ
workload = record {
  id = codes "workload";
  perm = codes "report.view";
  intent = [];
  accept = 550;
  floor = 350;
  similarities = 600 ∷ [];
  params = [];
}

abbrev grants : List Str
grants = codes "report.*" ∷ []

abbrev asked : Str
asked = codes "rep7"

abbrev case_found : Dict Str
case_found = (codes "case", codes "REP-7") ∷ []

abbrev tracked : Selection ℕ
tracked = record {
  tool_id = codes "track";
  score = 500;
  runner_up = 500;
  matched = true;
  params = case_found;
  specificity = 1;
  entities = 1;
  perm_filtered = false;
  missing_params = [];
  margin_rejected = false;
}

-- With a margin it is rejected: the second best score is its own.
track_rejected :
    select mills sources asked [] grants 50 (workload ∷ track ∷ [])
    ≡ ok (record (no_selection mills) {
      tool_id = codes "track";
      score = 500;
      runner_up = 500;
      margin_rejected = true;
    })
unfolding select can starts_with ends_with trim_suffix str_eq parse_case_ref value_from to_lower
    entity_matched evidence required_matched candidate
track_rejected = refl

abbrev tool_of : Str → Tool
tool_of id = record {
  id = id;
  kind = codes "read";
  handler = codes "reports.list";
  audit = [];
  requires_permission = codes "report.view";
  compose = record {
    mode = codes "template";
    headline = codes "found";
    headline_i18n = [];
    confirm = [];
    row = [];
    cite = [];
    columns = [];
  };
}

abbrev catalog : Dict Tool
catalog =
    (codes "track", tool_of (codes "track")) ∷ (codes "workload", tool_of (codes "workload")) ∷ []

abbrev desk : Orchestrator
desk = record {
  catalog = catalog;
  handlers = (codes "reports.list", λ q. ok (q.params ∷ [])) ∷ [];
  audit = λ action. none;
  now = 800;
  fresh_id = none;
}

abbrev eve : Actor
eve = record { company_id = 7; user_id = 3; perms = grants; coverage = 11 ∷ [] }

tools-IsListed : All (IsListed mills sources asked [] grants catalog) (workload ∷ track ∷ [])
unfolding find str_eq
tools-IsListed =
    ((tool_of (codes "workload"), refl, refl), ((tool_of (codes "track"), refl, refl), tt))

abbrev known : List ModelTool
known = record { tool = tool_of (codes "track"); param_names = codes "case" ∷ [] } ∷ []

known-IsKnown : All (IsKnown mills grants catalog) known
unfolding find str_eq
known-IsKnown = (refl, tt)

turn-IsPermitted_example :
    let pick =
      cascade mills 600 50
        (as_pick mills (select mills sources asked [] grants 0 (workload ∷ track ∷ [])))
        (model_select mills grants known (ok (codes "track", []))) in
    All (IsPermitted eve) (handle 0 desk eve asked pick.0 none).effects
turn-IsPermitted_example =
    turn-IsPermitted mills 0 desk eve asked asked [] sources (workload ∷ track ∷ []) known 600 50 0
      (ok (codes "track", [])) none tools-IsListed known-IsKnown
