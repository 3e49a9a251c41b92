-- ===== src/Skeleton/Response.antt =====
-- Responses and how they are composed: the types and `compose` to `buildTable` of
-- internal/application/skeleton/orchestrator.go, `proposalSummary` of pending.go. A nil slice
-- or map is
-- the empty one.
use kb_retv_services.Prelude.{
  ℕ, Bool, true, false, Option, none, some, List, [], ◌∷◌, ◌++◌, map, if◌then◌else◌, length,
}
use kb_retv_services.Prelude.Str.{Str, codes, trim_space, is_empty}
use kb_retv_services.Prelude.Dict.{Dict, find, remove}
use kb_retv_services.Tools.{Tool, ToolColumn}
use kb_retv_services.Skeleton.Template.{
  Row, fill_template, tidy_template, headline_fields, render_headline, render_headline_variants,
}

-- `Selection` of internal/application/tools/selector.go.
pub record Selection (Score : Type 0) : Type 0 where
  pub tool_id : Str
  pub score : Score
  pub runner_up : Score
  pub matched : Bool
  pub params : Dict Str
  pub specificity : ℕ
  pub entities : ℕ
  pub perm_filtered : Bool
  pub missing_params : List Str
  pub margin_rejected : Bool

pub record PendingRef : Type 0 where
  pub id : Str
  pub summary : Str

pub record ToolTable : Type 0 where
  pub tool_id : Str
  pub columns : List ToolColumn
  pub rows : List Row

pub record Response (Score : Type 0) : Type 0 where
  pub matched : Bool
  pub called : Bool
  pub tool_id : Str
  pub handler : Str
  pub kind : Str
  pub required_permission : Str
  pub params : Dict Str
  pub selection_score : Score
  pub runner_up_score : Score
  pub row_count : ℕ
  pub incomplete : Bool
  pub headline : Str
  pub headline_variants : Dict Str
  pub lines : List Str
  pub table : Option ToolTable
  pub compose_mode : Str
  pub perm_filtered : Bool
  pub missing_params : List Str
  pub pending : Option PendingRef
  pub cite : Str
  pub cite_values : List Str

abbrev or_empty : Option Str → Str
or_empty none = []
or_empty (some v) = v

-- `row[key]`.
abbrev pub at_key : Row → Str → Str
at_key row key = or_empty (find key row)

-- `strings.Join(parts, "|")`.
join_bars : List Str → Str
join_bars [] = []
join_bars (p ∷ []) = p
join_bars (p ∷ q ∷ ps) = p ++ codes "|" ++ join_bars (q ∷ ps)

cells : List ToolColumn → Row → List Str
cells columns row = map (λ c. at_key row c.key) columns

row_of : List ToolColumn → Tool → Row → Str
unfolding cells join_bars
row_of [] tool row = fill_template tool.compose.row row
row_of (c ∷ cs) tool row = join_bars (cells (c ∷ cs) row)

-- `rowLine`.
unfoldable pub row_line : Tool → Row → Str
unfolding row_of
row_line tool row = row_of tool.compose.columns tool row

values_at : Str → List Row → List Str
values_at cite [] = []
values_at cite (row ∷ rows) =
    let v = trim_space (at_key row cite) in
    let rest = values_at cite rows in if is_empty v then rest else v ∷ rest

-- `citeValues`.
unfoldable pub cite_values_of : Str → List Row → List Str
unfolding values_at
cite_values_of cite rows = if is_empty cite then [] else values_at cite rows

table_row : List ToolColumn → Row → Row
table_row [] row = []
table_row (c ∷ cs) row = (c.key, at_key row c.key) ∷ remove c.key (table_row cs row)

table_of : List ToolColumn → Str → List Row → Option ToolTable
unfolding table_row
table_of [] id rows = none
table_of (c ∷ cs) id rows =
    some (record { tool_id = id; columns = c ∷ cs; rows = map (table_row (c ∷ cs)) rows })

-- `buildTable`.
unfoldable pub build_table : Tool → List Row → Option ToolTable
unfolding table_of
build_table tool rows = table_of tool.compose.columns tool.id rows

module _ {Score : Type 0} (zero_score : Score) where
  -- `Response{}`.
  abbrev pub no_response : Response Score
  no_response = record {
    matched = false;
    called = false;
    tool_id = [];
    handler = [];
    kind = [];
    required_permission = [];
    params = [];
    selection_score = zero_score;
    runner_up_score = zero_score;
    row_count = 0;
    incomplete = false;
    headline = [];
    headline_variants = [];
    lines = [];
    table = none;
    compose_mode = [];
    perm_filtered = false;
    missing_params = [];
    pending = none;
    cite = [];
    cite_values = [];
  }

  -- `compose`.
  unfoldable pub compose_response : Tool → List Row → Dict Str → Response Score
  compose_response tool rows params =
      let fields = headline_fields rows params in
      let (headline, incomplete) = render_headline tool.compose.headline (length rows) fields in
      record no_response {
        matched = true;
        tool_id = tool.id;
        kind = tool.kind;
        incomplete = incomplete;
        headline = headline;
        headline_variants =
            render_headline_variants tool.compose.headline_i18n (length rows) fields;
        lines = map (λ row. tidy_template (row_line tool row)) rows;
        table = build_table tool rows;
        compose_mode = tool.compose.mode;
        cite = tool.compose.cite;
        cite_values = cite_values_of tool.compose.cite rows;
      }

-- `proposalSummary`.
unfoldable pub proposal_summary : Tool → Dict Str → Str
proposal_summary tool params =
    let tmpl =
      if is_empty tool.compose.confirm then tool.compose.headline else tool.compose.confirm in
    tidy_template (fill_template tmpl params)
