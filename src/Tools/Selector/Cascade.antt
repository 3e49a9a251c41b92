-- ===== src/Tools/Selector/Cascade.antt =====
-- The other selectors: `Cascade.Select` of internal/application/tools/cascade.go, and
-- `ModelSelector.Select` of modelselector.go, which asks a model and reads its answer.
use kb_retv_services.Prelude.{
  Bool, true, false, ◌&&◌, Option, none, some, List, [], ◌∷◌, if◌then◌else◌, any, keep, Result, ok,
  err,
}
use kb_retv_services.Prelude.Str.{Str, codes, str_eq, trim_space}
use kb_retv_services.Prelude.Dict.{Dict}
use kb_retv_services.Perms.{can}
use kb_retv_services.Tools.{Tool}
use kb_retv_services.Skeleton.Response.{Selection}
use kb_retv_services.Tools.Selector.{Scores, no_selection}

-- What `Select` returns: a selection and an error, which may both be there.
abbrev pub Pick : Type 0 → Type 0
Pick F = Selection F × Option Str

-- `modelTool`: a tool of the catalogue as the model selector sees it.
pub record ModelTool : Type 0 where
  pub tool : Tool
  pub param_names : List Str

-- The tools that the user may use, and the one with an id: the last, as in a map.
unfoldable pub allowed_tools : List Str → List ModelTool → List ModelTool
unfolding can
allowed_tools granted catalog = keep (λ t. can granted t.tool.requires_permission) catalog

unfoldable pub or_here : Str → ModelTool → Option ModelTool → Option ModelTool
unfolding str_eq
or_here id t (some u) = some u
or_here id t none = if str_eq t.tool.id id then some t else none

unfoldable pub tool_by_id : Str → List ModelTool → Option ModelTool
unfolding or_here
tool_by_id id [] = none
tool_by_id id (t ∷ ts) = or_here id t (tool_by_id id ts)

unfoldable pub declared : ModelTool → Dict Str → Dict Str
unfolding str_eq
declared t params = keep (λ kv. any (str_eq (kv.0)) t.param_names) params

module _ {F : Type 0} (f : Scores F) where
  -- The answer of the selector by similarity, which returns an empty selection with its error.
  abbrev pub as_pick : Result Str (Selection F) → Pick F
  as_pick (err e) = (no_selection f, some e)
  as_pick (ok sel) = (sel, none)

  -- The first selector is sure enough of its tool.
  abbrev pub is_sure : F → F → Pick F → Bool
  is_sure accept margin (sel, some e) = false
  is_sure accept margin (sel, none) =
      sel.matched && f.le accept sel.score && f.le margin (f.sub sel.score sel.runner_up)

  abbrev pub second_or : Pick F → Pick F → Pick F
  second_or first (sel, none) = (sel, none)
  second_or first (sel, some e) = first

  -- `Cascade.Select`; the second selector is asked only where the first is not sure.
  unfoldable pub cascade : F → F → Pick F → Pick F → Pick F
  cascade accept margin first second =
      if is_sure accept margin first then first else second_or first second

  unfoldable pub of_tool : Str → Dict Str → Option ModelTool → Pick F
  unfolding declared
  of_tool id params none =
      (record (no_selection f) { tool_id = id }, some (codes "tools: model selector: unknown tool"))
  of_tool id params (some t) = (
    record (no_selection f) { tool_id = t.tool.id; matched = true; params = declared t params },
    none,
  )

  -- `ModelSelector.Select`, by the tool and the parameters that the answer of the model names.
  unfoldable pub model_select : List Str → List ModelTool → Result Str (Str × Dict Str) → Pick F
  unfolding tool_by_id trim_space allowed_tools of_tool str_eq
  model_select granted catalog (err e) = (no_selection f, some e)
  model_select granted catalog (ok (id, params)) =
      if str_eq (trim_space id) (codes "no_tool")
      then (no_selection f, none)
      else of_tool (trim_space id) params
          (tool_by_id (trim_space id) (allowed_tools granted catalog))
