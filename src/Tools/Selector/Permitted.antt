-- ===== src/Tools/Selector/Permitted.antt =====
-- About the permissions of the tools that the selectors name.
use kb_retv_services.Prelude.{
  ◌≡◌, refl, ◌⊎◌, inl, inr, Bool, true, false, not, ◌&&◌, Option, none, some, List, [], ◌∷◌,
  Bool-cases, all, All, Result, ok, err, Result-cases, ok_inj, err_ne_ok, if_both,
}
use kb_retv_services.Prelude.Str.{Str, codes, str_eq, trim_space, is_empty}
use kb_retv_services.Prelude.Dict.{Dict, find}
use mathlib.Core.Path.{subst}
use mathlib.Core.Option.{some_inj, none-ne-some}
use kb_retv_services.Perms.{can}
use kb_retv_services.Tools.{Tool}
use kb_retv_services.Skeleton.Response.{Selection}
use kb_retv_services.Tools.Params.{ParamSources, extract_params}
use kb_retv_services.Tools.Selector.{
  Scores, ToolVectors, Scan, no_selection, prefer_over, score_of, ranked, candidate, evidence,
  lacking, considered, after_extract, visit, scan, start, is_close, settle, settled, select,
}
use kb_retv_services.Tools.Selector.Cascade.{
  Pick, ModelTool, is_sure, cascade, or_here, allowed_tools, tool_by_id, of_tool, model_select,
}

-- The catalogue has the tool of this id, and the user has the permission that it requires.
abbrev pub MayUse : Dict Tool → List Str → Str → Type 0
MayUse catalog granted id =
    (t : Tool) × (find id catalog ≡ some t) × (can granted t.requires_permission ≡ true)

-- A selection names no tool at all, or one that the user may use.
abbrev pub IsVisible : {F : Type 0} → Dict Tool → List Str → Selection F → Type 0
IsVisible catalog granted sel =
    ((sel.tool_id ≡ []) × (sel.matched ≡ false)) ⊎ MayUse catalog granted sel.tool_id

module _ {F : Type 0} (f : Scores F) (sources : ParamSources) (text intent : Str)
    (granted : List Str) (catalog : Dict Tool) where
  abbrev V : Selection F → Type 0
  V sel = IsVisible catalog granted sel

  -- All that a scan has found so far is visible.
  abbrev AllVisible : Scan F → Type 0
  AllVisible c = V c.best × V c.near_miss × V c.needs_params

  -- The selector has the tools of the catalogue, with their permissions.
  abbrev pub IsListed : ToolVectors F → Type 0
  IsListed t = (u : Tool) × (find t.id catalog ≡ some u) × (u.requires_permission ≡ t.perm)

  module _ (t : ToolVectors F) (may : MayUse catalog granted t.id) where
    ranked-AllVisible :
        (c : Scan F) → AllVisible c → AllVisible (ranked f sources text intent granted t c)
    unfolding ranked
    ranked-AllVisible c (b, m, n) = (b, if_both V _ (inr may) m, n)

    considered-AllVisible :
        (found : Dict Str) (satisfied : Bool) (c : Scan F)
        → AllVisible c
        → AllVisible (considered f sources text intent granted t found satisfied c)
    unfolding considered lacking candidate
    considered-AllVisible found false c (b, m, n) =
        if_both AllVisible
          (f.le t.accept (score_of f sources text intent granted t)
            && f.lt c.needs_params.score (score_of f sources text intent granted t))
          (b, m, inr may) (b, m, n)
    considered-AllVisible found true c (b, m, n) =
        if_both AllVisible (f.lt (evidence f sources text intent granted t found) t.accept)
          (b, m, n)
          (if_both AllVisible
            (prefer_over f (candidate f sources text intent granted t found) c.best) (inr may, m, n)
            (b, m, n))

    after_extract-AllVisible :
        (c c' : Scan F) (r : Result Str (Dict Str × Bool))
        → AllVisible c
        → after_extract f sources text intent granted t c r ≡ ok c'
        → AllVisible c'
    unfolding after_extract
    after_extract-AllVisible c c' (err e) p h = absurd (err_ne_ok h)
    after_extract-AllVisible c c' (ok (found, satisfied)) p h =
        subst AllVisible (ok_inj h) (considered-AllVisible found satisfied c p)

  visit-AllVisible :
      (t : ToolVectors F)
      → IsListed t
      → (c c' : Scan F) → AllVisible c
      → visit f sources text intent granted t c ≡ ok c'
      → AllVisible c'
  unfolding visit
  visit-AllVisible t (u, is, same) c c' p h = elim (Bool-cases (can granted t.perm)) [
    | inr no_perm ↦ subst AllVisible (ok_inj (rw no_perm at h)) p
    | inl perm ↦ elim (Bool-cases (f.lt (score_of f sources text intent granted t) t.floor)) [
      | inl low ↦
          subst AllVisible (ok_inj (rw (perm, low) at h))
            (ranked-AllVisible t (u, is, rw same perm) c p)
      | inr fair ↦
          after_extract-AllVisible t (u, is, rw same perm)
            (ranked f sources text intent granted t c) c' (extract_params sources text t.params)
            (ranked-AllVisible t (u, is, rw same perm) c p) (rw (perm, fair) at h)
    ]
  ]

  scan-AllVisible :
      (ts : List (ToolVectors F))
      → All IsListed ts
      → (c c' : Scan F) → AllVisible c
      → scan f sources text intent granted ts c ≡ ok c'
      → AllVisible c'
  unfolding scan
  scan-AllVisible [] listed c c' p h = subst AllVisible (ok_inj h) p
  scan-AllVisible (t ∷ ts) (one, listed) c c' p h =
      elim (Result-cases (visit f sources text intent granted t c)) [
        | inl (e, is) ↦ absurd (err_ne_ok (rw (scan, is) at h))
        | inr (c1, is) ↦
            scan-AllVisible ts listed c1 c' (visit-AllVisible t one c c1 p is) (rw (scan, is) at h)
      ]

  settle-IsVisible : (margin : F) (c : Scan F) → AllVisible c → V (settle f margin c)
  unfolding settle
  settle-IsVisible margin c (b, m, n) =
      if_both V (not c.best.matched) (if_both V (not (is_empty c.needs_params.tool_id)) n m) (
        if_both V (is_close f margin c) (elim b [ inl (e, lost) ↦ inl (e, refl) | inr p ↦ inr p ])
          b)

  settled-IsVisible :
      (margin : F) (r : Result Str (Scan F)) (sel : Selection F)
      → ((c : Scan F) → r ≡ ok c → AllVisible c)
      → settled f margin r ≡ ok sel
      → V sel
  unfolding settled
  settled-IsVisible margin (err e) sel p h = absurd (err_ne_ok h)
  settled-IsVisible margin (ok c) sel p h =
      subst V (ok_inj h) (settle-IsVisible margin c (p c refl))

  -- The selector names only tools that the user may use, also where it selects none of them: a
  -- near miss, a tool that lacks parameters and one that was rejected for its margin included.
  pub select-IsVisible :
      (margin : F) (tools : List (ToolVectors F)) (sel : Selection F)
      → All IsListed tools
      → select f sources text intent granted margin tools ≡ ok sel
      → IsVisible catalog granted sel
  unfolding select
  select-IsVisible margin tools sel listed h =
      settled-IsVisible margin (scan f sources text intent granted tools (start f)) sel
        (λ c is.
          scan-AllVisible tools listed (start f) c
            (inl (refl, refl), inl (refl, refl), inl (refl, refl)) is)
        h

or_here-All :
    (P : ModelTool → Type 0) (id : Str) (u t : ModelTool) (o : Option ModelTool)
    → P u
    → ((v : ModelTool) → o ≡ some v → P v)
    → or_here id u o ≡ some t
    → P t
unfolding or_here
or_here-All P id u t (some v) p all h = all t h
or_here-All P id u t none p all h = elim (Bool-cases (str_eq u.tool.id id)) [
  | inl here ↦ subst P (some_inj.0 (rw here at h)) p
  | inr other ↦ absurd (none-ne-some t (rw other at h))
]

tool_by_id-All :
    (P : ModelTool → Type 0) (id : Str) (ts : List ModelTool) (t : ModelTool)
    → All P ts
    → tool_by_id id ts ≡ some t
    → P t
unfolding tool_by_id
tool_by_id-All P id [] t all h = absurd cc
tool_by_id-All P id (u ∷ us) t (p, all) h =
    or_here-All P id u t (tool_by_id id us) p (λ v is. tool_by_id-All P id us v all is) h

-- A selection that is matched names a tool that the user may use.
abbrev pub IsAllowed : {F : Type 0} → Dict Tool → List Str → Selection F → Type 0
IsAllowed catalog granted sel = (sel.matched ≡ false) ⊎ MayUse catalog granted sel.tool_id

module _ {F : Type 0} (f : Scores F) (granted : List Str) (catalog : Dict Tool) where
  pub cascade-IsAllowed :
      (accept margin : F) (first second : Pick F)
      → IsAllowed catalog granted first.0
      → IsAllowed catalog granted second.0
      → IsAllowed catalog granted (cascade f accept margin first second).0
  unfolding cascade
  cascade-IsAllowed accept margin first (sel, none) p q =
      if_both (λ (k : Pick F). IsAllowed catalog granted k.0) (is_sure f accept margin first) p q
  cascade-IsAllowed accept margin first (sel, some e) p q =
      if_both (λ (k : Pick F). IsAllowed catalog granted k.0) (is_sure f accept margin first) p p

  -- The model selector has the tools of the catalogue.
  abbrev pub IsKnown : ModelTool → Type 0
  IsKnown t = find t.tool.id catalog ≡ some t.tool

  allowed-MayUse :
      (ts : List ModelTool)
      → All IsKnown ts
      → All (λ t. MayUse catalog granted t.tool.id) (allowed_tools granted ts)
  unfolding allowed_tools
  allowed-MayUse [] all = tt
  allowed-MayUse (t ∷ ts) (p, all) = elim (Bool-cases (can granted t.tool.requires_permission)) [
    | inl may ↦ rw may ((t.tool, p, may), allowed-MayUse ts all)
    | inr no_perm ↦ rw no_perm (allowed-MayUse ts all)
  ]

  of_tool-IsAllowed :
      (id : Str) (params : Dict Str) (o : Option ModelTool)
      → ((t : ModelTool) → o ≡ some t → MayUse catalog granted t.tool.id)
      → IsAllowed catalog granted (of_tool f id params o).0
  unfolding of_tool
  of_tool-IsAllowed id params none may = inl refl
  of_tool-IsAllowed id params (some t) may = inr (may t refl)

  pub model_select-IsAllowed :
      (ts : List ModelTool) (answer : Result Str (Str × Dict Str))
      → All IsKnown ts
      → IsAllowed catalog granted (model_select f granted ts answer).0
  unfolding model_select
  model_select-IsAllowed ts (err e) all = inl refl
  model_select-IsAllowed ts (ok (id, params)) all =
      if_both (λ (k : Pick F). IsAllowed catalog granted k.0)
        (str_eq (trim_space id) (codes "no_tool")) {x = (no_selection f, none)} (inl refl)
        (of_tool-IsAllowed (trim_space id) params
          (tool_by_id (trim_space id) (allowed_tools granted ts))
          (λ t is.
            tool_by_id-All (λ t. MayUse catalog granted t.tool.id) (trim_space id)
              (allowed_tools granted ts) t (allowed-MayUse ts all) is))
