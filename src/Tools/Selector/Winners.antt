-- ===== src/Tools/Selector/Winners.antt =====
-- About the tool that the selector prefers.
use kb_retv_services.Prelude.{ℕ, suc, ◌≤◌, ◌≡◌, ◌⊎◌, true, false, List, if◌then◌else◌, ok}
use kb_retv_services.Prelude.Str.{Str}
use kb_retv_services.Prelude.Dict.{Dict}
use kb_retv_services.Perms.{can}
use kb_retv_services.Skeleton.Response.{Selection}
use kb_retv_services.Tools.Params.{ParamSources, extract_params}
use kb_retv_services.Tools.Selector.{
  Scores, ToolVectors, Scan, prefer_over, score_of, candidate, evidence,
}

-- How far a selection is preferred for the entities that it matched.
abbrev rank_of : {F : Type 0} → Selection F → ℕ
rank_of sel = if sel.matched then suc sel.entities else 0

module _ {F : Type 0} (f : Scores F) where
  abbrev chosen : Selection F → Selection F → Selection F
  unfolding prefer_over
  chosen cand best = if prefer_over f cand best then cand else best

  module _ (sources : ParamSources) (text intent : Str) (granted : List Str) where
    abbrev rank : Scan F → ℕ
    rank c = rank_of c.best

    abbrev pub scored : ToolVectors F → F
    unfolding score_of
    scored t = score_of f sources text intent granted t

    module _ (t : ToolVectors F) (found : Dict Str) (c : Scan F) where
      abbrev cand : Selection F
      cand = candidate f sources text intent granted t found

      abbrev after_test : Scan F
      unfolding prefer_over
      after_test = if prefer_over f cand c.best then record c { best = cand } else c

    -- A tool that passes all tests with the parameters that the message gives it.
    abbrev pub IsCandidate : ToolVectors F → Dict Str → Type 0
    IsCandidate t found =
        (can granted t.perm ≡ true)
        × (f.lt (scored t) t.floor ≡ false)
        × (extract_params sources text t.params ≡ ok (found, true))
        × (f.lt (evidence f sources text intent granted t found) t.accept ≡ false)

    -- A selection wins with at least so many entities, or was rejected for its margin.
    abbrev WinsWith : ℕ → Selection F → Type 0
    WinsWith n sel = (sel.margin_rejected ≡ true) ⊎ ((sel.matched ≡ true) × (n ≤ sel.entities))
