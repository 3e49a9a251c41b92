-- ===== src/Rag/Context.antt =====
-- The replacement of small chunks by their parents: internal/ai/rag/context_assembler.go. The
-- database query is a function of the chunk identifiers.
use kb_retv_services.Prelude.{
  ℕ, zero, suc, Bool, true, false, not, ◌||◌, Option, none, some, List, [], ◌∷◌, ◌++◌, map, ◌==◌,
  if◌then◌else◌, Result, ok, err,
}
use kb_retv_services.Prelude.Str.{Str, codes, str_eq, starts_with, contains, is_empty}
use kb_retv_services.Prelude.Dict.{Dict, find, put}
use kb_retv_services.Llm.Errors.{GoError, root, canceled, deadline_exceeded}
use kb_retv_services.Rag.Types.{Floats, Candidate}

pub record ChunkContext : Type 0 where
  pub child_id : Str
  pub parent_id : Str
  pub article_id : Str
  pub title : Str
  pub content : Str

-- `errors.Is(err, context.Canceled) || errors.Is(err, context.DeadlineExceeded)`.
unfoldable pub is_cancelled : GoError → Bool
is_cancelled e = elim (root e) [ canceled ↦ true | deadline_exceeded ↦ true | _ ↦ false ]

-- `before, after, ok := strings.Cut(s, ":")`.
cut : Str → Option (Str × Str)
cut [] = none
cut (c ∷ s) =
    let rest = cut s in
    if c == b':' then some ([], s) else elim rest [ none ↦ none | some (b, a) ↦ some (c ∷ b, a) ]

abbrev chunk_of_pair : Option (Str × Str) → Str
chunk_of_pair none = []
chunk_of_pair (some (before, after)) =
    if is_empty before || is_empty after || contains after (codes ":") then [] else after

-- `strings.TrimPrefix(s, p)`, where `p` is a prefix of `s`.
abbrev drop : ℕ → Str → Str
drop zero s = s
drop (suc n) [] = []
drop (suc n) (c ∷ s) = drop n s

abbrev first_nonempty : Str → Str → Str
first_nonempty a b = if is_empty a then b else a

mem_str : Str → List Str → Bool
mem_str k [] = false
mem_str k (j ∷ js) = str_eq j k || mem_str k js

module _ {F : Type 0} (fl : Floats F) where
  unfoldable pub candidate_chunk_id : Candidate F → Str
  unfolding starts_with cut contains
  candidate_chunk_id c =
      if not (is_empty c.chunk_id)
      then c.chunk_id
      else if starts_with c.id (codes "chunk:")
      then drop 6 c.id
      else chunk_of_pair (cut c.id)

  chunk_ids_after : List Str → List (Candidate F) → List Str
  unfolding candidate_chunk_id mem_str
  chunk_ids_after seen [] = []
  chunk_ids_after seen (c ∷ cs) =
      let id = candidate_chunk_id c in
      let here = chunk_ids_after (id ∷ seen) cs in
      let skip = chunk_ids_after seen cs in
      if is_empty id || mem_str id seen then skip else id ∷ here

  -- `candidateChunkIDs`.
  unfoldable pub candidate_chunk_ids : List (Candidate F) → List Str
  unfolding chunk_ids_after
  candidate_chunk_ids cs = chunk_ids_after [] cs

  abbrev parent_key : Candidate F → ChunkContext → Str
  parent_key c row =
      if is_empty row.parent_id
      then c.id
      else if is_empty row.article_id
      then codes "parent:" ++ row.parent_id
      else row.article_id ++ codes ":" ++ row.parent_id

  -- `candidateWithParentContext`.
  abbrev with_parent_context : Candidate F → ChunkContext → Candidate F
  with_parent_context c row = record {
    id = parent_key c row;
    article_id = first_nonempty row.article_id c.article_id;
    chunk_id = first_nonempty c.chunk_id row.child_id;
    parent_chunk_id = row.parent_id;
    title = first_nonempty row.title c.title;
    content = first_nonempty row.content c.content;
    source = c.source;
    score = c.score;
  }

  pub by_child : List ChunkContext → Dict ChunkContext → Dict ChunkContext
  by_child [] m = m
  by_child (row ∷ rows) m =
      let rest = by_child rows m in
      let added = by_child rows (put row.child_id row m) in
      if is_empty row.child_id then rest else added

  abbrev assembled_from : Candidate F → Option ChunkContext → Candidate F
  assembled_from c none = c
  assembled_from c (some row) = with_parent_context c row

  assembled : Dict ChunkContext → Candidate F → Candidate F
  unfolding candidate_chunk_id
  assembled rows c =
      let id = candidate_chunk_id c in if is_empty id then c else assembled_from c (find id rows)

  unfoldable pub merge_key : Candidate F → Str
  merge_key c =
      if is_empty c.id then c.source ++ codes ":" ++ c.title ++ codes ":" ++ c.content else c.id

  -- What the loop does with a candidate whose key is already in the output.
  raise_score : Str → F → List (Str × Candidate F) → List (Str × Candidate F)
  raise_score k s [] = []
  raise_score k s ((j, c) ∷ out) =
      if str_eq j k
      then (j, if fl.lt c.score s then record c { score = s } else c) ∷ out
      else (j, c) ∷ raise_score k s out

  -- The loop; the output so far stands with the keys under which `seen` knows it.
  unfoldable pub assemble_from :
      Dict ChunkContext → List (Candidate F) → List (Str × Candidate F) → List (Str × Candidate F)
  unfolding assembled merge_key raise_score
  assemble_from rows [] out = out
  assemble_from rows (c ∷ cs) out =
      let a = assembled rows c in
      let k = merge_key a in
      elim (find k out) [
        | none ↦ assemble_from rows cs (out ++ (k, a) ∷ [])
        | some _ ↦ assemble_from rows cs (raise_score k a.score out)
      ]

  abbrev expanded :
      List (Candidate F) → Result GoError (List ChunkContext) → Result GoError (List (Candidate F))
  expanded cs (err e) = if is_cancelled e then err e else ok cs
  expanded cs (ok []) = ok cs
  expanded cs (ok (row ∷ rows)) =
      ok (map (λ p. p.1) (assemble_from (by_child (row ∷ rows) []) cs []))

  abbrev looked_up :
      (List Str → Result GoError (List ChunkContext))
      → List (Candidate F)
      → List Str
      → Result GoError (List (Candidate F))
  looked_up source cs [] = ok cs
  looked_up source cs (id ∷ ids) = expanded cs (source (id ∷ ids))

  -- `Assemble`, where the context is not done.
  unfoldable pub assemble :
      Option (List Str → Result GoError (List ChunkContext))
      → List (Candidate F)
      → Result GoError (List (Candidate F))
  unfolding candidate_chunk_ids
  assemble none cs = ok cs
  assemble (some source) cs = looked_up source cs (candidate_chunk_ids cs)
