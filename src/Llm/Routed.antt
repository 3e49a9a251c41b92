-- ===== src/Llm/Routed.antt =====
-- The fallback along the candidates of a task route: internal/infra/llm/routed_provider.go.
-- What the
-- outside world does with one candidate is a record `Visit`; times and request ids are left out.
pub mod Fallback
use kb_retv_services.Prelude.{
  ℕ, zero, suc, ◌+◌, ◌-◌, ◌*◌, ◌/◌, ◌%◌, ◌^◌, ◌≤◌, ◌<◌, ◌≡◌, refl, sym, ap, ◌∙◌, ◌≢◌, ◌↔◌, ◌⊎◌, inl,
  inr, Bool, true, false, not, ◌&&◌, ◌||◌, Option, none, some, List, [], ◌∷◌, ◌++◌, map, arith, ltb,
  leb, ◌==◌, if◌then◌else◌, ltb→lt, lt→ltb, leb→le, le→leb, ==_iff, tests, Bool-cases, Option-cases,
  length, get_elem?, take, any, all, keep, length-append, length-take_le, length-keep_le, All,
  All-append, All-take, All-keep, Result, ok, err, Result-cases,
}
use kb_retv_services.Prelude.Int.{
  ℤ, pos, negsuc, pos_part, neg_part, sub_ℕ, ◌+ℤ◌, ◌≤ℤ◌, ◌<ℤ◌, ltb_ℤ, leb_ℤ, max_ℤ, min_ℤ, +ℤ_parts,
  eq_of_parts, int_laws, max_ℤ_bounds, min_ℤ_bounds, min_max_bounds,
}
use kb_retv_services.Prelude.Str.{
  Str, codes, str_eq, str_eq_refl, eq_of_str_eq, str_eq_iff, starts_with, contains, to_lower,
  trim_space, ends_with, itoa, is_empty,
}
use kb_retv_services.Llm.Errors.{
  GoError, app, Code, unavailable, Failure, is_disabled, route_failure, route_error, falls_back,
}

pub record RouteConfig : Type 0 where
  pub max_attempts : ℕ
  pub fallback_on : List Failure

pub record Completion : Type 0 where
  pub text : Str
  pub model : Str
  pub vendor : Str

pub record Candidate : Type 0 where
  pub connection_id : ℕ
  pub vendor : Str
  pub model : Str

-- `late` is `ctx.Err()` before the candidate is tried, `resolved` the error of `candidate.resolve`,
-- `answer` what the provider would return, and `expired` whether `ctx.Err()` is set after the call.
pub record Visit : Type 0 where
  pub candidate : Candidate
  pub late : Option GoError
  pub resolved : Option GoError
  pub answer : Result GoError Completion
  pub expired : Bool

-- A row of `RecordAttempt`.
pub record RouteAttempt : Type 0 where
  pub attempt : ℕ
  pub connection_id : ℕ
  pub status : Failure

abbrev or_text : Str → Str → Str
or_text s default = if is_empty s then default else s

-- `candidateCompletion`.
unfoldable pub candidate_completion : Candidate → Completion → Completion
candidate_completion c out = record out {
  model = or_text out.model c.model;
  vendor = or_text out.vendor c.vendor;
}

abbrev pub exhausted : GoError
exhausted = app unavailable (codes "AI task route exhausted")

-- What is returned, with the rows recorded and the candidates whose provider was asked or failed to
-- load: those that count as attempts.
pub record Routed : Type 0 where
  pub result : Result GoError Completion
  pub rows : List RouteAttempt
  pub attempts : ℕ

abbrev row : ℕ → Candidate → Option GoError → RouteAttempt
row index c e = record {
  attempt = index + 1;
  connection_id = c.connection_id;
  status = route_failure e;
}

abbrev stop_with : GoError → List RouteAttempt → ℕ → Routed
stop_with e rows n = record { result = err e; rows = rows; attempts = n }

abbrev recorded : RouteAttempt → ℕ → Routed → Routed
recorded r n rest = record rest { rows = r ∷ rest.rows; attempts = n + rest.attempts }

-- The error of an attempt: that of loading the provider, or that of the call.
abbrev pub outcome : Option GoError → Result GoError Completion → Result GoError Completion
outcome (some e) answer = err e
outcome none answer = answer

abbrev pub skipped : Option GoError → Bool
skipped none = false
skipped (some e) = is_disabled e

-- The end of an attempt: the completion, or the error that ends the call, or the fallback `rest`.
abbrev after_attempt : RouteConfig → ℕ → Visit → Result GoError Completion → Routed → Routed
after_attempt config index v (ok out) rest = record {
  result = ok (candidate_completion v.candidate out);
  rows = row index v.candidate none ∷ [];
  attempts = 1;
}
after_attempt config index v (err e) rest =
    if v.expired || not (falls_back config.fallback_on (route_failure (some e)))
    then stop_with (route_error e) (row index v.candidate (some e) ∷ []) 1
    else recorded (row index v.candidate (some e)) 1 rest

-- The test of `ctx.Err()` at the head of the loop.
abbrev in_time : Option GoError → Routed → Routed
in_time (some e) visit = stop_with (route_error e) [] 0
in_time none visit = visit

-- The loop of `call` over the candidates from `index` on, with the attempts made before.
unfoldable pub call_from : RouteConfig → ℕ → ℕ → List Visit → Routed
call_from config index made [] = stop_with exhausted [] 0
call_from config index made (v ∷ vs) =
    let skip =
      recorded (row index v.candidate v.resolved) 0 (call_from config (index + 1) made vs) in
    let attempt =
      after_attempt config index v (outcome v.resolved v.answer)
        (call_from config (index + 1) (made + 1) vs) in
    let visit = if skipped v.resolved then skip else attempt in
    if leb config.max_attempts made then stop_with exhausted [] 0 else in_time v.late visit

-- `call`, which `Generate` and `GenerateJSON` are.
unfoldable pub call : RouteConfig → List Visit → Routed
unfolding call_from
call config visits = call_from config 0 0 visits
