-- ===== src/Llm/Failover.antt =====
-- A primary provider with a backup: internal/infra/llm/failover.go. A provider answers a
-- prompt; what
-- it streams is the channel that `Stream` opens.
pub mod Answers
use kb_retv_services.Prelude.{
  ℕ, zero, suc, ◌+◌, ◌-◌, ◌*◌, ◌/◌, ◌%◌, ◌^◌, ◌≤◌, ◌<◌, ◌≡◌, refl, sym, ap, ◌∙◌, ◌≢◌, ◌↔◌, ◌⊎◌, inl,
  inr, Bool, true, false, not, ◌&&◌, ◌||◌, Option, none, some, List, [], ◌∷◌, ◌++◌, map, arith, ltb,
  leb, ◌==◌, if◌then◌else◌, ltb→lt, lt→ltb, leb→le, le→leb, ==_iff, tests, Bool-cases, Option-cases,
  length, get_elem?, take, any, all, keep, length-append, length-take_le, length-keep_le, All,
  All-append, All-take, All-keep, Result, ok, err, Result-cases,
}
use kb_retv_services.Prelude.Int.{
  ℤ, pos, negsuc, pos_part, neg_part, sub_ℕ, ◌+ℤ◌, ◌≤ℤ◌, ◌<ℤ◌, ltb_ℤ, leb_ℤ, max_ℤ, min_ℤ, +ℤ_parts,
  eq_of_parts, int_laws, max_ℤ_bounds, min_ℤ_bounds, min_max_bounds,
}
use kb_retv_services.Prelude.Str.{
  Str, codes, str_eq, str_eq_refl, eq_of_str_eq, str_eq_iff, starts_with, contains, to_lower,
  trim_space, ends_with, itoa, is_empty,
}
use kb_retv_services.Llm.Errors.{GoError, both, is_quota_error}

pub record LlmProvider (Prompt Completion Stream : Type 0) : Type 0 where
  pub generate : Prompt → Result GoError Completion
  pub generate_json : Prompt → Result GoError Completion
  pub stream : Prompt → Result GoError Stream

pub data FailoverMode : Type 0 where
  off on_error on_quota : FailoverMode

-- `normalizeFailoverMode`.
unfoldable pub normalize_failover_mode : Str → FailoverMode
unfolding to_lower trim_space str_eq
normalize_failover_mode mode =
    let m = to_lower (trim_space mode) in
    if str_eq m (codes "error")
    then on_error
    else if str_eq m (codes "quota")
    then on_quota
    else off

-- `backup` may be a nil interface.
pub record Failover (Prompt Completion Stream : Type 0) : Type 0 where
  pub primary : LlmProvider Prompt Completion Stream
  pub backup : Option (LlmProvider Prompt Completion Stream)
  pub mode : FailoverMode

abbrev has_backup {ℓ} : {A : Type ℓ} → Option A → Bool
has_backup none = false
has_backup (some b) = true

try_in : FailoverMode → GoError → Bool
try_in on_error e = true
try_in on_quota e = is_quota_error e
try_in off e = false

-- What the backup answers stands for the call; if it fails too, the error is the primary's,
-- with the
-- text of the backup's behind it.
abbrev backup_answer {ℓ} : {A : Type ℓ} → GoError → Result GoError A → Result GoError A
backup_answer e (ok a) = ok a
backup_answer e (err b) = err (both e b)

abbrev ask_backup {ℓ κ} :
    {A : Type ℓ} {B : Type κ} → Option B → (B → Result GoError A) → GoError → Result GoError A
ask_backup none ask e = err e
ask_backup (some b) ask e = backup_answer e (ask b)

module _ {Prompt Completion Stream : Type 0} where
  -- `NewFailover`.
  unfoldable pub new_failover :
      LlmProvider Prompt Completion Stream
      → Option (LlmProvider Prompt Completion Stream)
      → Str
      → Failover Prompt Completion Stream
  unfolding normalize_failover_mode
  new_failover primary backup mode = record {
    primary = primary;
    backup = backup;
    mode = normalize_failover_mode mode;
  }

  -- `shouldTryBackup`, for an error that is not nil.
  unfoldable pub should_try_backup : Failover Prompt Completion Stream → GoError → Bool
  unfolding try_in
  should_try_backup f e = if has_backup f.backup then try_in f.mode e else false

  abbrev or_backup {ℓ} :
      {A : Type ℓ}
      → Failover Prompt Completion Stream
      → (LlmProvider Prompt Completion Stream → Result GoError A)
      → Result GoError A
      → Result GoError A
  or_backup f ask (ok a) = ok a
  or_backup f ask (err e) = if should_try_backup f e then ask_backup f.backup ask e else err e

  -- `Generate`.
  unfoldable pub generate : Failover Prompt Completion Stream → Prompt → Result GoError Completion
  generate f p = or_backup f (λ b. b.generate p) (f.primary.generate p)

  -- `GenerateJSON`.
  unfoldable pub generate_json :
      Failover Prompt Completion Stream → Prompt → Result GoError Completion
  generate_json f p = or_backup f (λ b. b.generate_json p) (f.primary.generate_json p)

  -- `Stream`.
  unfoldable pub stream : Failover Prompt Completion Stream → Prompt → Result GoError Stream
  stream f p = or_backup f (λ b. b.stream p) (f.primary.stream p)
