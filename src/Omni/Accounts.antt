-- ===== src/Omni/Accounts.antt =====
-- Which channel account a message belongs to: `resolveAccount` of
-- internal/application/workflows/omnichannel/workflow.go.
pub mod Order
use kb_retv_services.Prelude.{
  ℕ, zero, suc, ◌+◌, ◌-◌, ◌*◌, ◌/◌, ◌%◌, ◌^◌, ◌≤◌, ◌<◌, ◌≡◌, refl, sym, ap, ◌∙◌, ◌≢◌, ◌↔◌, ◌⊎◌, inl,
  inr, Bool, true, false, not, ◌&&◌, ◌||◌, Option, none, some, List, [], ◌∷◌, ◌++◌, map, arith, ltb,
  leb, ◌==◌, if◌then◌else◌, ltb→lt, lt→ltb, leb→le, le→leb, ==_iff, tests, Bool-cases, Option-cases,
  length, get_elem?, take, any, all, keep, length-append, length-take_le, length-keep_le, All,
  All-append, All-take, All-keep, Result, ok, err, Result-cases,
}
use kb_retv_services.Prelude.Int.{
  ℤ, pos, negsuc, pos_part, neg_part, sub_ℕ, ◌+ℤ◌, ◌≤ℤ◌, ◌<ℤ◌, ltb_ℤ, leb_ℤ, max_ℤ, min_ℤ, +ℤ_parts,
  eq_of_parts, int_laws, max_ℤ_bounds, min_ℤ_bounds, min_max_bounds,
}
use kb_retv_services.Prelude.Str.{
  Str, codes, str_eq, str_eq_refl, eq_of_str_eq, str_eq_iff, starts_with, contains, to_lower,
  trim_space, ends_with, itoa, is_empty, trim_suffix,
}
use kb_retv_services.Prelude.Dict.{
  Dict, find, remove, put, prune, find-remove, find-put, length-remove_le, length-prune_le, IsMap,
  passing, find-prune, prune_absent, prune-IsMap, remove-IsMap, put-IsMap,
}
use kb_retv_services.Omni.{Normalized, ChannelAccount, channel_email}
use kb_retv_services.Omni.Services.{LookupError, account_not_found, lookup_failed, Services}

pub record Resolved : Type 0 where
  pub account : ChannelAccount
  pub via : Str
  pub address : Str

abbrev pub Lookup : Type 0
Lookup = Str → Result LookupError ChannelAccount

-- A successful lookup of `key`, or what the loop finds later.
abbrev pub or_next :
    Str → Str → Result LookupError ChannelAccount → Option Resolved → Option Resolved
or_next via key (ok a) rest = some (record { account = a; via = via; address = key })
or_next via key (err e) rest = rest

-- A loop over keys, which passes over those that are blank or to be skipped.
unfoldable pub first_found : (via : Str) → Lookup → (skip : Str → Bool) → List Str → Option Resolved
first_found via look skip [] = none
first_found via look skip (k ∷ ks) =
    let key = trim_space k in
    let rest = first_found via look skip ks in
    if is_empty key || skip key then rest else or_next via key (look key) rest

abbrev pub no_skip : Str → Bool
no_skip k = false

abbrev pub or_error : LookupError → Option Resolved → Result LookupError Resolved
or_error e (some r) = ok r
or_error e none = err e

abbrev pub or_else : Option Resolved → Option Resolved → Option Resolved
or_else (some r) other = some r
or_else none other = other

abbrev pub unless_found :
    Option Resolved → Result LookupError Resolved → Result LookupError Resolved
unless_found (some r) other = ok r
unless_found none other = other

module _ {W : Type 0} (s : Services W) (w : W) where
  abbrev pub after_primary :
      Str → Str → Normalized → Result LookupError ChannelAccount → Result LookupError Resolved
  unfolding first_found str_eq
  after_primary channel primary n (ok a) =
      ok (record { account = a; via = codes "address"; address = primary })
  after_primary channel primary n (err (lookup_failed e)) = err (lookup_failed e)
  after_primary channel primary n (err account_not_found) = or_error account_not_found (
      first_found (codes "address") (s.by_external_id w channel) (λ k. str_eq k primary)
        n.account_candidates)

  -- The routing keys and the aliases of a mail.
  abbrev pub by_tags : Str → Normalized → Option Resolved
  unfolding first_found str_eq
  by_tags channel n =
      if str_eq channel channel_email
      then or_else (first_found (codes "routing_key") (s.by_routing_key w) no_skip n.routing_keys)
          (first_found (codes "alias") (s.by_alias w) no_skip n.account_candidates)
      else none

  -- `resolveAccount`.
  unfoldable pub resolve_account : Str → Str → Normalized → Result LookupError Resolved
  unfolding by_tags after_primary
  resolve_account channel primary n =
      unless_found (by_tags channel n)
        (after_primary channel primary n (s.by_external_id w channel primary))
