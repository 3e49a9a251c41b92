-- ===== src/Omni/Accounts/Order.antt =====
-- About the order in which accounts are looked up.
use kb_retv_services.Prelude.{
  ◌≡◌, refl, sym, ap, ◌∙◌, inl, inr, Bool, true, false, ◌||◌, Option, none, some, List, [], ◌∷◌,
  ◌++◌, if◌then◌else◌, Bool-cases, Result, ok, err,
}
use kb_retv_services.Prelude.Str.{Str, codes, str_eq, trim_space, is_empty}
use kb_retv_services.Omni.{Normalized, ChannelAccount, channel_email}
use kb_retv_services.Omni.Services.{LookupError, account_not_found, lookup_failed, Services}
use mathlib.Core.List.{append_assoc, append-nil}
use kb_retv_services.Omni.Accounts.{
  Resolved, Lookup, first_found, no_skip, resolve_account, unless_found, or_next, or_else, or_error,
  by_tags, after_primary,
}

-- One lookup: what it is called, its key, its answer, and whether an error other than a missing
-- account ends the search.
pub record Probe : Type 0 where
  pub via : Str
  pub key : Str
  pub answer : Result LookupError ChannelAccount
  pub is_final : Bool

-- The first account of a list of lookups.
abbrev pub search_in : List Probe → Result LookupError Resolved
search_in [] = err account_not_found
search_in (p ∷ ps) = elim p.answer [
  | ok a ↦ ok (record { account = a; via = p.via; address = p.key })
  | err e ↦ elim e [
    | account_not_found ↦ search_in ps
    | lookup_failed x ↦ if p.is_final then err (lookup_failed x) else search_in ps
  ]
]

-- The lookups of a loop over keys.
abbrev pub tagged : Str → Lookup → (skip : Str → Bool) → List Str → List Probe
tagged via look skip [] = []
tagged via look skip (k ∷ ks) =
    let rest = tagged via look skip ks in
    if is_empty (trim_space k) || skip (trim_space k)
    then rest
    else record { via = via; key = trim_space k; answer = look (trim_space k); is_final = false }
      ∷ rest

module _ {W : Type 0} (s : Services W) (w : W) where
  abbrev tag_probes : Str → Normalized → List Probe
  unfolding str_eq
  tag_probes channel n =
      if str_eq channel channel_email
      then tagged (codes "routing_key") (s.by_routing_key w) no_skip n.routing_keys
        ++ tagged (codes "alias") (s.by_alias w) no_skip n.account_candidates
      else []

  -- All lookups for a message, in their order: for a mail first its routing keys and its aliases,
  -- then the address of its account, then the other addresses.
  abbrev pub probes : Str → Str → Normalized → List Probe
  unfolding tag_probes str_eq
  probes channel primary n =
      tag_probes channel n
      ++ record {
        via = codes "address";
        key = primary;
        answer = s.by_external_id w channel primary;
        is_final = true;
      }
        ∷ tagged (codes "address") (s.by_external_id w channel) (λ k. str_eq k primary)
            n.account_candidates

search_in_step :
    (via key : Str) (r : Result LookupError ChannelAccount) (rest : List Probe)
    (found : Option Resolved) (last : Result LookupError Resolved)
    → search_in rest ≡ unless_found found last
    → search_in (record { via = via; key = key; answer = r; is_final = false } ∷ rest)
      ≡ unless_found (or_next via key r found) last
search_in_step via key (ok a) rest found last ih = refl
search_in_step via key (err account_not_found) rest found last ih = ih
search_in_step via key (err (lookup_failed e)) rest found last ih = ih

search_in-tagged :
    (via : Str) (look : Lookup) (skip : Str → Bool) (ks : List Str) (ps : List Probe)
    → search_in (tagged via look skip ks ++ ps)
      ≡ unless_found (first_found via look skip ks) (search_in ps)
unfolding first_found
search_in-tagged via look skip [] ps = refl
search_in-tagged via look skip (k ∷ ks) ps =
    elim (Bool-cases (is_empty (trim_space k) || skip (trim_space k))) [
      | inl e ↦ rw e (search_in-tagged via look skip ks ps)
      | inr e ↦ rw e (
          search_in_step via (trim_space k) (look (trim_space k)) (tagged via look skip ks ++ ps)
            (first_found via look skip ks) (search_in ps) (search_in-tagged via look skip ks ps))
    ]

unless_found_assoc :
    (a b : Option Resolved) (c : Result LookupError Resolved)
    → unless_found a (unless_found b c) ≡ unless_found (or_else a b) c
unless_found_assoc (some r) b c = refl
unless_found_assoc none b c = refl

unless-or_error :
    (a : Option Resolved) → unless_found a (err account_not_found) ≡ or_error account_not_found a
unless-or_error (some r) = refl
unless-or_error none = refl

module _ {W : Type 0} (s : Services W) (w : W) where
  search_in-tags :
      (channel : Str) (n : Normalized) (ps : List Probe)
      → search_in (tag_probes s w channel n ++ ps)
        ≡ unless_found (by_tags s w channel n) (search_in ps)
  unfolding by_tags tag_probes
  search_in-tags channel n ps = elim (Bool-cases (str_eq channel channel_email)) [
    | inl e ↦ rw e (
        ap search_in (append_assoc keys aliases ps)
        ∙ search_in-tagged (codes "routing_key") (s.by_routing_key w) no_skip n.routing_keys
            (aliases ++ ps)
        ∙ ap
            (unless_found
              (first_found (codes "routing_key") (s.by_routing_key w) no_skip n.routing_keys))
            (search_in-tagged (codes "alias") (s.by_alias w) no_skip n.account_candidates ps)
        ∙ unless_found_assoc
            (first_found (codes "routing_key") (s.by_routing_key w) no_skip n.routing_keys)
            (first_found (codes "alias") (s.by_alias w) no_skip n.account_candidates)
            (search_in ps))
    | inr e ↦ rw e refl
  ]
    where
      keys : List Probe
      keys = tagged (codes "routing_key") (s.by_routing_key w) no_skip n.routing_keys

      aliases : List Probe
      aliases = tagged (codes "alias") (s.by_alias w) no_skip n.account_candidates

  after_primary-search :
      (channel primary : Str) (n : Normalized) (r : Result LookupError ChannelAccount)
      → after_primary s w channel primary n r
        ≡ search_in (
            record { via = codes "address"; key = primary; answer = r; is_final = true }
            ∷ tagged
                (codes "address")
                (s.by_external_id w channel)
                (λ k. str_eq k primary)
                n.account_candidates)
  unfolding after_primary
  after_primary-search channel primary n (ok a) = refl
  after_primary-search channel primary n (err (lookup_failed e)) = refl
  after_primary-search channel primary n (err account_not_found) =
      sym (
        unless-or_error (
          first_found (codes "address") (s.by_external_id w channel) (λ k. str_eq k primary)
            n.account_candidates))
      ∙ sym (
          search_in-tagged (codes "address") (s.by_external_id w channel) (λ k. str_eq k primary)
            n.account_candidates [])
      ∙ ap search_in (
          append-nil (
            tagged (codes "address") (s.by_external_id w channel) (λ k. str_eq k primary)
              n.account_candidates))

  -- The account of a message is the first that is found in the one list of lookups, and no lookup
  -- fails the search but the one of the address of the account itself, and that only with another
  -- error than that there is none.
  pub resolve_account-search_in :
      (channel primary : Str) (n : Normalized)
      → resolve_account s w channel primary n ≡ search_in (probes s w channel primary n)
  unfolding resolve_account probes
  resolve_account-search_in channel primary n =
      ap (unless_found (by_tags s w channel n))
        (after_primary-search channel primary n (s.by_external_id w channel primary))
      ∙ sym (search_in-tags channel n _)
