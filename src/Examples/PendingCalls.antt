-- ===== src/Examples/PendingCalls.antt =====
-- Calls of the store of pending actions, some of them late.
use kb_retv_services.Prelude.{ℕ, ◌≡◌, refl, none, some, List, [], ◌∷◌}
use kb_retv_services.Prelude.Str.{Str, codes, str_eq}
use kb_retv_services.Prelude.Dict.{find, remove, put, prune}
use kb_retv_services.Skeleton.Pending.{Actor}
use kb_retv_services.Skeleton.Pending.Refine.{
  Call, put_call, take_call, stored_as, taken, run_store, run_ledger, run_store-run_ledger,
}

abbrev owner : Actor
owner = record { company_id = 7; user_id = 3; perms = []; coverage = [] }

abbrev other : Actor
other = record { company_id = 7; user_id = 4; perms = []; coverage = [] }

abbrev first : Str
first = codes "ab01"

abbrev second : Str
second = codes "cd02"

-- The second proposal comes after the first expired and cleans it up.
abbrev late_calls : List (ℕ × Call)
late_calls =
    (0, put_call (some first) owner (codes "case.close") [])
    ∷ (600_000_000_001, put_call (some second) owner (codes "case.open") [])
    ∷ (0, take_call owner first)
    ∷ (600_000_000_000, take_call owner second)
    ∷ (0, take_call other second)
    ∷ []

late_replies :
    run_store 800 late_calls []
    ≡ stored_as (some first)
      ∷ stored_as (some second)
      ∷ taken none
      ∷ taken (some (codes "case.open", []))
      ∷ taken none
      ∷ []
unfolding run_store find str_eq put remove prune
late_replies = refl

run_store-run_ledger_example : run_store 800 late_calls [] ≡ run_ledger 800 late_calls (λ k. none)
run_store-run_ledger_example = run_store-run_ledger 800 late_calls
