-- ===== src/Examples/Budgets.antt =====
-- A budget of two calls in a minute.
use kb_retv_services.Prelude.{ℕ, ◌≡◌, refl, true, false, none, some, List, [], ◌∷◌, arith}
use kb_retv_services.Prelude.Int.{pos}
use kb_retv_services.Prelude.Dict.{find}
use kb_retv_services.Memcache.{Cache}
use kb_retv_services.Budget.{granted, panicked, new_budget, memory_port, acquire, bucket_of}
use kb_retv_services.Budget.Windows.{
  alive, over_memory, answers, first_granted, answers-first_granted,
}

abbrev empty_cache : Cache
empty_cache = record { items = []; max_entries = 8 }

abbrev in_one_minute : List ℕ
in_one_minute = 120_000_000_000 ∷ 179_000_000_000 ∷ 150_000_000_000 ∷ []

two_pass :
    answers (over_memory (pos 0) 2 60_000_000_000) (pos 7) in_one_minute empty_cache
    ≡ granted true ∷ granted true ∷ granted false ∷ []
unfolding first_granted bucket_of find
two_pass =
    answers-first_granted (pos 0) 2 60_000_000_000 2 (pos 7) in_one_minute empty_cache (omega arith)
      (omega arith) (omega arith) (refl, (refl, (refl, tt))) refl

answers-first_granted_example :
    answers (over_memory (pos 0) 2 60_000_000_000) (pos 7) in_one_minute empty_cache
    ≡ first_granted 2 in_one_minute
unfolding bucket_of find
answers-first_granted_example =
    answers-first_granted (pos 0) 2 60_000_000_000 2 (pos 7) in_one_minute empty_cache (omega arith)
      (omega arith) (omega arith) (refl, (refl, (refl, tt))) refl

-- A window of half a second has no whole second.
half_a_second :
    (acquire
      (new_budget (some memory_port) (pos 0) (pos 2) (pos 500_000_000))
      alive
      7
      (pos 7)
      none
      empty_cache).2
    ≡ panicked
unfolding acquire new_budget memory_port
half_a_second = refl
