-- ===== src/Examples/Parallel.antt =====
-- One run of `Map` with one worker.
use kb_retv_services.Prelude.{
  ℕ, ◌+◌, ◌*◌, ◌≤◌, ◌≡◌, refl, ◌⊎◌, true, false, none, some, List, [], ◌∷◌, arith, length, Result,
  ok,
}
use kb_retv_services.Prelude.Int.{pos}
use kb_retv_services.Prelude.Str.{Str}
use kb_retv_services.Concurrency.Parallel.{
  canceled, MapState, start, store, give_up, leave_done, Step, hand, all_sent, succeed,
  leave_closed, parent_ends, Reach, begin, later, IsOver, outcome, workers_of, returned,
}
use kb_retv_services.Concurrency.Parallel.Order.{IsAnswer, outcome-IsAnswer}
use kb_retv_services.Concurrency.Parallel.Ends.{length-running_le, steps, steps-ends}
use kb_retv_services.Concurrency.Limiter.{
  Limiter, new_limiter, Acquire, entered, Callers, DoStep, begins, Reached, unused, inside-capacity,
}
use kb_retv_services.Concurrency.Limiter

abbrev double : ℕ → Result Str ℕ
double n = ok (n + n)

abbrev Doubles : ℕ → Result Str ℕ → Type 0
Doubles n y = double n ≡ y

abbrev one_input : List ℕ
one_input = 4 ∷ []

abbrev Moment : Type 0
Moment = MapState ℕ ℕ Str

abbrev at_first : Moment
at_first = start (pos 1) one_input

abbrev at_work : Moment
at_work = record at_first { queue = []; next = 1; idle = 0; running = (0, 4) ∷ [] }

abbrev has_result : Moment
has_result = record at_work { running = []; results = store 0 8 at_work.results; idle = 1 }

abbrev at_end : Moment
at_end = record has_result { closed = true; idle = 0 }

sent : Reach Doubles (pos 1) one_input at_work
unfolding workers_of
sent = later at_first at_work begin (hand 4 [] 0 refl refl refl)

doubled : Reach Doubles (pos 1) one_input has_result
doubled = later at_work has_result sent (succeed [] [] 0 4 8 refl refl)

ended : Reach Doubles (pos 1) one_input at_end
ended =
    later (record has_result { closed = true }) at_end
      (later has_result (record has_result { closed = true }) doubled (all_sent refl refl))
      (leave_closed 0 refl refl)

outcome-IsAnswer_example : IsAnswer Doubles one_input none (outcome at_end)
outcome-IsAnswer_example =
    outcome-IsAnswer Doubles one_input (pos 1) at_end ended (refl, refl, refl)

length-running_le_example : length at_work.running ≤ workers_of (pos 1)
length-running_le_example = length-running_le Doubles (pos 1) one_input at_work sent

steps-ends_example :
    (steps Doubles (pos 1) one_input ended ≤ 3 * 1 + workers_of (pos 1) + 2)
    × (IsOver at_end ⊎ ((t : Moment) × Step Doubles at_end t × (t.parent ≡ none)))
steps-ends_example = steps-ends Doubles (pos 1) one_input (λ x. (double x, refl)) at_end ended

-- A caller whose context is canceled before the only input is handed over gets no error.
abbrev stopped : Moment
stopped = record at_first { parent = some canceled; done = some canceled; closed = true; idle = 0 }

stopped_is_reached : Reach Doubles (pos 1) one_input stopped
unfolding workers_of
stopped_is_reached =
    later (record stopped { idle = 1 }) stopped
      (later (record stopped { idle = 1; closed = false }) (record stopped { idle = 1 })
        (later at_first (record stopped { idle = 1; closed = false }) begin
          (parent_ends canceled refl))
        (give_up canceled refl refl))
      (leave_done 0 canceled refl refl)

stopped_has_no_error : outcome stopped ≡ returned stopped.results
unfolding outcome
stopped_has_no_error = refl

abbrev one_inside : Callers
one_inside = record { limiter = record { capacity = 1; held = 1 }; inside = 1 }

one_begins : Reached (pos 0) one_inside
unfolding new_limiter
one_begins =
    Limiter.later _ one_inside unused (begins none one_inside.limiter (entered none (omega arith)))

inside-capacity_example : (one_inside.limiter.held ≡ 1) × (1 ≤ (new_limiter (pos 0)).capacity)
inside-capacity_example = inside-capacity (pos 0) one_inside one_begins
