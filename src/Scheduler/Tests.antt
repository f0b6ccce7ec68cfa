-- ===== src/Scheduler/Tests.antt =====
-- Applications of the theorems on src/scheduler.cpp.
use dark_global_12_x.Base.{
  ℕ, ◌≡◌, ◌&&◌, refl, false, List, [], ◌∷◌, arith, contains, insert_key, Distinct,
}
use dark_global_12_x.Tasks.{call, set_dont_expire}
use dark_global_12_x.Scheduler.{
  SchedulerTask, Scheduler, add_event, insert_event, push_event, stop_event, thread_round,
  thread_main,
}
use dark_global_12_x.Scheduler.Cancel.{ids_of, stop_event-cancels}
use dark_global_12_x.Scheduler.Given.{given, given-Distinct}
use dark_global_12_x.Scheduler.Order.{
  Call, adds, stops, wakes, run, step, started, Earliest, queue, run-Earliest, thread_main-drains,
}

abbrev timed : ℕ → ℕ → SchedulerTask
timed expiry id = record { task = record { expiration = expiry; func = call id }; event_id = id }

abbrev two_events : Scheduler
two_events = queue 2 (timed 100 1 ∷ timed 200 2 ∷ []) (2 ∷ 1 ∷ [])

-- Two new events, of which the first is stopped, and the thread wakes three times meanwhile.
abbrev two_calls : List Call
two_calls =
    adds (timed 200 0) ∷ wakes 100 ∷ adds (timed 150 0) ∷ stops 1 ∷ wakes 250 ∷ wakes 260 ∷ []

given-Distinct_example : Distinct (ids_of (given two_calls started))
given-Distinct_example =
    given-Distinct two_calls (refl, (tt, (refl, (tt, (tt, (tt, tt)))))) (omega arith)

stop_event-cancels_example :
    (contains 1 (ids_of (thread_main (150 ∷ 250 ∷ []) (stop_event 1 two_events).0).1) ≡ false)
    × ((stop_event 1 (stop_event 1 two_events).0).1 ≡ false)
unfolding stop_event
stop_event-cancels_example = stop_event-cancels 1 (150 ∷ 250 ∷ []) two_events refl

run-Earliest_example :
    Earliest 250 (run (adds (timed 200 2) ∷ adds (timed 100 1) ∷ []) started) (timed 0 1)
unfolding run step add_event insert_event push_event thread_round insert_key set_dont_expire
run-Earliest_example =
    run-Earliest (adds (timed 200 2) ∷ adds (timed 100 1) ∷ []) 250 (timed 0 1) refl

thread_main-drains_example :
    let r = thread_main (250 ∷ 260 ∷ []) two_events in
    (r.0.event_list ≡ [])
    × (contains 1 (ids_of r.1)
        ≡ (contains 1 (ids_of (timed 100 1 ∷ timed 200 2 ∷ [])) && contains 1 (2 ∷ 1 ∷ [])))
thread_main-drains_example =
    thread_main-drains 2 1 (250 ∷ 260 ∷ []) (timed 100 1 ∷ timed 200 2 ∷ []) (2 ∷ 1 ∷ []) refl
      ((omega arith, (omega arith, tt)), ((omega arith, (omega arith, tt)), tt))
