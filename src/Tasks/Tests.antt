-- ===== src/Tasks/Tests.antt =====
-- Applications of the theorems on src/tasks.cpp.
use dark_global_12_x.Base.{ℕ, zero, suc, ◌≡◌, refl, false, List, [], ◌∷◌, ◌++◌, All}
use dark_global_12_x.Tasks.{
  Task, Dispatcher, Request, adds, stops, call, terminate, running, terminated, thread_main,
  shutdown,
}
use dark_global_12_x.Tasks.Order.{calls_made, IsBack, brought, requested, shutdown_drains}

abbrev two_tasks : List Task
two_tasks =
    record { expiration = 0; func = call 1 } ∷ record { expiration = 50; func = call 2 } ∷ []

abbrev at_work : Dispatcher
at_work = record { state = running; task_list = two_tasks; cycle = 3 }

-- The first task adds another, stops the dispatcher and adds one more, which is not taken.
abbrev asks : List Request
asks =
    adds (record { expiration = 0; func = call 7 }) false
    ∷ stops
    ∷ adds (record { expiration = 0; func = call 8 }) false
    ∷ []

abbrev asked_by : ℕ → List Request
asked_by zero = []
asked_by (suc zero) = asks
asked_by (suc (suc n)) = []

asked_by-IsBack : (n : ℕ) → All IsBack (asked_by n)
asked_by-IsBack zero = tt
asked_by-IsBack (suc zero) = (refl, (tt, (refl, tt)))
asked_by-IsBack (suc (suc n)) = tt

shutdown_drains_example :
    let r = thread_main asked_by (40 ∷ 45 ∷ 60 ∷ []) (shutdown at_work) in
    (r.0.state ≡ terminated)
    × (r.0.task_list
        ≡ brought running (requested asked_by (calls_made (40 ∷ 45 ∷ 60 ∷ []) two_tasks)))
    × (r.1 ≡ calls_made (40 ∷ 45 ∷ 60 ∷ []) two_tasks ++ terminate ∷ [])
shutdown_drains_example =
    shutdown_drains asked_by asked_by-IsBack 40 (45 ∷ 60 ∷ []) two_tasks running 3 refl
      (tt, (tt, tt)) refl
