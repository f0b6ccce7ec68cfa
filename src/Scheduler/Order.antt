-- ===== src/Scheduler/Order.antt =====
-- The queue of src/scheduler.cpp by expiry, and what is left of it when every event is due.
use dark_global_12_x.Base.{
  ℕ, ◌≤◌, ◌≡◌, refl, List, [], ◌∷◌, some, arith, length, All, contains, erase_all,
  contains-erase_all, ◌&&◌, ==_iff,
}
use dark_global_12_x.Tasks.{ThreadState, running, set_dont_expire}
use dark_global_12_x.Scheduler.{
  Scheduler, SchedulerTask, add_event, set_event_id, next_event_id, stop_event, push_event,
  thread_round, thread_main, cycle, shutdown,
}
use dark_global_12_x.Scheduler.Cancel.{ids_of}

abbrev After : ℕ → List SchedulerTask → Type 0
After c = All (λ t. c ≤ cycle t)

-- No event is due before one in front of it.
abbrev pub IsSorted : List SchedulerTask → Type 0
IsSorted [] = Unit {0}
IsSorted (t ∷ ts) = After (cycle t) ts × IsSorted ts

After-mono : (c d : ℕ) (ts : List SchedulerTask) → d ≤ c → After c ts → After d ts
After-mono c d [] h a = tt
After-mono c d (t ∷ ts) h a = (omega arith, After-mono c d ts h a.1)

push_event-After :
    (c : ℕ) (t : SchedulerTask) (ts : List SchedulerTask)
    → c ≤ cycle t
    → After c ts
    → After c (push_event t ts)
unfolding push_event
push_event-After c t [] h a = (h, tt)
push_event-After c t (x ∷ xs) h a = ground (arith, push_event-After c t xs h a.1)

pub push_event-IsSorted :
    (t : SchedulerTask) (ts : List SchedulerTask) → IsSorted ts → IsSorted (push_event t ts)
unfolding push_event
push_event-IsSorted t [] s = (tt, tt)
push_event-IsSorted t (x ∷ xs) s = ground (
  arith,
  push_event-IsSorted t xs s.1,
  push_event-After (cycle x) t xs,
  After-mono (cycle x) (cycle t) xs,
)

add_event-IsSorted :
    (t : SchedulerTask) (s : Scheduler)
    → IsSorted s.event_list
    → IsSorted (add_event t s).0.event_list
unfolding add_event
add_event-IsSorted t s h = ground (
  arith,
  push_event-IsSorted t s.event_list h,
  push_event-IsSorted (set_event_id (next_event_id s.last_event_id) t) s.event_list h,
)

stop_event-IsSorted :
    (id : ℕ) (s : Scheduler) → IsSorted s.event_list → IsSorted (stop_event id s).0.event_list
unfolding stop_event
stop_event-IsSorted id s h = ground arith

thread_round-IsSorted :
    (now : ℕ) (s : Scheduler) → IsSorted s.event_list → IsSorted (thread_round now s).0.event_list
unfolding thread_round
thread_round-IsSorted now s h = ground arith

-- The calls that other threads make, and a wake-up of the scheduler's own.
pub data Call : Type 0 where
  adds : SchedulerTask → Call
  stops wakes : ℕ → Call
  shuts : Call

unfoldable pub step : Call → Scheduler → Scheduler
step (adds t) s = (add_event t s).0
step (stops id) s = (stop_event id s).0
step (wakes now) s = (thread_round now s).0
step shuts s = shutdown s

unfoldable pub run : List Call → Scheduler → Scheduler
run [] s = s
run (c ∷ cs) s = run cs (step c s)

abbrev pub started : Scheduler
started = record { state = running; last_event_id = 0; event_list = []; event_ids = [] }

step-IsSorted : (c : Call) (s : Scheduler) → IsSorted s.event_list → IsSorted (step c s).event_list
unfolding step shutdown
step-IsSorted (adds t) s h = add_event-IsSorted t s h
step-IsSorted (stops id) s h = stop_event-IsSorted id s h
step-IsSorted (wakes now) s h = thread_round-IsSorted now s h
step-IsSorted shuts s h = tt

run-IsSorted :
    (cs : List Call) (s : Scheduler) → IsSorted s.event_list → IsSorted (run cs s).event_list
unfolding run
run-IsSorted [] s h = h
run-IsSorted (c ∷ cs) s h = run-IsSorted cs (step c s) (step-IsSorted c s h)

abbrev pub Earliest : ℕ → Scheduler → SchedulerTask → Type 0
Earliest now s out =
    (t : SchedulerTask) × (ts : List SchedulerTask) × (s.event_list ≡ t ∷ ts)
    × (out ≡ record t { task = set_dont_expire t.task })
    × (cycle t ≤ now)
    × After (cycle t) ts

given-Earliest :
    (now : ℕ) (st : ThreadState) (last : ℕ) (ids : List ℕ) (ts : List SchedulerTask)
    → let s : Scheduler = record {
      state = st;
      last_event_id = last;
      event_list = ts;
      event_ids = ids;
    } in
      (out : SchedulerTask) → IsSorted ts → (thread_round now s).1 ≡ some out → Earliest now s out
unfolding thread_round
given-Earliest now st last ids [] out h e = ground arith
given-Earliest now st last ids (t ∷ ts) out h e = (t, ts, refl, ground arith, ground arith, h.0)

-- After any sequence of calls on a started scheduler, an event that the thread gives away is due,
-- no queued event expires before it, and it is given with its expiry taken off.
pub run-Earliest :
    (cs : List Call) (now : ℕ) (out : SchedulerTask)
    → (thread_round now (run cs started)).1 ≡ some out
    → Earliest now (run cs started) out
run-Earliest cs now out e =
    let s = run cs started in
    given-Earliest now s.state s.last_event_id s.event_ids s.event_list out
      (run-IsSorted cs started tt) e

-- `times` are at or after the expiry of every event.
abbrev pub AllDue : List ℕ → List SchedulerTask → Type 0
AllDue times ts = All (λ now. All (λ t. cycle t ≤ now) ts) times

AllDue-tail :
    (times : List ℕ) (t : SchedulerTask) (ts : List SchedulerTask)
    → AllDue times (t ∷ ts)
    → AllDue times ts
AllDue-tail [] t ts h = tt
AllDue-tail (now ∷ times) t ts h = (h.0.1, AllDue-tail times t ts h.1)

abbrev pub queue : ℕ → List SchedulerTask → List ℕ → Scheduler
queue last ts ids = record {
  state = running;
  last_event_id = last;
  event_list = ts;
  event_ids = ids;
}

-- A running thread that wakes once for each queued event, when all are due, empties its queue, and
-- gives to the dispatcher exactly the ids that are queued and have not been stopped.
pub thread_main-drains :
    (last id : ℕ) (times : List ℕ) (ts : List SchedulerTask) (ids : List ℕ)
    → length times ≡ length ts
    → AllDue times ts
    → let r = thread_main times (queue last ts ids) in
      (r.0.event_list ≡ [])
      × (contains id (ids_of r.1) ≡ (contains id (ids_of ts) && contains id ids))
unfolding thread_main thread_round
thread_main-drains last id [] [] ids e h = (refl, refl)
thread_main-drains last id [] (t ∷ ts) ids e h = absurd (omega arith)
thread_main-drains last id (now ∷ times) [] ids e h = absurd (omega arith)
thread_main-drains last id (now ∷ times) (t ∷ ts) ids e h = ground (
  arith,
  thread_main-drains last id times ts ids (omega arith) (AllDue-tail times t ts h.1),
  thread_main-drains last id times ts (erase_all t.event_id ids) (omega arith)
      (AllDue-tail times t ts h.1),
  contains-erase_all t.event_id id ids,
  ==_iff t.event_id id,
)
