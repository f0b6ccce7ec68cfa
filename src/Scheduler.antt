-- ===== src/Scheduler.antt =====
-- src/scheduler.h and src/scheduler.cpp: timed events, kept by expiry, that go to the dispatcher.
-- The lock makes each operation one step. `event_list` stands for the std::priority_queue: its head
-- is `top`. The order of events with the same expiry, which C++ leaves open, is first in, first out.
mod Tests
pub mod Order
pub mod Cancel
pub mod Given
use dark_global_12_x.Base.{
  ℕ, suc, ◌+◌, ◌%◌, ◌≡◌, Bool, true, false, Option, none, some, List, [], ◌∷◌, ltb, leb, ◌==◌,
  if◌then◌else◌, contains, erase_all, insert_key, not, ◌&&◌,
}
use dark_global_12_x.Base.Words.{u32_mod}
use dark_global_12_x.Tasks.{
  Task, Callable, ThreadState, Dispatcher, running, terminated, set_dont_expire, add_task,
  is_running, is_terminated,
}

pub record SchedulerTask : Type 0 where
  pub task : Task
  pub open task use *
  pub event_id : ℕ

-- SCHEDULER_MINTICKS
abbrev pub min_ticks : ℕ
min_ticks = 50

unfoldable pub create_scheduler_task : ℕ → ℕ → Callable → SchedulerTask
create_scheduler_task now delay f = record {
  task = record { expiration = now + delay; func = f };
  event_id = 0;
}

unfoldable pub set_event_id : ℕ → SchedulerTask → SchedulerTask
set_event_id id t = record t { event_id = id }

-- SchedulerTask::getCycle
abbrev pub cycle : SchedulerTask → ℕ
cycle t = t.expiration

pub record Scheduler : Type 0 where
  pub state : ThreadState
  pub last_event_id : ℕ
  pub event_list : List SchedulerTask
  pub event_ids : List ℕ

-- priority_queue::push under TaskComparator, and whether the new task is then the top.
unfoldable pub push_event : SchedulerTask → List SchedulerTask → List SchedulerTask
push_event t [] = t ∷ []
push_event t (x ∷ xs) = if ltb (cycle t) (cycle x) then t ∷ x ∷ xs else x ∷ push_event t xs

abbrev pub is_top : SchedulerTask → List SchedulerTask → Bool
is_top t [] = true
is_top t (x ∷ xs) = ltb (cycle t) (cycle x)

-- `if (++lastEventId == 0) lastEventId = 1;` on a uint32_t
unfoldable pub next_event_id : ℕ → ℕ
next_event_id last = let n = (last + 1) % u32_mod in if n == 0 then 1 else n

-- Scheduler::addEvent: the new state, the returned id, and whether the thread is signalled.
unfoldable pub insert_event : SchedulerTask → Scheduler → Scheduler × ℕ × Bool
insert_event t s = (
  record s {
    event_ids = insert_key t.event_id s.event_ids;
    event_list = push_event t s.event_list;
  },
  t.event_id,
  is_top t s.event_list,
)

unfoldable pub add_event : SchedulerTask → Scheduler → Scheduler × ℕ × Bool
unfolding insert_event set_event_id
add_event t s =
    if is_running s.state
    then (if t.event_id == 0
        then (let id = next_event_id s.last_event_id in
            insert_event (set_event_id id t) (record s { last_event_id = id }))
        else insert_event t s)
    else (s, 0, false)

-- Scheduler::stopEvent
unfoldable pub stop_event : ℕ → Scheduler → Scheduler × Bool
stop_event id s =
    if id == 0
    then (s, false)
    else if contains id s.event_ids
    then (record s { event_ids = erase_all id s.event_ids }, true)
    else (s, false)

-- Scheduler::shutdown
unfoldable pub shutdown : Scheduler → Scheduler
shutdown s = record s { state = terminated; event_list = []; event_ids = [] }

-- The branch of Scheduler::threadMain that a timeout takes, on a queue with a top.
abbrev pub take_event : List SchedulerTask → Scheduler → Scheduler × Option SchedulerTask
take_event [] s = (s, none)
take_event (t ∷ rest) s =
    if contains t.event_id s.event_ids
    then (
      record s { event_list = rest; event_ids = erase_all t.event_id s.event_ids },
      some (record t { task = set_dont_expire t.task }),
    )
    else (record s { event_list = rest }, none)

-- One round of Scheduler::threadMain that wakes at `now`: a wait that ends before the expiry of the
-- top is no timeout, and does nothing. The result holds the task for the dispatcher, if any.
abbrev pub has_timeout : ℕ → List SchedulerTask → Bool
has_timeout now [] = false
has_timeout now (t ∷ rest) = leb (cycle t) now

unfoldable pub thread_round : ℕ → Scheduler → Scheduler × Option SchedulerTask
thread_round now s =
    if not (is_terminated s.state) && has_timeout now s.event_list
    then take_event s.event_list s
    else (s, none)

-- The round with its call g_dispatcher.addTask(task, true).
abbrev pub give : Option SchedulerTask → Dispatcher → Dispatcher
give none d = d
give (some t) d = (add_task t.task true d).0

unfoldable pub dispatch_round : ℕ → Scheduler → Dispatcher → Scheduler × Dispatcher
dispatch_round now s d = let (s', out) = thread_round now s in (s', give out d)

abbrev pub record_event : Option SchedulerTask → List SchedulerTask → List SchedulerTask
record_event none log = log
record_event (some t) log = t ∷ log

-- The loop of Scheduler::threadMain, one round at each of the given times: the tasks given away.
unfoldable pub thread_main : List ℕ → Scheduler → Scheduler × List SchedulerTask
thread_main [] s = (s, [])
thread_main (now ∷ times) s =
    let (s1, out) = thread_round now s in
    let (s2, log) = thread_main times s1 in (s2, record_event out log)
