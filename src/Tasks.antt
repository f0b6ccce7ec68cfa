-- ===== src/Tasks.antt =====
-- src/tasks.h and src/tasks.cpp: the tasks and the dispatcher that runs them in one thread.
-- Time is an argument of each call, in milliseconds. The callable of a task is known by a number;
-- the one that the dispatcher's `shutdown` makes is `terminate`.
mod Tests
pub mod Order
use dark_global_12_x.Base.{
  ℕ, suc, ◌+◌, ◌%◌, ◌≡◌, Bool, true, false, Option, none, some, List, [], ◌∷◌, ◌++◌, ltb, ◌==◌,
  if◌then◌else◌, not,
}
use dark_global_12_x.Base.Words.{u64_mod}

-- ThreadState of src/enums.h
pub data ThreadState : Type 0 where
  running closing terminated : ThreadState

pub data Callable : Type 0 where
  call : ℕ → Callable
  terminate : Callable

pub record Task : Type 0 where
  pub expiration : ℕ
  pub func : Callable

-- SYSTEM_TIME_ZERO
abbrev pub time_zero : ℕ
time_zero = 0

-- createTask without and with an expiration
unfoldable pub create_task : Callable → Task
create_task f = record { expiration = time_zero; func = f }

unfoldable pub create_task_expiring : ℕ → ℕ → Callable → Task
create_task_expiring now ms f = record { expiration = now + ms; func = f }

unfoldable pub set_dont_expire : Task → Task
set_dont_expire t = record t { expiration = time_zero }

unfoldable pub has_expired : ℕ → Task → Bool
has_expired now t = if t.expiration == time_zero then false else ltb t.expiration now

pub record Dispatcher : Type 0 where
  pub state : ThreadState
  pub task_list : List Task
  pub cycle : ℕ

abbrev pub is_running : ThreadState → Bool
is_running running = true
is_running closing = false
is_running terminated = false

abbrev pub is_terminated : ThreadState → Bool
is_terminated running = false
is_terminated closing = false
is_terminated terminated = true

abbrev pub is_empty {ℓ} : {A : Type ℓ} → List A → Bool
is_empty [] = true
is_empty (x ∷ xs) = false

-- Dispatcher::addTask; the result says whether the waiting thread is signalled.
unfoldable pub add_task : Task → Bool → Dispatcher → Dispatcher × Bool
add_task t push_front d =
    if is_running d.state
    then (
      record d { task_list = if push_front then t ∷ d.task_list else d.task_list ++ t ∷ [] },
      is_empty d.task_list,
    )
    else (d, false)

-- Dispatcher::shutdown
unfoldable pub shutdown : Dispatcher → Dispatcher
unfolding create_task
shutdown d = record d { task_list = d.task_list ++ create_task terminate ∷ [] }

-- ThreadHolder::stop
unfoldable pub stop : Dispatcher → Dispatcher
stop d = record d { state = closing }

-- What a task that runs asks of the dispatcher itself.
pub data Request : Type 0 where
  adds : (task : Task) (push_front : Bool) → Request
  shuts stops : Request

unfoldable pub handle : Request → Dispatcher → Dispatcher
unfolding add_task shutdown stop
handle (adds t push_front) d = (add_task t push_front d).0
handle shuts d = shutdown d
handle stops d = stop d

unfoldable pub handle_all : List Request → Dispatcher → Dispatcher
unfolding handle
handle_all [] d = d
handle_all (r ∷ rs) d = handle_all rs (handle r d)

abbrev pub record_call : Option Callable → List Callable → List Callable
record_call none log = log
record_call (some f) log = f ∷ log

-- The requests that each callable makes while it runs are a parameter.
module _ (requests : ℕ → List Request) where
  unfoldable pub execute : Callable → Dispatcher → Dispatcher
  unfolding handle_all
  execute (call n) d = handle_all (requests n) d
  execute terminate d = record d { state = terminated }

  -- One round of Dispatcher::threadMain on a list that holds a task; the task that ran, if any.
  -- That the map's spectator caches are cleared after a call is not kept here.
  abbrev pub take_task : ℕ → List Task → Dispatcher → Dispatcher × Option Callable
  take_task now [] d = (d, none)
  take_task now (t ∷ rest) d =
      if not (has_expired now t)
      then (
        execute t.func (record d { task_list = rest; cycle = (d.cycle + 1) % u64_mod }),
        some t.func,
      )
      else (record d { task_list = rest }, none)

  unfoldable pub thread_round : ℕ → Dispatcher → Dispatcher × Option Callable
  unfolding execute
  thread_round now d = if is_terminated d.state then (d, none) else take_task now d.task_list d

  -- The loop of Dispatcher::threadMain, one round at each of the given times, between calls of other
  -- threads: the calls it made.
  unfoldable pub thread_main : List ℕ → Dispatcher → Dispatcher × List Callable
  unfolding thread_round
  thread_main [] d = (d, [])
  thread_main (now ∷ times) d =
      let (d1, ran) = thread_round now d in
      let (d2, log) = thread_main times d1 in (d2, record_call ran log)
