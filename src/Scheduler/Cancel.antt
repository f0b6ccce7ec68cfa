-- ===== src/Scheduler/Cancel.antt =====
-- Stopped events, and the ids that the thread of src/scheduler.cpp gives away.
use dark_global_12_x.Base.{
  ℕ, ◌<◌, ◌≡◌, refl, true, false, List, [], ◌∷◌, some, none, arith, Bool-cases, contains, erase_all,
  insert_key, contains-erase_all, contains-insert_key, map, ◌==◌, ◌&&◌, Option, not, ==_iff, ◌⊎◌,
  inl, inr,
}
use dark_global_12_x.Tasks.{ThreadState, running, is_terminated}
use dark_global_12_x.Scheduler.{
  Scheduler, SchedulerTask, add_event, next_event_id, stop_event, thread_round, thread_main,
  has_timeout, take_event,
}

abbrev pub ids_of : List SchedulerTask → List ℕ
ids_of = map λ t. t.event_id

abbrev scheduler_with : ThreadState → ℕ → List SchedulerTask → List ℕ → Scheduler
scheduler_with st last ts ids = record {
  state = st;
  last_event_id = last;
  event_list = ts;
  event_ids = ids;
}

-- A round gives nothing away and keeps the active ids, or gives one event whose id it makes inactive.
abbrev pub Round : List ℕ → Scheduler × Option SchedulerTask → Type 0
Round ids r =
    ((r.1 ≡ none) × (r.0.event_ids ≡ ids))
    ⊎ ((t : SchedulerTask) × (r.1 ≡ some t)
        × (contains t.event_id ids ≡ true)
        × (r.0.event_ids ≡ erase_all t.event_id ids))

take_event-Round : (ts : List SchedulerTask) (s : Scheduler) → Round s.event_ids (take_event ts s)
take_event-Round [] s = inl (refl, refl)
take_event-Round (t ∷ ts) s = elim (Bool-cases (contains t.event_id s.event_ids)) [
  | inl active ↦ rw active (inr (_, refl, active, refl))
  | inr stopped ↦ rw stopped (inl (refl, refl))
]

pub thread_round-Round : (now : ℕ) (s : Scheduler) → Round s.event_ids (thread_round now s)
unfolding thread_round
thread_round-Round now s =
    elim (Bool-cases (not (is_terminated s.state) && has_timeout now s.event_list)) [
      | inl due ↦ rw due (take_event-Round s.event_list s)
      | inr early ↦ rw early (inl (refl, refl))
    ]

-- A stopped id stays stopped: the thread gives no event under it to the dispatcher.
thread_main-inactive :
    (id : ℕ) (times : List ℕ) (s : Scheduler)
    → contains id s.event_ids ≡ false
    → contains id (ids_of (thread_main times s).1) ≡ false
unfolding thread_main
thread_main-inactive id [] s h = refl
thread_main-inactive id (now ∷ times) s h = elim (thread_round-Round now s) [
  | inl (none_given, kept) ↦
      rw none_given (thread_main-inactive id times (thread_round now s).0 (rw kept h))
  | inr (t, given, active, left) ↦
      let inactive : contains id (erase_all t.event_id s.event_ids) ≡ false =
        ground (arith, contains-erase_all t.event_id id s.event_ids) in
      let rest = thread_main-inactive id times (thread_round now s).0 (rw left inactive) in
      let other : (t.event_id == id) ≡ false = ground (arith, ==_iff t.event_id id) in
      rw (given, other) rest
]

stop_event-inactive :
    (id : ℕ) (s : Scheduler)
    → (stop_event id s).1 ≡ true
    → (contains id (stop_event id s).0.event_ids ≡ false)
      × ((stop_event id (stop_event id s).0).1 ≡ false)
unfolding stop_event
stop_event-inactive id s h = ground (arith, contains-erase_all id id s.event_ids)

-- Once an event is stopped, which `stop_event` reports by `true`, the thread gives no event under
-- its id to the dispatcher, however long it runs, and to stop it again fails.
pub stop_event-cancels :
    (id : ℕ) (times : List ℕ) (s : Scheduler)
    → (stop_event id s).1 ≡ true
    → (contains id (ids_of (thread_main times (stop_event id s).0).1) ≡ false)
      × ((stop_event id (stop_event id s).0).1 ≡ false)
stop_event-cancels id times s h =
    let inactive = stop_event-inactive id s h in
    (thread_main-inactive id times (stop_event id s).0 inactive.0, inactive.1)

next_event_id-pos : (last : ℕ) → 0 < next_event_id last
unfolding next_event_id
next_event_id-pos last = ground arith

-- A running scheduler gives every event an id other than 0, also where the counter wraps, and this
-- id can be used to stop the event, once.
pub stop_event-add_event :
    (t : SchedulerTask) (s : Scheduler)
    → s.state ≡ running
    → let (s', id, signal) = add_event t s in
      (0 < id) × ((stop_event id s').1 ≡ true) × ((stop_event id (stop_event id s').0).1 ≡ false)
unfolding add_event stop_event
stop_event-add_event t s h = ground (
  arith,
  next_event_id-pos s.last_event_id,
  contains-insert_key t.event_id t.event_id s.event_ids,
  contains-insert_key (next_event_id s.last_event_id) (next_event_id s.last_event_id) s.event_ids,
  contains-erase_all t.event_id t.event_id (insert_key t.event_id s.event_ids),
  contains-erase_all (next_event_id s.last_event_id) (next_event_id s.last_event_id)
      (insert_key (next_event_id s.last_event_id) s.event_ids),
)
