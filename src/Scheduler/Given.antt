-- ===== src/Scheduler/Given.antt =====
-- The ids that the thread of src/scheduler.cpp gives away, while events are added and stopped.
use mathlib.Core.Option.{some-injective, none-ne-some}
use dark_global_12_x.Base.{
  ℕ, subst, ◌+◌, ◌<◌, ◌≤◌, ◌≡◌, refl, ap, ◌∙◌, sym, true, false, List, [], ◌∷◌, some, none, arith,
  Bool-cases, Option-cases, contains, erase_all, contains-erase_all, contains-insert_key, Distinct,
  ◌==◌, Option, ==_iff, ◌⊎◌, inl, inr, All,
}
use dark_global_12_x.Base.Words.{u32_mod}
use dark_global_12_x.Tasks.{is_running}
use dark_global_12_x.Scheduler.{
  Scheduler, SchedulerTask, add_event, next_event_id, stop_event, thread_round, record_event,
  insert_event, set_event_id, shutdown,
}
use dark_global_12_x.Scheduler.Cancel.{ids_of, thread_round-Round}
use dark_global_12_x.Scheduler.Order.{Call, adds, stops, wakes, shuts, step, started}

-- What a call gives away, and what a sequence of calls does.
abbrev pub given_by : Call → Scheduler → Option SchedulerTask
given_by (adds t) s = none
given_by (stops id) s = none
given_by (wakes now) s = (thread_round now s).1
given_by shuts s = none

abbrev pub given : List Call → Scheduler → List SchedulerTask
given [] s = []
given (c ∷ cs) s = record_event (given_by c s) (given cs (step c s))

-- The events added are as createSchedulerTask makes them.
abbrev pub IsNew : Call → Type 0
IsNew (adds t) = t.event_id ≡ 0
IsNew (stops id) = Unit {0}
IsNew (wakes now) = Unit {0}
IsNew shuts = Unit {0}

abbrev cost_of : Call → ℕ
cost_of (adds t) = 1
cost_of (stops id) = 0
cost_of (wakes now) = 0
cost_of shuts = 0

abbrev pub count_adds : List Call → ℕ
count_adds [] = 0
count_adds (c ∷ cs) = cost_of c + count_adds cs

-- No id is active that has not been made yet.
abbrev Bounded : Scheduler → Type 0
Bounded s = (id : ℕ) → contains id s.event_ids ≡ true → id ≤ s.last_event_id

-- A call makes at most one id, a new one: no other id becomes active.
abbrev Step : ℕ → Scheduler → Scheduler → Type 0
Step cost s s' =
    (s.last_event_id ≤ s'.last_event_id)
    × (s'.last_event_id ≤ s.last_event_id + cost)
    × ((id : ℕ)
        → contains id s'.event_ids ≡ true
        → (contains id s.event_ids ≡ true) ⊎ ((s.last_event_id < id) × (id ≤ s'.last_event_id)))

next_event_id-next : (last : ℕ) → last + 1 < u32_mod → next_event_id last ≡ last + 1
unfolding next_event_id
next_event_id-next last h = ground (arith, h)

add_event-Step :
    (t : SchedulerTask) (s : Scheduler)
    → t.event_id ≡ 0
    → s.last_event_id + 1 < u32_mod
    → Step 1 s (add_event t s).0
unfolding add_event insert_event set_event_id
add_event-Step t s new room = elim (Bool-cases (is_running s.state)) [
  | inl runs ↦
      let n = s.last_event_id + 1 in
      rw (runs, new, next_event_id-next s.last_event_id room)
        (
          omega arith,
          omega arith,
          λ id h. elim (Bool-cases (contains id s.event_ids)) [
            | inl old ↦ inl old
            | inr fresh ↦
                let e : (n == id) ≡ true =
                  ground (arith, h, fresh, contains-insert_key n id s.event_ids) in
                let same : n ≡ id = (==_iff n id).0 e in
                inr (omega (arith, same), omega (arith, same))
          ],
        )
  | inr closed ↦ rw closed (omega arith, omega arith, λ id h. inl h)
]

stop_event-Step : (id : ℕ) (s : Scheduler) → Step 0 s (stop_event id s).0
unfolding stop_event
stop_event-Step id s = (
  ground arith,
  ground arith,
  λ j h. inl (ground (arith, h, contains-erase_all id j s.event_ids)),
)

thread_round-last :
    (now : ℕ) (s : Scheduler) → (thread_round now s).0.last_event_id ≡ s.last_event_id
unfolding thread_round
thread_round-last now s = ground arith

thread_round-Step : (now : ℕ) (s : Scheduler) → Step 0 s (thread_round now s).0
thread_round-Step now s =
    let last = thread_round-last now s in
    (
      omega (arith, last),
      omega (arith, last),
      elim (thread_round-Round now s) [
        | inl (none_given, kept) ↦ λ id h. inl (sym (ap (contains id) kept) ∙ h)
        | inr (t, given_t, active, left) ↦ λ id h.
            let old = sym (ap (contains id) left) ∙ h in
            inl (ground (arith, old, contains-erase_all t.event_id id s.event_ids))
      ],
    )

step-Step :
    (c : Call) (s : Scheduler)
    → IsNew c
    → s.last_event_id + cost_of c < u32_mod
    → Step (cost_of c) s (step c s)
unfolding step shutdown
step-Step (adds t) s new room = add_event-Step t s new room
step-Step (stops id) s new room = stop_event-Step id s
step-Step (wakes now) s new room = thread_round-Step now s
step-Step shuts s new room = (omega arith, omega arith, λ id h. absurd (ground (arith, h)))

-- What is given was active, and is not any more.
given_by-active :
    (c : Call) (s : Scheduler) (t : SchedulerTask)
    → given_by c s ≡ some t
    → (contains t.event_id s.event_ids ≡ true) × (contains t.event_id (step c s).event_ids ≡ false)
unfolding step
given_by-active (adds u) s t e = absurd (none-ne-some t e)
given_by-active (stops id) s t e = absurd (none-ne-some t e)
given_by-active shuts s t e = absurd (none-ne-some t e)
given_by-active (wakes now) s t e = elim (thread_round-Round now s) [
  | inl (none_given, kept) ↦ absurd (none-ne-some t (sym none_given ∙ e))
  | inr (u, given_u, active, left) ↦
      let same : u ≡ t = some-injective u t (sym given_u ∙ e) in
      let gone : contains u.event_id (erase_all u.event_id s.event_ids) ≡ false =
        ground (arith, contains-erase_all u.event_id u.event_id s.event_ids) in
      subst
        (λ (v : SchedulerTask).
          (contains v.event_id s.event_ids ≡ true)
          × (contains v.event_id (thread_round now s).0.event_ids ≡ false))
        same (active, ap (contains u.event_id) left ∙ gone)
]

Bounded-Step : (cost : ℕ) (s s' : Scheduler) → Step cost s s' → Bounded s → Bounded s'
Bounded-Step cost s s' (more, most, old) bounded id h = elim (old id h) [
  | inl active ↦ omega (arith, more, bounded id active)
  | inr (above, within) ↦ within
]

-- An id that has been made and is not active is never given.
given-inactive :
    (id : ℕ) (cs : List Call) (s : Scheduler)
    → All IsNew cs
    → s.last_event_id + count_adds cs < u32_mod
    → id ≤ s.last_event_id
    → contains id s.event_ids ≡ false
    → contains id (ids_of (given cs s)) ≡ false
given-inactive id [] s new room made gone = refl
given-inactive id (c ∷ cs) s new room made gone =
    let (more, most, old) = step-Step c s new.0 (omega (arith, room)) in
    let still : contains id (step c s).event_ids ≡ false =
      elim (Bool-cases (contains id (step c s).event_ids)) [
        | inl active ↦ elim (old id active) [
          | inl before ↦ absurd (ground (arith, before, gone))
          | inr (above, within) ↦ absurd (omega (arith, above, made))
        ]
        | inr inactive ↦ inactive
      ] in
    let rest =
      given-inactive id cs (step c s) new.1 (omega (arith, room, most)) (omega (arith, made, more))
        still in
    elim (Option-cases (given_by c s)) [
      | inl nothing ↦ rw nothing rest
      | inr (t, e) ↦
          let active = (given_by-active c s t e).0 in
          let other : (t.event_id == id) ≡ false = elim (Bool-cases (t.event_id == id)) [
            | inl same ↦ absurd (
                ground (
                  arith,
                  active,
                  gone,
                  ap (λ (k : ℕ). contains k s.event_ids) ((==_iff t.event_id id).0 same),
                ))
            | inr ne ↦ ne
          ] in
          rw (e, other) rest
    ]

given-Distinct_from :
    (cs : List Call) (s : Scheduler)
    → All IsNew cs
    → s.last_event_id + count_adds cs < u32_mod
    → Bounded s
    → Distinct (ids_of (given cs s))
given-Distinct_from [] s new room bounded = tt
given-Distinct_from (c ∷ cs) s new room bounded =
    let change = step-Step c s new.0 (omega (arith, room)) in
    let room' : (step c s).last_event_id + count_adds cs < u32_mod =
      omega (arith, room, change.1) in
    let rest =
      given-Distinct_from cs (step c s) new.1 room' (Bounded-Step _ s (step c s) change bounded) in
    elim (Option-cases (given_by c s)) [
      | inl nothing ↦ rw nothing rest
      | inr (t, e) ↦
          let (active, gone) = given_by-active c s t e in
          rw e (
            given-inactive t.event_id cs (step c s) new.1 room'
                (omega (arith, bounded t.event_id active, change.0)) gone,
            rest,
          )
    ]

-- After any sequence of calls on a started scheduler, events added, stopped and given away in any
-- order, and a shutdown, no event id has been given to the dispatcher twice. The events are added without
-- an id, as createSchedulerTask makes them, and fewer than 2 ^ 32 of them.
pub given-Distinct :
    (cs : List Call) → All IsNew cs → count_adds cs < u32_mod → Distinct (ids_of (given cs started))
given-Distinct cs new few =
    given-Distinct_from cs started new (omega (arith, few)) (λ id h. absurd (ground (arith, h)))
