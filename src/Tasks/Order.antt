-- ===== src/Tasks/Order.antt =====
-- The order in which the dispatcher of src/tasks.cpp runs its tasks, and how its shutdown drains it.
use dark_global_12_x.Base.{
  ℕ, ◌+◌, ◌%◌, ◌≡◌, refl, sym, ap, ◌∙◌, false, List, [], ◌∷◌, ◌++◌, append_assoc, append-nil, arith,
  length, All, if◌then◌else◌, Bool-cases, inl, inr,
}
use dark_global_12_x.Base.Words.{u64_mod}
use dark_global_12_x.Tasks.{
  Task, Callable, call, terminate, Dispatcher, ThreadState, closing, terminated, is_running,
  is_terminated, has_expired, thread_round, thread_main, shutdown, stop, add_task, create_task,
  Request, adds, shuts, stops, handle, handle_all, execute,
}

-- The calls of a queue that is read from its head, one entry at each time; an entry that has
-- expired when its turn comes makes no call, and `terminate` is the last.
unfoldable pub calls_made : List ℕ → List Task → List Callable
calls_made [] ts = []
calls_made (now ∷ times) [] = []
calls_made (now ∷ times) (t ∷ ts) =
    let rest = calls_made times ts in
    if has_expired now t
    then rest
    else (elim t.func [ call n ↦ t.func ∷ rest | terminate ↦ t.func ∷ [] ])

abbrev pub IsCall : Task → Type 0
IsCall t = elim t.func [ call n ↦ Unit {0} | terminate ↦ ⊥ ]

-- Requests that put no task in front of others.
abbrev pub IsBack : Request → Type 0
IsBack (adds t push_front) = push_front ≡ false
IsBack shuts = Unit {0}
IsBack stops = Unit {0}

abbrev ending : Task
ending = record { expiration = 0; func = terminate }

-- The tasks that requests bring onto the list of a dispatcher: none that is added when it closes.
abbrev pub brought : ThreadState → List Request → List Task
brought st [] = []
brought st (adds t push_front ∷ rs) =
    let rest = brought st rs in if is_running st then t ∷ rest else rest
brought st (shuts ∷ rs) = ending ∷ brought st rs
brought st (stops ∷ rs) = brought closing rs

abbrev state_after : ThreadState → List Request → ThreadState
state_after st [] = st
state_after st (adds t push_front ∷ rs) = state_after st rs
state_after st (shuts ∷ rs) = state_after st rs
state_after st (stops ∷ rs) = state_after closing rs

state_after-alive :
    (st : ThreadState) (rs : List Request)
    → is_terminated st ≡ false
    → is_terminated (state_after st rs) ≡ false
state_after-alive st [] h = h
state_after-alive st (adds t b ∷ rs) h = state_after-alive st rs h
state_after-alive st (shuts ∷ rs) h = state_after-alive st rs h
state_after-alive st (stops ∷ rs) h = state_after-alive closing rs refl

brought-append :
    (st : ThreadState) (rs qs : List Request)
    → brought st (rs ++ qs) ≡ brought st rs ++ brought (state_after st rs) qs
brought-append st [] qs = refl
brought-append st (adds t b ∷ rs) qs = elim (Bool-cases (is_running st)) [
  | inl runs ↦ rw runs (ap (λ (ts : List Task). t ∷ ts) (brought-append st rs qs))
  | inr closed ↦ rw closed (brought-append st rs qs)
]
brought-append st (shuts ∷ rs) qs = ap (λ (ts : List Task). ending ∷ ts) (brought-append st rs qs)
brought-append st (stops ∷ rs) qs = brought-append closing rs qs

abbrev with_tasks : ThreadState → List Task → ℕ → Dispatcher
with_tasks st ts c = record { state = st; task_list = ts; cycle = c }

handle_all-IsBack :
    (rs : List Request) (st : ThreadState) (ts : List Task) (c : ℕ)
    → All IsBack rs
    → handle_all rs (with_tasks st ts c) ≡ with_tasks (state_after st rs) (ts ++ brought st rs) c
unfolding handle_all handle add_task shutdown stop create_task
handle_all-IsBack [] st ts c h = ap (λ (l : List Task). with_tasks st l c) (sym (append-nil ts))
handle_all-IsBack (adds t b ∷ rs) st ts c h = elim (Bool-cases (is_running st)) [
  | inl runs ↦
      rw (h.0, runs)
        (handle_all-IsBack rs st (ts ++ t ∷ []) c h.1
          ∙ ap (λ (l : List Task). with_tasks (state_after st rs) l c) (append_assoc ts (t ∷ []) _))
  | inr closed ↦ rw closed (handle_all-IsBack rs st ts c h.1)
]
handle_all-IsBack (shuts ∷ rs) st ts c h =
    handle_all-IsBack rs st (ts ++ create_task terminate ∷ []) c h.1
    ∙ ap (λ (l : List Task). with_tasks (state_after st rs) l c) (append_assoc ts _ _)
handle_all-IsBack (stops ∷ rs) st ts c h = handle_all-IsBack rs closing ts c h.1

module _ (requests : ℕ → List Request) where
  -- What the calls ask of the dispatcher, in order.
  abbrev pub requested : List Callable → List Request
  requested [] = []
  requested (call n ∷ cs) = requests n ++ requested cs
  requested (terminate ∷ cs) = requested cs

  abbrev Drained : List ℕ → List Task → ThreadState → List Task → ℕ → Type 0
  Drained times ts st more c =
      let r = thread_main requests times (with_tasks st (ts ++ create_task terminate ∷ more) c) in
      (r.0.state ≡ terminated)
      × (r.0.task_list ≡ more ++ brought st (requested (calls_made times ts)))
      × (r.1 ≡ calls_made times ts ++ terminate ∷ [])

  -- A task at the head that calls, in front of a queue that is drained.
  Drained-call :
      (now : ℕ) (times : List ℕ) (expiration n : ℕ) (ts : List Task) (st : ThreadState)
      (more : List Task) (c : ℕ)
      → is_terminated st ≡ false
      → All IsBack (requests n)
      → ((st' : ThreadState) (more' : List Task) (c' : ℕ)
          → is_terminated st' ≡ false
          → Drained times ts st' more' c')
      → Drained (now ∷ times) (record { expiration = expiration; func = call n } ∷ ts) st more c
  unfolding thread_main thread_round execute calls_made
  Drained-call now times expiration n ts st more c alive back rest =
      let t : Task = record { expiration = expiration; func = call n } in
      elim (Bool-cases (has_expired now t)) [
        | inl expired ↦ rw (alive, expired) (rest st more c alive)
        | inr timely ↦
            let news = brought st (requests n) in
            let st' = state_after st (requests n) in
            let (state, list, log) =
              rest st' (more ++ news) ((c + 1) % u64_mod)
                (state_after-alive st (requests n) alive) in
            rw
              (
                alive,
                timely,
                handle_all-IsBack (requests n) st (ts ++ create_task terminate ∷ more)
                    ((c + 1) % u64_mod) back,
                append_assoc ts (create_task terminate ∷ more) news,
              )
              (
                state,
                list
                    ∙ append_assoc more news _
                    ∙ ap (λ (l : List Task). more ++ l)
                        (sym (brought-append st (requests n) (requested (calls_made times ts)))),
                ap (λ (l : List Callable). call n ∷ l) log,
              )
      ]

  module _ (back : (n : ℕ) → All IsBack (requests n)) where
    Drained-head :
        (now : ℕ) (times : List ℕ) (expiration : ℕ) (f : Callable) (ts : List Task)
        (st : ThreadState) (more : List Task) (c : ℕ)
        → IsCall (record { expiration = expiration; func = f })
        → is_terminated st ≡ false
        → ((st' : ThreadState) (more' : List Task) (c' : ℕ)
            → is_terminated st' ≡ false
            → Drained times ts st' more' c')
        → Drained (now ∷ times) (record { expiration = expiration; func = f } ∷ ts) st more c
    Drained-head now times expiration terminate ts st more c h alive rest = absurd h
    Drained-head now times expiration (call n) ts st more c h alive rest =
        Drained-call now times expiration n ts st more c alive (back n) rest

    drains :
        (now : ℕ) (times : List ℕ) (ts : List Task) (st : ThreadState) (more : List Task) (c : ℕ)
        → length times ≡ length ts
        → All IsCall ts
        → is_terminated st ≡ false
        → Drained (now ∷ times) ts st more c
    unfolding thread_main thread_round execute calls_made create_task has_expired
    drains now [] [] st more c e h alive = rw alive (refl, sym (append-nil more), refl)
    drains now (n ∷ times) (t ∷ ts) st more c e h alive =
        Drained-head now (n ∷ times) t.expiration t.func ts st more c h.0 alive
          (λ st' more' c' alive'. drains n times ts st' more' c' (omega arith) h.1 alive')
    drains now [] (t ∷ ts) st more c e h alive = absurd (omega arith)
    drains now (n ∷ times) [] st more c e h alive = absurd (omega arith)

    -- A dispatcher that has not terminated and is shut down still makes the calls of every task that was
    -- queued before and has not expired when its turn comes; with one round for each of these tasks and
    -- one more it ends terminated, and `terminate` is its last call. What the tasks ask of the dispatcher
    -- meanwhile is never run: on the list are the tasks that they added while it was running, and a
    -- closing dispatcher takes none. The tasks add at the back, and no other thread calls meanwhile.
    pub shutdown_drains :
        (now : ℕ) (times : List ℕ) (ts : List Task) (st : ThreadState) (c : ℕ)
        → length times ≡ length ts
        → All IsCall ts
        → is_terminated st ≡ false
        → let d : Dispatcher = record { state = st; task_list = ts; cycle = c } in
          let r = thread_main requests (now ∷ times) (shutdown d) in
          (r.0.state ≡ terminated)
          × (r.0.task_list ≡ brought st (requested (calls_made (now ∷ times) ts)))
          × (r.1 ≡ calls_made (now ∷ times) ts ++ terminate ∷ [])
    unfolding shutdown
    shutdown_drains now times ts st c e h alive = drains now times ts st [] c e h alive
