-- ===== src/Network/Autosend/Alive.antt =====
-- What the autosend pool of src/outputmessage.cpp keeps, and what it sends.
use dark_global_12_x.Base.{
  ℕ, ◌+◌, ◌-◌, ◌≡◌, refl, sym, ap, ◌∙◌, Bool, true, false, not, ◌||◌, Option, none, some, List, [],
  ◌∷◌, ◌++◌, ◌==◌, if◌then◌else◌, arith, contains, Bool-cases, inl, inr, ==_iff,
}
use dark_global_12_x.Network.Autosend.{
  Pool, has_none, schedule_send_all, send_buffer, send_buffers, send_all, add_protocol_to_autosend,
  fire, fire_first, last_of, pop_back, fill_from_back, swap_out, remove_protocol_from_autosend,
  autosend_delay,
}

-- How often a protocol is in the list.
unfoldable pub count : ℕ → List ℕ → ℕ
count p [] = 0
count p (q ∷ qs) = (if q == p then 1 else 0) + count p qs

count-fill : (p q : ℕ) (qs : List ℕ) → count p (last_of q qs ∷ pop_back q qs) ≡ count p (q ∷ qs)
unfolding count
count-fill p q [] = refl
count-fill p q (r ∷ rs) = ground (arith, count-fill p r rs)

count-fill_from_back : (p : ℕ) (qs : List ℕ) → count p (fill_from_back qs) ≡ count p qs
count-fill_from_back p [] = refl
count-fill_from_back p (q ∷ qs) = count-fill p q qs

-- The removal by a swap with the last protocol takes one occurrence of the protocol removed, if
-- there is one, and none of any other.
pub count-swap_out :
    (p q : ℕ) (qs : List ℕ)
    → count q (swap_out p qs) ≡ (if p == q then count q qs - 1 else count q qs)
unfolding count swap_out
count-swap_out p q [] = ground arith
count-swap_out p q (r ∷ rs) = ground (arith, count-swap_out p q rs, count-fill_from_back q rs)

never_none : (xs : List ℕ) (x : ℕ) → has_none (xs ++ x ∷ []) ≡ false
never_none [] x = refl
never_none (y ∷ ys) x = refl

none-swap_out : (p : ℕ) (qs : List ℕ) → has_none qs ≡ true → has_none (swap_out p qs) ≡ true
unfolding swap_out
none-swap_out p [] h = refl
none-swap_out p (q ∷ qs) h = absurd (ground arith)

module _ {M : Type 0} where
  -- While a protocol is buffered, a sendAll is under way.
  abbrev pub is_alive : Pool M → Bool
  is_alive s = has_none s.buffered_protocols || not (has_none s.timers)

  buffered-send_buffers :
      (ps : List ℕ) (s : Pool M) → (send_buffers ps s).buffered_protocols ≡ s.buffered_protocols
  unfolding send_buffers
  buffered-send_buffers [] s = refl
  buffered-send_buffers (p ∷ ps) s =
      buffered-send_buffers ps (send_buffer p (s.current_buffer p) s) ∙ kept (s.current_buffer p)
    where
      kept : (o : Option M) → (send_buffer p o s).buffered_protocols ≡ s.buffered_protocols
      kept none = refl
      kept (some m) = refl

  send_all-alive : (s : Pool M) → is_alive (send_all s) ≡ true
  unfolding send_all schedule_send_all
  send_all-alive s =
      let s' = send_buffers s.buffered_protocols s in
      ground (
        arith,
        never_none s'.timers autosend_delay,
        ap has_none (buffered-send_buffers s.buffered_protocols s),
      )

  -- What happens to a pool from the start on.
  pub data History : Pool M → Type 0 where
    begins :
        (b : ℕ → Option M)
        → History (record { buffered_protocols = []; timers = []; sent = []; current_buffer = b })
    adds : (p : ℕ) (s : Pool M) → History s → History (add_protocol_to_autosend p s)
    removes : (p : ℕ) (s : Pool M) → History s → History (remove_protocol_from_autosend p s)
    fires : (s : Pool M) → History s → History (fire s)
    writes : (b : ℕ → Option M) (s : Pool M) → History s → History (record s { current_buffer = b })

  -- After any sequence of additions and removals of protocols, runs of the timer and changes of the
  -- buffers, a pool with a protocol has a sendAll scheduled.
  pub History-alive : (s : Pool M) → History s → is_alive s ≡ true
  unfolding add_protocol_to_autosend schedule_send_all remove_protocol_from_autosend fire
  History-alive _ (begins b) = refl
  History-alive _ (adds p s h) =
      ground (arith, History-alive s h, never_none s.timers autosend_delay)
  History-alive _ (removes p s h) =
      ground (arith, History-alive s h, none-swap_out p s.buffered_protocols)
  History-alive _ (fires s h) = fire_alive (History-alive s h) s.timers
    where
      fire_alive : is_alive s ≡ true → (ts : List ℕ) → is_alive (fire_first ts s) ≡ true
      fire_alive k [] = k
      fire_alive k (t ∷ ts) = send_all-alive (record s { timers = ts })
  History-alive _ (writes b s h) = History-alive s h

  sent_before :
      (ps : List ℕ) (q : ℕ) (s : Pool M)
      → s.current_buffer q ≡ none
      → (send_buffers ps s).current_buffer q ≡ none
  unfolding send_buffers
  sent_before [] q s h = h
  sent_before (p ∷ ps) q s h =
      sent_before ps q (send_buffer p (s.current_buffer p) s) (still (s.current_buffer p))
    where
      still : (o : Option M) → (send_buffer p o s).current_buffer q ≡ none
      still none = h
      still (some m) = ground (arith, h)

  emptied :
      (p q : ℕ) (s : Pool M) (o : Option M)
      → (p == q) ≡ true
      → s.current_buffer p ≡ o
      → (send_buffer p o s).current_buffer q ≡ none
  emptied p q s none same e = sym (ap s.current_buffer ((==_iff p q).0 same)) ∙ e
  emptied p q s (some m) same e = ground (arith, same)

  flushed :
      (ps : List ℕ) (q : ℕ) (s : Pool M)
      → contains q ps ≡ true
      → (send_buffers ps s).current_buffer q ≡ none
  unfolding send_buffers
  flushed [] q s h = absurd (ground arith)
  flushed (p ∷ ps) q s h = elim (Bool-cases (p == q)) [
    | inl same ↦
        sent_before ps q (send_buffer p (s.current_buffer p) s)
          (emptied p q s (s.current_buffer p) same refl)
    | inr other ↦ flushed ps q (send_buffer p (s.current_buffer p) s) (ground arith)
  ]

  -- After sendAll no protocol in the pool has a message in its buffer.
  pub send_all-flushed :
      (q : ℕ) (s : Pool M)
      → contains q s.buffered_protocols ≡ true
      → (send_all s).current_buffer q ≡ none
  unfolding send_all schedule_send_all
  send_all-flushed q s h = elim (Bool-cases (not (has_none s.buffered_protocols))) [
    | inl some_left ↦ rw some_left (flushed s.buffered_protocols q s h)
    | inr none_left ↦ rw none_left (flushed s.buffered_protocols q s h)
  ]
