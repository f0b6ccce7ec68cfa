-- ===== src/Network/Autosend.antt =====
-- src/outputmessage.cpp: the pool that sends the buffered messages of the protocols on a timer.
use dark_global_12_x.Base.{
  ℕ, zero, suc, ◌+◌, ◌-◌, ◌≡◌, ◌<◌, refl, sym, ap, ◌∙◌, Bool, true, false, not, ◌&&◌, ◌||◌, Option,
  none, some, List, [], ◌∷◌, ◌++◌, ◌==◌, if◌then◌else◌, arith, contains, erase_first,
}
pub mod Alive

-- OUTPUTMESSAGE_AUTOSEND_DELAY, in milliseconds
abbrev pub autosend_delay : ℕ
autosend_delay = 10

-- bufferedProtocols; the delays of the sendAll tasks handed to the scheduler that have not run yet;
-- what was given to Protocol::send; and each protocol's current buffer.
pub record Pool (M : Type 0) : Type 0 where
  pub buffered_protocols : List ℕ
  pub timers : List ℕ
  pub sent : List (ℕ × M)
  pub current_buffer : ℕ → Option M

abbrev pub has_none : List ℕ → Bool
has_none [] = true
has_none (p ∷ ps) = false

module _ {M : Type 0} where
  unfoldable pub schedule_send_all : Pool M → Pool M
  schedule_send_all s = record s { timers = s.timers ++ autosend_delay ∷ [] }

  abbrev pub send_buffer : ℕ → Option M → Pool M → Pool M
  send_buffer p none s = s
  send_buffer p (some m) s = record s {
    sent = s.sent ++ (p, m) ∷ [];
    current_buffer = λ q. if p == q then none else s.current_buffer q;
  }

  unfoldable pub send_buffers : List ℕ → Pool M → Pool M
  send_buffers [] s = s
  send_buffers (p ∷ ps) s = send_buffers ps (send_buffer p (s.current_buffer p) s)

  unfoldable pub send_all : Pool M → Pool M
  send_all s =
      let s' = send_buffers s.buffered_protocols s in
      if not (has_none s.buffered_protocols) then schedule_send_all s' else s'

  unfoldable pub add_protocol_to_autosend : ℕ → Pool M → Pool M
  add_protocol_to_autosend p s =
      let s' = if has_none s.buffered_protocols then schedule_send_all s else s in
      record s' { buffered_protocols = s'.buffered_protocols ++ p ∷ [] }

  -- The scheduler's task: a timer less, and sendAll.
  abbrev pub fire_first : List ℕ → Pool M → Pool M
  fire_first [] s = s
  fire_first (t ∷ ts) s = send_all (record s { timers = ts })

  unfoldable pub fire : Pool M → Pool M
  fire s = fire_first s.timers s

abbrev pub last_of : ℕ → List ℕ → ℕ
last_of x [] = x
last_of x (y ∷ ys) = last_of y ys

abbrev pub pop_back : ℕ → List ℕ → List ℕ
pop_back x [] = []
pop_back x (y ∷ ys) = x ∷ pop_back y ys

-- std::swap(*it, back()); pop_back();
abbrev pub fill_from_back : List ℕ → List ℕ
fill_from_back [] = []
fill_from_back (y ∷ ys) = last_of y ys ∷ pop_back y ys

unfoldable pub swap_out : ℕ → List ℕ → List ℕ
swap_out p [] = []
swap_out p (q ∷ qs) = let rest = swap_out p qs in if q == p then fill_from_back qs else q ∷ rest

unfoldable pub remove_protocol_from_autosend : {M : Type 0} → ℕ → Pool M → Pool M
remove_protocol_from_autosend p s = record s {
  buffered_protocols = swap_out p s.buffered_protocols;
}
