-- ===== src/Login/WaitList.antt =====
-- The waiting list of src/waitlist.cpp: who logs in when the server is full. The time (OTSYS_TIME,
-- in milliseconds), the configured maximum and the players online are arguments of a call.
pub mod Slots
pub mod Faults
use dark_global_12_x.Base.{
  ℕ, suc, ◌+◌, ◌-◌, ◌*◌, ◌%◌, Bool, true, false, ◌&&◌, ◌||◌, not, Option, none, some, List, [], ◌∷◌,
  ◌++◌, ltb, leb, ◌==◌, if◌then◌else◌, length,
}
use dark_global_12_x.Base.Words.{u64_mod}

-- timeout is a std::size_t of 64 bits.
pub record Wait : Type 0 where
  pub timeout : ℕ
  pub guid : ℕ

pub record WaitListInfo : Type 0 where
  pub priority : List Wait
  pub waiting : List Wait

-- What the code reads of a Player: its guid, whether it has PlayerFlag_CanAlwaysLogin or a game
-- master's account, and whether it is premium.
pub record Player : Type 0 where
  pub guid : ℕ
  pub always_login : Bool
  pub gamemaster : Bool
  pub premium : Bool

pub record Server : Type 0 where
  pub now : ℕ
  pub max_players : ℕ
  pub online : ℕ

-- `(it->timeout - time) <= 0`: the difference is unsigned, so it is zero or passes for positive.
unfoldable pub is_over : ℕ → Wait → Bool
is_over now w = leb ((w.timeout + u64_mod - now) % u64_mod) 0

unfoldable pub cleanup_list : ℕ → List Wait → List Wait
cleanup_list now [] = []
cleanup_list now (w ∷ ws) =
    let rest = cleanup_list now ws in if is_over now w then rest else w ∷ rest

-- WaitingList::getTime, in seconds
unfoldable pub get_time : ℕ → ℕ
get_time slot =
    if ltb slot 5
    then 5
    else if ltb slot 10
    then 10
    else if ltb slot 20
    then 20
    else if ltb slot 50
    then 60
    else 120

unfoldable pub get_timeout : ℕ → ℕ
get_timeout slot = get_time slot + 15

-- OTSYS_TIME() + (getTimeout(slot) * 1000)
unfoldable pub deadline : ℕ → ℕ → ℕ
deadline now slot = (now + get_timeout slot * 1000) % u64_mod

-- Where the iterator that findClient returns stands, with the slot. The list of an iterator at an
-- entry matters: `erase` wants one of its own list.
pub data Place : Type 0 where
  in_priority in_waiting at_end : ℕ → Place

-- A loop of findClient from a slot on: the slot of the guid, or the slot behind the list.
unfoldable pub scan : ℕ → ℕ → List Wait → Bool × ℕ
scan guid slot [] = (false, slot)
scan guid slot (w ∷ ws) =
    let rest = scan guid (slot + 1) ws in if w.guid == guid then (true, slot) else rest

abbrev pub second_scan : Bool × ℕ → Place
second_scan (true, slot) = in_waiting slot
second_scan (false, slot) = at_end slot

abbrev pub first_scan : ℕ → List Wait → Bool × ℕ → Place
first_scan guid waiting (true, slot) = in_priority slot
first_scan guid waiting (false, slot) = second_scan (scan guid slot waiting)

unfoldable pub find_client : ℕ → WaitListInfo → Place
find_client guid info = first_scan guid info.waiting (scan guid 1 info.priority)

-- list::erase at the first entry with the guid, and a write of its timeout.
unfoldable pub erase_guid : ℕ → List Wait → List Wait
erase_guid guid [] = []
erase_guid guid (w ∷ ws) = if w.guid == guid then ws else w ∷ erase_guid guid ws

unfoldable pub set_timeout : ℕ → ℕ → List Wait → List Wait
set_timeout guid t [] = []
set_timeout guid t (w ∷ ws) =
    if w.guid == guid then record w { timeout = t } ∷ ws else w ∷ set_timeout guid t ws

-- `undefined` is undefined behaviour: `waitList.erase` of an iterator into the other list.
pub data Outcome : Type 0 where
  logs_in waits : WaitListInfo → Outcome
  undefined : Outcome

abbrev pub has_room : ℕ → Server → Bool
has_room slot s = leb (s.online + slot) s.max_players

-- The part behind findClient.
unfoldable pub settle : Player → Server → WaitListInfo → Place → Outcome
settle p s info (in_priority slot) =
    if has_room slot s
    then undefined
    else waits (record info { priority = set_timeout p.guid (deadline s.now slot) info.priority })
settle p s info (in_waiting slot) =
    if has_room slot s
    then logs_in (record info { waiting = erase_guid p.guid info.waiting })
    else waits (record info { waiting = set_timeout p.guid (deadline s.now slot) info.waiting })
settle p s info (at_end slot) =
    let n = length info.priority in
    if p.premium
    then waits (record info {
      priority = info.priority ++ record { timeout = deadline s.now (n + 1); guid = p.guid } ∷ [];
    })
    else (let n' = n + length info.waiting in
        waits (record info {
          waiting =
              info.waiting ++ record { timeout = deadline s.now (n' + 1); guid = p.guid } ∷ [];
        }))

abbrev pub is_empty : List Wait → Bool
is_empty [] = true
is_empty (w ∷ ws) = false

unfoldable pub enters_directly : Player → Server → WaitListInfo → Bool
enters_directly p s info =
    p.always_login
    || p.gamemaster
    || s.max_players == 0
    || (is_empty info.priority && is_empty info.waiting && ltb s.online s.max_players)

abbrev pub cleaned : ℕ → WaitListInfo → WaitListInfo
cleaned now info = record {
  priority = cleanup_list now info.priority;
  waiting = cleanup_list now info.waiting;
}

-- WaitingList::clientLogin
unfoldable pub client_login : Player → Server → WaitListInfo → Outcome
client_login p s info =
    if enters_directly p s info
    then logs_in info
    else settle p s (cleaned s.now info) (find_client p.guid (cleaned s.now info))

-- WaitingList::getClientSlot
abbrev pub slot_of : Place → ℕ
slot_of (in_priority slot) = slot
slot_of (in_waiting slot) = slot
slot_of (at_end slot) = 0

unfoldable pub get_client_slot : ℕ → WaitListInfo → ℕ
get_client_slot guid info = slot_of (find_client guid info)
