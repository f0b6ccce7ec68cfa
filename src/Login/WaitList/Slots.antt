-- ===== src/Login/WaitList/Slots.antt =====
-- Slots of src/waitlist.cpp: the place of a player in the two lists, and what a login does to it.
use dark_global_12_x.Base.{
  ℕ, suc, ◌+◌, ◌≤◌, ◌≡◌, refl, ap, inl, inr, true, false, List, [], ◌∷◌, ◌++◌, map, arith, length,
  ◌==◌, ==_self, if◌then◌else◌, contains, contains-append, Bool-cases,
}
use dark_global_12_x.Login.WaitList.{
  Wait, WaitListInfo, Player, Server, Place, in_priority, in_waiting, at_end, logs_in, waits, scan,
  find_client, erase_guid, cleanup_list, cleaned, settle, client_login, enters_directly,
  get_client_slot, deadline,
}

abbrev pub guids : List Wait → List ℕ
guids = map λ w. w.guid

-- The index of a guid's first entry, or the length.
unfoldable pub index : ℕ → List Wait → ℕ
index guid [] = 0
index guid (w ∷ ws) = if w.guid == guid then 0 else suc (index guid ws)

pub scan-index :
    (guid slot : ℕ) (ws : List Wait)
    → scan guid slot ws ≡ (contains guid (guids ws), slot + index guid ws)
unfolding scan index
scan-index guid slot [] = let e : slot ≡ slot + 0 = omega arith in λ i. (false, e i)
scan-index guid slot (w ∷ ws) = ground (arith, scan-index guid (slot + 1) ws)

index-length :
    (guid : ℕ) (ws : List Wait) → contains guid (guids ws) ≡ false → index guid ws ≡ length ws
unfolding index
index-length guid [] h = refl
index-length guid (w ∷ ws) h = ground (arith, index-length guid ws)

-- Where a guid is found, by the list that holds it.
pub find_client_lem :
    (guid : ℕ) (info : WaitListInfo)
    → find_client guid info ≡ (
        if contains guid (guids info.priority)
        then in_priority (1 + index guid info.priority)
        else if contains guid (guids info.waiting)
        then in_waiting (1 + length info.priority + index guid info.waiting)
        else at_end (1 + length info.priority + length info.waiting))
unfolding find_client
find_client_lem guid info = elim (Bool-cases (contains guid (guids info.priority))) [
  | inl here ↦ rw (scan-index guid 1 info.priority, here)
  | inr not_here ↦
      rw
        (
          scan-index guid 1 info.priority,
          not_here,
          index-length guid info.priority not_here,
          scan-index guid (1 + length info.priority) info.waiting,
        )
        (elim (Bool-cases (contains guid (guids info.waiting))) [
          | inl there ↦ rw there
          | inr absent ↦ rw (absent, index-length guid info.waiting absent)
        ])
]

index-append :
    (guid : ℕ) (ws vs : List Wait)
    → index guid (ws ++ vs)
      ≡ (if contains guid (guids ws) then index guid ws else length ws + index guid vs)
unfolding index
index-append guid [] vs = omega arith
index-append guid (w ∷ ws) vs = ground (arith, index-append guid ws vs)

guids-append : (ws vs : List Wait) → guids (ws ++ vs) ≡ guids ws ++ guids vs
guids-append [] vs = refl
guids-append (w ∷ ws) vs = ap (◌∷◌ w.guid) (guids-append ws vs)

-- The slot of a player is its place, counted from 1, in the priority list followed by the other
-- list, and is 0 exactly when it is in neither.
pub get_client_slot-index :
    (guid : ℕ) (info : WaitListInfo)
    → let all = info.priority ++ info.waiting in
      get_client_slot guid info ≡ (if contains guid (guids all) then 1 + index guid all else 0)
unfolding get_client_slot
get_client_slot-index guid info =
    rw
      (
        find_client_lem guid info,
        guids-append info.priority info.waiting,
        contains-append guid (guids info.priority) (guids info.waiting),
        index-append guid info.priority info.waiting,
      )
      (ground (arith, index-length guid info.priority))

settle-logs_in :
    (p : Player) (s : Server) (info info' : WaitListInfo) (place : Place)
    → settle p s info place ≡ logs_in info'
    → (slot : ℕ) × (place ≡ in_waiting slot)
      × (s.online + slot ≤ s.max_players)
      × (info' ≡ record info { waiting = erase_guid p.guid info.waiting })
unfolding settle
settle-logs_in p s info info' (in_priority slot) e = absurd (ground arith)
settle-logs_in p s info info' (in_waiting slot) e = (slot, refl, ground arith, ground arith)
settle-logs_in p s info info' (at_end slot) e = absurd (ground arith)

find_client-in_waiting :
    (guid slot : ℕ) (info : WaitListInfo)
    → find_client guid info ≡ in_waiting slot
    → (contains guid (guids info.waiting) ≡ true)
      × (contains guid (guids info.priority) ≡ false)
      × (slot ≡ 1 + length info.priority + index guid info.waiting)
find_client-in_waiting guid slot info e = ground (arith, find_client_lem guid info)

-- A player who does not enter directly logs in only from the list of players without priority, at a
-- slot for which there is room behind all who stand in front; the login takes it off that list and
-- leaves the priority list as it was after the cleanup.
pub client_login-logs_in :
    (p : Player) (s : Server) (info info' : WaitListInfo)
    → enters_directly p s info ≡ false
    → client_login p s info ≡ logs_in info'
    → let now_in = cleaned s.now info in
      (contains p.guid (guids now_in.waiting) ≡ true)
      × (contains p.guid (guids now_in.priority) ≡ false)
      × (s.online + (1 + length now_in.priority + index p.guid now_in.waiting) ≤ s.max_players)
      × (info'.priority ≡ now_in.priority)
      × (info'.waiting ≡ erase_guid p.guid now_in.waiting)
unfolding client_login
client_login-logs_in p s info info' direct e =
    let now_in = cleaned s.now info in
    let settled : settle p s now_in (find_client p.guid now_in) ≡ logs_in info' = rw direct at e in
    let (slot, place, room, same) = settle-logs_in p s now_in info' _ settled in
    let found = find_client-in_waiting p.guid slot now_in place in
    (
      found.0,
      found.1,
      omega arith,
      ap (λ (i : WaitListInfo). i.priority) same,
      ap (λ (i : WaitListInfo). i.waiting) same,
    )

-- The slot of an entry that was just put at the end of a list.
slot-priority :
    (w : Wait) (info : WaitListInfo)
    → contains w.guid (guids info.priority) ≡ false
    → get_client_slot w.guid (record info { priority = info.priority ++ w ∷ [] })
      ≡ 1 + length info.priority
unfolding get_client_slot index
slot-priority w info absent =
    let info' : WaitListInfo = record info { priority = info.priority ++ w ∷ [] } in
    rw
      (
        find_client_lem w.guid info',
        guids-append info.priority (w ∷ []),
        contains-append w.guid (guids info.priority) (w.guid ∷ []),
        absent,
        ==_self w.guid,
        index-append w.guid info.priority (w ∷ []),
        absent,
        ==_self w.guid,
      )
      (omega arith)

slot-waiting :
    (w : Wait) (info : WaitListInfo)
    → contains w.guid (guids info.priority) ≡ false
    → contains w.guid (guids info.waiting) ≡ false
    → get_client_slot w.guid (record info { waiting = info.waiting ++ w ∷ [] })
      ≡ 1 + length info.priority + length info.waiting
unfolding get_client_slot index
slot-waiting w info no_priority absent =
    let info' : WaitListInfo = record info { waiting = info.waiting ++ w ∷ [] } in
    rw
      (
        find_client_lem w.guid info',
        no_priority,
        guids-append info.waiting (w ∷ []),
        contains-append w.guid (guids info.waiting) (w.guid ∷ []),
        absent,
        ==_self w.guid,
        index-append w.guid info.waiting (w ∷ []),
        absent,
        ==_self w.guid,
      )
      (omega arith)

settle-queues :
    (p : Player) (s : Server) (info : WaitListInfo)
    → contains p.guid (guids info.priority) ≡ false
    → contains p.guid (guids info.waiting) ≡ false
    → (info' : WaitListInfo) × (settle p s info (find_client p.guid info) ≡ waits info')
      × (get_client_slot p.guid info' ≡ (
          if p.premium
          then 1 + length info.priority
          else 1 + length info.priority + length info.waiting))
unfolding settle
settle-queues p s info no_priority absent =
    let n = length info.priority in
    let n' = n + length info.waiting in
    let first : Wait = record { timeout = deadline s.now (n + 1); guid = p.guid } in
    let last : Wait = record { timeout = deadline s.now (n' + 1); guid = p.guid } in
    rw (find_client_lem p.guid info, no_priority, absent)
      (elim (Bool-cases p.premium) [
        | inl premium ↦ rw premium (_, refl, slot-priority first info no_priority)
        | inr free ↦ rw free (_, refl, slot-waiting last info no_priority absent)
      ])

-- A player who is in neither list after the cleanup and does not enter directly is put at the end
-- of its list: a premium player behind all who have priority, another one behind all who wait.
pub client_login-queues :
    (p : Player) (s : Server) (info : WaitListInfo)
    → enters_directly p s info ≡ false
    → contains p.guid (guids (cleanup_list s.now info.priority)) ≡ false
    → contains p.guid (guids (cleanup_list s.now info.waiting)) ≡ false
    → (info' : WaitListInfo) × (client_login p s info ≡ waits info')
      × (get_client_slot p.guid info' ≡ (
          if p.premium
          then 1 + length (cleanup_list s.now info.priority)
          else 1
            + length (cleanup_list s.now info.priority)
            + length (cleanup_list s.now info.waiting)))
unfolding client_login
client_login-queues p s info direct no_priority absent =
    rw direct (settle-queues p s (cleaned s.now info) no_priority absent)
