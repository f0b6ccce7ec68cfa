-- ===== src/Login/Tests.antt =====
-- Applications of the theorems on src/ban.cpp and src/waitlist.cpp.
use dark_global_12_x.Base.{◌≡◌, ◌≤◌, ◌+◌, refl, true, false, [], ◌∷◌, length, contains, arith}
use dark_global_12_x.Login.Ban.{find, accept_connection, attempts}
use dark_global_12_x.Login.Ban.Limits.{all_refused, attempts_flood}
use dark_global_12_x.Login.WaitList.{
  WaitListInfo, Player, Server, undefined, cleaned, cleanup_list, client_login, enters_directly,
  erase_guid, find_client, scan, is_over, settle,
}
use dark_global_12_x.Login.WaitList.Slots.{guids, index, client_login-logs_in}
use dark_global_12_x.Login.WaitList.Faults.{cleanup_list-keeps, client_login-undefined}

-- The last of the three is after the three seconds, and within the block as the others made it.
attempts_flood_example :
    let (m5, first) = attempts 8 (100 ∷ 200 ∷ 300 ∷ 400 ∷ 500 ∷ []) [] in
    let (m6, answer6) = accept_connection 8 600 m5 in
    (first ≡ true ∷ true ∷ true ∷ true ∷ true ∷ [])
    × (answer6 ≡ false)
    × ((attempts 8 (700 ∷ 3500 ∷ 4000 ∷ []) m6).1 ≡ all_refused (700 ∷ 3500 ∷ 4000 ∷ []))
unfolding find
attempts_flood_example =
    attempts_flood 8 100 600 (200 ∷ 300 ∷ 400 ∷ 500 ∷ []) (700 ∷ 3500 ∷ 4000 ∷ []) [] refl refl
      (
        omega arith,
        omega arith,
        omega arith,
        (
          omega arith,
          omega arith,
          omega arith,
          (omega arith, omega arith, omega arith, (omega arith, omega arith, omega arith, tt)),
        ),
      )
      (omega arith, omega arith, omega arith, tt) (omega arith)
      (omega arith, (omega arith, (omega arith, tt)))

abbrev visitor : Player
visitor = record { guid = 3; always_login = false; gamemaster = false; premium = false }

abbrev patron : Player
patron = record { guid = 1; always_login = false; gamemaster = false; premium = true }

abbrev stranger : Player
stranger = record { guid = 4; always_login = false; gamemaster = false; premium = false }

abbrev server : Server
server = record { now = 50000; max_players = 10; online = 7 }

abbrev queues : WaitListInfo
queues = record {
  priority = record { timeout = 90000; guid = 1 } ∷ [];
  waiting = record { timeout = 70000; guid = 3 } ∷ [];
}

client_login-logs_in_example :
    (contains 3 (guids (cleaned 50000 queues).waiting) ≡ true)
    × (contains 3 (guids (cleaned 50000 queues).priority) ≡ false)
    × (7 + (1 + length (cleaned 50000 queues).priority + index 3 (cleaned 50000 queues).waiting)
        ≤ 10)
    × (queues.priority ≡ (cleaned 50000 queues).priority)
    × ([] ≡ erase_guid 3 (cleaned 50000 queues).waiting)
unfolding enters_directly client_login settle find_client scan cleanup_list is_over erase_guid
client_login-logs_in_example =
    client_login-logs_in visitor server queues (record queues { waiting = [] }) refl refl

cleanup_list-keeps_example :
    cleanup_list 99999 (record { timeout = 90000; guid = 1 } ∷ [])
    ≡ record { timeout = 90000; guid = 1 } ∷ []
cleanup_list-keeps_example =
    cleanup_list-keeps 99999 (record { timeout = 90000; guid = 1 } ∷ []) (omega arith)
      ((omega arith, λ e. omega arith), tt)

client_login-undefined_example : client_login patron server queues ≡ undefined
unfolding enters_directly index
client_login-undefined_example =
    client_login-undefined patron server queues refl (omega arith)
      ((omega arith, λ e. omega arith), tt) refl (omega arith)
