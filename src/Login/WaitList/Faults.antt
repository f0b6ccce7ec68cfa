-- ===== src/Login/WaitList/Faults.antt =====
-- Two faults of src/waitlist.cpp: the comparison of cleanupList, and the erasure of clientLogin.
use dark_global_12_x.Base.{
  ℕ, ◌+◌, ◌-◌, ◌%◌, ◌≤◌, ◌<◌, ◌≡◌, ◌≢◌, refl, true, false, List, [], ◌∷◌, arith, All, contains,
}
use dark_global_12_x.Base.Words.{u64_mod}
use dark_global_12_x.Login.WaitList.{
  Wait, WaitListInfo, Player, Server, undefined, cleanup_list, cleaned, settle, client_login,
  enters_directly, is_over, has_room,
}
use dark_global_12_x.Login.WaitList.Slots.{guids, index, find_client_lem}

-- The timeout is not the present millisecond; it may be long past.
abbrev pub NotNow : ℕ → Wait → Type 0
NotNow now w = (w.timeout < u64_mod) × (w.timeout ≢ now)

is_over-NotNow : (now : ℕ) (w : Wait) → now < u64_mod → NotNow now w → is_over now w ≡ false
unfolding is_over
is_over-NotNow now w h k =
    let pos : 0 < (w.timeout + u64_mod - now) % u64_mod = omega arith in ground arith

-- The cleanup keeps every entry whose timeout is not exactly the present time, those whose timeout
-- has passed included: the comparison with zero is of unsigned numbers. Condition: the times fit 64
-- bits.
pub cleanup_list-keeps :
    (now : ℕ) (ws : List Wait) → now < u64_mod → All (NotNow now) ws → cleanup_list now ws ≡ ws
unfolding cleanup_list
cleanup_list-keeps now [] h k = refl
cleanup_list-keeps now (w ∷ ws) h k =
    rw (is_over-NotNow now w h k.0, cleanup_list-keeps now ws h k.1)

-- A player in the priority list whose slot there is room for does not log in: the entry is erased
-- through the other list, which is undefined behaviour. Conditions: the player does not enter
-- directly, the times fit 64 bits, and no timeout in the priority list is the present time.
pub client_login-undefined :
    (p : Player) (s : Server) (info : WaitListInfo)
    → enters_directly p s info ≡ false
    → s.now < u64_mod
    → All (NotNow s.now) info.priority
    → contains p.guid (guids info.priority) ≡ true
    → s.online + (1 + index p.guid info.priority) ≤ s.max_players
    → client_login p s info ≡ undefined
unfolding client_login settle
client_login-undefined p s info direct small timeouts member room =
    let kept = cleanup_list-keeps s.now info.priority small timeouts in
    let ready : has_room (1 + index p.guid info.priority) s ≡ true = ground arith in
    rw (direct, find_client_lem p.guid (cleaned s.now info), kept, member, ready)
