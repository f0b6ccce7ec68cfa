-- ===== src/Guild/Tests.antt =====
-- Applications of the theorems on src/guild.cpp.
use dark_global_12_x.Base.{
  ◌≡◌, ◌==◌, ◌&&◌, ◌||◌, refl, not, false, erase_all, none, some, [], ◌∷◌, if◌then◌else◌, arith,
}
use dark_global_12_x.Guild.{Guild, Guilds, has_nobody, add_member, remove_member}
use dark_global_12_x.Guild.Ranks.{AllNamed, is_online, is_in_memory, is_deserted, members_online}

abbrev red_rose : Guild
red_rose = record {
  id = 5;
  name = 1 ∷ [];
  motd = [];
  members_online = 30 ∷ [];
  ranks = record { id = 1; name = 9 ∷ []; level = 3 } ∷ [];
  member_count = 0;
}

-- A guild as it is loaded: nobody is online yet.
abbrev empty_guild : Guild
empty_guild = record red_rose { members_online = [] }

abbrev just_loaded : Guilds
just_loaded i = if i == 5 then some empty_guild else none

members_online_example :
    let added = add_member 31 empty_guild just_loaded in
    let removed = remove_member 31 empty_guild just_loaded in
    AllNamed added
    × AllNamed removed
    × (is_online 31 (added 5) ≡ (is_online 31 (just_loaded 5) || 5 == 5 && 31 == 31))
    × (is_online 31 (removed 5) ≡ (is_online 31 (just_loaded 5) && not (5 == 5 && 31 == 31)))
    × (is_in_memory (added 5) ≡ is_in_memory (just_loaded 5))
    × (is_in_memory (removed 5) ≡ (
        is_in_memory (just_loaded 5)
        && not (5 == 5 && has_nobody (erase_all 31 empty_guild.members_online))))
    × (is_deserted (added 5) ≡ false)
    × (is_deserted (removed 5) ≡ false)
members_online_example = members_online 31 31 5 5 empty_guild just_loaded (λ i. ground arith) refl
