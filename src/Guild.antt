-- ===== src/Guild.antt =====
-- src/guild.cpp: the members of a guild who are online, and its ranks. What updatePlayerHelpers
-- tells clients is not modelled.
use dark_global_12_x.Base.{
  ℕ, Bool, true, false, Option, none, some, List, [], ◌∷◌, ◌++◌, ◌==◌, if◌then◌else◌, erase_all,
  same_name,
}
mod Tests
pub mod Ranks

pub record GuildRank : Type 0 where
  pub id : ℕ
  pub name : List ℕ
  pub level : ℕ

pub record Guild : Type 0 where
  pub id : ℕ
  pub name : List ℕ
  pub motd : List ℕ
  pub members_online : List ℕ
  pub ranks : List GuildRank
  pub member_count : ℕ

-- Game's map of the guilds in memory; `delete this` is the same removal.
abbrev pub Guilds : Type 0
Guilds = ℕ → Option Guild

abbrev pub store_guild : ℕ → Option Guild → Guilds → Guilds
store_guild i g gs j = if i == j then g else gs j

abbrev pub has_nobody : List ℕ → Bool
has_nobody [] = true
has_nobody (x ∷ xs) = false

unfoldable pub add_member : ℕ → Guild → Guilds → Guilds
add_member x g gs =
    store_guild g.id (some (record g { members_online = g.members_online ++ x ∷ [] })) gs

unfoldable pub remove_member : ℕ → Guild → Guilds → Guilds
remove_member x g gs =
    let g' = record g { members_online = erase_all x g.members_online } in
    if has_nobody g'.members_online then store_guild g.id none gs else store_guild g.id (some g') gs

-- The three loops over `ranks`.
unfoldable pub find_rank : (GuildRank → Bool) → List GuildRank → Option GuildRank
find_rank f [] = none
find_rank f (r ∷ rs) = let rest = find_rank f rs in if f r then some r else rest

unfoldable pub get_rank_by_id : ℕ → Guild → Option GuildRank
get_rank_by_id i g = find_rank (λ r. r.id == i) g.ranks

unfoldable pub get_rank_by_name : List ℕ → Guild → Option GuildRank
get_rank_by_name s g = find_rank (λ r. same_name r.name s) g.ranks

unfoldable pub get_rank_by_level : ℕ → Guild → Option GuildRank
get_rank_by_level l g = find_rank (λ r. r.level == l) g.ranks

unfoldable pub add_rank : ℕ → List ℕ → ℕ → Guild → Guild
add_rank i s l g = record g { ranks = g.ranks ++ record { id = i; name = s; level = l } ∷ [] }
