-- ===== src/Party/Shared.antt =====
-- Shared experience: canUseSharedExperience, canEnableSharedExperience, updateSharedExperience,
-- setSharedExperience and the ticks map of src/party.cpp.
use dark_global_12_x.Base.{
  ℕ, ◌+◌, ◌-◌, ◌*◌, ◌/◌, ◌%◌, Bool, true, false, not, ◌&&◌, ◌||◌, Option, none, some, List, [], ◌∷◌,
  ltb, leb, ◌==◌, if◌then◌else◌,
}
use dark_global_12_x.Base.Words.{u64_mod}
use dark_global_12_x.Position.{are_in_range}
use dark_global_12_x.Party.World.{Player, Party, World, is_nil}

-- OTSYS_TIME() and ConfigManager::PZ_LOCKED
pub record Env : Type 0 where
  pub now : ℕ
  pub pz_locked : ℕ

-- std::map<uint32_t, int64_t> ticksMap
unfoldable pub find_ticks : ℕ → List (ℕ × ℕ) → Option ℕ
find_ticks x [] = none
find_ticks x ((k, t) ∷ m) = if k == x then some t else find_ticks x m

unfoldable pub store_ticks : ℕ → ℕ → List (ℕ × ℕ) → List (ℕ × ℕ)
store_ticks x t [] = (x, t) ∷ []
store_ticks x t ((k, u) ∷ m) = if k == x then (x, t) ∷ m else (k, u) ∷ store_ticks x t m

unfoldable pub erase_ticks : ℕ → List (ℕ × ℕ) → List (ℕ × ℕ)
erase_ticks x [] = []
erase_ticks x ((k, u) ∷ m) = if k == x then m else (k, u) ∷ erase_ticks x m

-- The first loop of canUseSharedExperience.
unfoldable pub highest_level : (ℕ → Player) → ℕ → List ℕ → ℕ
highest_level players level [] = level
highest_level players level (m ∷ ms) =
    highest_level players (if ltb level (players m).level then (players m).level else level) ms

-- ceil((highestLevel * 2) / 3). The code computes in float, exactly so below level 2 ^ 20.
unfoldable pub min_level : ℕ → ℕ
min_level highest = (highest * 2 + 2) / 3

abbrev pub recent : Env → Option ℕ → Bool
recent env none = false
recent env (some t) = leb ((env.now + u64_mod - t) % u64_mod) env.pz_locked

-- Party::canUseSharedExperience
unfoldable pub can_use_shared_experience : Env → World → Party → ℕ → Bool
can_use_shared_experience env w p x =
    let highest = highest_level w.player (w.player p.leader).level p.members in
    if is_nil p.members
    then false
    else if ltb (w.player x).level (min_level highest)
    then false
    else if not (are_in_range 30 30 1 (w.player p.leader).position (w.player x).position)
    then false
    else if not ((w.player x).not_gain_in_fight)
    then recent env (find_ticks x p.ticks)
    else true

unfoldable pub all_can_use : Env → World → Party → List ℕ → Bool
all_can_use env w p [] = true
all_can_use env w p (m ∷ ms) =
    let rest = all_can_use env w p ms in if can_use_shared_experience env w p m then rest else false

-- Party::canEnableSharedExperience
unfoldable pub can_enable_shared_experience : Env → World → Party → Bool
can_enable_shared_experience env w p =
    if not (can_use_shared_experience env w p p.leader)
    then false
    else all_can_use env w p p.members

-- Party::updateSharedExperience
unfoldable pub update_shared_experience : Env → World → Party → Party
update_shared_experience env w p =
    if p.shared_active
    then record p { shared_enabled = can_enable_shared_experience env w p }
    else p

-- Party::setSharedExperience
unfoldable pub set_shared_experience : Env → World → ℕ → Bool → Party → Party × Bool
set_shared_experience env w x active p =
    if not (p.leader == x)
    then (p, false)
    else if not (active && not p.shared_active || not active && p.shared_active)
    then (p, true)
    else if active
    then (let p' = record p { shared_active = true } in
        (record p' { shared_enabled = can_enable_shared_experience env w p' }, true))
    else (record p { shared_active = false }, true)

-- Party::updatePlayerTicks
unfoldable pub update_player_ticks : Env → World → ℕ → ℕ → Party → Party
update_player_ticks env w x points p =
    if not (points == 0) && not ((w.player x).not_gain_in_fight)
    then update_shared_experience env w (record p { ticks = store_ticks x env.now p.ticks })
    else p

-- Party::clearPlayerPoints
abbrev pub clear_found : Env → World → ℕ → Option ℕ → Party → Party
clear_found env w x none p = p
clear_found env w x (some t) p =
    update_shared_experience env w (record p { ticks = erase_ticks x p.ticks })

unfoldable pub clear_player_points : Env → World → ℕ → Party → Party
clear_player_points env w x p = clear_found env w x (find_ticks x p.ticks) p

-- Party::shareExperience, after its event: who gains, in the order of the calls, and how much each.
unfoldable pub share_experience : ℕ → Party → List (ℕ × ℕ)
share_experience experience p = share experience p.members
  where
    share : ℕ → List ℕ → List (ℕ × ℕ)
    share e [] = (p.leader, e) ∷ []
    share e (m ∷ ms) = (m, e) ∷ share e ms
