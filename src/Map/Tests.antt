-- ===== src/Map/Tests.antt =====
-- Applications of the theorems on src/map.cpp.
use mathlib.Core.Option.{none-ne-some}
use dark_global_12_x.Base.{
  ℕ, ◌≡◌, refl, Bool, true, false, ◌&&◌, ◌||◌, none, some, [], ◌∷◌, ltb, leb, ◌==◌, if◌then◌else◌,
  arith, contains,
}
use dark_global_12_x.Position.{Position}
use dark_global_12_x.Map.{
  Tile, map_max_layers, empty_root, get_tile, set_tile, link, put_in_leaf, put_tile, create_floor,
}
use dark_global_12_x.Map.Tree.{get_leaf, create_leaf, modify_leaf, set_child}
use dark_global_12_x.Map.Links.{present}
use dark_global_12_x.Map.Linked.{set_tile-IsRoot}
use dark_global_12_x.Map.Refines.{put, get_tile-set_tile}
use dark_global_12_x.Map.Creatures.{
  leaf_add, leaf_remove, place_in_leaf, take_from_leaf, move_in_leaves,
}
use dark_global_12_x.Map.Spectators.{Search, sees, steps, start_of, end_of, get_spectators_internal}
use dark_global_12_x.Map.Spectators.Scan.{look, get_spectators_internal-look}
use dark_global_12_x.Map.Spectators.Found.{met}
use dark_global_12_x.Map.Spectators.Exact.{
  wanted, Tracked-PlayerLists, get_spectators_internal-Tracked,
}
use dark_global_12_x.Map.Spectators.Cache.{MapState, search_of, get_spectators}
use dark_global_12_x.Map.Spectators.Hits.{Coherent}
use dark_global_12_x.Map.Spectators.Coherent.{get_spectators-contains, get_spectators-Coherent}
use dark_global_12_x.Map.Creatures.World.{
  MapWorld, tile_set, placed, walked, Reach, empty, sets, places, walks, Sound,
}
use dark_global_12_x.Map.Creatures.Histories.{Reach-Sound}

abbrev add_thing : Tile → ℕ → Tile
add_thing t i = record t { ground = some i }

abbrev grass : Tile
grass = record { ground = some 4526; items = none }

abbrev is_player : ℕ → Bool
is_player c = c == 5

abbrev nowhere : ℕ → Position
nowhere c = record { x = 0; y = 0; z = 0 }

abbrev start_pos : Position
start_pos = record { x = 100; y = 200; z = 7 }

abbrev next_pos : Position
next_pos = record { x = 108; y = 200; z = 7 }

-- Two leaves side by side, and a player who goes from one to the other.
abbrev bare : MapWorld
bare = record { on_map = λ c. false; position = nowhere; root = empty_root }

abbrev one_leaf : MapWorld
one_leaf = tile_set add_thing is_player 100 200 7 grass bare

abbrev two_leaves : MapWorld
two_leaves = tile_set add_thing is_player 108 200 7 grass one_leaf

abbrev arrived : MapWorld
arrived = placed add_thing is_player 5 start_pos two_leaves

abbrev gone_east : MapWorld
gone_east = walked add_thing is_player 5 next_pos arrived

two_leaves-Reach : Reach add_thing is_player two_leaves
two_leaves-Reach =
    sets one_leaf 108 200 7 grass (omega arith) (omega arith)
      (sets bare 100 200 7 grass (omega arith) (omega arith) (empty nowhere))

start_there : present two_leaves.root 100 200 ≡ true
unfolding set_tile link put_in_leaf put_tile create_floor get_leaf create_leaf modify_leaf set_child
start_there = refl

next_there : present arrived.root 108 200 ≡ true
unfolding set_tile link put_in_leaf put_tile create_floor get_leaf create_leaf modify_leaf set_child
    place_in_leaf leaf_add
next_there = refl

arrived-Reach : Reach add_thing is_player arrived
arrived-Reach = places two_leaves 5 start_pos refl start_there two_leaves-Reach

get_tile-set_tile_example :
    get_tile (set_tile add_thing 100 200 7 grass one_leaf.root) 100 200 7 ≡ (
      if leb map_max_layers 7
      then get_tile one_leaf.root 100 200 7
      else put add_thing 100 200 7 grass (get_tile one_leaf.root) 100 200 7)
get_tile-set_tile_example =
    get_tile-set_tile add_thing one_leaf.root 100 200 7 grass 100 200 7
      (set_tile-IsRoot add_thing 100 200 7 grass empty_root (λ i. tt)) (omega arith) (omega arith)
      (omega arith) (omega arith)

Reach-Sound_example : Sound add_thing is_player gone_east
Reach-Sound_example =
    Reach-Sound add_thing is_player gone_east
      (walks arrived 5 next_pos refl next_there arrived-Reach)

-- A search around the place that the player left, for players.
abbrev around : Search
around = search_of gone_east.position is_player start_pos true true 0 0 0 0

abbrev no_cache : MapState
no_cache = record {
  root = gone_east.root;
  spectator_cache = λ x y z. none;
  players_spectator_cache = λ x y z. none;
}

no_cache-Coherent : Coherent gone_east.position is_player no_cache
no_cache-Coherent = (
  λ center cached e. absurd (none-ne-some cached e),
  λ center cached e. absurd (none-ne-some cached e),
)

player_there : present gone_east.root 108 200 ≡ true
unfolding set_tile link put_in_leaf put_tile create_floor get_leaf create_leaf modify_leaf set_child
    place_in_leaf leaf_add move_in_leaves take_from_leaf leaf_remove
player_there = refl

abbrev sound : Sound add_thing is_player gone_east
sound =
    Reach-Sound add_thing is_player gone_east
      (walks arrived 5 next_pos refl next_there arrived-Reach)

get_spectators_internal-look_example :
    get_spectators_internal around gone_east.root []
    ≡ look around gone_east.root
        (steps
          (start_of around around.center_pos.y around.min_range_y)
          (end_of around around.center_pos.y around.max_range_y))
        (steps
          (start_of around around.center_pos.x around.min_range_x)
          (end_of around around.center_pos.x around.max_range_x))
        (start_of around around.center_pos.x around.min_range_x)
        (start_of around around.center_pos.y around.min_range_y)
        []
get_spectators_internal-look_example =
    get_spectators_internal-look around gone_east.root sound.0 sound.1 []

get_spectators_internal-Tracked_example :
    contains 5 (get_spectators_internal around gone_east.root [])
    ≡ (contains 5 [] || (wanted is_player gone_east.on_map true 5 && sees around 5))
get_spectators_internal-Tracked_example =
    get_spectators_internal-Tracked is_player gone_east.on_map gone_east.position gone_east.root
      sound.2 around refl [] 5 sound.0 sound.1 player_there (omega arith) (omega arith)

get_spectators-contains_example :
    contains 5
      (get_spectators gone_east.position is_player no_cache (7 ∷ []) start_pos true true 0 0 0 0).0
    ≡ (contains 5 (7 ∷ [])
        || (ltb start_pos.z map_max_layers && met around no_cache.root 5 && sees around 5))
get_spectators-contains_example =
    get_spectators-contains gone_east.position is_player no_cache sound.0 sound.1 (7 ∷ []) start_pos
      true true 0 0 0 0 5
      (Tracked-PlayerLists is_player gone_east.on_map gone_east.position gone_east.root sound.2)
      no_cache-Coherent

get_spectators-Coherent_example :
    Coherent gone_east.position is_player
      (get_spectators gone_east.position is_player no_cache [] start_pos true false 0 0 0 0).1
get_spectators-Coherent_example =
    get_spectators-Coherent gone_east.position is_player no_cache sound.0 sound.1 start_pos true
      false 0 0 0 0 no_cache-Coherent
