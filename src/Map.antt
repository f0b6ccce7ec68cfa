-- ===== src/Map.antt =====
-- src/map.h and src/map.cpp: the tiles of the map, in floors of 8 by 8 that hang on the leaves of a
-- tree, and the leaves' links to their neighbours. A pointer to a leaf is the corner of its 8 by 8
-- coordinates, where the tree has it; leaves are never removed.
use dark_global_12_x.Base.{
  ℕ, ◌+◌, ◌-◌, ◌*◌, ◌/◌, ◌%◌, Bool, true, false, ◌&&◌, Option, none, some, List, [], ◌∷◌, leb, ◌==◌,
  if◌then◌else◌,
}
use dark_global_12_x.Base.Words.{u32_mod, u16_mod}
use dark_global_12_x.Map.Tree.{QTree, null, inner, get_leaf, create_leaf, modify_leaf}
mod Tests
pub mod Tree
pub mod Paths
pub mod Created
pub mod Corners
pub mod Views
pub mod Floors
pub mod InLeaf
pub mod Refines
pub mod Links
pub mod Relinked
pub mod NewLeaf
pub mod Linking
pub mod Linked
pub mod Creatures
pub mod Spectators
pub mod Walk

abbrev pub map_max_layers : ℕ
map_max_layers = 16

-- 1 << FLOOR_BITS
abbrev pub floor_size : ℕ
floor_size = 8

-- Of a tile, what setTile moves: its ground and its item list, which it need not have.
pub record Tile : Type 0 where
  pub ground : Option ℕ
  pub items : Option (List ℕ)

pub record Floor : Type 0 where
  pub tiles : ℕ → ℕ → Option Tile

abbrev pub no_tiles : Floor
no_tiles = record { tiles = λ i j. none }

pub record Corner : Type 0 where
  pub corner_x : ℕ
  pub corner_y : ℕ

pub record Leaf : Type 0 where
  pub leaf_s : Option Corner
  pub leaf_e : Option Corner
  pub array : ℕ → Option Floor
  pub creature_list : List ℕ
  pub player_list : List ℕ

abbrev pub new_leaf_node : Leaf
new_leaf_node = record {
  leaf_s = none;
  leaf_e = none;
  array = λ z. none;
  creature_list = [];
  player_list = [];
}

abbrev pub root_level : ℕ
root_level = 15

abbrev pub empty_root : QTree Leaf
empty_root = inner (λ i. null)

-- x & ~FLOOR_MASK of a coordinate, which is 16 bits wide.
abbrev pub corner : ℕ → ℕ
corner x = x % u16_mod / floor_size * floor_size

abbrev pub pointer : ℕ → ℕ → Corner
pointer x y = record { corner_x = corner x; corner_y = corner y }

-- Map::getTile
abbrev pub tile_of : Option Floor → ℕ → ℕ → Option Tile
tile_of none x y = none
tile_of (some floor) x y = floor.tiles (x % floor_size) (y % floor_size)

abbrev pub floor_of : Option Leaf → ℕ → Option Floor
floor_of none z = none
floor_of (some leaf) z = leaf.array z

unfoldable pub get_tile : QTree Leaf → ℕ → ℕ → ℕ → Option Tile
get_tile root x y z =
    if leb map_max_layers z then none else tile_of (floor_of (get_leaf root x y) z) x y

-- QTreeLeafNode::createFloor
abbrev pub existing_floor : Option Floor → Floor
existing_floor none = no_tiles
existing_floor (some floor) = floor

abbrev pub set_floor : ℕ → Floor → (ℕ → Option Floor) → ℕ → Option Floor
set_floor z floor array k = if k == z then some floor else array k

unfoldable pub create_floor : ℕ → (ℕ → Option Floor) → ℕ → Option Floor
create_floor z array = set_floor z (existing_floor (array z)) array

-- What setTile does with the leaf that it created.
abbrev pub south_of : Corner → Leaf → Leaf
south_of c leaf = record leaf { leaf_s = some c }

abbrev pub east_of : Corner → Leaf → Leaf
east_of c leaf = record leaf { leaf_e = some c }

-- uint32_t y - FLOOR_SIZE
abbrev pub before : ℕ → ℕ
before y = (y + u32_mod - floor_size) % u32_mod

abbrev pub link_s : ℕ → ℕ → QTree Leaf → Option Leaf → QTree Leaf
link_s x y root none = root
link_s x y root (some south) = modify_leaf x y (south_of (pointer x (y + floor_size))) root

abbrev pub link_e : ℕ → ℕ → QTree Leaf → Option Leaf → QTree Leaf
link_e x y root none = root
link_e x y root (some east) = modify_leaf x y (east_of (pointer (x + floor_size) y)) root

unfoldable pub link : ℕ → ℕ → QTree Leaf → QTree Leaf
link x y root =
    let root1 = modify_leaf x (before y) (south_of (pointer x y)) root in
    let root2 = modify_leaf (before x) y (east_of (pointer x y)) root1 in
    let root3 = link_s x y root2 (get_leaf root2 x (y + floor_size)) in
    link_e x y root3 (get_leaf root3 (x + floor_size) y)

-- Tile::addThing is a parameter.
module _ (add_thing : Tile → ℕ → Tile) where
  -- The items, the last first.
  abbrev pub add_items : Tile → List ℕ → Tile
  add_items tile [] = tile
  add_items tile (i ∷ is) = add_thing (add_items tile is) i

  abbrev pub add_item_list : Tile → Option (List ℕ) → Tile
  add_item_list tile none = tile
  add_item_list tile (some is) = add_items tile is

  abbrev pub add_ground : Tile → Option ℕ → Tile
  add_ground tile none = tile
  add_ground tile (some g) = add_thing tile g

  -- A tile that is there already takes what is on the new one.
  abbrev pub join : Option Tile → Tile → Tile
  join none new_tile = new_tile
  join (some tile) new_tile = add_ground (add_item_list tile new_tile.items) new_tile.ground

  unfoldable pub put_tile : ℕ → ℕ → Tile → Floor → Floor
  put_tile i j new_tile floor = record {
    tiles =
        λ k l. if k == i && l == j then some (join (floor.tiles i j) new_tile) else floor.tiles k l;
  }

  unfoldable pub put_in_leaf : ℕ → ℕ → ℕ → Tile → (ℕ → Option Floor) → ℕ → Option Floor
  unfolding create_floor
  put_in_leaf x y z new_tile array =
      let floors = create_floor z array in
      set_floor z (put_tile (x % floor_size) (y % floor_size) new_tile (existing_floor (floors z)))
        floors

  -- Map::setTile
  unfoldable pub set_tile : ℕ → ℕ → ℕ → Tile → QTree Leaf → QTree Leaf
  unfolding link
  set_tile x y z new_tile root =
      if leb map_max_layers z
      then root
      else let created = create_leaf new_leaf_node root_level x y root in
        let linked = if created.1 then link x y created.0 else created.0 in
        modify_leaf x y (λ leaf. record leaf { array = put_in_leaf x y z new_tile leaf.array })
          linked
