-- ===== src/Map/Creatures.antt =====
-- src/map.cpp: the creatures of a leaf, and the leaf of a creature as it is placed and moves.
pub mod Counts
pub mod Tracked
pub mod Moves
pub mod SetTile
pub mod Tiles
pub mod World
pub mod Kept
pub mod Histories
use dark_global_12_x.Base.{
  ℕ, Bool, true, false, not, ◌&&◌, Option, none, some, List, [], ◌∷◌, ◌++◌, ◌==◌, if◌then◌else◌,
}
use dark_global_12_x.Network.Autosend.{swap_out}
use dark_global_12_x.Map.{Leaf, Corner, pointer}
use dark_global_12_x.Map.Tree.{QTree, modify_leaf}

module _ (is_player : ℕ → Bool) where
  -- QTreeLeafNode::addCreature
  unfoldable pub leaf_add : ℕ → Leaf → Leaf
  leaf_add c l = record l {
    creature_list = l.creature_list ++ c ∷ [];
    player_list = if is_player c then l.player_list ++ c ∷ [] else l.player_list;
  }

  -- QTreeLeafNode::removeCreature: `*iter = back` and pop_back.
  unfoldable pub leaf_remove : ℕ → Leaf → Leaf
  leaf_remove c l = record l {
    creature_list = swap_out c l.creature_list;
    player_list = if is_player c then swap_out c l.player_list else l.player_list;
  }

  -- The end of Map::placeCreature: getQTNode of the destination, which has a tile and so a leaf.
  unfoldable pub place_in_leaf : ℕ → ℕ → ℕ → QTree Leaf → QTree Leaf
  unfolding leaf_add
  place_in_leaf c x y root = modify_leaf x y (leaf_add c) root

  unfoldable pub take_from_leaf : ℕ → ℕ → ℕ → QTree Leaf → QTree Leaf
  unfolding leaf_remove
  take_from_leaf c x y root = modify_leaf x y (leaf_remove c) root

  -- A leaf is at one corner, so pointers to leaves are equal where the corners are.
  abbrev pub same_corner : Corner → Corner → Bool
  same_corner a b = a.corner_x == b.corner_x && a.corner_y == b.corner_y

  -- The switch of the node in Map::moveCreature.
  unfoldable pub move_in_leaves : ℕ → ℕ → ℕ → ℕ → ℕ → QTree Leaf → QTree Leaf
  unfolding place_in_leaf take_from_leaf
  move_in_leaves c x y x' y' root =
      if same_corner (pointer x y) (pointer x' y')
      then root
      else place_in_leaf c x' y' (take_from_leaf c x y root)
