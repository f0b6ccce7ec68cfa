-- ===== src/Map/Creatures/World.antt =====
-- Any sequence of changes to a map of src/map.cpp, from the empty one on: tiles are set, and creatures
-- are placed, moved and taken away, each where there is a leaf.
use dark_global_12_x.Base.{ℕ, ◌<◌, ◌≡◌, Bool, true, false}
use dark_global_12_x.Base.Words.{u16_mod}
use dark_global_12_x.Position.{Position}
use dark_global_12_x.Map.{Tile, Leaf, empty_root, set_tile}
use dark_global_12_x.Map.Tree.{QTree}
use dark_global_12_x.Map.Views.{IsRoot}
use dark_global_12_x.Map.Links.{Linked, present}
use dark_global_12_x.Map.Creatures.{place_in_leaf, take_from_leaf, move_in_leaves}
use dark_global_12_x.Map.Creatures.Tracked.{Tracked, and_also, but_not}
use dark_global_12_x.Map.Creatures.Moves.{moved}
use dark_global_12_x.Map.Creatures.Tiles.{Standing}

-- The creatures on the map, where they are, and the tree.
pub record MapWorld : Type 0 where
  pub on_map : ℕ → Bool
  pub position : ℕ → Position
  pub root : QTree Leaf

module _ (add_thing : Tile → ℕ → Tile) (is_player : ℕ → Bool) where
  abbrev pub tile_set : ℕ → ℕ → ℕ → Tile → MapWorld → MapWorld
  tile_set x y z t w = record w { root = set_tile add_thing x y z t w.root }

  abbrev pub placed : ℕ → Position → MapWorld → MapWorld
  placed c p w = record {
    on_map = and_also c w.on_map;
    position = moved c p w.position;
    root = place_in_leaf is_player c p.x p.y w.root;
  }

  abbrev pub walked : ℕ → Position → MapWorld → MapWorld
  walked c p w = record {
    on_map = w.on_map;
    position = moved c p w.position;
    root = move_in_leaves is_player c (w.position c).x (w.position c).y p.x p.y w.root;
  }

  abbrev pub taken_away : ℕ → MapWorld → MapWorld
  taken_away c w = record {
    on_map = but_not c w.on_map;
    position = w.position;
    root = take_from_leaf is_player c (w.position c).x (w.position c).y w.root;
  }

  pub data Reach : MapWorld → Type 0 where
    empty :
        (position : ℕ → Position)
        → Reach (record { on_map = λ c. false; position = position; root = empty_root })
    sets :
        (w : MapWorld) (x y z : ℕ) (t : Tile)
        → x < u16_mod
        → y < u16_mod
        → Reach w
        → Reach (tile_set x y z t w)
    places :
        (w : MapWorld) (c : ℕ) (p : Position)
        → w.on_map c ≡ false
        → present w.root p.x p.y ≡ true
        → Reach w
        → Reach (placed c p w)
    walks :
        (w : MapWorld) (c : ℕ) (p : Position)
        → w.on_map c ≡ true
        → present w.root p.x p.y ≡ true
        → Reach w
        → Reach (walked c p w)
    leaves : (w : MapWorld) (c : ℕ) → w.on_map c ≡ true → Reach w → Reach (taken_away c w)

  abbrev pub Sound : MapWorld → Type 0
  Sound w =
      IsRoot w.root
      × Linked w.root
      × Tracked is_player w.on_map w.position w.root
      × Standing w.on_map w.position w.root
