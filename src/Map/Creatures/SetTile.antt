-- ===== src/Map/Creatures/SetTile.antt =====
-- The creatures of the leaves under setTile of src/map.cpp.
use dark_global_12_x.Base.{
  ℕ, ◌+◌, ◌≡◌, refl, ◌∙◌, Bool, true, false, Option, some, leb, if◌then◌else◌, Bool-cases, inl, inr,
}
use dark_global_12_x.Map.{
  Tile, Leaf, Corner, new_leaf_node, root_level, map_max_layers, floor_size, before, pointer,
  south_of, east_of, link_s, link, set_tile,
}
use dark_global_12_x.Map.Tree.{QTree, get_leaf, create_leaf, modify_leaf}
use dark_global_12_x.Map.Created.{or_new}
use dark_global_12_x.Map.Views.{
  same_leaf, IsRoot, view, view-modify_same, view-created, modify_leaf-IsRoot, create_leaf-IsRoot,
}
use dark_global_12_x.Map.Linking.{link_s-same, link_e-same, link_s-IsRoot}
use dark_global_12_x.Map.Linked.{with_leaf-IsRoot}

-- What setTile does not write to.
module _ {V : Type 0} (v : Leaf → V) (at_south : (c : Corner) (l : Leaf) → v (south_of c l) ≡ v l)
    (at_east : (c : Corner) (l : Leaf) → v (east_of c l) ≡ v l) where
  view-link : (q : QTree Leaf) (x y a b : ℕ) → IsRoot q → view v (link x y q) a b ≡ view v q a b
  unfolding link
  view-link q x y a b r =
      let north = modify_leaf x (before y) (south_of (pointer x y)) q in
      let west = modify_leaf (before x) y (east_of (pointer x y)) north in
      let rn = modify_leaf-IsRoot q (south_of (pointer x y)) x (before y) r in
      let rw_ = modify_leaf-IsRoot north (east_of (pointer x y)) (before x) y rn in
      link_e-same (link_s x y west (get_leaf west x (y + floor_size)))
        (link_s-IsRoot west x y (get_leaf west x (y + floor_size)) rw_) x y a b v _ at_east
      ∙ link_s-same west rw_ x y a b v _ at_south
      ∙ view-modify_same v north _ (before x) y a b rn (at_east (pointer x y))
      ∙ view-modify_same v q _ x (before y) a b r (at_south (pointer x y))

  pub view-set_tile :
      (add_thing : Tile → ℕ → Tile) (x y z : ℕ) (t : Tile) (root : QTree Leaf) (a b : ℕ)
      → IsRoot root
      → ((l : Leaf) (g : ℕ → Option _) → v (record l { array = g }) ≡ v l)
      → view v (set_tile add_thing x y z t root) a b ≡ (
          if leb map_max_layers z
          then view v root a b
          else if same_leaf x y a b
          then some (v (or_new new_leaf_node (get_leaf root x y)))
          else view v root a b)
  unfolding set_tile
  view-set_tile add_thing x y z t root a b r keeps = elim (Bool-cases (leb map_max_layers z)) [
    | inl high ↦ rw high refl
    | inr low ↦ rw low (
        view-modify_same v _ _ x y a b (with_leaf-IsRoot root x y r) (λ l. keeps l _)
        ∙ if_linked (create_leaf new_leaf_node root_level x y root).1
        ∙ view-created v root x y a b r)
  ]
    where
      if_linked :
          (new : Bool)
          → view v
              (if new
                then link x y (create_leaf new_leaf_node root_level x y root).0
                else (create_leaf new_leaf_node root_level x y root).0)
              a
              b
            ≡ view v (create_leaf new_leaf_node root_level x y root).0 a b
      if_linked true = view-link _ x y a b (create_leaf-IsRoot root x y r)
      if_linked false = refl
