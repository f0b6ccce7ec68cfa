-- ===== src/Map/Linked.antt =====
-- setTile of src/map.cpp and the links of the leaves.
use mathlib.Core.Option
use mathlib.Core.Option.{some-injective}
use dark_global_12_x.Base.{
  ℕ, ◌+◌, ◌<◌, ◌≡◌, refl, sym, ap, ◌∙◌, true, false, Option, some, leb, if◌then◌else◌, Bool-cases,
  Option-cases, inl, inr,
}
use dark_global_12_x.Base.Words.{u16_mod}
use dark_global_12_x.Map.{
  Tile, Leaf, Corner, new_leaf_node, root_level, floor_size, link, set_tile, map_max_layers,
}
use dark_global_12_x.Map.Tree.{QTree, get_leaf, create_leaf, modify_leaf}
use dark_global_12_x.Map.Created.{is_none}
use dark_global_12_x.Map.Views.{IsRoot, view-modify_same, modify_leaf-IsRoot, create_leaf-IsRoot}
use dark_global_12_x.Map.Links.{Linked, LinksTo}
use dark_global_12_x.Map.NewLeaf.{
  LinksTo-views, present-modify_leaf, created, newly, view-existing, present-existing,
}
use dark_global_12_x.Map.Floors.{link-SameFloors}
use dark_global_12_x.Map.Linking.{links_s, links_e}

-- Both links of every leaf.
abbrev BothLinks : QTree Leaf → Type 0
BothLinks root =
    LinksTo (λ (l : Leaf). l.leaf_s) (λ a b. a) (λ a b. b + floor_size) root
    × LinksTo (λ (l : Leaf). l.leaf_e) (λ a b. a + floor_size) (λ a b. b) root

-- A link that is known, out of an option.
the_link :
    (v : Leaf → Option Corner) (o : Option Leaf) (k : Option Corner) (l : Leaf)
    → Option.map v o ≡ Option.map (λ l. k) o
    → o ≡ some l
    → v l ≡ k
the_link v o k l h e =
    some-injective (v l) k (ap (Option.map v) (sym e) ∙ h ∙ ap (Option.map (λ l. k)) e)

BothLinks-Linked : (root : QTree Leaf) → BothLinks root → Linked root
BothLinks-Linked root (s, e) x y l found = (
  the_link (λ (l : Leaf). l.leaf_s) (get_leaf root x y) _ l (s x y) found,
  the_link (λ (l : Leaf). l.leaf_e) (get_leaf root x y) _ l (e x y) found,
)

Linked-BothLinks : (root : QTree Leaf) → Linked root → BothLinks root
Linked-BothLinks root links = (
  λ x y. elim (Option-cases (get_leaf root x y)) [
    | inl absent ↦ rw absent refl
    | inr (l, found) ↦ rw found (ap some ((links x y l found).0))
  ],
  λ x y. elim (Option-cases (get_leaf root x y)) [
    | inl absent ↦ rw absent refl
    | inr (l, found) ↦ rw found (ap some ((links x y l found).1))
  ],
)

link-BothLinks :
    (root : QTree Leaf) (x y : ℕ)
    → IsRoot root
    → x < u16_mod
    → y < u16_mod
    → BothLinks root
    → BothLinks (
        let made = create_leaf new_leaf_node root_level x y root in
        if made.1 then link x y made.0 else made.0)
unfolding link
link-BothLinks root x y r hx hy links = elim (Option-cases (get_leaf root x y)) [
  | inl absent ↦
      let new : (create_leaf new_leaf_node root_level x y root).1 ≡ true =
        newly root x y r ∙ ap is_none absent in
      rw new (links_s root x y r absent hx hy links.0, links_e root x y r absent hx hy links.1)
  | inr (l, found) ↦
      let old : (create_leaf new_leaf_node root_level x y root).1 ≡ false =
        newly root x y r ∙ ap is_none found in
      rw old (
        LinksTo-views (λ (l : Leaf). l.leaf_s) (λ a b. a) (λ a b. b + floor_size) root
            (created root x y r)
            (λ a b. view-existing root x y r (λ (l : Leaf). l.leaf_s) l a b found)
            (λ a b. present-existing root x y r l a b found) links.0,
        LinksTo-views (λ (l : Leaf). l.leaf_e) (λ a b. a + floor_size) (λ a b. b) root
            (created root x y r)
            (λ a b. view-existing root x y r (λ (l : Leaf). l.leaf_e) l a b found)
            (λ a b. present-existing root x y r l a b found) links.1,
      )
]

pub with_leaf-IsRoot :
    (root : QTree Leaf) (x y : ℕ)
    → IsRoot root
    → IsRoot (
        let made = create_leaf new_leaf_node root_level x y root in
        if made.1 then link x y made.0 else made.0)
unfolding link
with_leaf-IsRoot root x y r = elim (Bool-cases (create_leaf new_leaf_node root_level x y root).1) [
  | inl new ↦ rw new (link-SameFloors _ x y (create_leaf-IsRoot root x y r)).0
  | inr old ↦ rw old (create_leaf-IsRoot root x y r)
]

-- A write to a leaf that leaves its links alone.
pub modify_leaf-Linked :
    (root : QTree Leaf) (f : Leaf → Leaf) (x y : ℕ)
    → ((l : Leaf) → (f l).leaf_s ≡ l.leaf_s)
    → ((l : Leaf) → (f l).leaf_e ≡ l.leaf_e)
    → IsRoot root
    → Linked root
    → Linked (modify_leaf x y f root)
modify_leaf-Linked root f x y keeps_s keeps_e r links =
    let both = Linked-BothLinks root links in
    BothLinks-Linked (modify_leaf x y f root) (
      LinksTo-views (λ (l : Leaf). l.leaf_s) (λ a b. a) (λ a b. b + floor_size) root
          (modify_leaf x y f root)
          (λ a b. view-modify_same (λ (l : Leaf). l.leaf_s) root f x y a b r keeps_s)
          (λ a b. present-modify_leaf root f x y a b r) both.0,
      LinksTo-views (λ (l : Leaf). l.leaf_e) (λ a b. a + floor_size) (λ a b. b) root
          (modify_leaf x y f root)
          (λ a b. view-modify_same (λ (l : Leaf). l.leaf_e) root f x y a b r keeps_e)
          (λ a b. present-modify_leaf root f x y a b r) both.1,
    )

-- Setting a tile keeps the tree's leaves on one level.
pub set_tile-IsRoot :
    (add_thing : Tile → ℕ → Tile) (x y z : ℕ) (t : Tile) (root : QTree Leaf)
    → IsRoot root
    → IsRoot (set_tile add_thing x y z t root)
unfolding set_tile
set_tile-IsRoot add_thing x y z t root r = elim (Bool-cases (leb map_max_layers z)) [
  | inl high ↦ rw high r
  | inr low ↦ rw low (modify_leaf-IsRoot _ _ x y (with_leaf-IsRoot root x y r))
]

-- Where every leaf's leafS and leafE point to the leaf 8 coordinates below it and 8 to its right, and
-- to nothing where there is no such leaf, they still do after setTile, whether it made a leaf or not.
-- The leaves of the tree are on one level, and the coordinates of the tile are 16 bits wide.
pub set_tile-Linked :
    (add_thing : Tile → ℕ → Tile) (x y z : ℕ) (t : Tile) (root : QTree Leaf)
    → x < u16_mod
    → y < u16_mod
    → IsRoot root
    → Linked root
    → Linked (set_tile add_thing x y z t root)
unfolding set_tile
set_tile-Linked add_thing x y z t root hx hy r links = elim (Bool-cases (leb map_max_layers z)) [
  | inl high ↦ rw high links
  | inr low ↦ rw low (
      modify_leaf-Linked _ _ x y (λ l. refl) (λ l. refl) (with_leaf-IsRoot root x y r)
        (BothLinks-Linked _ (link-BothLinks root x y r hx hy (Linked-BothLinks root links))))
]
