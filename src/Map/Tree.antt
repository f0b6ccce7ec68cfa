-- ===== src/Map/Tree.antt =====
-- src/map.h and src/map.cpp, QTreeNode: the tree that finds the leaf of a coordinate. The four
-- children are an array, the function from an index to what the pointer there points to.
use dark_global_12_x.Base.{
  ℕ, zero, suc, ◌+◌, ◌*◌, ◌/◌, ◌%◌, Bool, true, false, ◌&&◌, ◌||◌, Option, none, some, ◌==◌,
  if◌then◌else◌,
}
use dark_global_12_x.Base.Words.{u32_mod}

-- A null pointer, a QTreeNode and a QTreeLeafNode.
pub data QTree {ℓ} (Leaf : Type ℓ) : Type ℓ where
  null : QTree Leaf
  inner : (child : ℕ → QTree Leaf) → QTree Leaf
  leaf : Leaf → QTree Leaf

-- ((x & 0x8000) >> 15) | ((y & 0x8000) >> 14)
abbrev pub index : ℕ → ℕ → ℕ
index x y = x / 0x8000 % 2 + 2 * (y / 0x8000 % 2)

-- uint32_t x << 1
abbrev pub shl : ℕ → ℕ
shl x = x * 2 % u32_mod

abbrev pub floor_bits : ℕ
floor_bits = 3

module _ {ℓ} {Leaf : Type ℓ} where
  abbrev pub is_null : QTree Leaf → Bool
  is_null null = true
  is_null (inner child) = false
  is_null (leaf l) = false

  unfoldable pub set_child : ℕ → QTree Leaf → (ℕ → QTree Leaf) → ℕ → QTree Leaf
  set_child i t child j = if j == i then t else child j

  -- QTreeNode::getLeaf, and getLeafStatic from a root that is no leaf.
  unfoldable pub get_leaf : QTree Leaf → ℕ → ℕ → Option Leaf
  get_leaf null x y = none
  get_leaf (inner child) x y = get_leaf (child (index x y)) (shl x) (shl y)
  get_leaf (leaf l) x y = some l

  module _ (new_leaf_node : Leaf) where
    -- What createLeaf makes at the level of a node for a child that is not there.
    abbrev pub new_child : ℕ → QTree Leaf
    new_child level = if level == floor_bits then leaf new_leaf_node else inner (λ i. null)

    abbrev pub existing : ℕ → QTree Leaf → QTree Leaf
    existing level null = new_child level
    existing level (inner child) = inner child
    existing level (leaf l) = leaf l

    -- QTreeNode::createLeaf, with newLeaf. A level of 0 is not met: the leaves stand below level 3.
    unfoldable pub create_leaf : ℕ → ℕ → ℕ → QTree Leaf → QTree Leaf × Bool
    create_leaf level x y null = (null, false)
    create_leaf level x y (leaf l) = (leaf l, false)
    create_leaf zero x y (inner child) = (inner child, false)
    create_leaf (suc level) x y (inner child) =
        let i = index x y in
        let new_leaf = is_null (child i) && suc level == floor_bits in
        let made = create_leaf level (shl x) (shl y) (existing (suc level) (child i)) in
        (inner (set_child i made.0 child), new_leaf || made.1)

  -- A write to the leaf that getLeaf or createLeaf points to.
  unfoldable pub modify_leaf : ℕ → ℕ → (Leaf → Leaf) → QTree Leaf → QTree Leaf
  modify_leaf x y f null = null
  modify_leaf x y f (inner child) =
      inner (set_child (index x y) (modify_leaf (shl x) (shl y) f (child (index x y))) child)
  modify_leaf x y f (leaf l) = leaf (f l)
