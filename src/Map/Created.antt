-- ===== src/Map/Created.antt =====
-- What createLeaf of src/map.cpp leaves in the tree.
use dark_global_12_x.Base.{
  ℕ, zero, suc, ◌≡◌, refl, Bool, true, false, ◌&&◌, ◌||◌, Option, none, some, ◌==◌, if◌then◌else◌,
  arith, Bool-cases, inl, inr, ==_iff,
}
use dark_global_12_x.Map.Tree.{
  QTree, null, inner, leaf, index, shl, floor_bits, is_null, get_leaf, existing, create_leaf,
}
use dark_global_12_x.Map.Paths.{
  HasDepth, same_path, same_path-zero, same_path-same, same_path-apart, set_child-there,
  set_child-apart, set_child-HasDepth,
}

abbrev pub is_none {ℓ} : {A : Type ℓ} → Option A → Bool
is_none none = true
is_none (some l) = false

module _ {ℓ} {Leaf : Type ℓ} (new_leaf_node : Leaf) where
  abbrev pub or_new : Option Leaf → Leaf
  or_new none = new_leaf_node
  or_new (some l) = l

  deep_level : (n : ℕ) → suc (suc (suc (suc n))) == floor_bits ≡ false
  deep_level n = ground arith

  pub null-HasDepth : (n : ℕ) → HasDepth {Leaf = Leaf} n null
  null-HasDepth zero = tt
  null-HasDepth (suc n) = tt

  pub existing-HasDepth :
      (n : ℕ) (t : QTree Leaf)
      → HasDepth n t
      → HasDepth n (existing new_leaf_node (suc (suc (suc n))) t)
  existing-HasDepth zero null d = tt
  existing-HasDepth (suc n) null d = rw (deep_level n) (λ i. tt)
  existing-HasDepth zero (inner child) d = elim d [ ]
  existing-HasDepth (suc n) (inner child) d = d
  existing-HasDepth zero (leaf l) d = tt
  existing-HasDepth (suc n) (leaf l) d = elim d [ ]

  abbrev Creates : ℕ → QTree Leaf → Type ℓ
  Creates n t =
      (x y x' y' : ℕ)
      → get_leaf
          (create_leaf new_leaf_node (suc (suc n)) x y
            (existing new_leaf_node (suc (suc (suc n))) t)).0
          x' y'
        ≡ (if same_path n x y x' y' then some (or_new (get_leaf t x y)) else get_leaf t x' y')

  create_leaf-inner :
      (n : ℕ) (child : ℕ → QTree Leaf)
      → ((i : ℕ) → Creates n (child i))
      → Creates (suc n) (inner child)
  unfolding get_leaf create_leaf
  create_leaf-inner n child ih x y x' y' =
      let i = index x y in
      let made =
        (create_leaf new_leaf_node (suc (suc n)) (shl x) (shl y)
          (existing new_leaf_node (suc (suc (suc n))) (child i))).0 in
      elim (Bool-cases (index x' y' == i)) [
        | inl here ↦
            rw
              (
                get_leaf,
                create_leaf,
                set_child-there i made child (index x' y') here,
                same_path-same n x y x' y' here,
                (==_iff (index x' y') i).0 here,
              )
              (ih i (shl x) (shl y) (shl x') (shl y'))
        | inr away ↦
            rw
              (
                get_leaf,
                create_leaf,
                set_child-apart i made child (index x' y') away,
                same_path-apart n x y x' y' away,
              )
              refl
      ]

  -- A leaf is created for its coordinate, and for those on its path; the others see no change. At
  -- a level l, l - 2 levels of the tree are left.
  pub get_leaf-create_leaf : (n : ℕ) (t : QTree Leaf) → HasDepth n t → Creates n t
  unfolding get_leaf create_leaf
  get_leaf-create_leaf zero null d x y x' y' = rw (same_path-zero x y x' y') refl
  get_leaf-create_leaf zero (leaf l) d x y x' y' = rw (same_path-zero x y x' y') refl
  get_leaf-create_leaf zero (inner child) d x y x' y' = elim d [ ]
  get_leaf-create_leaf (suc n) (leaf l) d x y x' y' = elim d [ ]
  get_leaf-create_leaf (suc n) null d x y x' y' = rw (deep_level n) (
      create_leaf-inner n (λ i. null) (λ i. get_leaf-create_leaf n null (null-HasDepth n)) x y x'
        y')
  get_leaf-create_leaf (suc n) (inner child) d x y x' y' =
      create_leaf-inner n child (λ i. get_leaf-create_leaf n (child i) (d i)) x y x' y'

  -- newLeaf is set where there was no leaf.
  pub create_leaf-new_leaf :
      (n : ℕ) (t : QTree Leaf) (x y : ℕ)
      → HasDepth n t
      → (is_null t && suc (suc (suc n)) == floor_bits
          || (create_leaf new_leaf_node
              (suc (suc n))
              x
              y
              (existing new_leaf_node (suc (suc (suc n))) t)).1)
        ≡ is_none (get_leaf t x y)
  unfolding get_leaf create_leaf
  create_leaf-new_leaf zero null x y d = refl
  create_leaf-new_leaf zero (leaf l) x y d = refl
  create_leaf-new_leaf zero (inner child) x y d = elim d [ ]
  create_leaf-new_leaf (suc n) (leaf l) x y d = elim d [ ]
  create_leaf-new_leaf (suc n) null x y d =
      rw (deep_level n) (create_leaf-new_leaf n null (shl x) (shl y) (null-HasDepth n))
  create_leaf-new_leaf (suc n) (inner child) x y d =
      create_leaf-new_leaf n (child (index x y)) (shl x) (shl y) (d (index x y))

  pub create_leaf-HasDepth :
      (n : ℕ) (t : QTree Leaf) (x y : ℕ)
      → HasDepth n t
      → HasDepth n
          (create_leaf new_leaf_node
            (suc (suc n))
            x
            y
            (existing new_leaf_node (suc (suc (suc n))) t)).0
  unfolding create_leaf
  create_leaf-HasDepth zero null x y d = tt
  create_leaf-HasDepth zero (leaf l) x y d = tt
  create_leaf-HasDepth zero (inner child) x y d = elim d [ ]
  create_leaf-HasDepth (suc n) (leaf l) x y d = elim d [ ]
  create_leaf-HasDepth (suc n) null x y d = rw (deep_level n) (
      set_child-HasDepth n (index x y) _ (λ i. null)
        (create_leaf-HasDepth n null (shl x) (shl y) (null-HasDepth n)) (λ j. null-HasDepth n))
  create_leaf-HasDepth (suc n) (inner child) x y d =
      set_child-HasDepth n (index x y) _ child
        (create_leaf-HasDepth n (child (index x y)) (shl x) (shl y) (d (index x y))) d
