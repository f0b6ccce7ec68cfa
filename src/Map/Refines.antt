-- ===== src/Map/Refines.antt =====
-- The tiles of the map as a function of coordinates, which the tree of src/map.cpp implements.
use mathlib.Core.Option
use dark_global_12_x.Base.{
  ℕ, ◌/◌, ◌%◌, ◌<◌, ◌≡◌, refl, sym, ap, ◌∙◌, Bool, true, false, ◌&&◌, Option, none, some, leb, ◌==◌,
  if◌then◌else◌, arith, Bool-cases, Option-cases, inl, inr,
}
use dark_global_12_x.Base.Words.{u16_mod}
use dark_global_12_x.Map.Paths.{get_leaf-same_path}
use dark_global_12_x.Map.{
  Tile, Leaf, Floor, map_max_layers, new_leaf_node, root_level, tile_of, get_tile, join,
  put_in_leaf, set_tile, link,
}
use dark_global_12_x.Map.Tree.{QTree, get_leaf, create_leaf}
use dark_global_12_x.Map.Corners.{same_leaf_iff}
use dark_global_12_x.Map.InLeaf.{put_in_leaf_lem, neither}
use dark_global_12_x.Map.Views.{same_leaf, IsRoot, IsRoot-HasDepth, create_leaf-IsRoot}
use dark_global_12_x.Map.Floors.{
  floors_at, or_none, floors_at-created, floors_at-put, SameFloors, link-SameFloors,
}

-- A map of tiles, and a tile put on it.
abbrev pub Tiles : Type 0
Tiles = ℕ → ℕ → ℕ → Option Tile

module _ (add_thing : Tile → ℕ → Tile) where
  abbrev pub put : ℕ → ℕ → ℕ → Tile → Tiles → Tiles
  put x y z new_tile tiles x' y' z' =
      if x' == x && y' == y && z' == z
      then some (join add_thing (tiles x y z) new_tile)
      else tiles x' y' z'

  with_leaf :
      (root : QTree Leaf) (x y : ℕ)
      → IsRoot root
      → SameFloors (create_leaf new_leaf_node root_level x y root).0 (
          let created = create_leaf new_leaf_node root_level x y root in
          if created.1 then link x y created.0 else created.0)
  with_leaf root x y r = elim (Bool-cases (create_leaf new_leaf_node root_level x y root).1) [
    | inl new ↦ rw new (link-SameFloors _ x y (create_leaf-IsRoot root x y r))
    | inr old ↦ rw old (create_leaf-IsRoot root x y r, λ a b. refl)
  ]

  floors_at-set_tile :
      (root : QTree Leaf) (x y z : ℕ) (t : Tile) (x' y' : ℕ)
      → IsRoot root
      → z < 16
      → floors_at (set_tile add_thing x y z t root) x' y' ≡ (
          if same_leaf x y x' y'
          then some (put_in_leaf add_thing x y z t (or_none (floors_at root x y)))
          else floors_at root x' y')
  unfolding set_tile
  floors_at-set_tile root x y z t x' y' r bound =
      let low : leb map_max_layers z ≡ false = ground (arith, bound) in
      let (linked, same) = with_leaf root x y r in
      rw low (
        floors_at-put _ (put_in_leaf add_thing x y z t) x y x' y' linked
        ∙ ap
            (λ (o : Option (ℕ → Option Floor)).
              if same_leaf x y x' y' then Option.map (put_in_leaf add_thing x y z t) o else o)
            (same x' y' ∙ floors_at-created root x y x' y' r)
        ∙ twice (same_leaf x y x' y') _ _ _)
    where
      twice :
          {A : Type 0} (b : Bool) (g : A → A) (a : A) (o : Option A)
          → (if b then Option.map g (if b then some a else o) else (if b then some a else o))
            ≡ (if b then some (g a) else o)
      twice true g a o = refl
      twice false g a o = refl

  get_tile-floors :
      (root : QTree Leaf) (x y z : ℕ)
      → get_tile root x y z
        ≡ (if leb map_max_layers z then none else tile_of (or_none (floors_at root x y) z) x y)
  unfolding get_tile
  get_tile-floors root x y z = elim (Option-cases (get_leaf root x y)) [
    | inl absent ↦ rw absent refl
    | inr (l, found) ↦ rw found refl
  ]

  low_bits : (x x' : ℕ) → x / 8 ≡ x' / 8 → (x' % 8 == x % 8) ≡ (x' == x)
  low_bits x x' h = ground (arith, h)

  true-false : true ≡ false → ⊥
  true-false h = absurd (ground (arith, h))

  get_tile-low :
      (root : QTree Leaf) (x y z : ℕ)
      → leb map_max_layers z ≡ false
      → tile_of (or_none (floors_at root x y) z) x y ≡ get_tile root x y z
  get_tile-low root x y z low = rw (get_tile-floors root x y z, low) refl

  apart :
      (x y x' y' : ℕ)
      → x < u16_mod
      → y < u16_mod
      → x' < u16_mod
      → y' < u16_mod
      → same_leaf x y x' y' ≡ false
      → (x' == x && y' == y) ≡ false
  apart x y x' y' hx hy hx' hy' h = elim (Bool-cases (x' == x && y' == y)) [
    | inl e ↦
        let ex : x' ≡ x = ground (arith, e) in
        let ey : y' ≡ y = ground (arith, e) in
        absurd (
          true-false (sym ((same_leaf_iff x y x' y').1 (omega (arith, ex), omega (arith, ey))) ∙ h))
    | inr n ↦ n
  ]

  put-cong :
      (a a' b b' c : Bool) (o o' q q' : Option Tile) (t : Tile)
      → a ≡ a'
      → b ≡ b'
      → o ≡ o'
      → q ≡ q'
      → (if a && b && c then some (join add_thing o t) else q)
        ≡ (if a' && b' && c then some (join add_thing o' t) else q')
  put-cong a a' b b' c o o' q q' t ea eb eo eq = rw (ea, eb, eo, eq) refl

  elsewhere :
      (a b c : Bool) (p q : Option Tile) → a && b ≡ false → (if a && b && c then p else q) ≡ q
  elsewhere true true c p q h = absurd (ground (arith, h))
  elsewhere true false c p q h = refl
  elsewhere false b c p q h = refl

  -- Within a leaf, and away from it.
  put-same :
      (root : QTree Leaf) (x y z : ℕ) (t : Tile) (x' y' z' : ℕ)
      → IsRoot root
      → x < u16_mod
      → y < u16_mod
      → x' < u16_mod
      → y' < u16_mod
      → leb map_max_layers z ≡ false
      → leb map_max_layers z' ≡ false
      → same_leaf x y x' y' ≡ true
      → tile_of (put_in_leaf add_thing x y z t (or_none (floors_at root x y)) z') x' y'
        ≡ put x y z t (get_tile root) x' y' z'
  put-same root x y z t x' y' z' r hx hy hx' hy' low low' same =
      let (bx, by) = (same_leaf_iff x y x' y').0 same in
      let shared : floors_at root x' y' ≡ floors_at root x y =
        ap (Option.map (λ (l : Leaf). l.array))
          (get_leaf-same_path 13 root x y x' y' (IsRoot-HasDepth root r) same) in
      put_in_leaf_lem add_thing (or_none (floors_at root x y)) x y z t x' y' z'
      ∙ put-cong _ _ _ _ (z' == z) _ _ _ _ t (low_bits x x' (omega (arith, bx)))
          (low_bits y y' (omega (arith, by))) (get_tile-low root x y z low)
          (ap (λ (a : Option (ℕ → Option Floor)). tile_of (or_none a z') x' y') (sym shared)
            ∙ get_tile-low root x' y' z' low')

  above :
      (z z' : ℕ) → leb map_max_layers z ≡ false → leb map_max_layers z' ≡ true → (z' == z) ≡ false
  above z z' low high = ground (arith, low, high)

  set_tile-high :
      (root : QTree Leaf) (x y z : ℕ) (t : Tile)
      → leb map_max_layers z ≡ true
      → set_tile add_thing x y z t root ≡ root
  unfolding set_tile
  set_tile-high root x y z t high = rw high refl

  get_tile-high :
      (root : QTree Leaf) (x y z : ℕ) → leb map_max_layers z ≡ true → get_tile root x y z ≡ none
  unfolding get_tile
  get_tile-high root x y z high = rw high refl

  -- Setting a tile puts it at its coordinates, where a tile that is there takes the new one's things,
  -- and leaves every other tile of the map as it is. On a layer that the map has not, nothing is set.
  -- The tree is one with its leaves on one level, and coordinates are 16 bits wide.
  pub get_tile-set_tile :
      (root : QTree Leaf) (x y z : ℕ) (t : Tile) (x' y' z' : ℕ)
      → IsRoot root
      → x < u16_mod
      → y < u16_mod
      → x' < u16_mod
      → y' < u16_mod
      → get_tile (set_tile add_thing x y z t root) x' y' z' ≡ (
          if leb map_max_layers z
          then get_tile root x' y' z'
          else put x y z t (get_tile root) x' y' z')
  get_tile-set_tile root x y z t x' y' z' r hx hy hx' hy' =
      elim (Bool-cases (leb map_max_layers z)) [
        | inl high ↦
            rw high (ap (λ (q : QTree Leaf). get_tile q x' y' z') (set_tile-high root x y z t high))
        | inr low ↦ rw low (elim (Bool-cases (leb map_max_layers z')) [
          | inl high ↦
              get_tile-high _ x' y' z' high
              ∙ sym (
                  rw (above z z' low high)
                    (neither add_thing (x' == x) (y' == y) _ _ ∙ get_tile-high root x' y' z' high))
          | inr low' ↦
              sym (get_tile-low _ x' y' z' low')
              ∙ ap (λ (o : Option (ℕ → Option Floor)). tile_of (or_none o z') x' y')
                  (floors_at-set_tile root x y z t x' y' r (ground (arith, low)))
              ∙ elim (Bool-cases (same_leaf x y x' y')) [
                | inl same ↦ rw same (put-same root x y z t x' y' z' r hx hy hx' hy' low low' same)
                | inr other ↦ rw other (
                    get_tile-low root x' y' z' low'
                    ∙ sym (
                        elsewhere (x' == x) (y' == y) (z' == z) _ _
                          (apart x y x' y' hx hy hx' hy' other)))
              ]
        ])
      ]
