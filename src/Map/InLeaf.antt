-- ===== src/Map/InLeaf.antt =====
-- One leaf under setTile of src/map.cpp.
use dark_global_12_x.Base.{
  ℕ, ◌%◌, ◌≡◌, refl, sym, ap, ◌∙◌, Bool, true, false, ◌&&◌, Option, none, some, ◌==◌, if◌then◌else◌,
  Bool-cases, inl, inr, ==_iff, ==_self,
}
use dark_global_12_x.Map.{
  Tile, Floor, floor_size, tile_of, existing_floor, create_floor, join, put_tile, put_in_leaf,
}

module _ (add_thing : Tile → ℕ → Tile) where
  -- The floors of one leaf.
  floor_of_create :
      (array : ℕ → Option Floor) (z : ℕ)
      → existing_floor (create_floor z array z) ≡ existing_floor (array z)
  unfolding create_floor
  floor_of_create array z = rw (==_self z) refl

  existing-tiles :
      (o : Option Floor) (x y : ℕ)
      → (existing_floor o).tiles (x % floor_size) (y % floor_size) ≡ tile_of o x y
  existing-tiles none x y = refl
  existing-tiles (some f) x y = refl

  put_tile_lem :
      (o : Option Floor) (x y : ℕ) (t : Tile) (x' y' : ℕ)
      → tile_of
          (some (put_tile add_thing (x % floor_size) (y % floor_size) t (existing_floor o)))
          x'
          y'
        ≡ (if x' % floor_size == x % floor_size && y' % floor_size == y % floor_size
            then some (join add_thing (tile_of o x y) t)
            else tile_of o x' y')
  unfolding put_tile
  put_tile_lem none x y t x' y' = refl
  put_tile_lem (some f) x y t x' y' = refl

  put_in_leaf-floor :
      (array : ℕ → Option Floor) (x y z : ℕ) (t : Tile) (z' : ℕ)
      → put_in_leaf add_thing x y z t array z' ≡ (
          if z' == z
          then some
              (put_tile add_thing (x % floor_size) (y % floor_size) t (existing_floor (array z)))
          else array z')
  unfolding put_in_leaf create_floor
  put_in_leaf-floor array x y z t z' = elim (Bool-cases (z' == z)) [
    | inl here ↦ rw here (
        ap (λ (f : Floor). some (put_tile add_thing (x % floor_size) (y % floor_size) t f))
          (floor_of_create array z))
    | inr away ↦ rw away refl
  ]

  both :
      (a b : Bool) (p q : Option Tile)
      → (if a && b && true then p else q) ≡ (if a && b then p else q)
  both true true p q = refl
  both true false p q = refl
  both false b p q = refl

  pub neither : (a b : Bool) (p q : Option Tile) → (if a && b && false then p else q) ≡ q
  neither true true p q = refl
  neither true false p q = refl
  neither false b p q = refl

  pub put_in_leaf_lem :
      (array : ℕ → Option Floor) (x y z : ℕ) (t : Tile) (x' y' z' : ℕ)
      → tile_of (put_in_leaf add_thing x y z t array z') x' y' ≡ (
          if x' % floor_size == x % floor_size && y' % floor_size == y % floor_size && z' == z
          then some (join add_thing (tile_of (array z) x y) t)
          else tile_of (array z') x' y')
  put_in_leaf_lem array x y z t x' y' z' =
      ap (λ (o : Option Floor). tile_of o x' y') (put_in_leaf-floor array x y z t z')
      ∙ elim (Bool-cases (z' == z)) [
        | inl here ↦
            rw (here, (==_iff z' z).0 here)
              (put_tile_lem (array z) x y t x' y'
                ∙ sym (
                    both (x' % floor_size == x % floor_size) (y' % floor_size == y % floor_size) _
                      _))
        | inr away ↦ rw away (
            sym
              (neither (x' % floor_size == x % floor_size) (y' % floor_size == y % floor_size) _ _))
      ]
