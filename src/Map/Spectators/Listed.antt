-- ===== src/Map/Spectators/Listed.antt =====
-- The lists that getSpectators of src/map.cpp meets hold the creatures of its range.
use dark_global_12_x.Base.{
  ℕ, zero, suc, ◌+◌, ◌-◌, ◌*◌, ◌/◌, ◌<◌, ◌≡◌, sym, ap, ◌∙◌, Bool, true, ◌&&◌, ◌||◌, Option, List,
  arith, Bool-cases, inl, inr, contains,
}
use dark_global_12_x.Base.Words.{u16_mod}
use dark_global_12_x.Map.{Leaf, floor_size}
use dark_global_12_x.Map.Tree.{QTree, get_leaf}
use dark_global_12_x.Map.Paths.{get_leaf-same_path}
use dark_global_12_x.Map.Corners.{same_leaf_iff}
use dark_global_12_x.Map.Views.{IsRoot, IsRoot-HasDepth, same_leaf}
use dark_global_12_x.Map.Links.{Linked, Bool-iff}
use dark_global_12_x.Map.Spectators.{
  Search, sees, steps, start_of, end_of, creatures_of, get_spectators_internal,
}
use dark_global_12_x.Map.Spectators.Window.{
  meets-steps, meets-corner, axis-low, axis-high, sees-parts, found_iff,
}
use dark_global_12_x.Map.Spectators.Found.{
  row_has, rows_have, row_has-at, rows_have-at, met, get_spectators_internal-rows,
}

-- A creature is on the list of no leaf but that of its position.
abbrev pub Placed : Search → QTree Leaf → Type 0
Placed s root =
    (x y c : ℕ)
    → contains c (creatures_of s root (get_leaf root x y)) ≡ true
    → same_leaf x y (s.position c).x (s.position c).y ≡ true

-- A creature is on the list of the leaf of its position.
abbrev pub listed : Search → QTree Leaf → ℕ → Bool
listed s root c = contains c (creatures_of s root (get_leaf root (s.position c).x (s.position c).y))

module _ (s : Search) (root : QTree Leaf) (r : IsRoot root) (c : ℕ) where
  module _ (placed : Placed s root) where
    row_has-listed : (n nx ny : ℕ) → row_has s root c n nx ny ≡ true → listed s root c ≡ true
    row_has-listed zero nx ny h = absurd (ground (arith, h))
    row_has-listed (suc n) nx ny h =
        elim (Bool-cases (contains c (creatures_of s root (get_leaf root nx ny)))) [
          | inl found ↦
              ap (λ (o : Option Leaf). contains c (creatures_of s root o))
                (get_leaf-same_path 13 root nx ny _ _ (IsRoot-HasDepth root r)
                  (placed nx ny c found))
              ∙ found
          | inr not_here ↦
              row_has-listed n (nx + floor_size) ny
                (ap (λ (b : Bool). b || row_has s root c n (nx + floor_size) ny) (sym not_here) ∙ h)
        ]

    rows_have-listed :
        (rows columns startx1 ny : ℕ)
        → rows_have s root c rows columns startx1 ny ≡ true
        → listed s root c ≡ true
    rows_have-listed zero columns startx1 ny h = absurd (ground (arith, h))
    rows_have-listed (suc rows) columns startx1 ny h =
        elim (Bool-cases (row_has s root c columns startx1 ny)) [
          | inl found ↦ row_has-listed columns startx1 ny found
          | inr not_here ↦ rows_have-listed rows columns startx1 (ny + floor_size) (
              ap (λ (b : Bool). b || rows_have s root c rows columns startx1 (ny + floor_size))
                (sym not_here)
              ∙ h)
        ]

  listed-rows_have :
      (s.position c).x < u16_mod
      → (s.position c).y < u16_mod
      → sees s c ≡ true
      → listed s root c ≡ true
      → rows_have s root c
          (steps (start_of s s.center_pos.y s.min_range_y) (end_of s s.center_pos.y s.max_range_y))
          (steps (start_of s s.center_pos.x s.min_range_x) (end_of s s.center_pos.x s.max_range_x))
          (start_of s s.center_pos.x s.min_range_x)
          (start_of s s.center_pos.y s.min_range_y)
        ≡ true
  listed-rows_have hx hy seen found =
      let (lo_z, hi_z, in_y, in_x) = sees-parts s c seen in
      let p = s.position c in
      let low_x =
        axis-low s.center_pos.x s.min_range_x s.max_range_x s.center_pos.z p.x p.z s.max_range_z
          in_x hi_z in
      let high_x =
        axis-high s.center_pos.x s.min_range_x s.max_range_x s.center_pos.z p.x p.z s.min_range_z
          in_x lo_z hx in
      let low_y =
        axis-low s.center_pos.y s.min_range_y s.max_range_y s.center_pos.z p.y p.z s.max_range_z
          in_y hi_z in
      let high_y =
        axis-high s.center_pos.y s.min_range_y s.max_range_y s.center_pos.z p.y p.z s.min_range_z
          in_y lo_z hy in
      let startx1 = start_of s s.center_pos.x s.min_range_x in
      let starty1 = start_of s s.center_pos.y s.min_range_y in
      let i = (p.x - startx1) / 8 in
      let j = (p.y - starty1) / 8 in
      let same : same_leaf p.x p.y (startx1 + i * floor_size) (starty1 + j * floor_size) ≡ true =
        (same_leaf_iff p.x p.y (startx1 + i * floor_size) (starty1 + j * floor_size)).1
          (sym (meets-corner _ p.x low_x), sym (meets-corner _ p.y low_y)) in
      rows_have-at s root c _ j _ startx1 starty1 (meets-steps _ _ p.y low_y high_y) (
        row_has-at s root c _ i startx1 (starty1 + j * floor_size)
          (meets-steps _ _ p.x low_x high_x)
          (ap (λ (o : Option Leaf). contains c (creatures_of s root o))
              (get_leaf-same_path 13 root p.x p.y _ _ (IsRoot-HasDepth root r) same)
            ∙ found))

-- A search finds the creatures it had already and, of the others, just those that are on the list of the
-- leaf of their position and in the range of the search, on every floor of it: with players only, those
-- on the player lists. The leaves are on one level of the tree and linked, no creature is on the list of
-- a leaf that is not that of its position, and the creature's coordinates are 16 bits wide.
pub get_spectators_internal-contains :
    (s : Search) (root : QTree Leaf) (spectators : List ℕ) (c : ℕ)
    → IsRoot root
    → Linked root
    → Placed s root
    → (s.position c).x < u16_mod
    → (s.position c).y < u16_mod
    → contains c (get_spectators_internal s root spectators)
      ≡ (contains c spectators || (listed s root c && sees s c))
get_spectators_internal-contains s root spectators c r links placed hx hy =
    get_spectators_internal-rows s root r links c spectators
    ∙ found_iff (met s root c) (listed s root c) (sees s c) (contains c spectators) (λ seen.
      Bool-iff (met s root c) (listed s root c) (
        λ h.
            rows_have-listed s root r c placed
              (steps (start_of s s.center_pos.y s.min_range_y)
                (end_of s s.center_pos.y s.max_range_y))
              (steps (start_of s s.center_pos.x s.min_range_x)
                (end_of s s.center_pos.x s.max_range_x))
              (start_of s s.center_pos.x s.min_range_x) (start_of s s.center_pos.y s.min_range_y) h,
        λ h. listed-rows_have s root r c hx hy seen h,
      ))
