-- ===== src/Map/Spectators/Scan.antt =====
-- The scan of src/map.cpp without the links: every leaf by its coordinates.
use dark_global_12_x.Base.{
  ℕ, zero, suc, ◌+◌, ◌*◌, ◌%◌, ◌/◌, ◌≡◌, refl, ap, ◌∙◌, Option, List, arith, Option-cases, inl, inr,
}
use dark_global_12_x.Map.{Leaf, Corner, floor_size}
use dark_global_12_x.Map.Tree.{QTree, get_leaf}
use dark_global_12_x.Map.Paths.{get_leaf-same_path}
use dark_global_12_x.Map.Corners.{same_leaf_iff}
use dark_global_12_x.Map.Views.{IsRoot, IsRoot-HasDepth}
use dark_global_12_x.Map.Links.{Linked}
use dark_global_12_x.Map.Spectators.{
  Search, visit, steps, start_of, end_of, creatures_of, leaf_pointer, deref, next_e, next_s,
  scan_row, scan, get_spectators_internal,
}

module _ (s : Search) (root : QTree Leaf) where
  -- The two loops, over the leaves at their coordinates.
  unfoldable pub look_row : ℕ → ℕ → ℕ → List ℕ → List ℕ
  look_row zero nx ny spectators = spectators
  look_row (suc n) nx ny spectators =
      look_row n (nx + floor_size) ny
        (visit s (creatures_of s root (get_leaf root nx ny)) spectators)

  unfoldable pub look : ℕ → ℕ → ℕ → ℕ → List ℕ → List ℕ
  look zero columns startx1 ny spectators = spectators
  look (suc rows) columns startx1 ny spectators =
      look rows columns startx1 (ny + floor_size) (look_row columns startx1 ny spectators)

  module _ (r : IsRoot root) (links : Linked root) where
    deref-leaf_pointer : (x y : ℕ) → deref root (leaf_pointer root x y) ≡ get_leaf root x y
    deref-leaf_pointer x y = elim (Option-cases (get_leaf root x y)) [
      | inl absent ↦ rw absent refl
      | inr (l, found) ↦ rw found (to_corner ∙ found)
    ]
      where
        to_corner : get_leaf root (x % 65536 / 8 * 8) (y % 65536 / 8 * 8) ≡ get_leaf root x y
        to_corner =
            get_leaf-same_path 13 root x y (x % 65536 / 8 * 8) (y % 65536 / 8 * 8)
              (IsRoot-HasDepth root r)
              ((same_leaf_iff x y (x % 65536 / 8 * 8) (y % 65536 / 8 * 8)).1
                (omega arith, omega arith))

    next_e-leaf_pointer :
        (x y : ℕ) → next_e s root x y (get_leaf root x y) ≡ leaf_pointer root (x + floor_size) y
    next_e-leaf_pointer x y = elim (Option-cases (get_leaf root x y)) [
      | inl absent ↦ ap (next_e s root x y) absent
      | inr (l, found) ↦ ap (next_e s root x y) found ∙ (links x y l found).1
    ]

    next_s-leaf_pointer :
        (x y : ℕ) → next_s s root x y (get_leaf root x y) ≡ leaf_pointer root x (y + floor_size)
    next_s-leaf_pointer x y = elim (Option-cases (get_leaf root x y)) [
      | inl absent ↦ ap (next_s s root x y) absent
      | inr (l, found) ↦ ap (next_s s root x y) found ∙ (links x y l found).0
    ]

    scan_row-look_row :
        (n nx ny : ℕ) (spectators : List ℕ)
        → scan_row s root n nx ny (leaf_pointer root nx ny) spectators ≡ look_row n nx ny spectators
    unfolding scan_row look_row
    scan_row-look_row zero nx ny spectators = refl
    scan_row-look_row (suc n) nx ny spectators =
        ap
          (λ (l : Option Leaf).
            scan_row s root n (nx + floor_size) ny (next_e s root nx ny l)
              (visit s (creatures_of s root l) spectators))
          (deref-leaf_pointer nx ny)
        ∙ ap
            (λ (c : Option Corner).
              scan_row s root n (nx + floor_size) ny c
                (visit s (creatures_of s root (get_leaf root nx ny)) spectators))
            (next_e-leaf_pointer nx ny)
        ∙ scan_row-look_row n (nx + floor_size) ny _

    scan-look :
        (rows columns startx1 ny : ℕ) (spectators : List ℕ)
        → scan s root rows columns startx1 ny (leaf_pointer root startx1 ny) spectators
          ≡ look rows columns startx1 ny spectators
    unfolding scan look
    scan-look zero columns startx1 ny spectators = refl
    scan-look (suc rows) columns startx1 ny spectators =
        ap
          (λ (c : Option Corner).
            scan s root rows columns startx1 (ny + floor_size) c
              (scan_row s root columns startx1 ny (leaf_pointer root startx1 ny) spectators))
          (ap (next_s s root startx1 ny) (deref-leaf_pointer startx1 ny)
            ∙ next_s-leaf_pointer startx1 ny)
        ∙ scan-look rows columns startx1 (ny + floor_size) _
        ∙ ap (look rows columns startx1 (ny + floor_size))
            (scan_row-look_row columns startx1 ny spectators)

    -- Following the links, the scan of a map whose leaves are linked visits the same creatures, in the
    -- same order, as one that looks every leaf up by its coordinates in the tree.
    pub get_spectators_internal-look :
        (spectators : List ℕ)
        → get_spectators_internal s root spectators
          ≡ look
              (steps
                (start_of s s.center_pos.y s.min_range_y)
                (end_of s s.center_pos.y s.max_range_y))
              (steps
                (start_of s s.center_pos.x s.min_range_x)
                (end_of s s.center_pos.x s.max_range_x))
              (start_of s s.center_pos.x s.min_range_x)
              (start_of s s.center_pos.y s.min_range_y)
              spectators
    unfolding get_spectators_internal
    get_spectators_internal-look spectators = scan-look _ _ _ _ spectators
