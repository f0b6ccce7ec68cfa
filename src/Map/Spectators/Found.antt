-- ===== src/Map/Spectators/Found.antt =====
-- Which creatures getSpectators of src/map.cpp finds.
use dark_global_12_x.Base.{
  ℕ, zero, suc, ◌+◌, ◌*◌, ◌<◌, ◌≡◌, refl, sym, ap, ◌∙◌, Bool, true, false, ◌&&◌, ◌||◌, List, [],
  ◌∷◌, arith, ==_iff, contains, contains-insert_key, insert_key, if◌then◌else◌, ◌==◌,
}
use dark_global_12_x.Map.{Leaf, floor_size}
use dark_global_12_x.Map.Tree.{QTree, get_leaf}
use dark_global_12_x.Map.Views.{IsRoot}
use dark_global_12_x.Map.Links.{Linked}
use dark_global_12_x.Map.Spectators.{
  Search, visit, sees, steps, start_of, end_of, creatures_of, get_spectators_internal,
}
use dark_global_12_x.Map.Spectators.Scan.{look_row, look, get_spectators_internal-look}
use dark_global_12_x.Map.Spectators.Window.{regroup, or_true, one}

visit-contains :
    (s : Search) (c : ℕ) (cs spectators : List ℕ)
    → contains c (visit s cs spectators) ≡ (contains c spectators || (contains c cs && sees s c))
unfolding visit
visit-contains s c [] spectators = ground arith
visit-contains s c (d ∷ cs) spectators =
    visit-contains s c cs _
    ∙ ap (λ (b : Bool). b || (contains c cs && sees s c))
        (into (sees s d)
          ∙ ap (λ (b : Bool). if sees s d then b else contains c spectators)
              (contains-insert_key d c spectators))
    ∙ one (d == c) (sees s d) (contains c spectators) (contains c cs) (sees s c)
        (λ h. ap (sees s) ((==_iff d c).0 h))
  where
    into :
        (b : Bool)
        → contains c (if b then insert_key d spectators else spectators)
          ≡ (if b then contains c (insert_key d spectators) else contains c spectators)
    into true = refl
    into false = refl

module _ (s : Search) (root : QTree Leaf) (c : ℕ) where
  -- A creature on a list of the leaves that the loops meet.
  abbrev pub row_has : ℕ → ℕ → ℕ → Bool
  row_has zero nx ny = false
  row_has (suc n) nx ny =
      contains c (creatures_of s root (get_leaf root nx ny)) || row_has n (nx + floor_size) ny

  abbrev pub rows_have : ℕ → ℕ → ℕ → ℕ → Bool
  rows_have zero columns startx1 ny = false
  rows_have (suc rows) columns startx1 ny =
      row_has columns startx1 ny || rows_have rows columns startx1 (ny + floor_size)

  look_row-contains :
      (n nx ny : ℕ) (spectators : List ℕ)
      → contains c (look_row s root n nx ny spectators)
        ≡ (contains c spectators || (row_has n nx ny && sees s c))
  unfolding look_row
  look_row-contains zero nx ny spectators = ground arith
  look_row-contains (suc n) nx ny spectators =
      look_row-contains n (nx + floor_size) ny _
      ∙ ap (λ (b : Bool). b || (row_has n (nx + floor_size) ny && sees s c))
          (visit-contains s c _ spectators)
      ∙ regroup (contains c spectators) _ _ (sees s c)

  look-contains :
      (rows columns startx1 ny : ℕ) (spectators : List ℕ)
      → contains c (look s root rows columns startx1 ny spectators)
        ≡ (contains c spectators || (rows_have rows columns startx1 ny && sees s c))
  unfolding look
  look-contains zero columns startx1 ny spectators = ground arith
  look-contains (suc rows) columns startx1 ny spectators =
      look-contains rows columns startx1 (ny + floor_size) _
      ∙ ap (λ (b : Bool). b || (rows_have rows columns startx1 (ny + floor_size) && sees s c))
          (look_row-contains columns startx1 ny spectators)
      ∙ regroup (contains c spectators) _ _ (sees s c)

  pub row_has-at :
      (n k nx ny : ℕ)
      → k < n
      → contains c (creatures_of s root (get_leaf root (nx + k * floor_size) ny)) ≡ true
      → row_has n nx ny ≡ true
  row_has-at zero k nx ny h found = absurd (omega (arith, h))
  row_has-at (suc n) zero nx ny h found =
      let e : nx + 0 * floor_size ≡ nx = omega arith in
      let first =
        sym (ap (λ (k : ℕ). contains c (creatures_of s root (get_leaf root k ny))) e) ∙ found in
      ap (λ (b : Bool). b || row_has n (nx + floor_size) ny) first
  row_has-at (suc n) (suc k) nx ny h found =
      let e : nx + suc k * floor_size ≡ nx + floor_size + k * floor_size = omega arith in
      let later =
        sym (ap (λ (k : ℕ). contains c (creatures_of s root (get_leaf root k ny))) e) ∙ found in
      ap (λ (b : Bool). contains c (creatures_of s root (get_leaf root nx ny)) || b)
        (row_has-at n k (nx + floor_size) ny (omega (arith, h)) later)
      ∙ or_true _

  pub rows_have-at :
      (rows j columns startx1 ny : ℕ)
      → j < rows
      → row_has columns startx1 (ny + j * floor_size) ≡ true
      → rows_have rows columns startx1 ny ≡ true
  rows_have-at zero j columns startx1 ny h found = absurd (omega (arith, h))
  rows_have-at (suc rows) zero columns startx1 ny h found =
      let e : ny + 0 * floor_size ≡ ny = omega arith in
      let first = sym (ap (row_has columns startx1) e) ∙ found in
      ap (λ (b : Bool). b || rows_have rows columns startx1 (ny + floor_size)) first
  rows_have-at (suc rows) (suc j) columns startx1 ny h found =
      let e : ny + suc j * floor_size ≡ ny + floor_size + j * floor_size = omega arith in
      let later = sym (ap (row_has columns startx1) e) ∙ found in
      ap (λ (b : Bool). row_has columns startx1 ny || b)
        (rows_have-at rows j columns startx1 (ny + floor_size) (omega (arith, h)) later)
      ∙ or_true _

-- A creature on a list of the leaves of the window.
abbrev pub met : Search → QTree Leaf → ℕ → Bool
met s root c =
    rows_have s root c
      (steps (start_of s s.center_pos.y s.min_range_y) (end_of s s.center_pos.y s.max_range_y))
      (steps (start_of s s.center_pos.x s.min_range_x) (end_of s s.center_pos.x s.max_range_x))
      (start_of s s.center_pos.x s.min_range_x) (start_of s s.center_pos.y s.min_range_y)

pub get_spectators_internal-rows :
    (s : Search) (root : QTree Leaf)
    → IsRoot root
    → Linked root
    → (c : ℕ) (spectators : List ℕ)
    → contains c (get_spectators_internal s root spectators)
      ≡ (contains c spectators || (met s root c && sees s c))
get_spectators_internal-rows s root r links c spectators =
    ap (contains c) (get_spectators_internal-look s root r links spectators)
    ∙ look-contains s root c _ _ _ _ spectators
