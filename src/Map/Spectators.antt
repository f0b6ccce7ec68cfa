-- ===== src/Map/Spectators.antt =====
-- src/map.cpp, getSpectators: the creatures around a position. The scan follows the links of the leaves
-- where it can. Numbers are naturals, a minimal range of -n is n, and a comparison whose sides may be
-- negative has what is subtracted added to its other side. An unordered_set is a list with no key twice,
-- and a creature is its key.
pub mod Scan
pub mod Window
pub mod Found
pub mod Listed
pub mod Exact
pub mod Cache
pub mod Players
pub mod Hits
pub mod Coherent
use mathlib.Core.Option
use dark_global_12_x.Base.{
  ℕ, zero, suc, ◌+◌, ◌-◌, ◌*◌, ◌/◌, ◌%◌, Bool, true, false, not, ◌&&◌, ◌||◌, Option, none, some,
  List, [], ◌∷◌, ltb, leb, ◌==◌, if◌then◌else◌, insert_key,
}
use dark_global_12_x.Position.{Position}
use dark_global_12_x.Map.{Leaf, Corner, pointer, floor_size, map_max_layers}
use dark_global_12_x.Map.Tree.{QTree, get_leaf}

-- getLeafStatic, as a pointer, and what a pointer points to. The leaf is there: leaves are never removed.
abbrev pub leaf_pointer : QTree Leaf → ℕ → ℕ → Option Corner
leaf_pointer root x y = Option.map (λ l. pointer x y) (get_leaf root x y)

abbrev pub deref : QTree Leaf → Option Corner → Option Leaf
deref root none = none
deref root (some c) = get_leaf root c.corner_x c.corner_y

-- Where the creatures of a map are, and the ranges of a search.
pub record Search : Type 0 where
  pub position : ℕ → Position
  pub center_pos : Position
  pub min_range_x : ℕ
  pub max_range_x : ℕ
  pub min_range_y : ℕ
  pub max_range_y : ℕ
  pub min_range_z : ℕ
  pub max_range_z : ℕ
  pub only_players : Bool

-- The two tests that pass over a creature.
abbrev pub other_floor : Search → ℕ → Bool
other_floor s z = ltb z s.min_range_z || ltb s.max_range_z z

-- The axis of a search: center, minimal and maximal range, and a creature's place on it.
abbrev pub out_of : ℕ → ℕ → ℕ → ℕ → ℕ → ℕ → Bool
out_of center min_range max_range center_z at z =
    ltb (at + min_range + z) (center + center_z) || ltb (center + max_range + center_z) (at + z)

abbrev pub out_of_range : Search → Position → Bool
out_of_range s p =
    out_of s.center_pos.y s.min_range_y s.max_range_y s.center_pos.z p.y p.z
    || out_of s.center_pos.x s.min_range_x s.max_range_x s.center_pos.z p.x p.z

abbrev pub sees : Search → ℕ → Bool
sees s c = not (other_floor s (s.position c).z) && not (out_of_range s (s.position c))

abbrev pub node_list : Search → Leaf → List ℕ
node_list s l = if s.only_players then l.player_list else l.creature_list

unfoldable pub visit : Search → List ℕ → List ℕ → List ℕ
visit s [] spectators = spectators
visit s (c ∷ cs) spectators = visit s cs (if sees s c then insert_key c spectators else spectators)

-- std::min<uint32_t>(0xFFFF, n)
abbrev pub clamp : ℕ → ℕ
clamp n = if ltb 0xFFFF n then 0xFFFF else n

-- x1 - (x1 % FLOOR_SIZE), of the lowest and of the highest coordinate of the search.
abbrev pub start_of : Search → ℕ → ℕ → ℕ
start_of s center min_range =
    let x1 = clamp (center + s.center_pos.z - (min_range + s.max_range_z)) in x1 - x1 % floor_size

abbrev pub end_of : Search → ℕ → ℕ → ℕ
end_of s center max_range =
    let x2 = clamp (center + max_range + s.center_pos.z - s.min_range_z) in x2 - x2 % floor_size

-- How often a loop runs from start to end, both multiples of FLOOR_SIZE and both included.
abbrev pub steps : ℕ → ℕ → ℕ
steps start end = if leb start end then suc ((end - start) / floor_size) else 0

module _ (s : Search) (root : QTree Leaf) where
  abbrev pub creatures_of : Option Leaf → List ℕ
  creatures_of none = []
  creatures_of (some l) = node_list s l

  abbrev pub next_e : ℕ → ℕ → Option Leaf → Option Corner
  next_e nx ny none = leaf_pointer root (nx + floor_size) ny
  next_e nx ny (some l) = l.leaf_e

  abbrev pub next_s : ℕ → ℕ → Option Leaf → Option Corner
  next_s startx1 ny none = leaf_pointer root startx1 (ny + floor_size)
  next_s startx1 ny (some l) = l.leaf_s

  -- The inner loop, n times, and the outer one.
  unfoldable pub scan_row : ℕ → ℕ → ℕ → Option Corner → List ℕ → List ℕ
  unfolding visit
  scan_row zero nx ny leaf_e spectators = spectators
  scan_row (suc n) nx ny leaf_e spectators =
      let leaf = deref root leaf_e in
      scan_row n (nx + floor_size) ny (next_e nx ny leaf) (visit s (creatures_of leaf) spectators)

  unfoldable pub scan : ℕ → ℕ → ℕ → ℕ → Option Corner → List ℕ → List ℕ
  unfolding scan_row
  scan zero columns startx1 ny leaf_s spectators = spectators
  scan (suc rows) columns startx1 ny leaf_s spectators =
      scan rows columns startx1 (ny + floor_size) (next_s startx1 ny (deref root leaf_s))
        (scan_row columns startx1 ny leaf_s spectators)

  -- getSpectatorsInternal
  unfoldable pub get_spectators_internal : List ℕ → List ℕ
  unfolding scan
  get_spectators_internal spectators =
      let startx1 = start_of s s.center_pos.x s.min_range_x in
      let starty1 = start_of s s.center_pos.y s.min_range_y in
      let columns = steps startx1 (end_of s s.center_pos.x s.max_range_x) in
      let rows = steps starty1 (end_of s s.center_pos.y s.max_range_y) in
      scan rows columns startx1 starty1 (leaf_pointer root startx1 starty1) spectators
