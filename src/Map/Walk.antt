-- ===== src/Map/Walk.antt =====
-- src/map.h and src/map.cpp, AStarNodes and getPathMatching: the nodes of a search for a path, the step
-- to a neighbor and the walk back. A pointer to a node is its index in the array. Costs are naturals;
-- int_fast32_t holds those of 512 nodes.
use dark_global_12_x.Base.{
  ℕ, zero, suc, ◌+◌, ◌*◌, ◌%◌, Bool, true, false, ◌&&◌, Option, none, some, List, [], ◌∷◌, ltb, leb,
  ◌==◌, if◌then◌else◌,
}
use dark_global_12_x.Base.Int.{ℤ, pos, negsuc, sub_ℕ, abs}
use dark_global_12_x.Base.Words.{u16_mod}
mod Tests
pub mod Best
pub mod Kept
pub mod Back

abbrev pub max_nodes : ℕ
max_nodes = 512

abbrev pub map_normal_walk_cost : ℕ
map_normal_walk_cost = 10

abbrev pub map_diagonal_walk_cost : ℕ
map_diagonal_walk_cost = 25

abbrev pub int32_max : ℕ
int32_max = 2147483647

pub record AStarNode : Type 0 where
  pub parent : Option ℕ
  pub f : ℕ
  pub x : ℕ
  pub y : ℕ

abbrev pub zero_node : AStarNode
zero_node = record { parent = none; f = 0; x = 0; y = 0 }

pub record AStarNodes : Type 0 where
  pub nodes : ℕ → AStarNode
  pub open_nodes : ℕ → Bool
  pub node_table : ℕ → Option ℕ
  pub cur_node : ℕ
  pub closed_nodes : ℤ

-- An array or a map after an assignment.
abbrev pub assign {ℓ} : {A : Type ℓ} → ℕ → A → (ℕ → A) → ℕ → A
assign i a array k = if k == i then a else array k

-- (x << 16) | y of 32 bits, where y has 16.
abbrev pub table_key : ℕ → ℕ → ℕ
table_key x y = x % u16_mod * u16_mod + y

-- AStarNodes::AStarNodes
unfoldable pub start_nodes : ℕ → ℕ → AStarNodes
start_nodes x y = record {
  nodes =
      assign 0 (record { parent = none; f = 0; x = x % u16_mod; y = y % u16_mod }) (λ i. zero_node);
  open_nodes = assign 0 true (λ i. false);
  node_table = assign (table_key x y) (some 0) (λ k. none);
  cur_node = 1;
  closed_nodes = pos 0;
}

-- AStarNodes::createOpenNode, where there is room.
abbrev pub add_node : Option ℕ → ℕ → ℕ → ℕ → AStarNodes → AStarNodes
add_node parent x y f m = record {
  nodes =
      assign m.cur_node (record { parent = parent; f = f; x = x % u16_mod; y = y % u16_mod })
        m.nodes;
  open_nodes = assign m.cur_node true m.open_nodes;
  node_table = assign (table_key x y) (some m.cur_node) m.node_table;
  cur_node = suc m.cur_node;
  closed_nodes = m.closed_nodes;
}

unfoldable pub create_open_node : Option ℕ → ℕ → ℕ → ℕ → AStarNodes → Option (ℕ × AStarNodes)
create_open_node parent x y f m =
    if leb max_nodes m.cur_node then none else some (m.cur_node, add_node parent x y f m)

-- The loop of AStarNodes::getBestNode, with n nodes to go.
unfoldable pub best_loop : AStarNodes → ℕ → ℕ → ℕ → Option ℕ → Option ℕ
best_loop m zero i best_node_f best_node = best_node
best_loop m (suc n) i best_node_f best_node =
    let better = m.open_nodes i && ltb (m.nodes i).f best_node_f in
    best_loop m n (suc i) (if better then (m.nodes i).f else best_node_f)
      (if better then some i else best_node)

unfoldable pub get_best_node : AStarNodes → Option ℕ
unfolding best_loop
get_best_node m = if m.cur_node == 0 then none else best_loop m m.cur_node 0 int32_max none

abbrev pub increment : ℤ → ℤ
increment (pos n) = pos (suc n)
increment (negsuc zero) = pos 0
increment (negsuc (suc n)) = negsuc n

abbrev pub decrement : ℤ → ℤ
decrement (pos zero) = negsuc 0
decrement (pos (suc n)) = pos n
decrement (negsuc n) = negsuc (suc n)

unfoldable pub close_node : ℕ → AStarNodes → AStarNodes
close_node i m = record m {
  open_nodes = assign i false m.open_nodes;
  closed_nodes = increment m.closed_nodes;
}

unfoldable pub open_node : ℕ → AStarNodes → AStarNodes
open_node i m = if m.open_nodes i then m else record m {
  open_nodes = assign i true m.open_nodes;
  closed_nodes = decrement m.closed_nodes;
}

unfoldable pub get_node_by_position : ℕ → ℕ → AStarNodes → Option ℕ
get_node_by_position x y m = m.node_table (table_key x y)

unfoldable pub get_map_walk_cost : AStarNode → ℕ → ℕ → ℕ
get_map_walk_cost node x y =
    if abs (sub_ℕ node.x x) == abs (sub_ℕ node.y y)
    then map_diagonal_walk_cost
    else map_normal_walk_cost

-- A neighbor that is reached at less cost through n.
abbrev pub reparent : ℕ → ℕ → ℕ → AStarNodes → AStarNodes
reparent i n newf m = record m {
  nodes = assign i (record (m.nodes i) { parent = some n; f = newf }) m.nodes;
}

abbrev pub nodes_of : Option (ℕ × AStarNodes) → Option AStarNodes
nodes_of none = none
nodes_of (some (i, m)) = some m

-- What getPathMatching does with a neighbor of the node n that can be walked to: none where the nodes
-- run out. The extra cost is getTileWalkCost of the tile. The neighbor is not n, so f is still n->f.
abbrev pub known_neighbor : ℕ → ℕ → ℕ → AStarNodes → AStarNodes
known_neighbor i n newf m = if leb (m.nodes i).f newf then m else open_node i (reparent i n newf m)

unfoldable pub at_neighbor : ℕ → ℕ → ℕ → ℕ → AStarNodes → Option ℕ → Option AStarNodes
unfolding create_open_node open_node
at_neighbor n x y newf m none = nodes_of (create_open_node (some n) x y newf m)
at_neighbor n x y newf m (some i) = some (known_neighbor i n newf m)

unfoldable pub visit_neighbor : ℕ → ℕ → ℕ → ℕ → AStarNodes → Option AStarNodes
unfolding at_neighbor get_node_by_position get_map_walk_cost
visit_neighbor n x y extra_cost m =
    at_neighbor n x y ((m.nodes n).f + get_map_walk_cost (m.nodes n) x y + extra_cost) m
      (get_node_by_position x y m)

pub data Direction : Type 0 where
  north east south west southwest southeast northwest northeast : Direction

abbrev is_one : ℤ → Bool
is_one (pos n) = n == 1
is_one (negsuc n) = false

abbrev is_minus_one : ℤ → Bool
is_minus_one (pos n) = false
is_minus_one (negsuc n) = n == 0

-- The direction for dx and dy; none where nothing is pushed.
abbrev pub turn : ℤ → ℤ → Option Direction
turn dx dy =
    if is_one dx && is_one dy
    then some northwest
    else if is_minus_one dx && is_one dy
    then some northeast
    else if is_one dx && is_minus_one dy
    then some southwest
    else if is_minus_one dx && is_minus_one dy
    then some southeast
    else if is_one dx
    then some west
    else if is_minus_one dx
    then some east
    else if is_one dy
    then some north
    else if is_minus_one dy
    then some south
    else none

abbrev pub push_front : Option Direction → List Direction → List Direction
push_front none dir_list = dir_list
push_front (some d) dir_list = d ∷ dir_list

-- The `while (found)` that ends getPathMatching, on fuel: none where it runs out.
unfoldable pub walk_back :
    AStarNodes → ℕ → ℕ → ℕ → Option ℕ → List Direction → Option (List Direction)
walk_back m zero prev_x prev_y found dir_list = none
walk_back m (suc fuel) prev_x prev_y none dir_list = some dir_list
walk_back m (suc fuel) prev_x prev_y (some i) dir_list =
    let node = m.nodes i in
    walk_back m fuel node.x node.y node.parent
      (push_front (turn (sub_ℕ node.x prev_x) (sub_ℕ node.y prev_y)) dir_list)
