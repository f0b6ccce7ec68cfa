-- ===== src/Map/Walk/Tests.antt =====
-- Applications of the theorems on AStarNodes, src/map.cpp.
use dark_global_12_x.Base.{suc, ◌*◌, ◌≡◌, refl, ◌<◌, ◌≤◌, some, List, [], arith, length}
use dark_global_12_x.Map.Walk.{
  AStarNodes, Direction, start_nodes, add_node, visit_neighbor, get_map_walk_cost,
  get_node_by_position, at_neighbor, create_open_node, get_best_node, walk_back,
}
use dark_global_12_x.Map.Walk.Best.{IsBestBelow, get_best_node-IsBestBelow}
use dark_global_12_x.Map.Walk.Kept.{Searched, starts, visits}
use dark_global_12_x.Map.Walk.Back.{walk_back-ends}

abbrev start : AStarNodes
start = start_nodes 10 10

-- A step to the southeast.
abbrev diagonal : AStarNodes
diagonal = add_node (some 0) 11 11 25 start

start_known : 0 < start.cur_node
unfolding start_nodes
start_known = omega arith

diagonal_known : 1 < diagonal.cur_node
unfolding start_nodes
diagonal_known = omega arith

visit_diagonal : visit_neighbor 0 11 11 0 start ≡ some diagonal
unfolding visit_neighbor at_neighbor create_open_node get_node_by_position get_map_walk_cost
    start_nodes
visit_diagonal = refl

diagonal-Searched : Searched diagonal
diagonal-Searched = visits start diagonal 0 11 11 0 start_known visit_diagonal (starts 10 10)

get_best_node-IsBestBelow_example : IsBestBelow diagonal diagonal.cur_node (get_best_node diagonal)
get_best_node-IsBestBelow_example = get_best_node-IsBestBelow diagonal

walk_back-ends_example :
    (dirs : List Direction) × (walk_back diagonal
          (suc (diagonal.nodes 1).f)
          11
          11
          (diagonal.nodes 1).parent
          []
        ≡ some dirs
      × length dirs * 10 ≤ (diagonal.nodes 1).f)
walk_back-ends_example = walk_back-ends diagonal 1 11 11 diagonal-Searched diagonal_known
