-- ===== src/Wildcard/Tests.antt =====
-- Applications of the theorems on src/wildcardtree.cpp.
use dark_global_12_x.Base.{◌≡◌, ◌↔◌, ◌&&◌, ◌||◌, not, List, [], ◌∷◌, ◌++◌, ℕ, false, same_name}
use dark_global_12_x.Wildcard.{Node, node, no_child, insert_from, remove, find_one, no_error}
use dark_global_12_x.Wildcard.Names.{has_name, has_name-insert_from, has_name-remove}
use dark_global_12_x.Wildcard.Live.{Grown, empty, inserts}
use dark_global_12_x.Wildcard.Find.{IsOnly, find_one_iff}

abbrev two_names_tree : Node
two_names_tree = insert_from 1 (2 ∷ 3 ∷ []) (insert_from 1 (4 ∷ []) (node false no_child))

abbrev grown : Grown two_names_tree
grown = inserts 1 (2 ∷ 3 ∷ []) _ (inserts 1 (4 ∷ []) _ empty)

find_one_iff_example :
    (find_one (1 ∷ 2 ∷ []) two_names_tree ≡ no_error (1 ∷ 2 ∷ 3 ∷ []))
    ↔ ((s : List ℕ) × ((1 ∷ 2 ∷ 3 ∷ []) ≡ (1 ∷ 2 ∷ []) ++ s) × IsOnly (1 ∷ 2 ∷ []) s two_names_tree)
find_one_iff_example = find_one_iff 1 (2 ∷ []) (1 ∷ 2 ∷ 3 ∷ []) two_names_tree grown

has_name-insert_from_example :
    has_name (1 ∷ 4 ∷ []) (insert_from 1 (2 ∷ []) two_names_tree)
    ≡ (same_name (1 ∷ 2 ∷ []) (1 ∷ 4 ∷ []) || has_name (1 ∷ 4 ∷ []) two_names_tree)
has_name-insert_from_example = has_name-insert_from 1 (2 ∷ []) (1 ∷ 4 ∷ []) two_names_tree

has_name-remove_example :
    has_name (1 ∷ 4 ∷ []) (remove (1 ∷ 2 ∷ 3 ∷ []) two_names_tree)
    ≡ (has_name (1 ∷ 4 ∷ []) two_names_tree && not (same_name (1 ∷ 2 ∷ 3 ∷ []) (1 ∷ 4 ∷ [])))
has_name-remove_example = has_name-remove (1 ∷ 2 ∷ 3 ∷ []) (1 ∷ 4 ∷ []) two_names_tree
