-- ===== src/Loader/Encoding.antt =====
-- The format that src/fileloader.cpp reads, as an encoding: a node is its type, its escaped
-- properties and its children between two marks.
use dark_global_12_x.Base.{ℕ, Bool, ◌||◌, List, [], ◌∷◌, ◌++◌, ◌==◌, if◌then◌else◌}
use dark_global_12_x.Loader.{Node, Nodes, node, no_nodes, nodes, escape_char, start_char, end_char}

abbrev pub is_special : ℕ → Bool
is_special b = b == escape_char || b == start_char || b == end_char

unfoldable pub escape : List ℕ → List ℕ
escape [] = []
escape (b ∷ bs) = let rest = escape bs in if is_special b then escape_char ∷ b ∷ rest else b ∷ rest

-- What is in the file of a tree, and the tree with its properties as they stand in the file.
unfoldable mutual
  pub encode_node : Node → List ℕ
  encode_node (node t props children) =
      start_char ∷ t ∷ (escape props ++ (encode_nodes children ++ end_char ∷ []))

  pub encode_nodes : Nodes → List ℕ
  encode_nodes no_nodes = []
  encode_nodes (nodes n ns) = encode_node n ++ encode_nodes ns

unfoldable mutual
  pub in_file : Node → Node
  in_file (node t props children) = node t (escape props) (all_in_file children)

  pub all_in_file : Nodes → Nodes
  all_in_file no_nodes = no_nodes
  all_in_file (nodes n ns) = nodes (in_file n) (all_in_file ns)
