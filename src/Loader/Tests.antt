-- ===== src/Loader/Tests.antt =====
-- Applications of the theorems on src/fileloader.cpp and src/fileloader.h.
use dark_global_12_x.Base.{ℕ, ◌≡◌, refl, none, some, List, [], ◌∷◌, ◌++◌, map, arith, take}
use dark_global_12_x.Loader.{Node, node, no_nodes, nodes, load, get_props}
use dark_global_12_x.Loader.Encoding.{escape, encode_node, in_file}
use dark_global_12_x.Loader.RoundTrip.{load-encode_node, get_props-in_file, if_any}
use dark_global_12_x.Loader.Truncated.{load_truncated}
use dark_global_12_x.Loader.Stream.{
  Field, number, string, shape, stored, read_props, write_props, read_props-write_props,
}

abbrev identifier : List ℕ
identifier = 79 ∷ 84 ∷ 66 ∷ 77 ∷ []

-- Properties with each of the marks among them, and two children.
abbrev tile_area : Node
tile_area =
    node 4 (1 ∷ 0xFD ∷ 0xFE ∷ 0xFF ∷ 2 ∷ [])
      (nodes (node 5 (7 ∷ []) no_nodes) (nodes (node 0xFE (0xFD ∷ []) no_nodes) no_nodes))

load-encode_node_example :
    load identifier (identifier ++ encode_node tile_area) ≡ some (in_file tile_area)
unfolding encode_node escape
load-encode_node_example = load-encode_node identifier tile_area refl (omega arith)

get_props-in_file_example :
    get_props (in_file (node 4 (1 ∷ 0xFD ∷ 0xFF ∷ []) no_nodes)) ≡ if_any (1 ∷ 0xFD ∷ 0xFF ∷ [])
get_props-in_file_example = get_props-in_file 4 (1 ∷ 0xFD ∷ 0xFF ∷ []) no_nodes

-- The cut is between the mark of an escape and the byte behind it.
load_truncated_example : load identifier (take 8 (identifier ++ encode_node tile_area)) ≡ none
unfolding encode_node escape
load_truncated_example = load_truncated identifier tile_area 8 refl (omega arith)

abbrev fields : List Field
fields = number 4 70000 ∷ string (104 ∷ 105 ∷ []) ∷ number 1 255 ∷ []

read_props-write_props_example :
    read_props (map shape fields) (write_props fields [] ++ 9 ∷ [])
    ≡ some (map stored fields, 9 ∷ [])
read_props-write_props_example =
    read_props-write_props fields (9 ∷ []) (omega arith, (tt, (omega arith, tt)))
