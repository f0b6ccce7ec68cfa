-- ===== src/Loader.antt =====
-- src/fileloader.h and src/fileloader.cpp: the tree of nodes in an OTB file, and the properties of a
-- node. The mapped file is its list of bytes, and a range of iterators is the bytes in it.
use dark_global_12_x.Base.{
  ℕ, ◌+◌, Bool, true, false, not, ◌&&◌, ◌||◌, Option, none, some, List, [], ◌∷◌, ◌++◌, ltb, ◌==◌,
  if◌then◌else◌, length, take, drop, same_name,
}
mod Tests
pub mod Encoding
pub mod Parsed
pub mod Prefix
pub mod Truncated
pub mod RoundTrip
pub mod Stream

-- Node::NodeChar
abbrev pub escape_char : ℕ
escape_char = 0xFD

abbrev pub start_char : ℕ
start_char = 0xFE

abbrev pub end_char : ℕ
end_char = 0xFF

-- OTB::Node, with the bytes from propsBegin to propsEnd.
mutual
  pub data Node : Type 0 where
    node : (type : ℕ) (props : List ℕ) (children : Nodes) → Node

  pub data Nodes : Type 0 where
    no_nodes : Nodes
    nodes : Node → Nodes → Nodes

abbrev pub emplace_back : Nodes → Node → Nodes
emplace_back no_nodes n = nodes n no_nodes
emplace_back (nodes m ms) n = nodes m (emplace_back ms n)

-- A node on parseStack, which has not ended: its properties are open until its first child starts.
-- The node joins its parent's children when it ends; until then the parent is not looked at.
pub record Frame : Type 0 where
  pub type : ℕ
  pub props : List ℕ
  pub children : Nodes

abbrev pub open_frame : ℕ → Frame
open_frame t = record { type = t; props = []; children = no_nodes }

abbrev pub close_frame : Frame → Node
close_frame f = node f.type f.props f.children

abbrev pub is_childless : Nodes → Bool
is_childless no_nodes = true
is_childless (nodes m ms) = false

-- Bytes of properties, which count up to propsEnd.
abbrev pub extend : List ℕ → Frame → Frame
extend bs f = if is_childless f.children then record f { props = f.props ++ bs } else f

abbrev pub extend_top : List ℕ → List Frame → List Frame
extend_top bs [] = []
extend_top bs (f ∷ fs) = extend bs f ∷ fs

-- The states of the loop, invalid where InvalidOTBFormat is thrown. The root is there once it ended.
pub data Parse : Type 0 where
  parsing : List Frame → Option Node → Parse
  invalid : Parse

abbrev pub start_node : ℕ → List Frame → Option Node → Parse
start_node t [] root = invalid
start_node t (f ∷ fs) root = parsing (open_frame t ∷ f ∷ fs) root

abbrev pub end_node : List Frame → Option Node → Parse
end_node [] root = invalid
end_node (f ∷ []) root = parsing [] (some (close_frame f))
end_node (f ∷ g ∷ fs) root =
    parsing (record g { children = emplace_back g.children (close_frame f) } ∷ fs) root

pub data NodeChar : Type 0 where
  starts ends escapes plain : NodeChar

abbrev pub node_char : ℕ → NodeChar
node_char b =
    if b == start_char
    then starts
    else if b == end_char
    then ends
    else if b == escape_char
    then escapes
    else plain

abbrev pub finish : Parse → Option Node
finish invalid = none
finish (parsing [] root) = root
finish (parsing (f ∷ fs) root) = none

-- The loop of Loader::parseTree over the rest of the file. A `++it` that meets the end is invalid.
unfoldable pub parse_loop : List ℕ → Parse → Parse
parse_loop bs invalid = invalid
parse_loop [] (parsing fs root) = parsing fs root
parse_loop (b ∷ []) (parsing fs root) = elim (node_char b) [
  | starts ↦ invalid
  | ends ↦ end_node fs root
  | escapes ↦ invalid
  | plain ↦ parsing (extend_top (b ∷ []) fs) root
]
parse_loop (b ∷ c ∷ bs) (parsing fs root) = elim (node_char b) [
  | starts ↦ parse_loop bs (start_node c fs root)
  | ends ↦ parse_loop (c ∷ bs) (end_node fs root)
  | escapes ↦ parse_loop bs (parsing (extend_top (b ∷ c ∷ []) fs) root)
  | plain ↦ parse_loop (c ∷ bs) (parsing (extend_top (b ∷ []) fs) root)
]

-- Loader::parseTree behind the identifier: the root starts, and its type follows.
unfoldable pub parse_root : List ℕ → Option Node
parse_root (b ∷ t ∷ bs) =
    if not (b == start_char)
    then none
    else finish (parse_loop bs (parsing (open_frame t ∷ []) none))
parse_root _ = none

abbrev pub wildcard : List ℕ
wildcard = 0 ∷ 0 ∷ 0 ∷ 0 ∷ []

-- The constructor's checks.
unfoldable pub accepts : List ℕ → List ℕ → Bool
accepts accepted_identifier file =
    if ltb 7 (length file)
    then (same_name (take 4 file) accepted_identifier || same_name (take 4 file) wildcard)
    else false

unfoldable pub load : List ℕ → List ℕ → Option Node
load accepted_identifier file =
    if accepts accepted_identifier file then parse_root (drop 4 file) else none

-- The copy_if of Loader::getProps, with lastEscaped.
unfoldable pub unescape : Bool → List ℕ → List ℕ
unescape last [] = []
unescape last (b ∷ bs) =
    let last' = b == escape_char && not last in
    let rest = unescape last' bs in if last' then rest else b ∷ rest

abbrev pub props_of : List ℕ → Option (List ℕ)
props_of [] = none
props_of (b ∷ bs) = some (unescape false (b ∷ bs))

unfoldable pub get_props : Node → Option (List ℕ)
get_props (node t props children) = props_of props
