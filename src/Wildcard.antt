-- ===== src/Wildcard.antt =====
-- src/wildcardtree.cpp: the tree of the names of the players online, which completes a name that a
-- player writes with a wildcard.
use dark_global_12_x.Base.{
  ℕ, Bool, true, false, not, ◌&&◌, ◌||◌, Option, none, some, List, [], ◌∷◌, ◌++◌, ◌==◌,
  if◌then◌else◌,
}
mod Tests
pub mod Names
pub mod Live
pub mod OneName
pub mod Find

-- std::map<char, WildcardTreeNode>: each entry has its character and the node's two fields. Only
-- the number of entries and the entry of a given character are read, so their order is free.
pub data Children : Type 0 where
  no_child : Children
  child : (ch : ℕ) (breakpoint : Bool) (below rest : Children) → Children

pub record Node : Type 0 where
  pub breakpoint : Bool
  pub children : Children

abbrev pub node : Bool → Children → Node
node b cs = record { breakpoint = b; children = cs }

-- WildcardTreeNode::getChild
unfoldable pub get_child : ℕ → Children → Option Node
get_child c no_child = none
get_child c (child d b below rest) = if d == c then some (node b below) else get_child c rest

-- A node written back to the place where getChild or emplace found it.
unfoldable pub put_child : ℕ → Node → Children → Children
put_child c n no_child = child c n.breakpoint n.children no_child
put_child c n (child d b below rest) =
    if d == c then child d n.breakpoint n.children rest else child d b below (put_child c n rest)

-- children.erase
unfoldable pub erase_child : ℕ → Children → Children
erase_child c no_child = no_child
erase_child c (child d b below rest) =
    let rest' = erase_child c rest in if d == c then rest' else child d b below rest'

-- The child that WildcardTreeNode::addChild returns.
unfoldable pub touch : Bool → Option Node → Node
touch b none = node b no_child
touch b (some n) = if b && not n.breakpoint then node true n.children else n

unfoldable pub add_child : ℕ → Bool → Node → Node
add_child c b n = node n.breakpoint (put_child c (touch b (get_child c n.children)) n.children)

-- WildcardTreeNode::insert. The empty name is out of bounds: its length minus one wraps.
unfoldable pub insert_from : ℕ → List ℕ → Node → Node
insert_from c [] n = add_child c true n
insert_from c (d ∷ s) n =
    node n.breakpoint
      (put_child c (insert_from d s (touch false (get_child c n.children))) n.children)

unfoldable pub insert : List ℕ → Node → Option Node
insert [] n = none
insert (c ∷ s) n = some (insert_from c s n)

abbrev pub is_leaf : Children → Bool
is_leaf no_child = true
is_leaf (child d b below rest) = false

-- cur->children.empty() && !cur->breakpoint
abbrev pub is_bare : Node → Bool
is_bare n = is_leaf n.children && not n.breakpoint

-- WildcardTreeNode::remove: down the tree, none where a child is missing, and up again; the Boolean
-- says whether the loop goes on to erase this node from the one above.
abbrev pub climb : ℕ → Node → Option (Node × Bool) → Option (Node × Bool)
climb c n none = none
climb c n (some (m, true)) =
    let n' = node n.breakpoint (erase_child c n.children) in some (n', is_bare n')
climb c n (some (m, false)) = some (node n.breakpoint (put_child c m n.children), false)

unfoldable pub remove_from : List ℕ → Option Node → Option (Node × Bool)
remove_from s none = none
remove_from [] (some n) = let n' = node false n.children in some (n', is_bare n')
remove_from (c ∷ s) (some n) = climb c n (remove_from s (get_child c n.children))

abbrev pub removed : Node → Option (Node × Bool) → Node
removed n none = n
removed n (some (n', up)) = n'

unfoldable pub remove : List ℕ → Node → Node
remove s n = removed n (remove_from s (some n))

pub data Found : Type 0 where
  player_with_this_name_is_not_online : Found
  name_is_too_ambiguous : Found
  no_error : (result : List ℕ) → Found

-- The loop of WildcardTreeNode::findOne below the query's node.
unfoldable pub complete : List ℕ → Bool → Children → Found
complete result b no_child = no_error result
complete result b (child c b' below no_child) =
    let longer = complete (result ++ c ∷ []) b' below in if b then name_is_too_ambiguous else longer
complete result b (child c b' below (child d b'' below' rest)) = name_is_too_ambiguous

unfoldable pub walk : List ℕ → Option Node → Option Node
walk s none = none
walk [] (some n) = some n
walk (c ∷ s) (some n) = walk s (get_child c n.children)

abbrev pub complete_at : List ℕ → Option Node → Found
complete_at query none = player_with_this_name_is_not_online
complete_at query (some n) = complete query n.breakpoint n.children

-- WildcardTreeNode::findOne
unfoldable pub find_one : List ℕ → Node → Found
find_one query n = complete_at query (walk query (some n))
