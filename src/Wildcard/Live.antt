-- ===== src/Wildcard/Live.antt =====
-- The nodes of the tree of src/wildcardtree.cpp that lead to a name.
use dark_global_12_x.Base.{
  ℕ, ◌≡◌, refl, Bool, true, false, not, ◌&&◌, ◌||◌, Option, none, some, List, [], ◌∷◌, ◌==◌, arith,
  Bool-cases, inl, inr,
}
use dark_global_12_x.Wildcard.{
  Children, no_child, child, Node, node, get_child, put_child, erase_child, touch, add_child,
  insert_from, is_leaf, is_bare, climb, remove_from, removed, remove,
}
use dark_global_12_x.Wildcard.Names.{get_child-put_child, get_child-erase_child}

abbrev pub is_missing : Option Node → Bool
is_missing none = true
is_missing (some n) = false

-- No node but the root is bare, and a character leads to one child at most.
unfoldable pub is_tidy : Children → Bool
is_tidy no_child = true
is_tidy (child c b below rest) =
    not (is_bare (node b below)) && is_missing (get_child c rest) && is_tidy below && is_tidy rest

unfoldable pub is_tidy_node : Option Node → Bool
is_tidy_node none = true
is_tidy_node (some n) = not (is_bare n) && is_tidy n.children

missing-put_child :
    (c d : ℕ) (n : Node) (cs : Children)
    → is_missing (get_child d (put_child c n cs)) ≡ (not (c == d) && is_missing (get_child d cs))
missing-put_child c d n cs = elim (Bool-cases (c == d)) [
  | inl same ↦ rw (get_child-put_child c d n cs, same) refl
  | inr other ↦ rw (get_child-put_child c d n cs, other) refl
]

missing-erase_child :
    (c d : ℕ) (cs : Children)
    → is_missing (get_child d (erase_child c cs)) ≡ (c == d || is_missing (get_child d cs))
missing-erase_child c d cs = elim (Bool-cases (c == d)) [
  | inl same ↦ rw (get_child-erase_child c d cs, same) refl
  | inr other ↦ rw (get_child-erase_child c d cs, other) refl
]

pub get_child-tidy :
    (c : ℕ) (cs : Children) → is_tidy cs ≡ true → is_tidy_node (get_child c cs) ≡ true
unfolding is_tidy is_tidy_node get_child
get_child-tidy c no_child h = refl
get_child-tidy c (child d b below rest) h = elim (Bool-cases (d == c)) [
  | inl same ↦ rw same (ground arith)
  | inr other ↦ rw other (get_child-tidy c rest (ground arith))
]

put_child-tidy :
    (c : ℕ) (n : Node) (cs : Children)
    → is_tidy_node (some n) ≡ true
    → is_tidy cs ≡ true
    → is_tidy (put_child c n cs) ≡ true
unfolding is_tidy is_tidy_node put_child get_child
put_child-tidy c n no_child hn h = ground arith
put_child-tidy c n (child d b below rest) hn h = elim (Bool-cases (d == c)) [
  | inl same ↦ rw same (ground arith)
  | inr other ↦
      rw other
        (ground (arith, missing-put_child c d n rest, put_child-tidy c n rest hn (ground arith)))
]

erase_child-tidy : (c : ℕ) (cs : Children) → is_tidy cs ≡ true → is_tidy (erase_child c cs) ≡ true
unfolding is_tidy erase_child
erase_child-tidy c no_child h = refl
erase_child-tidy c (child d b below rest) h =
    ground (arith, missing-erase_child c d rest, erase_child-tidy c rest (ground arith))

put_child-leaf : (c : ℕ) (n : Node) (cs : Children) → is_leaf (put_child c n cs) ≡ false
unfolding put_child
put_child-leaf c n no_child = refl
put_child-leaf c n (child d b below rest) = ground arith

touch-true : (o : Option Node) → is_tidy_node o ≡ true → is_tidy_node (some (touch true o)) ≡ true
unfolding touch is_tidy_node is_tidy
touch-true none h = refl
touch-true (some n) h = ground arith

touch-children :
    (b : Bool) (o : Option Node) → is_tidy_node o ≡ true → is_tidy (touch b o).children ≡ true
unfolding touch is_tidy_node is_tidy
touch-children b none h = refl
touch-children b (some n) h = ground arith

-- insert keeps a tree tidy.
pub insert_from-tidy :
    (c : ℕ) (s : List ℕ) (n : Node)
    → is_tidy n.children ≡ true
    → is_tidy_node (some (insert_from c s n)) ≡ true
unfolding insert_from add_child is_tidy_node
insert_from-tidy c [] n h =
    let m : Node = touch true (get_child c n.children) in
    ground (
      arith,
      put_child-leaf c m n.children,
      put_child-tidy c m n.children
          (touch-true (get_child c n.children) (get_child-tidy c n.children h)) h,
    )
insert_from-tidy c (d ∷ s) n h =
    let m : Node = touch false (get_child c n.children) in
    ground (
      arith,
      put_child-leaf c (insert_from d s m) n.children,
      put_child-tidy c (insert_from d s m) n.children
          (insert_from-tidy d s m
            (touch-children false (get_child c n.children) (get_child-tidy c n.children h)))
          h,
    )

-- What remove_from leaves behind: its children are tidy, and it stops climbing only at a node that
-- is not bare.
abbrev is_kept : Option (Node × Bool) → Bool
is_kept none = true
is_kept (some (n, up)) = is_tidy n.children && (up || not (is_bare n))

climb-kept :
    (c : ℕ) (n : Node) (r : Option (Node × Bool))
    → is_tidy n.children ≡ true
    → is_kept r ≡ true
    → is_kept (climb c n r) ≡ true
unfolding is_tidy_node
climb-kept c n none h hr = refl
climb-kept c n (some (m, true)) h hr = ground (arith, erase_child-tidy c n.children h)
climb-kept c n (some (m, false)) h hr =
    ground
      (arith, put_child-leaf c m n.children, put_child-tidy c m n.children (is_tidy_some m hr) h)
  where
    is_tidy_some :
        (m : Node) → is_tidy m.children && not (is_bare m) ≡ true → is_tidy_node (some m) ≡ true
    is_tidy_some m k = ground arith

abbrev has_tidy_children : Option Node → Bool
has_tidy_children none = true
has_tidy_children (some n) = is_tidy n.children

tidy_children : (o : Option Node) → is_tidy_node o ≡ true → has_tidy_children o ≡ true
unfolding is_tidy_node
tidy_children none h = refl
tidy_children (some n) h = ground arith

remove_from-kept :
    (s : List ℕ) (o : Option Node) → has_tidy_children o ≡ true → is_kept (remove_from s o) ≡ true
unfolding remove_from
remove_from-kept [] none h = refl
remove_from-kept (c ∷ s) none h = refl
remove_from-kept [] (some n) h = ground arith
remove_from-kept (c ∷ s) (some n) h = climb-kept c n (remove_from s (get_child c n.children)) h (
    remove_from-kept s (get_child c n.children)
      (tidy_children (get_child c n.children) (get_child-tidy c n.children h)))

-- remove keeps a tree tidy.
pub remove-tidy :
    (s : List ℕ) (n : Node) → is_tidy n.children ≡ true → is_tidy (remove s n).children ≡ true
unfolding remove
remove-tidy s n h = kept (remove_from s (some n)) (remove_from-kept s (some n) h)
  where
    kept : (r : Option (Node × Bool)) → is_kept r ≡ true → is_tidy (removed n r).children ≡ true
    kept none k = h
    kept (some (m, up)) k = ground arith

-- The trees that insert and remove build from an empty one.
pub data Grown : Node → Type 0 where
  empty : Grown (node false no_child)
  inserts : (c : ℕ) (s : List ℕ) (n : Node) → Grown n → Grown (insert_from c s n)
  removes : (s : List ℕ) (n : Node) → Grown n → Grown (remove s n)

pub Grown-tidy : (n : Node) → Grown n → is_tidy n.children ≡ true
unfolding is_tidy is_tidy_node
Grown-tidy _ empty = refl
Grown-tidy _ (inserts c s n g) =
    tidy_below (insert_from c s n) (insert_from-tidy c s n (Grown-tidy n g))
  where
    tidy_below : (m : Node) → is_tidy_node (some m) ≡ true → is_tidy m.children ≡ true
    tidy_below m k = ground arith
Grown-tidy _ (removes s n g) = remove-tidy s n (Grown-tidy n g)
