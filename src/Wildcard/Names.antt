-- ===== src/Wildcard/Names.antt =====
-- The names that the tree of src/wildcardtree.cpp holds, under insert and remove.
use dark_global_12_x.Base.{
  ℕ, ◌≡◌, refl, ap, ◌∙◌, Bool, true, false, not, ◌&&◌, ◌||◌, Option, none, some, List, [], ◌∷◌,
  ◌==◌, if◌then◌else◌, arith, Bool-cases, inl, inr, ==_iff, same_name,
}
use dark_global_12_x.Wildcard.{
  Children, no_child, child, Node, node, get_child, put_child, erase_child, touch, add_child,
  insert_from, is_bare, climb, remove_from, removed, remove, walk,
}

abbrev pub ends_name : Option Node → Bool
ends_name none = false
ends_name (some n) = n.breakpoint

-- A name is in a tree where its path ends at a breakpoint.
unfoldable pub has_name : List ℕ → Node → Bool
has_name s n = ends_name (walk s (some n))

abbrev below_has : List ℕ → Option Node → Bool
below_has s n = ends_name (walk s n)

pub get_child-put_child :
    (c d : ℕ) (n : Node) (cs : Children)
    → get_child d (put_child c n cs) ≡ (if c == d then some n else get_child d cs)
unfolding get_child put_child
get_child-put_child c d n no_child = ground arith
get_child-put_child c d n (child e b below rest) = ground (arith, get_child-put_child c d n rest)

pub get_child-erase_child :
    (c d : ℕ) (cs : Children)
    → get_child d (erase_child c cs) ≡ (if c == d then none else get_child d cs)
unfolding get_child erase_child
get_child-erase_child c d no_child = ground arith
get_child-erase_child c d (child e b below rest) = ground (arith, get_child-erase_child c d rest)

-- A look below a node where one child has been written.
below-put_child :
    (c d : ℕ) (t : List ℕ) (n : Node) (cs : Children)
    → below_has t (get_child d (put_child c n cs))
      ≡ (if c == d then below_has t (some n) else below_has t (get_child d cs))
below-put_child c d t n cs = elim (Bool-cases (c == d)) [
  | inl same ↦ rw (get_child-put_child c d n cs, same) refl
  | inr other ↦ rw (get_child-put_child c d n cs, other) refl
]

below-none : (t : List ℕ) → below_has t none ≡ false
unfolding walk
below-none [] = refl
below-none (d ∷ t) = refl

below-erase_child :
    (c d : ℕ) (t : List ℕ) (cs : Children)
    → below_has t (get_child d (erase_child c cs))
      ≡ (if c == d then false else below_has t (get_child d cs))
below-erase_child c d t cs = elim (Bool-cases (c == d)) [
  | inl same ↦ rw (get_child-erase_child c d cs, same) (below-none t)
  | inr other ↦ rw (get_child-erase_child c d cs, other) refl
]

below-touch :
    (b : Bool) (o : Option Node) (t : List ℕ)
    → below_has t (some (touch b o)) ≡ (b && same_name [] t || below_has t o)
unfolding touch walk get_child
below-touch b none [] = ground arith
below-touch b none (d ∷ []) = ground arith
below-touch b none (d ∷ e ∷ t) = ground arith
below-touch b (some n) [] = ground arith
below-touch b (some n) (d ∷ t) = ground arith

below_child :
    (c d : ℕ) (t : List ℕ) (cs : Children)
    → c == d ≡ true
    → below_has t (get_child c cs) ≡ below_has t (get_child d cs)
below_child c d t cs same = ap (λ (k : ℕ). below_has t (get_child k cs)) ((==_iff c d).0 same)

-- After insert a tree holds the name inserted, which is not empty, and the names that it held
-- before, and no others.
pub has_name-insert_from :
    (c : ℕ) (s t : List ℕ) (n : Node)
    → has_name t (insert_from c s n) ≡ (same_name (c ∷ s) t || has_name t n)
unfolding has_name insert_from add_child walk
has_name-insert_from c [] [] n = refl
has_name-insert_from c [] (d ∷ t) n = ground (
  arith,
  below-put_child c d t (touch true (get_child c n.children)) n.children,
  below-touch true (get_child c n.children) t,
  below_child c d t n.children,
)
has_name-insert_from c (e ∷ s) [] n = refl
has_name-insert_from c (e ∷ s) (d ∷ t) n =
    let m : Node = touch false (get_child c n.children) in
    ground (
      arith,
      below-put_child c d t (insert_from e s m) n.children,
      has_name-insert_from e s t m,
      below-touch false (get_child c n.children) t,
      below_child c d t n.children,
    )

abbrev after : Option Node → Option (Node × Bool) → Option Node
after o none = o
after o (some (n, up)) = some n

-- The loop goes up from bare nodes only.
abbrev is_trim : Option (Node × Bool) → Bool
is_trim none = true
is_trim (some (n, up)) = not up || is_bare n

below-bare :
    (b : Bool) (cs : Children) (t : List ℕ)
    → is_bare (node b cs) ≡ true
    → below_has t (some (node b cs)) ≡ false
unfolding walk get_child
below-bare b no_child [] h = ground arith
below-bare b no_child (d ∷ t) h = below-none t
below-bare b (child c b' below rest) t h = absurd (ground arith)

climb-trim : (c : ℕ) (n : Node) (r : Option (Node × Bool)) → is_trim (climb c n r) ≡ true
climb-trim c n none = refl
climb-trim c n (some (m, true)) = ground arith
climb-trim c n (some (m, false)) = refl

remove_from-trim : (s : List ℕ) (o : Option Node) → is_trim (remove_from s o) ≡ true
unfolding remove_from
remove_from-trim [] none = refl
remove_from-trim (c ∷ s) none = refl
remove_from-trim [] (some n) = ground arith
remove_from-trim (c ∷ s) (some n) = climb-trim c n (remove_from s (get_child c n.children))

climb-name :
    (c : ℕ) (s t : List ℕ) (n : Node) (r : Option (Node × Bool))
    → is_trim r ≡ true
    → ((u : List ℕ)
        → below_has u (after (get_child c n.children) r)
          ≡ (below_has u (get_child c n.children) && not (same_name s u)))
    → below_has t (after (some n) (climb c n r))
      ≡ (below_has t (some n) && not (same_name (c ∷ s) t))
unfolding walk
climb-name c s [] n none trim h = ground arith
climb-name c s (d ∷ t) n none trim h = ground (arith, h t, below_child c d t n.children)
climb-name c s [] n (some (m, true)) trim h = ground arith
climb-name c s (d ∷ t) n (some (m, true)) trim h = ground (
  arith,
  h t,
  below-bare m.breakpoint m.children t trim,
  below_child c d t n.children,
  below-erase_child c d t n.children,
)
climb-name c s [] n (some (m, false)) trim h = ground arith
climb-name c s (d ∷ t) n (some (m, false)) trim h =
    ground (arith, h t, below_child c d t n.children, below-put_child c d t m n.children)

remove_from-name :
    (s t : List ℕ) (o : Option Node)
    → below_has t (after o (remove_from s o)) ≡ (below_has t o && not (same_name s t))
unfolding remove_from walk
remove_from-name [] t none = ground (arith, below-none t)
remove_from-name (c ∷ s) t none = ground (arith, below-none t)
remove_from-name [] [] (some n) = ground arith
remove_from-name [] (d ∷ t) (some n) = ground arith
remove_from-name (c ∷ s) t (some n) =
    climb-name c s t n (remove_from s (get_child c n.children))
      (remove_from-trim s (get_child c n.children))
      (λ u. remove_from-name s u (get_child c n.children))

-- After remove a tree holds the names that it held before less the name removed.
pub has_name-remove :
    (s t : List ℕ) (n : Node) → has_name t (remove s n) ≡ (has_name t n && not (same_name s t))
unfolding has_name remove
has_name-remove s t n = kept (remove_from s (some n)) ∙ remove_from-name s t (some n)
  where
    kept :
        (r : Option (Node × Bool))
        → below_has t (some (removed n r)) ≡ below_has t (after (some n) r)
    kept none = refl
    kept (some (m, up)) = refl
