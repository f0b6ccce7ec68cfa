-- ===== src/Wildcard/Find.antt =====
-- What findOne of src/wildcardtree.cpp completes a query to.
use dark_global_12_x.Base.{
  ℕ, ◌≡◌, sym, ap, ◌∙◌, ◌↔◌, true, Option, none, some, List, ◌∷◌, ◌++◌, arith,
}
use dark_global_12_x.Wildcard.{Node, get_child, walk, no_error, complete_at, find_one}
use dark_global_12_x.Wildcard.Names.{has_name, ends_name}
use dark_global_12_x.Wildcard.Live.{is_tidy_node, get_child-tidy, Grown, Grown-tidy}
use dark_global_12_x.Wildcard.OneName.{
  is_found, complete-found, complete-only, walk-append, walk-tidy, walk-none,
}

-- The names under a query's node, if it has one, are one name.
abbrev OnlyUnder : Option Node → List ℕ → Type 0
OnlyUnder o s = (ends_name (walk s o) ≡ true) × ((t : List ℕ) → ends_name (walk t o) ≡ true → t ≡ s)

complete_at-found :
    (q r : List ℕ) (o : Option Node)
    → is_tidy_node o ≡ true
    → complete_at q o ≡ no_error r
    → (s : List ℕ) × (r ≡ q ++ s) × OnlyUnder o s
unfolding is_tidy_node
complete_at-found q r none h e = absurd (ground (arith, ap is_found e))
complete_at-found q r (some n) h e =
    let (s, same, one) =
      complete-found q n.breakpoint n.children r (ground arith) (ground arith) e in
    (s, same, (one.holds, one.alone))

complete_at-only :
    (q s : List ℕ) (o : Option Node)
    → is_tidy_node o ≡ true
    → OnlyUnder o s
    → complete_at q o ≡ no_error (q ++ s)
unfolding is_tidy_node
complete_at-only q s none h one = absurd (ground (arith, ap ends_name (walk-none s), one.0))
complete_at-only q s (some n) h one =
    complete-only q n.breakpoint n.children s (ground arith) (ground arith)
      (record { holds = one.0; alone = one.1 })

-- The name `q ++ s` is the only one in the tree that begins with `q`.
abbrev pub IsOnly : List ℕ → List ℕ → Node → Type 0
IsOnly q s n = (has_name (q ++ s) n ≡ true) × ((t : List ℕ) → has_name (q ++ t) n ≡ true → t ≡ s)

has_name-append :
    (q t : List ℕ) (n : Node) → has_name (q ++ t) n ≡ ends_name (walk t (walk q (some n)))
unfolding has_name
has_name-append q t n = ap ends_name (walk-append q t (some n))

IsOnly-under : (q s : List ℕ) (n : Node) → IsOnly q s n ↔ OnlyUnder (walk q (some n)) s
IsOnly-under q s n = (
  λ only. (sym (has_name-append q s n) ∙ only.0, λ t k. only.1 t (has_name-append q t n ∙ k)),
  λ only. (has_name-append q s n ∙ only.0, λ t k. only.1 t (sym (has_name-append q t n) ∙ k)),
)

reached-tidy :
    (c : ℕ) (q : List ℕ) (n : Node) → Grown n → is_tidy_node (walk (c ∷ q) (some n)) ≡ true
unfolding walk
reached-tidy c q n g =
    walk-tidy q (get_child c n.children) (get_child-tidy c n.children (Grown-tidy n g))

-- In a tree built by insert and remove, findOne of a query that is not empty completes it to a name
-- exactly when that name is the only one in the tree that begins with the query.
pub find_one_iff :
    (c : ℕ) (q r : List ℕ) (n : Node)
    → Grown n
    → (find_one (c ∷ q) n ≡ no_error r) ↔ ((s : List ℕ) × (r ≡ (c ∷ q) ++ s) × IsOnly (c ∷ q) s n)
unfolding find_one
find_one_iff c q r n g =
    let o = walk (c ∷ q) (some n) in
    let tidy = reached-tidy c q n g in
    (
      λ e.
          let (s, same, only) = complete_at-found (c ∷ q) r o tidy e in
          (s, same, (IsOnly-under (c ∷ q) s n).1 only),
      λ k.
          complete_at-only (c ∷ q) k.0 o tidy ((IsOnly-under (c ∷ q) k.0 n).0 k.2)
          ∙ ap no_error (sym k.1),
    )
