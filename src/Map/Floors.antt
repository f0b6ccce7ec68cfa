-- ===== src/Map/Floors.antt =====
-- The floors of a leaf under the operations of setTile in src/map.cpp.
use mathlib.Core.Option
use dark_global_12_x.Base.{ℕ, ◌≡◌, refl, ap, ◌∙◌, Option, none, some, if◌then◌else◌}
use dark_global_12_x.Map.{
  Leaf, Floor, new_leaf_node, root_level, south_of, east_of, pointer, before, link_s, link_e, link,
}
use dark_global_12_x.Map.Tree.{QTree, get_leaf, create_leaf, modify_leaf}
use dark_global_12_x.Map.Created.{or_new}
use dark_global_12_x.Map.Views.{
  same_leaf, IsRoot, view, view-modify_leaf, view-modify_same, view-created, modify_leaf-IsRoot,
}

-- The floors of the leaf of a coordinate.
abbrev pub floors_at : QTree Leaf → ℕ → ℕ → Option (ℕ → Option Floor)
floors_at = view (λ (l : Leaf). l.array)

-- A root whose floors are those of another.
abbrev pub SameFloors : QTree Leaf → QTree Leaf → Type 0
SameFloors root root' = IsRoot root' × ((x y : ℕ) → floors_at root' x y ≡ floors_at root x y)

pub modify_leaf-SameFloors :
    (root root' : QTree Leaf) (f : Leaf → Leaf) (x y : ℕ)
    → ((l : Leaf) → (f l).array ≡ l.array)
    → SameFloors root root'
    → SameFloors root (modify_leaf x y f root')
modify_leaf-SameFloors root root' f x y keeps (r, same) = (
  modify_leaf-IsRoot root' f x y r,
  λ x' y'. view-modify_same (λ (l : Leaf). l.array) root' f x y x' y' r keeps ∙ same x' y',
)

link_s-SameFloors :
    (root root' : QTree Leaf) (x y : ℕ) (o : Option Leaf)
    → SameFloors root root'
    → SameFloors root (link_s x y root' o)
link_s-SameFloors root root' x y none h = h
link_s-SameFloors root root' x y (some l) h = modify_leaf-SameFloors root root' _ x y (λ l. refl) h

link_e-SameFloors :
    (root root' : QTree Leaf) (x y : ℕ) (o : Option Leaf)
    → SameFloors root root'
    → SameFloors root (link_e x y root' o)
link_e-SameFloors root root' x y none h = h
link_e-SameFloors root root' x y (some l) h = modify_leaf-SameFloors root root' _ x y (λ l. refl) h

pub link-SameFloors : (root : QTree Leaf) (x y : ℕ) → IsRoot root → SameFloors root (link x y root)
unfolding link
link-SameFloors root x y r =
    let north =
      modify_leaf-SameFloors root root (south_of (pointer x y)) x (before y) (λ l. refl)
        (r, λ a b. refl) in
    let west =
      modify_leaf-SameFloors root _ (east_of (pointer x y)) (before x) y (λ l. refl) north in
    link_e-SameFloors root _ x y _ (link_s-SameFloors root _ x y _ west)

abbrev pub or_none : Option (ℕ → Option Floor) → ℕ → Option Floor
or_none none z = none
or_none (some array) z = array z

map-or_new :
    (o : Option Leaf)
    → (or_new new_leaf_node o).array ≡ or_none (Option.map (λ (l : Leaf). l.array) o)
map-or_new none = refl
map-or_new (some l) = refl

pub floors_at-created :
    (root : QTree Leaf) (x y x' y' : ℕ)
    → IsRoot root
    → floors_at (create_leaf new_leaf_node root_level x y root).0 x' y'
      ≡ (if same_leaf x y x' y' then some (or_none (floors_at root x y)) else floors_at root x' y')
floors_at-created root x y x' y' r =
    view-created (λ (l : Leaf). l.array) root x y x' y' r
    ∙ ap (λ (a : ℕ → Option Floor). if same_leaf x y x' y' then some a else floors_at root x' y')
        (map-or_new (get_leaf root x y))

map-array :
    (g : (ℕ → Option Floor) → ℕ → Option Floor) (o : Option Leaf)
    → Option.map (λ (l : Leaf). g l.array) o ≡ Option.map g (Option.map (λ (l : Leaf). l.array) o)
map-array g none = refl
map-array g (some l) = refl

pub floors_at-put :
    (root : QTree Leaf) (g : (ℕ → Option Floor) → ℕ → Option Floor) (x y x' y' : ℕ)
    → IsRoot root
    → floors_at (modify_leaf x y (λ l. record l { array = g l.array }) root) x' y'
      ≡ (if same_leaf x y x' y' then Option.map g (floors_at root x' y') else floors_at root x' y')
floors_at-put root g x y x' y' r =
    view-modify_leaf (λ (l : Leaf). l.array) root (λ l. record l { array = g l.array }) x y x' y' r
    ∙ ap
        (λ (o : Option (ℕ → Option Floor)). if same_leaf x y x' y' then o else floors_at root x' y')
        (map-array g (get_leaf root x' y'))
