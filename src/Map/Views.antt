-- ===== src/Map/Views.antt =====
-- The leaves of a root under the writes of src/map.cpp, seen from any coordinate.
use mathlib.Core.Option
use dark_global_12_x.Base.{
  ℕ, ◌≡◌, refl, ap, ◌∙◌, fun_ext, Bool, true, false, Option, none, some, if◌then◌else◌,
}
use dark_global_12_x.Map.{Leaf, new_leaf_node, root_level}
use dark_global_12_x.Map.Tree.{QTree, null, inner, leaf, get_leaf, create_leaf, modify_leaf}
use dark_global_12_x.Map.Paths.{
  HasDepth, same_path, get_leaf-modify_leaf, modify_leaf-HasDepth, if_self,
}
use dark_global_12_x.Map.Created.{or_new, get_leaf-create_leaf, create_leaf-HasDepth}

abbrev pub same_leaf : ℕ → ℕ → ℕ → ℕ → Bool
same_leaf = same_path 13

-- A root, which is no leaf, with its leaves 13 levels down.
abbrev pub IsRoot : QTree Leaf → Type 0
IsRoot null = ⊥
IsRoot (leaf l) = ⊥
IsRoot (inner child) = (i : ℕ) → HasDepth 12 (child i)

pub IsRoot-HasDepth : (root : QTree Leaf) → IsRoot root → HasDepth 13 root
IsRoot-HasDepth null r = elim r [ ]
IsRoot-HasDepth (leaf l) r = elim r [ ]
IsRoot-HasDepth (inner child) r = r

pub get_leaf-created :
    (root : QTree Leaf) (x y x' y' : ℕ)
    → IsRoot root
    → get_leaf (create_leaf new_leaf_node root_level x y root).0 x' y' ≡ (
        if same_leaf x y x' y'
        then some (or_new new_leaf_node (get_leaf root x y))
        else get_leaf root x' y')
get_leaf-created null x y x' y' r = elim r [ ]
get_leaf-created (leaf l) x y x' y' r = elim r [ ]
get_leaf-created (inner child) x y x' y' r =
    get_leaf-create_leaf new_leaf_node 13 (inner child) r x y x' y'

-- What a view of the leaves shows at a coordinate.
abbrev pub view : {V : Type 0} → (Leaf → V) → QTree Leaf → ℕ → ℕ → Option V
view v root x y = Option.map v (get_leaf root x y)

pub map-if :
    {A : Type 0} {B : Type 0} (f : A → B) (b : Bool) (p q : Option A)
    → Option.map f (if b then p else q) ≡ (if b then Option.map f p else Option.map f q)
map-if f true p q = refl
map-if f false p q = refl

map-map :
    {V : Type 0} (v : Leaf → V) (f : Leaf → Leaf) (o : Option Leaf)
    → Option.map v (Option.map f o) ≡ Option.map (λ (l : Leaf). v (f l)) o
map-map v f none = refl
map-map v f (some l) = refl

pub view-modify_leaf :
    {V : Type 0} (v : Leaf → V) (root : QTree Leaf) (f : Leaf → Leaf) (x y x' y' : ℕ)
    → IsRoot root
    → view v (modify_leaf x y f root) x' y'
      ≡ (if same_leaf x y x' y' then view (λ (l : Leaf). v (f l)) root x' y' else view v root x' y')
view-modify_leaf v root f x y x' y' r =
    ap (Option.map v) (get_leaf-modify_leaf 13 root f x y x' y' (IsRoot-HasDepth root r))
    ∙ map-if v (same_leaf x y x' y') _ _
    ∙ ap (λ (o : Option _). if same_leaf x y x' y' then o else view v root x' y')
        (map-map v f (get_leaf root x' y'))

-- A view that a write does not change.
pub view-modify_same :
    {V : Type 0} (v : Leaf → V) (root : QTree Leaf) (f : Leaf → Leaf) (x y x' y' : ℕ)
    → IsRoot root
    → ((l : Leaf) → v (f l) ≡ v l)
    → view v (modify_leaf x y f root) x' y' ≡ view v root x' y'
view-modify_same v root f x y x' y' r keeps =
    view-modify_leaf v root f x y x' y' r
    ∙ ap (λ (w : Leaf → _). if same_leaf x y x' y' then view w root x' y' else view v root x' y')
        (fun_ext keeps)
    ∙ if_self (same_leaf x y x' y') (view v root x' y')

pub modify_leaf-IsRoot :
    (root : QTree Leaf) (f : Leaf → Leaf) (x y : ℕ) → IsRoot root → IsRoot (modify_leaf x y f root)
unfolding modify_leaf
modify_leaf-IsRoot null f x y r = elim r [ ]
modify_leaf-IsRoot (leaf l) f x y r = elim r [ ]
modify_leaf-IsRoot (inner child) f x y r = modify_leaf-HasDepth 13 (inner child) f x y r

pub create_leaf-IsRoot :
    (root : QTree Leaf) (x y : ℕ)
    → IsRoot root
    → IsRoot (create_leaf new_leaf_node root_level x y root).0
unfolding create_leaf
create_leaf-IsRoot null x y r = elim r [ ]
create_leaf-IsRoot (leaf l) x y r = elim r [ ]
create_leaf-IsRoot (inner child) x y r = create_leaf-HasDepth new_leaf_node 13 (inner child) x y r

pub view-created :
    {V : Type 0} (v : Leaf → V) (root : QTree Leaf) (x y x' y' : ℕ)
    → IsRoot root
    → view v (create_leaf new_leaf_node root_level x y root).0 x' y' ≡ (
        if same_leaf x y x' y'
        then some (v (or_new new_leaf_node (get_leaf root x y)))
        else view v root x' y')
view-created v root x y x' y' r =
    ap (Option.map v) (get_leaf-created root x y x' y' r) ∙ map-if v (same_leaf x y x' y') _ _
