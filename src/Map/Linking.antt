-- ===== src/Map/Linking.antt =====
-- The writes by which setTile of src/map.cpp links a leaf that it has made.
use dark_global_12_x.Base.{
  ℕ, ◌+◌, ◌<◌, ◌≡◌, refl, sym, ap, ◌∙◌, Bool, true, false, ◌||◌, Option, none, some, if◌then◌else◌,
}
use dark_global_12_x.Base.Words.{u16_mod}
use dark_global_12_x.Map.{
  Leaf, Corner, pointer, floor_size, before, south_of, east_of, link_s, link_e,
}
use dark_global_12_x.Map.Tree.{QTree, get_leaf, modify_leaf}
use dark_global_12_x.Map.Paths.{if_self}
use dark_global_12_x.Map.Corners.{same_leaf_iff}
use dark_global_12_x.Map.Views.{
  same_leaf, IsRoot, view, view-modify_leaf, view-modify_same, modify_leaf-IsRoot,
  create_leaf-IsRoot,
}
use dark_global_12_x.Map.Links.{
  LinksTo, is_there, present, south-before, south-apart, south-same, east-before, east-apart,
  east-same,
}
use dark_global_12_x.Map.Relinked.{relinked, written}
use dark_global_12_x.Map.NewLeaf.{present-modify_leaf, created, present-created, view-fresh}

-- A leaf that is pointed to where it is there.
module _ (q : QTree Leaf) (r : IsRoot q) (x y a b : ℕ) where
  link_s-view :
      (o : Option Leaf)
      → view (λ (l : Leaf). l.leaf_s) (link_s x y q o) a b ≡ (
          if same_leaf x y a b
          then (if is_there o
              then view (λ (l : Leaf). some (pointer x (y + floor_size))) q a b
              else view (λ (l : Leaf). l.leaf_s) q a b)
          else view (λ (l : Leaf). l.leaf_s) q a b)
  link_s-view none = sym (if_self (same_leaf x y a b) _)
  link_s-view (some l) =
      view-modify_leaf (λ (l : Leaf). l.leaf_s) q (south_of (pointer x (y + floor_size))) x y a b r

  link_e-view :
      (o : Option Leaf)
      → view (λ (l : Leaf). l.leaf_e) (link_e x y q o) a b ≡ (
          if same_leaf x y a b
          then (if is_there o
              then view (λ (l : Leaf). some (pointer (x + floor_size) y)) q a b
              else view (λ (l : Leaf). l.leaf_e) q a b)
          else view (λ (l : Leaf). l.leaf_e) q a b)
  link_e-view none = sym (if_self (same_leaf x y a b) _)
  link_e-view (some l) =
      view-modify_leaf (λ (l : Leaf). l.leaf_e) q (east_of (pointer (x + floor_size) y)) x y a b r

  pub link_s-same :
      {V : Type 0} (v : Leaf → V) (o : Option Leaf)
      → ((c : Corner) (l : Leaf) → v (south_of c l) ≡ v l)
      → view v (link_s x y q o) a b ≡ view v q a b
  link_s-same v none keeps = refl
  link_s-same v (some l) keeps = view-modify_same v q _ x y a b r (keeps _)

  pub link_e-same :
      {V : Type 0} (v : Leaf → V) (o : Option Leaf)
      → ((c : Corner) (l : Leaf) → v (east_of c l) ≡ v l)
      → view v (link_e x y q o) a b ≡ view v q a b
  link_e-same v none keeps = refl
  link_e-same v (some l) keeps = view-modify_same v q _ x y a b r (keeps _)

  link_s-present : (o : Option Leaf) → present (link_s x y q o) a b ≡ present q a b
  link_s-present none = refl
  link_s-present (some l) = present-modify_leaf q _ x y a b r

  link_e-present : (o : Option Leaf) → present (link_e x y q o) a b ≡ present q a b
  link_e-present none = refl
  link_e-present (some l) = present-modify_leaf q _ x y a b r

pub link_s-IsRoot :
    (q : QTree Leaf) (x y : ℕ) (o : Option Leaf) → IsRoot q → IsRoot (link_s x y q o)
link_s-IsRoot q x y none r = r
link_s-IsRoot q x y (some l) r = modify_leaf-IsRoot q _ x y r

link_e-IsRoot : (q : QTree Leaf) (x y : ℕ) (o : Option Leaf) → IsRoot q → IsRoot (link_e x y q o)
link_e-IsRoot q x y none r = r
link_e-IsRoot q x y (some l) r = modify_leaf-IsRoot q _ x y r

inner_test :
    {A : Type 0} {p p' : Bool} (c : Bool) (s t u : A)
    → p ≡ p'
    → (if c then (if p then s else t) else u) ≡ (if c then (if p' then s else t) else u)
inner_test c s t u h = ap (λ (q : Bool). if c then (if q then s else t) else u) h

both_branches :
    {A : Type 0} {s s' t t' : A} (c : Bool)
    → s ≡ s'
    → t ≡ t'
    → (if c then s else t) ≡ (if c then s' else t')
both_branches true hs ht = hs
both_branches false hs ht = ht

-- The four writes of a new leaf.
module _ (root : QTree Leaf) (x y : ℕ) (r : IsRoot root) (absent : get_leaf root x y ≡ none)
    (hx : x < u16_mod) (hy : y < u16_mod) where
  abbrev pub made : QTree Leaf
  made = created root x y r

  abbrev pub north : QTree Leaf
  north = modify_leaf x (before y) (south_of (pointer x y)) made

  abbrev pub west : QTree Leaf
  west = modify_leaf (before x) y (east_of (pointer x y)) north

  abbrev pub south : QTree Leaf
  south = link_s x y west (get_leaf west x (y + floor_size))

  abbrev pub east : QTree Leaf
  east = link_e x y south (get_leaf south (x + floor_size) y)

  made-IsRoot : IsRoot made
  made-IsRoot = create_leaf-IsRoot root x y r

  north-IsRoot : IsRoot north
  north-IsRoot = modify_leaf-IsRoot made _ x (before y) made-IsRoot

  west-IsRoot : IsRoot west
  west-IsRoot = modify_leaf-IsRoot north _ (before x) y north-IsRoot

  south-IsRoot : IsRoot south
  south-IsRoot = link_s-IsRoot west x y _ west-IsRoot

  west-present : (a b : ℕ) → present west a b ≡ present made a b
  west-present a b =
      present-modify_leaf north _ (before x) y a b north-IsRoot
      ∙ present-modify_leaf made _ x (before y) a b made-IsRoot

  south-present : (a b : ℕ) → present south a b ≡ present made a b
  south-present a b = link_s-present west west-IsRoot x y a b _ ∙ west-present a b

  east-present : (a b : ℕ) → present east a b ≡ (same_leaf x y a b || present root a b)
  east-present a b =
      link_e-present south south-IsRoot x y a b _
      ∙ south-present a b
      ∙ present-created root x y r a b

  -- A neighbour of the new leaf was there before it.
  old_neighbour : (a b : ℕ) → same_leaf x y a b ≡ false → present made a b ≡ present root a b
  old_neighbour a b h = present-created root x y r a b ∙ ap (λ (q : Bool). q || present root a b) h

  here : same_leaf x y x y ≡ true
  here = (same_leaf_iff x y x y).1 (refl, refl)

  pub links_s :
      LinksTo (λ (l : Leaf). l.leaf_s) (λ a b. a) (λ a b. b + floor_size) root
      → LinksTo (λ (l : Leaf). l.leaf_s) (λ a b. a) (λ a b. b + floor_size) east
  links_s links =
      relinked (λ (l : Leaf). l.leaf_s) (λ a b. a) (λ a b. b + floor_size) root east x y x
        (before y) r (λ a b. south-before x y a b hy) (south-apart x y) (south-same x y)
        east-present links
        (written (λ (l : Leaf). l.leaf_s) root made west east x y x (before y) x (y + floor_size)
          refl (λ a b h. sym (south-before x y a b hy) ∙ south-apart x y a b h)
          (λ V w a b. view-fresh root x y r absent w a b)
          (λ a b.
            view-modify_same (λ (l : Leaf). l.leaf_s) north _ (before x) y a b north-IsRoot
              (λ l. refl)
            ∙ view-modify_leaf (λ (l : Leaf). l.leaf_s) made _ x (before y) a b made-IsRoot)
          west-present
          (λ a b.
            link_e-same south south-IsRoot x y a b (λ (l : Leaf). l.leaf_s) _ (λ c l. refl)
            ∙ link_s-view west west-IsRoot x y a b _
            ∙ inner_test (same_leaf x y a b) _ _ _ (
                west-present x (y + floor_size)
                ∙ old_neighbour x (y + floor_size) (south-apart x y x y here))))

  pub links_e :
      LinksTo (λ (l : Leaf). l.leaf_e) (λ a b. a + floor_size) (λ a b. b) root
      → LinksTo (λ (l : Leaf). l.leaf_e) (λ a b. a + floor_size) (λ a b. b) east
  links_e links =
      relinked (λ (l : Leaf). l.leaf_e) (λ a b. a + floor_size) (λ a b. b) root east x y (before x)
        y r (λ a b. east-before x y a b hx) (east-apart x y) (east-same x y) east-present links
        (written (λ (l : Leaf). l.leaf_e) root made south east x y (before x) y (x + floor_size) y
          refl (λ a b h. sym (east-before x y a b hx) ∙ east-apart x y a b h)
          (λ V w a b. view-fresh root x y r absent w a b)
          (λ a b.
            link_s-same west west-IsRoot x y a b (λ (l : Leaf). l.leaf_e) _ (λ c l. refl)
            ∙ view-modify_leaf (λ (l : Leaf). l.leaf_e) north _ (before x) y a b north-IsRoot
            ∙ both_branches (same_leaf (before x) y a b)
                (view-modify_same (λ (l : Leaf). some (pointer x y)) made _ x (before y) a b
                  made-IsRoot (λ l. refl))
                (view-modify_same (λ (l : Leaf). l.leaf_e) made _ x (before y) a b made-IsRoot
                  (λ l. refl)))
          south-present
          (λ a b.
            link_e-view south south-IsRoot x y a b _
            ∙ inner_test (same_leaf x y a b) _ _ _ (
                south-present (x + floor_size) y
                ∙ old_neighbour (x + floor_size) y (east-apart x y x y here))))
