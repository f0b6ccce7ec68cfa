-- ===== src/Map/NewLeaf.antt =====
-- The leaf that setTile of src/map.cpp makes, seen from any coordinate, and the writes that change no link.
use dark_global_12_x.Base.{
  ℕ, ◌≡◌, refl, sym, ap, ◌∙◌, Bool, true, ◌||◌, Option, none, some, if◌then◌else◌, Bool-cases, inl,
  inr,
}
use dark_global_12_x.Map.{Leaf, Corner, pointer, new_leaf_node, root_level}
use dark_global_12_x.Map.Tree.{QTree, inner, leaf, null, get_leaf, create_leaf, modify_leaf}
use dark_global_12_x.Map.Paths.{get_leaf-same_path}
use dark_global_12_x.Map.Created.{or_new, is_none, create_leaf-new_leaf}
use dark_global_12_x.Map.Views.{
  same_leaf, IsRoot, IsRoot-HasDepth, view, view-modify_same, view-created,
}
use dark_global_12_x.Map.Links.{neighbour, LinksTo, is_there, present, is_there-map, const-map}

-- Writes that leave a link and the presence of leaves as they are.
module _ (v : Leaf → Option Corner) (next_x next_y : ℕ → ℕ → ℕ) where
  pub LinksTo-views :
      (root q : QTree Leaf)
      → ((a b : ℕ) → view v q a b ≡ view v root a b)
      → ((a b : ℕ) → present q a b ≡ present root a b)
      → LinksTo v next_x next_y root
      → LinksTo v next_x next_y q
  LinksTo-views root q same_v same_p links a b =
      let nx = next_x a b in
      let ny = next_y a b in
      same_v a b
      ∙ links a b
      ∙ const-map (neighbour root nx ny) (get_leaf root a b)
      ∙ ap (λ (p : Bool). if p then some (neighbour root nx ny) else none) (sym (same_p a b))
      ∙ ap (λ (k : Option Corner). if present q a b then some k else none)
          (const-map (pointer nx ny) (get_leaf root nx ny)
            ∙ ap (λ (p : Bool). if p then some (pointer nx ny) else none) (sym (same_p nx ny))
            ∙ sym (const-map (pointer nx ny) (get_leaf q nx ny)))
      ∙ sym (const-map (neighbour q nx ny) (get_leaf q a b))

pub present-modify_leaf :
    (root : QTree Leaf) (f : Leaf → Leaf) (x y a b : ℕ)
    → IsRoot root
    → present (modify_leaf x y f root) a b ≡ present root a b
present-modify_leaf root f x y a b r =
    sym (is_there-map (λ l. true) (get_leaf (modify_leaf x y f root) a b))
    ∙ ap is_there (view-modify_same (λ l. true) root f x y a b r (λ l. refl))
    ∙ is_there-map (λ l. true) (get_leaf root a b)

-- The new leaf is there, and what was there still is.
module _ (root : QTree Leaf) (x y : ℕ) (r : IsRoot root) where
  abbrev pub created : QTree Leaf
  created = (create_leaf new_leaf_node root_level x y root).0

  pub newly : (create_leaf new_leaf_node root_level x y root).1 ≡ is_none (get_leaf root x y)
  newly = by_root root r
    where
      by_root :
          (q : QTree Leaf)
          → IsRoot q
          → (create_leaf new_leaf_node root_level x y q).1 ≡ is_none (get_leaf q x y)
      by_root (inner child) h = create_leaf-new_leaf new_leaf_node 13 (inner child) x y h
      by_root null h = elim h [ ]
      by_root (leaf l) h = elim h [ ]

  pub present-created : (a b : ℕ) → present created a b ≡ (same_leaf x y a b || present root a b)
  present-created a b =
      sym (is_there-map (λ l. true) (get_leaf created a b))
      ∙ ap is_there (view-created (λ l. true) root x y a b r)
      ∙ elim (Bool-cases (same_leaf x y a b)) [
        | inl new ↦ rw new refl
        | inr old ↦ rw old (is_there-map (λ l. true) (get_leaf root a b))
      ]

  pub view-existing :
      {V : Type 0} (v : Leaf → V) (l : Leaf) (a b : ℕ)
      → get_leaf root x y ≡ some l
      → view v created a b ≡ view v root a b
  view-existing v l a b found =
      view-created v root x y a b r ∙ elim (Bool-cases (same_leaf x y a b)) [
        | inl same ↦
            rw (same, get_leaf-same_path 13 root x y a b (IsRoot-HasDepth root r) same, found) refl
        | inr other ↦ rw other refl
      ]

  pub present-existing :
      (l : Leaf) (a b : ℕ) → get_leaf root x y ≡ some l → present created a b ≡ present root a b
  present-existing l a b found =
      sym (is_there-map (λ l. true) (get_leaf created a b))
      ∙ ap is_there (view-existing (λ l. true) l a b found)
      ∙ is_there-map (λ l. true) (get_leaf root a b)

  pub view-fresh :
      get_leaf root x y ≡ none
      → {V : Type 0} (v : Leaf → V) (a b : ℕ)
      → view v created a b ≡ (if same_leaf x y a b then some (v new_leaf_node) else view v root a b)
  view-fresh absent v a b =
      view-created v root x y a b r
      ∙ ap
          (λ (o : Option Leaf).
            if same_leaf x y a b then some (v (or_new new_leaf_node o)) else view v root a b)
          absent
