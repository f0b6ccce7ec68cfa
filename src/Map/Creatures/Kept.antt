-- ===== src/Map/Creatures/Kept.antt =====
-- What the changes of src/map.cpp to the creatures of a leaf leave as it is.
use mathlib.Core.Option.{none-ne-some}
use dark_global_12_x.Base.{
  ℕ, ◌≡◌, refl, sym, ap, ◌∙◌, Bool, false, ◌&&◌, none, some, ◌==◌, Bool-cases, inl, inr, ==_iff,
}
use dark_global_12_x.Position.{Position}
use dark_global_12_x.Map.{Leaf, pointer, empty_root}
use dark_global_12_x.Map.Tree.{QTree, get_leaf}
use dark_global_12_x.Map.Views.{same_leaf, IsRoot, modify_leaf-IsRoot}
use dark_global_12_x.Map.Links.{Linked, present}
use dark_global_12_x.Map.NewLeaf.{present-modify_leaf}
use dark_global_12_x.Map.Linked.{modify_leaf-Linked}
use dark_global_12_x.Map.Creatures.{
  leaf_add, leaf_remove, place_in_leaf, take_from_leaf, same_corner, move_in_leaves,
}
use dark_global_12_x.Map.Creatures.Tracked.{Tracked}
use dark_global_12_x.Map.Creatures.Moves.{moved}
use dark_global_12_x.Map.Creatures.World.{MapWorld}

module _ (is_player : ℕ → Bool) where
  -- One creature added to a leaf, or removed from it.
  pub leaf_add-Linked :
      (root : QTree Leaf) (c x y : ℕ)
      → IsRoot root
      → Linked root
      → Linked (place_in_leaf is_player c x y root)
  unfolding place_in_leaf leaf_add
  leaf_add-Linked root c x y r links = modify_leaf-Linked root _ x y (λ l. refl) (λ l. refl) r links

  pub leaf_remove-Linked :
      (root : QTree Leaf) (c x y : ℕ)
      → IsRoot root
      → Linked root
      → Linked (take_from_leaf is_player c x y root)
  unfolding take_from_leaf leaf_remove
  leaf_remove-Linked root c x y r links =
      modify_leaf-Linked root _ x y (λ l. refl) (λ l. refl) r links

  pub place_in_leaf-IsRoot :
      (root : QTree Leaf) (c x y : ℕ) → IsRoot root → IsRoot (place_in_leaf is_player c x y root)
  unfolding place_in_leaf
  place_in_leaf-IsRoot root c x y r = modify_leaf-IsRoot root _ x y r

  pub take_from_leaf-IsRoot :
      (root : QTree Leaf) (c x y : ℕ) → IsRoot root → IsRoot (take_from_leaf is_player c x y root)
  unfolding take_from_leaf
  take_from_leaf-IsRoot root c x y r = modify_leaf-IsRoot root _ x y r

  pub place_in_leaf-present :
      (root : QTree Leaf) (c x y a b : ℕ)
      → IsRoot root
      → present (place_in_leaf is_player c x y root) a b ≡ present root a b
  unfolding place_in_leaf
  place_in_leaf-present root c x y a b r = present-modify_leaf root _ x y a b r

  pub take_from_leaf-present :
      (root : QTree Leaf) (c x y a b : ℕ)
      → IsRoot root
      → present (take_from_leaf is_player c x y root) a b ≡ present root a b
  unfolding take_from_leaf
  take_from_leaf-present root c x y a b r = present-modify_leaf root _ x y a b r

  -- A creature that is not on the map may be said to be anywhere.
  pub off_map :
      (w : MapWorld) (c : ℕ) (p : Position) (d a b : ℕ)
      → w.on_map c ≡ false
      → (w.on_map d && same_leaf a b (w.position d).x (w.position d).y)
        ≡ (w.on_map d && same_leaf a b (moved c p w.position d).x (moved c p w.position d).y)
  off_map w c p d a b off = elim (Bool-cases (c == d)) [
    | inl it ↦ rw (it, sym (ap w.on_map ((==_iff c d).0 it)) ∙ off) refl
    | inr other ↦ rw other refl
  ]

  pub empty-Linked : Linked empty_root
  unfolding get_leaf
  empty-Linked x y l e = absurd (none_there e)
    where
      none_there : none ≡ some l → ⊥
      none_there q = none-ne-some l q

  pub empty-Tracked : (position : ℕ → Position) → Tracked is_player (λ c. false) position empty_root
  unfolding get_leaf
  empty-Tracked position x y l e c = absurd (none_there e)
    where
      none_there : none ≡ some l → ⊥
      none_there q = none-ne-some l q

  -- What is left of the tree when a creature moves.
  pub move_in_leaves-kept :
      (root : QTree Leaf) (c x y x' y' : ℕ)
      → IsRoot root
      → Linked root
      → IsRoot (move_in_leaves is_player c x y x' y' root)
        × Linked (move_in_leaves is_player c x y x' y' root)
        × ((a b : ℕ) → present (move_in_leaves is_player c x y x' y' root) a b ≡ present root a b)
  unfolding move_in_leaves
  move_in_leaves-kept root c x y x' y' r links =
      elim (Bool-cases (same_corner is_player (pointer x y) (pointer x' y'))) [
        | inl same ↦ rw same (r, links, λ a b. refl)
        | inr other ↦
            let r' = take_from_leaf-IsRoot root c x y r in
            rw other (
              place_in_leaf-IsRoot _ c x' y' r',
              leaf_add-Linked _ c x' y' r' (leaf_remove-Linked root c x y r links),
              λ a b.
                  place_in_leaf-present _ c x' y' a b r' ∙ take_from_leaf-present root c x y a b r,
            )
      ]
