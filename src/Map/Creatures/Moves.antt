-- ===== src/Map/Creatures/Moves.antt =====
-- A creature that moves, in the leaves of src/map.cpp, and the search that finds it.
use dark_global_12_x.Base.{
  ℕ, ◌≡◌, refl, sym, ap, ◌∙◌, Bool, true, false, ◌&&◌, ◌==◌, if◌then◌else◌, arith, Bool-cases, inl,
  inr, ==_iff, ==_self,
}
use dark_global_12_x.Position.{Position}
use dark_global_12_x.Map.{Leaf, pointer}
use dark_global_12_x.Map.Tree.{QTree}
use dark_global_12_x.Map.Corners.{same_leaf_iff}
use dark_global_12_x.Map.Views.{same_leaf, IsRoot, modify_leaf-IsRoot}
use dark_global_12_x.Map.Creatures.{same_corner, move_in_leaves, take_from_leaf}
use dark_global_12_x.Map.Creatures.Counts.{once, same_leaf_trans}
use dark_global_12_x.Map.Creatures.Tracked.{
  Tracked, and_also, but_not, place_in_leaf-Tracked, take_from_leaf-Tracked,
}

abbrev pub moved : ℕ → Position → (ℕ → Position) → ℕ → Position
moved c p position d = if c == d then p else position d

pub and_assoc : (a b c : Bool) → (a && b && c) ≡ (a && (b && c))
and_assoc true b c = refl
and_assoc false b c = refl

module _ (is_player : ℕ → Bool) where
  pub Tracked-cong :
      (on_map on_map' : ℕ → Bool) (position position' : ℕ → Position) (root : QTree Leaf)
      → ((d a b : ℕ)
          → (on_map d && same_leaf a b (position d).x (position d).y)
            ≡ (on_map' d && same_leaf a b (position' d).x (position' d).y))
      → Tracked is_player on_map position root
      → Tracked is_player on_map' position' root
  Tracked-cong on_map on_map' position position' root same tracked a b l e d =
      let (tc, tp) = tracked a b l e d in
      (
        tc ∙ ap once (same d a b),
        tp
            ∙ ap once (
                and_assoc (is_player d) _ _
                ∙ ap (λ (k : Bool). is_player d && k) (same d a b)
                ∙ sym (and_assoc (is_player d) _ _)),
      )

  corners-same :
      (x y x' y' : ℕ)
      → same_corner is_player (pointer x y) (pointer x' y') ≡ true
      → same_leaf x y x' y' ≡ true
  corners-same x y x' y' h = (same_leaf_iff x y x' y').1 (ground (arith, h), ground (arith, h))

  -- Tests on a creature that moved and one that may be another.
  stays :
      (c d : ℕ) (on : Bool) (p : Position) (position : ℕ → Position) (a b : ℕ)
      → (c == d ≡ true → same_leaf a b (position d).x (position d).y ≡ same_leaf a b p.x p.y)
      → (on && same_leaf a b (position d).x (position d).y)
        ≡ (on && same_leaf a b (moved c p position d).x (moved c p position d).y)
  stays c d on p position a b h = elim (Bool-cases (c == d)) [
    | inl it ↦ rw it (ap (λ (k : Bool). on && k) (h it))
    | inr other ↦ rw other refl
  ]

  back :
      (on_map : ℕ → Bool) (c d : ℕ) → on_map c ≡ true → and_also c (but_not c on_map) d ≡ on_map d
  back on_map c d on = elim (Bool-cases (c == d)) [
    | inl it ↦ rw it (sym (ap on_map (sym ((==_iff c d).0 it)) ∙ on))
    | inr other ↦ rw other refl
  ]

  is_gone : (on_map : ℕ → Bool) (c : ℕ) → but_not c on_map c ≡ false
  is_gone on_map c = rw (==_self c) refl

  pub arrives :
      (c : ℕ) (p : Position) (position : ℕ → Position)
      → same_leaf p.x p.y (moved c p position c).x (moved c p position c).y ≡ true
  arrives c p position = rw (==_self c) ((same_leaf_iff p.x p.y p.x p.y).1 (refl, refl))

  unseen :
      (on_map : ℕ → Bool) (c : ℕ) (p : Position) (position : ℕ → Position) (d a b : ℕ)
      → (but_not c on_map d && same_leaf a b (position d).x (position d).y)
        ≡ (but_not c on_map d && same_leaf a b (moved c p position d).x (moved c p position d).y)
  unseen on_map c p position d a b = elim (Bool-cases (c == d)) [
    | inl it ↦ rw it refl
    | inr other ↦ rw other refl
  ]

  take_from_leaf-IsRoot :
      (c x y : ℕ) (root : QTree Leaf) → IsRoot root → IsRoot (take_from_leaf is_player c x y root)
  unfolding take_from_leaf
  take_from_leaf-IsRoot c x y root r = modify_leaf-IsRoot root _ x y r

  -- Where every creature on the map is on the lists of the leaf of its position, once, and on no other,
  -- that still holds of its new position after moveCreature switches the leaf of a creature on the map,
  -- or keeps it, as both positions share it. The leaves are on one level of the tree.
  pub move_in_leaves-Tracked :
      (on_map : ℕ → Bool) (position : ℕ → Position) (root : QTree Leaf) (c : ℕ) (p : Position)
      → IsRoot root
      → on_map c ≡ true
      → Tracked is_player on_map position root
      → Tracked is_player on_map
          (moved c p position)
          (move_in_leaves is_player c (position c).x (position c).y p.x p.y root)
  unfolding move_in_leaves
  move_in_leaves-Tracked on_map position root c p r on tracked =
      let x = (position c).x in
      let y = (position c).y in
      elim (Bool-cases (same_corner is_player (pointer x y) (pointer p.x p.y))) [
        | inl same ↦ rw same (
            Tracked-cong on_map on_map position (moved c p position) root
              (λ d a b. stays c d (on_map d) p position a b (λ it.
                ap (λ (k : ℕ). same_leaf a b (position k).x (position k).y)
                  (sym ((==_iff c d).0 it))
                ∙ sym (same_leaf_trans x y a b x y ((same_leaf_iff x y x y).1 (refl, refl)))
                ∙ same_leaf_trans x y a b p.x p.y (corners-same x y p.x p.y same)))
              tracked)
        | inr other ↦
            let gone = but_not c on_map in
            let taken = take_from_leaf is_player c x y root in
            rw other (
              Tracked-cong (and_also c gone) on_map (moved c p position) (moved c p position) _
                (λ d a b.
                  ap
                    (λ (k : Bool).
                      k && same_leaf a b (moved c p position d).x (moved c p position d).y)
                    (back on_map c d on))
                (place_in_leaf-Tracked is_player gone (moved c p position) taken c p.x p.y
                  (take_from_leaf-IsRoot c x y root r) (is_gone on_map c) (arrives c p position)
                  (Tracked-cong gone gone position (moved c p position) taken
                    (unseen on_map c p position)
                    (take_from_leaf-Tracked is_player on_map position root c x y r
                      ((same_leaf_iff x y x y).1 (refl, refl)) tracked))))
      ]
