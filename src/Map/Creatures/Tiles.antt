-- ===== src/Map/Creatures/Tiles.antt =====
-- The creatures of the leaves under setTile of src/map.cpp.
use mathlib.Core.Option
use mathlib.Core.Option.{some-injective, none-ne-some}
use dark_global_12_x.Base.{
  ℕ, ◌≡◌, refl, sym, ap, ◌∙◌, Bool, true, false, ◌&&◌, Option, none, some, List, [], leb,
  if◌then◌else◌, arith, Bool-cases, Option-cases, inl, inr,
}
use dark_global_12_x.Position.{Position}
use dark_global_12_x.Network.Autosend.Alive.{count}
use dark_global_12_x.Map.{Tile, Leaf, new_leaf_node, map_max_layers, set_tile}
use dark_global_12_x.Map.Tree.{QTree, get_leaf}
use dark_global_12_x.Map.Paths.{get_leaf-same_path}
use dark_global_12_x.Map.Created.{or_new}
use dark_global_12_x.Map.Corners.{same_leaf_iff}
use dark_global_12_x.Map.Views.{same_leaf, IsRoot, IsRoot-HasDepth, view}
use dark_global_12_x.Map.Links.{Bool-iff, is_there, present, is_there-map}
use dark_global_12_x.Map.Creatures.Counts.{once}
use dark_global_12_x.Map.Creatures.Tracked.{Tracked}
use dark_global_12_x.Map.Creatures.Moves.{and_assoc}
use dark_global_12_x.Map.Creatures.SetTile.{view-set_tile}

-- Every creature on the map stands where there is a leaf.
abbrev pub Standing : (ℕ → Bool) → (ℕ → Position) → QTree Leaf → Type 0
Standing on_map position root =
    (c : ℕ) → on_map c ≡ true → present root (position c).x (position c).y ≡ true

same_leaf-cong :
    (x y a b p q : ℕ) → same_leaf x y a b ≡ true → same_leaf x y p q ≡ same_leaf a b p q
same_leaf-cong x y a b p q h = Bool-iff (same_leaf x y p q) (same_leaf a b p q) (
  λ k.
      let (kx, ky) = (same_leaf_iff x y p q).0 k in
      let (hx, hy) = (same_leaf_iff x y a b).0 h in
      (same_leaf_iff a b p q).1 (sym hx ∙ kx, sym hy ∙ ky),
  λ k.
      let (kx, ky) = (same_leaf_iff a b p q).0 k in
      let (hx, hy) = (same_leaf_iff x y a b).0 h in (same_leaf_iff x y p q).1 (hx ∙ kx, hy ∙ ky),
)

present-view :
    {V : Type 0} (v : Leaf → V) (root : QTree Leaf) (a b : ℕ)
    → present root a b ≡ is_there (view v root a b)
present-view v root a b = sym (is_there-map v (get_leaf root a b))

pub set_tile-present :
    (add_thing : Tile → ℕ → Tile) (x y z : ℕ) (t : Tile) (root : QTree Leaf) (a b : ℕ)
    → IsRoot root
    → present root a b ≡ true
    → present (set_tile add_thing x y z t root) a b ≡ true
set_tile-present add_thing x y z t root a b r h =
    present-view (λ l. true) _ a b
    ∙ ap is_there (
        view-set_tile (λ l. true) (λ c l. refl) (λ c l. refl) add_thing x y z t root a b r
          (λ l g. refl))
    ∙ still (leb map_max_layers z) (same_leaf x y a b)
  where
    still :
        (high same : Bool)
        → is_there (
            if high
            then view (λ l. true) root a b
            else if same
            then some true
            else view (λ l. true) root a b)
          ≡ true
    still true same = sym (present-view (λ l. true) root a b) ∙ h
    still false true = refl
    still false false = sym (present-view (λ l. true) root a b) ∙ h

and_false : (b : Bool) → b && false ≡ false
and_false true = refl
and_false false = refl

module _ (is_player on_map : ℕ → Bool) (position : ℕ → Position) (root : QTree Leaf)
    (tracked : Tracked is_player on_map position root) (standing : Standing on_map position root)
    (c : ℕ) where
  -- No creature stands in a leaf that is not there.
  nobody_there :
      (x y a b : ℕ)
      → get_leaf root x y ≡ none
      → same_leaf x y a b ≡ true
      → IsRoot root
      → (on_map c && same_leaf a b (position c).x (position c).y) ≡ false
  nobody_there x y a b absent same r = elim (Bool-cases (on_map c)) [
    | inr off ↦ rw off refl
    | inl on ↦ elim (Bool-cases (same_leaf a b (position c).x (position c).y)) [
      | inr away ↦ rw (on, away) refl
      | inl here ↦
          let there =
            get_leaf-same_path 13 root x y (position c).x (position c).y (IsRoot-HasDepth root r)
              (same_leaf-cong x y a b _ _ same ∙ here) in
          absurd (impossible (sym (ap is_there (there ∙ absent)) ∙ standing c on))
    ]
  ]
    where
      impossible : false ≡ true → ⊥
      impossible q = absurd (ground (arith, q))

  -- One of the two lists of a leaf, and how often the creature is on it.
  module _ (list : Leaf → List ℕ) (who : Bool) (empty : list new_leaf_node ≡ [])
      (right : (x y : ℕ) (l : Leaf)
        → get_leaf root x y ≡ some l
        → count c (list l)
          ≡ once (who && (on_map c && same_leaf x y (position c).x (position c).y))) where
    right_view :
        (x y : ℕ) (xs : List ℕ)
        → view list root x y ≡ some xs
        → count c xs ≡ once (who && (on_map c && same_leaf x y (position c).x (position c).y))
    right_view x y xs e = elim (Option-cases (get_leaf root x y)) [
      | inl absent ↦ absurd (none-ne-some xs (sym (ap (Option.map list) absent) ∙ e))
      | inr (l, found) ↦
          ap (count c) (some-injective xs (list l) (sym e ∙ ap (Option.map list) found))
          ∙ right x y l found
    ]

    new_view :
        (x y a b : ℕ)
        → IsRoot root
        → same_leaf x y a b ≡ true
        → count c (list (or_new new_leaf_node (get_leaf root x y)))
          ≡ once (who && (on_map c && same_leaf a b (position c).x (position c).y))
    unfolding count
    new_view x y a b r same = elim (Option-cases (get_leaf root x y)) [
      | inl absent ↦
          ap (λ (o : Option Leaf). count c (list (or_new new_leaf_node o))) absent
          ∙ ap (count c) empty
          ∙ ap once (sym (and_false who))
          ∙ ap (λ (k : Bool). once (who && k)) (sym (nobody_there x y a b absent same r))
      | inr (l, found) ↦
          ap (λ (o : Option Leaf). count c (list (or_new new_leaf_node o))) found
          ∙ right x y l found
          ∙ ap (λ (k : Bool). once (who && (on_map c && k))) (same_leaf-cong x y a b _ _ same)
    ]

    after_set_tile :
        (high : Bool) (x y a b : ℕ) (xs : List ℕ)
        → IsRoot root
        → (if high
            then view list root a b
            else if same_leaf x y a b
            then some (list (or_new new_leaf_node (get_leaf root x y)))
            else view list root a b)
          ≡ some xs
        → count c xs ≡ once (who && (on_map c && same_leaf a b (position c).x (position c).y))
    after_set_tile true x y a b xs r e = right_view a b xs e
    after_set_tile false x y a b xs r e = by_leaf (same_leaf x y a b) refl e
      where
        by_leaf :
            (same : Bool)
            → same_leaf x y a b ≡ same
            → (if same
                then some (list (or_new new_leaf_node (get_leaf root x y)))
                else view list root a b)
              ≡ some xs
            → count c xs ≡ once (who && (on_map c && same_leaf a b (position c).x (position c).y))
        by_leaf true q k = ap (count c) (sym (some-injective _ xs k)) ∙ new_view x y a b r q
        by_leaf false q k = right_view a b xs k

-- Setting a tile leaves the creatures where they are.
pub set_tile-Tracked :
    (is_player on_map : ℕ → Bool) (position : ℕ → Position) (add_thing : Tile → ℕ → Tile)
    (x y z : ℕ) (t : Tile) (root : QTree Leaf)
    → IsRoot root
    → Standing on_map position root
    → Tracked is_player on_map position root
    → Tracked is_player on_map position (set_tile add_thing x y z t root)
set_tile-Tracked is_player on_map position add_thing x y z t root r standing tracked a b l e c = (
  after_set_tile is_player on_map position root tracked standing c (λ (m : Leaf). m.creature_list)
      true refl (λ p q m found. (tracked p q m found c).0) (leb map_max_layers z) x y a b
      l.creature_list r
      (sym (
          view-set_tile (λ (m : Leaf). m.creature_list) (λ k m. refl) (λ k m. refl) add_thing x y z
            t root a b r (λ m g. refl))
        ∙ ap (Option.map (λ (m : Leaf). m.creature_list)) e),
  after_set_tile is_player on_map position root tracked standing c (λ (m : Leaf). m.player_list)
        (is_player c) refl
        (λ p q m found. (tracked p q m found c).1 ∙ ap once (and_assoc (is_player c) _ _))
        (leb map_max_layers z) x y a b l.player_list r
        (sym (
            view-set_tile (λ (m : Leaf). m.player_list) (λ k m. refl) (λ k m. refl) add_thing x y z
              t root a b r (λ m g. refl))
          ∙ ap (Option.map (λ (m : Leaf). m.player_list)) e)
      ∙ ap once (sym (and_assoc (is_player c) _ _)),
)
