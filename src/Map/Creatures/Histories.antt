-- ===== src/Map/Creatures/Histories.antt =====
-- Any sequence of changes to a map of src/map.cpp, from the empty one on: tiles are set, and creatures
-- are placed, moved and taken away, each where there is a leaf.
use dark_global_12_x.Base.{
  ℕ, ◌≡◌, refl, sym, ap, ◌∙◌, Bool, true, false, ◌||◌, ◌==◌, arith, Bool-cases, inl, inr,
}
use dark_global_12_x.Position.{Position}
use dark_global_12_x.Map.{Tile, Leaf}
use dark_global_12_x.Map.Tree.{QTree}
use dark_global_12_x.Map.Links.{present}
use dark_global_12_x.Map.Linked.{set_tile-IsRoot, set_tile-Linked}
use dark_global_12_x.Map.Creatures.Tracked.{
  and_also, but_not, place_in_leaf-Tracked, take_from_leaf-Tracked,
}
use dark_global_12_x.Map.Corners.{same_leaf_iff}
use dark_global_12_x.Map.Creatures.Moves.{moved, Tracked-cong, arrives, move_in_leaves-Tracked}
use dark_global_12_x.Map.Creatures.Tiles.{Standing, set_tile-Tracked, set_tile-present}
use dark_global_12_x.Map.Creatures.World.{
  MapWorld, placed, walked, taken_away, Reach, empty, sets, places, walks, leaves, Sound,
}
use dark_global_12_x.Map.Creatures.Kept.{
  leaf_add-Linked, leaf_remove-Linked, place_in_leaf-IsRoot, take_from_leaf-IsRoot,
  place_in_leaf-present, take_from_leaf-present, off_map, empty-Linked, empty-Tracked,
  move_in_leaves-kept,
}
use dark_global_12_x.Map.Spectators.Window.{or_true}

module _ (add_thing : Tile → ℕ → Tile) (is_player : ℕ → Bool) where
  -- Where creatures stand, when one of them is put where there is a leaf.
  stands :
      (on_map : ℕ → Bool) (position : ℕ → Position) (root root' : QTree Leaf) (c d : ℕ)
      (p : Position)
      → ((a b : ℕ) → present root' a b ≡ present root a b)
      → Standing on_map position root
      → present root p.x p.y ≡ true
      → and_also c on_map d ≡ true
      → present root' (moved c p position d).x (moved c p position d).y ≡ true
  stands on_map position root root' c d p same standing there on = elim (Bool-cases (c == d)) [
    | inl it ↦ rw it (same p.x p.y ∙ there)
    | inr other ↦
        rw other (same _ _ ∙ standing d (sym (ap (λ (b : Bool). b || on_map d) other) ∙ on))
  ]

  place-Sound :
      (w : MapWorld) (c : ℕ) (p : Position)
      → w.on_map c ≡ false
      → present w.root p.x p.y ≡ true
      → Sound add_thing is_player w
      → Sound add_thing is_player (placed add_thing is_player c p w)
  place-Sound w c p off there (r, links, tracked, standing) = (
    place_in_leaf-IsRoot is_player w.root c p.x p.y r,
    leaf_add-Linked is_player w.root c p.x p.y r links,
    place_in_leaf-Tracked is_player w.on_map (moved c p w.position) w.root c p.x p.y r off
        (arrives is_player c p w.position)
        (Tracked-cong is_player w.on_map w.on_map w.position (moved c p w.position) w.root
          (λ d a b. off_map is_player w c p d a b off) tracked),
    λ d on.
        stands w.on_map w.position w.root _ c d p
          (λ a b. place_in_leaf-present is_player w.root c p.x p.y a b r) standing there on,
  )

  take-Sound :
      (w : MapWorld) (c : ℕ)
      → Sound add_thing is_player w
      → Sound add_thing is_player (taken_away add_thing is_player c w)
  take-Sound w c (r, links, tracked, standing) =
      let x = (w.position c).x in
      let y = (w.position c).y in
      (
        take_from_leaf-IsRoot is_player w.root c x y r,
        leaf_remove-Linked is_player w.root c x y r links,
        take_from_leaf-Tracked is_player w.on_map w.position w.root c x y r
            ((same_leaf_iff x y x y).1 (refl, refl)) tracked,
        λ d on.
            take_from_leaf-present is_player w.root c x y _ _ r ∙ standing d (still_on w c d on),
      )
    where
      still_on : (w : MapWorld) (c d : ℕ) → but_not c w.on_map d ≡ true → w.on_map d ≡ true
      still_on w c d h = ground (arith, h)

  walk-Sound :
      (w : MapWorld) (c : ℕ) (p : Position)
      → w.on_map c ≡ true
      → present w.root p.x p.y ≡ true
      → Sound add_thing is_player w
      → Sound add_thing is_player (walked add_thing is_player c p w)
  walk-Sound w c p on there (r, links, tracked, standing) =
      let (r', links', same) =
        move_in_leaves-kept is_player w.root c (w.position c).x (w.position c).y p.x p.y r links in
      (
        r',
        links',
        move_in_leaves-Tracked is_player w.on_map w.position w.root c p r on tracked,
        λ d on_d.
            stands w.on_map w.position w.root _ c d p same standing there
              (ap (λ (b : Bool). c == d || b) on_d ∙ or_true (c == d)),
      )

  -- Whatever tiles are set on an empty map and whatever creatures are placed, moved and taken away, the
  -- leaves stay on one level, each linked to those below it and right of it, and each creature on the
  -- map is once on the lists of the leaf of its position and on no other list. A creature comes and goes
  -- only where there is a leaf, as under a tile, and coordinates of tiles are 16 bits wide.
  pub Reach-Sound : (w : MapWorld) → Reach add_thing is_player w → Sound add_thing is_player w
  Reach-Sound _ (empty position) = (
    λ i. tt,
    empty-Linked is_player,
    empty-Tracked is_player position,
    λ c on. absurd (ground (arith, on)),
  )
  Reach-Sound _ (sets w x y z t hx hy h) =
      let (r, links, tracked, standing) = Reach-Sound w h in
      (
        set_tile-IsRoot add_thing x y z t w.root r,
        set_tile-Linked add_thing x y z t w.root hx hy r links,
        set_tile-Tracked is_player w.on_map w.position add_thing x y z t w.root r standing tracked,
        λ c on. set_tile-present add_thing x y z t w.root _ _ r (standing c on),
      )
  Reach-Sound _ (places w c p off there h) = place-Sound w c p off there (Reach-Sound w h)
  Reach-Sound _ (walks w c p on there h) = walk-Sound w c p on there (Reach-Sound w h)
  Reach-Sound _ (leaves w c on h) = take-Sound w c (Reach-Sound w h)
