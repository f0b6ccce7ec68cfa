-- ===== src/Map/Creatures/Tracked.antt =====
-- The leaves of src/map.cpp and the positions of the creatures on the map.
use dark_global_12_x.Base.{
  ℕ, ◌+◌, ◌-◌, ◌≡◌, ◌⊎◌, refl, sym, ap, ◌∙◌, Bool, true, false, ◌&&◌, ◌||◌, some, [], ◌∷◌, ◌++◌,
  ◌==◌, if◌then◌else◌, arith, Bool-cases, inl, inr, ==_iff,
}
use dark_global_12_x.Position.{Position}
use dark_global_12_x.Network.Autosend.{swap_out}
use dark_global_12_x.Network.Autosend.Alive.{count, count-swap_out}
use dark_global_12_x.Map.{Leaf}
use dark_global_12_x.Map.Tree.{QTree, get_leaf}
use dark_global_12_x.Map.Views.{same_leaf, IsRoot}
use dark_global_12_x.Map.Creatures.{leaf_add, leaf_remove, place_in_leaf, take_from_leaf}
use dark_global_12_x.Map.Creatures.Counts.{
  once, after-write, same_leaf_trans, count-append, added, taken,
}

-- A creature of the map is once on the list of the leaf of its position and on that of no other, and
-- so is a player on the players' lists.
abbrev pub Tracked : (ℕ → Bool) → (ℕ → Bool) → (ℕ → Position) → QTree Leaf → Type 0
Tracked is_player on_map position root =
    (x y : ℕ) (l : Leaf)
    → get_leaf root x y ≡ some l
    → (c : ℕ)
    → (count c l.creature_list ≡ once (on_map c && same_leaf x y (position c).x (position c).y))
      × (count c l.player_list
          ≡ once (is_player c && on_map c && same_leaf x y (position c).x (position c).y))

abbrev pub and_also : ℕ → (ℕ → Bool) → ℕ → Bool
and_also c on_map d = c == d || on_map d

abbrev pub but_not : ℕ → (ℕ → Bool) → ℕ → Bool
but_not c on_map d = if c == d then false else on_map d

module _ (is_player : ℕ → Bool) (on_map : ℕ → Bool) (position : ℕ → Position) (root : QTree Leaf)
    (c x y : ℕ) where
  -- What is the same of a creature and itself, under another name.
  on_leaf :
      (d a b : ℕ)
      → same_leaf x y (position c).x (position c).y ≡ true
      → c == d ≡ true
      → same_leaf a b (position d).x (position d).y ≡ same_leaf x y a b
  on_leaf d a b h e =
      ap (λ (k : ℕ). same_leaf a b (position k).x (position k).y) (sym ((==_iff c d).0 e))
      ∙ sym (same_leaf_trans x y a b (position c).x (position c).y h)

  counts_added :
      (d : ℕ) (same : Bool) (m : Leaf)
      → (count d (if same then leaf_add is_player c m else m).creature_list
          ≡ count d m.creature_list + (if same then (if true then once (c == d) else 0) else 0))
        × (count d (if same then leaf_add is_player c m else m).player_list
            ≡ count d m.player_list
              + (if same then (if is_player c then once (c == d) else 0) else 0))
  unfolding leaf_add
  counts_added d false m = (omega arith, omega arith)
  counts_added d true m = (count-append d c m.creature_list, of_player (Bool-cases (is_player c)))
    where
      of_player :
          (is_player c ≡ true) ⊎ (is_player c ≡ false)
          → count d (if is_player c then m.player_list ++ c ∷ [] else m.player_list)
            ≡ count d m.player_list + (if is_player c then once (c == d) else 0)
      of_player (inl p) = rw p (count-append d c m.player_list)
      of_player (inr p) = rw p (omega arith)

  -- A creature that is not on the map, added to the leaf of its position, is tracked with the others.
  pub place_in_leaf-Tracked :
      IsRoot root
      → on_map c ≡ false
      → same_leaf x y (position c).x (position c).y ≡ true
      → Tracked is_player on_map position root
      → Tracked is_player (and_also c on_map) position (place_in_leaf is_player c x y root)
  unfolding place_in_leaf
  place_in_leaf-Tracked r off here tracked a b l e d =
      let (m, q, el) = after-write root (leaf_add is_player c) x y a b l r e in
      let (tc, tp) = tracked a b m q d in
      let same = same_leaf x y a b in
      let there = same_leaf a b (position d).x (position d).y in
      let (ac, ap_) = counts_added d same m in
      let not_yet : c == d ≡ true → on_map d ≡ false =
        λ k. ap on_map (sym ((==_iff c d).0 k)) ∙ off in
      (
        ap (λ (n : Leaf). count d n.creature_list) el
            ∙ ac
            ∙ added (c == d) (on_map d) there same true true _ tc not_yet (on_leaf d a b here)
                (λ k. refl),
        ap (λ (n : Leaf). count d n.player_list) el
            ∙ ap_
            ∙ added (c == d) (on_map d) there same (is_player d) (is_player c) _ tp not_yet
                (on_leaf d a b here) (λ k. ap is_player (sym ((==_iff c d).0 k))),
      )

  counts_taken :
      (d : ℕ) (same : Bool) (m : Leaf)
      → (count d (if same then leaf_remove is_player c m else m).creature_list ≡ (
          if same
          then (if true
              then (if c == d then count d m.creature_list - 1 else count d m.creature_list)
              else count d m.creature_list)
          else count d m.creature_list))
        × (count d (if same then leaf_remove is_player c m else m).player_list ≡ (
            if same
            then (if is_player c
                then (if c == d then count d m.player_list - 1 else count d m.player_list)
                else count d m.player_list)
            else count d m.player_list))
  unfolding leaf_remove
  counts_taken d false m = (refl, refl)
  counts_taken d true m = (count-swap_out c d m.creature_list, of_player (Bool-cases (is_player c)))
    where
      of_player :
          (is_player c ≡ true) ⊎ (is_player c ≡ false)
          → count d (if is_player c then swap_out c m.player_list else m.player_list) ≡ (
              if is_player c
              then (if c == d then count d m.player_list - 1 else count d m.player_list)
              else count d m.player_list)
      of_player (inl p) = rw p (count-swap_out c d m.player_list)
      of_player (inr p) = rw p refl

  pub take_from_leaf-Tracked :
      IsRoot root
      → same_leaf x y (position c).x (position c).y ≡ true
      → Tracked is_player on_map position root
      → Tracked is_player (but_not c on_map) position (take_from_leaf is_player c x y root)
  unfolding take_from_leaf
  take_from_leaf-Tracked r here tracked a b l e d =
      let (m, q, el) = after-write root (leaf_remove is_player c) x y a b l r e in
      let (tc, tp) = tracked a b m q d in
      let same = same_leaf x y a b in
      let there = same_leaf a b (position d).x (position d).y in
      let (rc, rp) = counts_taken d same m in
      (
        ap (λ (n : Leaf). count d n.creature_list) el
            ∙ rc
            ∙ taken (c == d) (on_map d) there same true true _ tc (on_leaf d a b here) (λ k. refl),
        ap (λ (n : Leaf). count d n.player_list) el
            ∙ rp
            ∙ taken (c == d) (on_map d) there same (is_player d) (is_player c) _ tp
                (on_leaf d a b here) (λ k. ap is_player (sym ((==_iff c d).0 k))),
      )
