-- ===== src/Map/Spectators/Exact.antt =====
-- What getSpectators of src/map.cpp finds on a map whose leaves keep track of the creatures.
use dark_global_12_x.Base.{
  ℕ, ◌<◌, ◌≡◌, refl, sym, ap, ◌∙◌, Bool, true, false, ◌&&◌, ◌||◌, Option, some, List, [], ◌∷◌, ltb,
  if◌then◌else◌, arith, Option-cases, inl, inr, contains,
}
use dark_global_12_x.Base.Words.{u16_mod}
use dark_global_12_x.Position.{Position}
use dark_global_12_x.Network.Autosend.Alive.{count}
use dark_global_12_x.Map.{Leaf}
use dark_global_12_x.Map.Tree.{QTree, get_leaf}
use dark_global_12_x.Map.Corners.{same_leaf_iff}
use dark_global_12_x.Map.Views.{same_leaf, IsRoot}
use dark_global_12_x.Map.Links.{Linked, present, is_there}
use dark_global_12_x.Map.Creatures.Counts.{once}
use dark_global_12_x.Map.Creatures.Tracked.{Tracked}
use dark_global_12_x.Map.Spectators.{Search, sees, creatures_of, get_spectators_internal}
use dark_global_12_x.Map.Spectators.Listed.{Placed, listed, get_spectators_internal-contains}
use dark_global_12_x.Map.Spectators.Players.{PlayerLists}

contains-count : (c : ℕ) (xs : List ℕ) → contains c xs ≡ ltb 0 (count c xs)
unfolding count
contains-count c [] = refl
contains-count c (x ∷ xs) = ground (arith, contains-count c xs)

ltb-once : (b : Bool) → ltb 0 (once b) ≡ b
ltb-once true = refl
ltb-once false = refl

and_true : (b : Bool) → b && true ≡ b
and_true true = refl
and_true false = refl

nobody : false ≡ true → ⊥
nobody q = absurd (ground (arith, q))

&&-right : (a b : Bool) → a && b ≡ true → b ≡ true
&&-right true b h = h
&&-right false b h = absurd (ground (arith, h))

-- Who a search is for.
abbrev pub wanted : (ℕ → Bool) → (ℕ → Bool) → Bool → ℕ → Bool
wanted is_player on_map only_players c = if only_players then is_player c && on_map c else on_map c

module _ (is_player on_map : ℕ → Bool) (position : ℕ → Position) (root : QTree Leaf)
    (tracked : Tracked is_player on_map position root) where
  creature-there :
      (x y : ℕ) (l : Leaf) (c : ℕ)
      → get_leaf root x y ≡ some l
      → contains c l.creature_list ≡ (on_map c && same_leaf x y (position c).x (position c).y)
  creature-there x y l c e =
      contains-count c l.creature_list ∙ ap (ltb 0) ((tracked x y l e c).0) ∙ ltb-once _

  player-there :
      (x y : ℕ) (l : Leaf) (c : ℕ)
      → get_leaf root x y ≡ some l
      → contains c l.player_list
        ≡ (is_player c && on_map c && same_leaf x y (position c).x (position c).y)
  player-there x y l c e =
      contains-count c l.player_list ∙ ap (ltb 0) ((tracked x y l e c).1) ∙ ltb-once _

  rotate : (p o s : Bool) → (p && o && s) ≡ ((o && s) && p)
  rotate true true true = refl
  rotate true true false = refl
  rotate true false s = refl
  rotate false true true = refl
  rotate false true false = refl
  rotate false false s = refl

  pub Tracked-PlayerLists : PlayerLists is_player root
  Tracked-PlayerLists x y l e c =
      player-there x y l c e
      ∙ rotate (is_player c) (on_map c) _
      ∙ ap (λ (b : Bool). b && is_player c) (sym (creature-there x y l c e))

  listed-there :
      (s : Search) (x y : ℕ) (l : Leaf) (c : ℕ) (only_players : Bool)
      → get_leaf root x y ≡ some l
      → contains c (if only_players then l.player_list else l.creature_list)
        ≡ (wanted is_player on_map only_players c && same_leaf x y (position c).x (position c).y)
  listed-there s x y l c true e = player-there x y l c e
  listed-there s x y l c false e = creature-there x y l c e

  module _ (s : Search) (placing : s.position ≡ position) where
    Tracked-Placed : Placed s root
    Tracked-Placed x y c h = elim (Option-cases (get_leaf root x y)) [
      | inl absent ↦
          absurd
            (nobody (sym (ap (λ (o : Option Leaf). contains c (creatures_of s root o)) absent) ∙ h))
      | inr (l, e) ↦
          ap (λ (p : ℕ → Position). same_leaf x y (p c).x (p c).y) placing
          ∙ &&-right (wanted is_player on_map s.only_players c) _ (
              sym (listed-there s x y l c s.only_players e)
              ∙ sym (ap (λ (o : Option Leaf). contains c (creatures_of s root o)) e)
              ∙ h)
    ]

    -- A search finds, beside the spectators that it was given, all creatures on the map in its range and
    -- on its floors, and no others: of players only, all the players. The leaves are on one level and
    -- linked, and have every creature on the lists of the leaf of its position; the creature stands where
    -- there is a leaf, at coordinates of 16 bits.
    pub get_spectators_internal-Tracked :
        (spectators : List ℕ) (c : ℕ)
        → IsRoot root
        → Linked root
        → present root (s.position c).x (s.position c).y ≡ true
        → (s.position c).x < u16_mod
        → (s.position c).y < u16_mod
        → contains c (get_spectators_internal s root spectators)
          ≡ (contains c spectators || (wanted is_player on_map s.only_players c && sees s c))
    get_spectators_internal-Tracked spectators c r links there hx hy =
        get_spectators_internal-contains s root spectators c r links Tracked-Placed hx hy
        ∙ ap (λ (b : Bool). contains c spectators || (b && sees s c)) here
      where
        in_leaf :
            (l : Leaf)
            → get_leaf root (s.position c).x (s.position c).y ≡ some l
            → listed s root c ≡ wanted is_player on_map s.only_players c
        in_leaf l e =
            ap (λ (o : Option Leaf). contains c (creatures_of s root o)) e
            ∙ listed-there s (s.position c).x (s.position c).y l c s.only_players e
            ∙ ap (λ (b : Bool). wanted is_player on_map s.only_players c && b)
                (ap
                    (λ (p : ℕ → Position).
                      same_leaf (s.position c).x (s.position c).y (p c).x (p c).y)
                    (sym placing)
                  ∙ (same_leaf_iff (s.position c).x (s.position c).y (s.position c).x
                        (s.position c).y).1
                      (refl, refl))
            ∙ and_true (wanted is_player on_map s.only_players c)

        here : listed s root c ≡ wanted is_player on_map s.only_players c
        here = elim (Option-cases (get_leaf root (s.position c).x (s.position c).y)) [
          | inl absent ↦ absurd (nobody (sym (ap is_there absent) ∙ there))
          | inr (l, e) ↦ in_leaf l e
        ]
