-- ===== src/Map/Spectators/Players.antt =====
-- A search of src/map.cpp for players only, and one for all creatures whose players are picked.
use dark_global_12_x.Base.{
  ℕ, zero, suc, ◌+◌, ◌≡◌, refl, ap, ◌∙◌, Bool, true, false, ◌&&◌, ◌||◌, Option, none, some, List,
  [], ◌∷◌, ◌==◌, if◌then◌else◌, arith, ==_iff, contains, contains-insert_key, insert_key,
}
use dark_global_12_x.Position.{Position}
use dark_global_12_x.Map.{Leaf, floor_size}
use dark_global_12_x.Map.Tree.{QTree, get_leaf}
use dark_global_12_x.Map.Spectators.{Search, sees, steps, start_of, end_of, creatures_of}
use dark_global_12_x.Map.Spectators.Window.{one}
use dark_global_12_x.Map.Spectators.Found.{met, row_has, rows_have}
use dark_global_12_x.Map.Spectators.Cache.{insert_cached, insert_players, search_of}

-- The players of a leaf are the creatures of it that are players.
abbrev pub PlayerLists : (ℕ → Bool) → QTree Leaf → Type 0
PlayerLists is_player root =
    (x y : ℕ) (l : Leaf)
    → get_leaf root x y ≡ some l
    → (c : ℕ) → contains c l.player_list ≡ (contains c l.creature_list && is_player c)

or_cong : {a a' b b' : Bool} → a ≡ a' → b ≡ b' → (a || b) ≡ (a' || b')
or_cong {a} {a'} {b} {b'} ea eb = ap (λ (q : Bool). q || b) ea ∙ ap (λ (q : Bool). a' || q) eb

swap_and : (a p e : Bool) → ((a && p) && e) ≡ ((a && e) && p)
swap_and true p true = and_true p
  where
    and_true : (p : Bool) → p && true ≡ p
    and_true true = refl
    and_true false = refl
swap_and true p false = and_false p
  where
    and_false : (p : Bool) → p && false ≡ false
    and_false true = refl
    and_false false = refl
swap_and false p e = refl

if_contains :
    (c : ℕ) (b : Bool) (xs ys : List ℕ)
    → contains c (if b then xs else ys) ≡ (if b then contains c xs else contains c ys)
if_contains c true xs ys = refl
if_contains c false xs ys = refl

module _ (position : ℕ → Position) (is_player : ℕ → Bool) where
  -- The search over all floors with the default ranges.
  abbrev pub default_search : Position → Bool → Search
  default_search center only_players = search_of position is_player center true only_players 0 0 0 0

  abbrev pub near : QTree Leaf → Position → Bool → ℕ → Bool
  near root center only_players c =
      let s = default_search center only_players in met s root c && sees s c

  pub insert_cached-contains :
      (c : ℕ) (cached spectators : List ℕ)
      → contains c (insert_cached position is_player cached spectators)
        ≡ (contains c spectators || contains c cached)
  unfolding insert_cached
  insert_cached-contains c [] spectators = ground arith
  insert_cached-contains c (d ∷ cs) spectators = ground (
    arith,
    insert_cached-contains c cs (insert_key d spectators),
    contains-insert_key d c spectators,
  )

  pub insert_players-contains :
      (c : ℕ) (cached spectators : List ℕ)
      → contains c (insert_players position is_player cached spectators)
        ≡ (contains c spectators || (contains c cached && is_player c))
  unfolding insert_players
  insert_players-contains c [] spectators = ground arith
  insert_players-contains c (d ∷ cs) spectators =
      insert_players-contains c cs (if is_player d then insert_key d spectators else spectators)
      ∙ ap (λ (b : Bool). b || (contains c cs && is_player c))
          (if_contains c (is_player d) _ _
            ∙ ap (λ (b : Bool). if is_player d then b else contains c spectators)
                (contains-insert_key d c spectators))
      ∙ one (d == c) (is_player d) (contains c spectators) (contains c cs) (is_player c)
          (λ h. ap is_player ((==_iff d c).0 h))

  spread : (a b p : Bool) → ((a && p) || (b && p)) ≡ ((a || b) && p)
  spread true true true = refl
  spread true true false = refl
  spread true false p = or_false p
    where
      or_false : (p : Bool) → p || false ≡ p
      or_false true = refl
      or_false false = refl
  spread false b p = refl

  module _ (root : QTree Leaf) (players : PlayerLists is_player root) (center : Position)
      (c : ℕ) where
    creatures_of-players :
        (o : Option Leaf)
        → ((l : Leaf)
            → o ≡ some l
            → contains c l.player_list ≡ (contains c l.creature_list && is_player c))
        → contains c (creatures_of (default_search center true) root o)
          ≡ (contains c (creatures_of (default_search center false) root o) && is_player c)
    creatures_of-players none h = refl
    creatures_of-players (some l) h = h l refl

    row_has-players :
        (n nx ny : ℕ)
        → row_has (default_search center true) root c n nx ny
          ≡ (row_has (default_search center false) root c n nx ny && is_player c)
    row_has-players zero nx ny = refl
    row_has-players (suc n) nx ny =
        or_cong (creatures_of-players (get_leaf root nx ny) (λ l found. players nx ny l found c))
          (row_has-players n (nx + floor_size) ny)
        ∙ spread _ _ (is_player c)

    rows_have-players :
        (rows columns startx1 ny : ℕ)
        → rows_have (default_search center true) root c rows columns startx1 ny
          ≡ (rows_have (default_search center false) root c rows columns startx1 ny && is_player c)
    rows_have-players zero columns startx1 ny = refl
    rows_have-players (suc rows) columns startx1 ny =
        or_cong (row_has-players columns startx1 ny)
          (rows_have-players rows columns startx1 (ny + floor_size))
        ∙ spread _ _ (is_player c)

    met-players :
        met (default_search center true) root c
        ≡ (met (default_search center false) root c && is_player c)
    met-players =
        let s = default_search center false in
        rows_have-players
          (steps (start_of s s.center_pos.y s.min_range_y) (end_of s s.center_pos.y s.max_range_y))
          (steps (start_of s s.center_pos.x s.min_range_x) (end_of s s.center_pos.x s.max_range_x))
          (start_of s s.center_pos.x s.min_range_x) (start_of s s.center_pos.y s.min_range_y)

    pub near-players : near root center true c ≡ (near root center false c && is_player c)
    near-players =
        ap (λ (b : Bool). b && sees (default_search center false) c) met-players
        ∙ swap_and _ (is_player c) (sees (default_search center false) c)
