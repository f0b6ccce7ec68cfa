-- ===== src/Map/Spectators/Hits.antt =====
-- What the caches of getSpectators, src/map.cpp, answer on a hit.
use dark_global_12_x.Base.{
  ℕ, ◌≡◌, refl, sym, ap, ◌∙◌, Bool, true, false, ◌&&◌, ◌||◌, Option, none, some, List, contains,
}
use mathlib.Core.Option.{some-injective, none-ne-some}
use dark_global_12_x.Position.{Position}
use dark_global_12_x.Map.{Leaf}
use dark_global_12_x.Map.Tree.{QTree}
use dark_global_12_x.Map.Spectators.Players.{
  PlayerLists, near, near-players, insert_cached-contains, insert_players-contains,
}
use dark_global_12_x.Map.Spectators.Cache.{
  SpectatorCache, MapState, find, cached_in, players_in, or_else, found_cache,
}

pub position_eq : (p q : Position) → p.x ≡ q.x → p.y ≡ q.y → p.z ≡ q.z → p ≡ q
position_eq p q ex ey ez =
    ap (λ (k : ℕ). record { x = k; y = p.y; z = p.z }) ex
    ∙ ap (λ (k : ℕ). record { x = q.x; y = k; z = p.z }) ey
    ∙ ap (λ (k : ℕ). record { x = q.x; y = q.y; z = k }) ez

pub or_false : (b : Bool) → b || false ≡ b
or_false true = refl
or_false false = refl

module _ (position : ℕ → Position) (is_player : ℕ → Bool) where
  -- What is cached is what a search into an empty set finds.
  abbrev pub Holds : QTree Leaf → Bool → SpectatorCache → Type 0
  Holds root only_players cache =
      (center : Position) (cached : List ℕ)
      → find cache center ≡ some cached
      → (c : ℕ) → contains c cached ≡ near position is_player root center only_players c

  abbrev pub Coherent : MapState → Type 0
  Coherent m = Holds m.root false m.spectator_cache × Holds m.root true m.players_spectator_cache

  -- A hit in a cache, with what the caller has already.
  cached_in-contains :
      (c : ℕ) (o : Option (List ℕ)) (spectators found : List ℕ) (n : Bool)
      → ((cached : List ℕ) → o ≡ some cached → contains c cached ≡ n)
      → cached_in position is_player o spectators ≡ some found
      → contains c found ≡ (contains c spectators || n)
  cached_in-contains c none spectators found n h e = absurd (none-ne-some found e)
  cached_in-contains c (some cached) spectators found n h e =
      ap (contains c) (sym (some-injective _ found e))
      ∙ insert_cached-contains position is_player c cached spectators
      ∙ ap (λ (b : Bool). contains c spectators || b) (h cached refl)

  players_in-contains :
      (c : ℕ) (o : Option (List ℕ)) (spectators found : List ℕ) (n : Bool)
      → ((cached : List ℕ) → o ≡ some cached → contains c cached ≡ n)
      → players_in position is_player o spectators ≡ some found
      → contains c found ≡ (contains c spectators || (n && is_player c))
  players_in-contains c none spectators found n h e = absurd (none-ne-some found e)
  players_in-contains c (some cached) spectators found n h e =
      ap (contains c) (sym (some-injective _ found e))
      ∙ insert_players-contains position is_player c cached spectators
      ∙ ap (λ (b : Bool). contains c spectators || (b && is_player c)) (h cached refl)

  or_else-contains :
      (c : ℕ) (o p : Option (List ℕ)) (found : List ℕ) (n : Bool)
      → ((l : List ℕ) → o ≡ some l → contains c l ≡ n)
      → ((l : List ℕ) → p ≡ some l → contains c l ≡ n)
      → or_else position is_player o p ≡ some found
      → contains c found ≡ n
  or_else-contains c none p found n ho hp e = hp found e
  or_else-contains c (some l) p found n ho hp e = ho found e

  pub found_cache-contains :
      (m : MapState) (center : Position) (only_players : Bool) (spectators found : List ℕ) (c : ℕ)
      → PlayerLists is_player m.root
      → Coherent m
      → found_cache position is_player m center only_players spectators ≡ some found
      → contains c found
        ≡ (contains c spectators || near position is_player m.root center only_players c)
  unfolding found_cache
  found_cache-contains m center true spectators found c players (h, hp) e =
      or_else-contains c _ _ found _
        (λ l q. cached_in-contains c _ spectators l _ (λ cached k. hp center cached k c) q)
        (λ l q.
          players_in-contains c _ spectators l _ (λ cached k. h center cached k c) q
          ∙ ap (λ (b : Bool). contains c spectators || b)
              (sym (near-players position is_player m.root players center c)))
        e
  found_cache-contains m center false spectators found c players (h, hp) e =
      cached_in-contains c _ spectators found _ (λ cached k. h center cached k c) e
