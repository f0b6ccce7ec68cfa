-- ===== src/Map/Spectators/Coherent.antt =====
-- The spectator caches of src/map.cpp hold what a search would find.
use dark_global_12_x.Base.{
  ℕ, ◌≡◌, refl, sym, ap, subst, ◌∙◌, Bool, true, false, ◌&&◌, ◌||◌, Option, none, some, List, [],
  ltb, leb, ◌==◌, if◌then◌else◌, arith, Bool-cases, Option-cases, inl, inr, contains,
}
use mathlib.Core.Option.{some-injective}
use dark_global_12_x.Position.{Position}
use dark_global_12_x.Map.{map_max_layers}
use dark_global_12_x.Map.Views.{IsRoot}
use dark_global_12_x.Map.Links.{Linked}
use dark_global_12_x.Map.Spectators.{Search, sees, get_spectators_internal}
use dark_global_12_x.Map.Spectators.Players.{PlayerLists, default_search, near}
use dark_global_12_x.Map.Spectators.Found.{met, get_spectators_internal-rows}
use dark_global_12_x.Map.Spectators.Cache.{
  SpectatorCache, MapState, find, store, found_cache, store_result, search_of, search_with,
  range_of, max_viewport, is_cached_search, with_cache, get_spectators,
}
use dark_global_12_x.Map.Spectators.Hits.{
  position_eq, or_false, Holds, Coherent, found_cache-contains,
}

module _ (position : ℕ → Position) (is_player : ℕ → Bool) where
  module _ (m : MapState) (r : IsRoot m.root) (links : Linked m.root) where
    default-cong :
        (center : Position) (only_players multifloor : Bool) (a b d e : ℕ)
        → multifloor ≡ true
        → a ≡ max_viewport
        → b ≡ max_viewport
        → d ≡ max_viewport
        → e ≡ max_viewport
        → search_with position is_player center multifloor only_players a b d e
          ≡ search_with position is_player center true only_players max_viewport max_viewport
              max_viewport max_viewport
    default-cong center only_players multifloor a b d e hf ha hb hd he =
        rw (hf, ha, hb, hd, he) refl

    -- A search that may be cached is the default one.
    is_default :
        (center : Position) (multifloor only_players : Bool) (min_x max_x min_y max_y : ℕ)
        → is_cached_search position is_player multifloor min_x max_x min_y max_y ≡ true
        → search_of position is_player center multifloor only_players min_x max_x min_y max_y
          ≡ default_search position is_player center only_players
    is_default center multifloor only_players min_x max_x min_y max_y h =
        let a : range_of min_x ≡ max_viewport = ground (arith, h) in
        let b : range_of max_x ≡ max_viewport = ground (arith, h) in
        let d : range_of min_y ≡ max_viewport = ground (arith, h) in
        let e : range_of max_y ≡ max_viewport = ground (arith, h) in
        let f : multifloor ≡ true = ground (arith, h) in
        default-cong center only_players multifloor _ _ _ _ f a b d e

    with_cache-contains :
        (center : Position) (only_players : Bool) (spectators : List ℕ) (c : ℕ)
        → PlayerLists is_player m.root
        → Coherent position is_player m
        → contains c
            (with_cache position is_player only_players m center
              (get_spectators_internal
                (default_search position is_player center only_players)
                m.root
                spectators)
              (found_cache position is_player m center only_players spectators)).0
          ≡ (contains c spectators || near position is_player m.root center only_players c)
    with_cache-contains center only_players spectators c players coherent =
        elim (Option-cases (found_cache position is_player m center only_players spectators)) [
          | inl absent ↦ rw absent (get_spectators_internal-rows _ m.root r links c spectators)
          | inr (found, e) ↦ rw e (
              found_cache-contains position is_player m center only_players spectators found c
                players coherent e)
        ]

    store-Holds :
        (cache : SpectatorCache) (center : Position) (only_players : Bool)
        → Holds position is_player m.root only_players cache
        → Holds position is_player m.root only_players (
            store cache center (
              get_spectators_internal
                (default_search position is_player center only_players)
                m.root
                []))
    store-Holds cache center only_players holds other cached e c =
        let searched =
          get_spectators_internal (default_search position is_player center only_players) m.root
            [] in
        elim (Bool-cases (other.x == center.x && other.y == center.y && other.z == center.z)) [
          | inl same ↦
              let here : other ≡ center =
                position_eq other center (ground (arith, same)) (ground (arith, same))
                  (ground (arith, same)) in
              ap (contains c) (
                sym (
                  some-injective _ cached (
                    sym (ap (λ (b : Bool). if b then some searched else find cache other) same)
                    ∙ e)))
              ∙ get_spectators_internal-rows (default_search position is_player center only_players)
                  m.root r links c []
              ∙ ap (λ (p : Position). near position is_player m.root p only_players c) (sym here)
          | inr away ↦
              holds other cached
                (sym (ap (λ (b : Bool). if b then some searched else find cache other) away) ∙ e) c
        ]

    store_result-Coherent :
        (center : Position) (only_players : Bool)
        → Coherent position is_player m
        → Coherent position is_player (
            store_result position is_player only_players m center (
              get_spectators_internal
                (default_search position is_player center only_players)
                m.root
                []))
    store_result-Coherent center true (h, hp) =
        (h, store-Holds m.players_spectator_cache center true hp)
    store_result-Coherent center false (h, hp) = (store-Holds m.spectator_cache center false h, hp)

    with_cache-Coherent :
        (center : Position) (only_players : Bool) (o : Option (List ℕ))
        → Coherent position is_player m
        → Coherent position is_player
            (with_cache position is_player only_players m center
              (get_spectators_internal
                (default_search position is_player center only_players)
                m.root
                [])
              o).1
    with_cache-Coherent center only_players none coherent =
        store_result-Coherent center only_players coherent
    with_cache-Coherent center only_players (some found) coherent = coherent

    -- The caches do not show: getSpectators adds to the spectators just those that its search would find
    -- in the leaves it scans, with the ranges and the floors of the call, whether it searches, or takes
    -- them or the players among them from a cache. A center above the layers of the map adds none. The
    -- leaves are on one level and linked, their players are those on their player lists, and the caches
    -- hold what a search into an empty set finds.
    pub get_spectators-contains :
        (spectators : List ℕ) (center : Position) (multifloor only_players : Bool)
        (min_x max_x min_y max_y c : ℕ)
        → PlayerLists is_player m.root
        → Coherent position is_player m
        → contains c
            (get_spectators position is_player m spectators center multifloor only_players min_x
              max_x min_y max_y).0
          ≡ (let s =
                search_of position is_player center multifloor only_players min_x max_x min_y
                  max_y in
              contains c spectators || (ltb center.z map_max_layers && met s m.root c && sees s c))
    unfolding get_spectators
    get_spectators-contains spectators center multifloor only_players min_x max_x min_y max_y c
          players coherent =
        let s =
          search_of position is_player center multifloor only_players min_x max_x min_y max_y in
        elim (Bool-cases (leb map_max_layers center.z)) [
          | inl high ↦
              let none_there : ltb center.z map_max_layers ≡ false = ground (arith, high) in
              rw (high, none_there) (sym (or_false (contains c spectators)))
          | inr low ↦
              let there : ltb center.z map_max_layers ≡ true = ground (arith, low) in
              rw (low, there)
                (elim (Bool-cases
                  (is_cached_search position is_player multifloor min_x max_x min_y max_y)) [
                    | inl cached ↦
                        let same =
                          is_default center multifloor only_players min_x max_x min_y max_y
                            cached in
                        rw cached (
                          ap
                            (λ (q : Search).
                              contains c
                                (with_cache position is_player only_players m center
                                  (get_spectators_internal q m.root spectators)
                                  (found_cache position is_player m center only_players
                                    spectators)).0)
                            same
                          ∙ with_cache-contains center only_players spectators c players coherent
                          ∙ ap
                              (λ (q : Search).
                                contains c spectators || (met q m.root c && sees q c))
                              (sym same))
                    | inr other ↦
                        rw other (get_spectators_internal-rows s m.root r links c spectators)
                  ])
        ]

    -- A call that starts from no spectators keeps in the caches what a search into an empty set finds.
    -- The leaves are on one level and linked.
    pub get_spectators-Coherent :
        (center : Position) (multifloor only_players : Bool) (min_x max_x min_y max_y : ℕ)
        → Coherent position is_player m
        → Coherent position is_player
            (get_spectators position is_player m [] center multifloor only_players min_x max_x min_y
              max_y).1
    unfolding get_spectators
    get_spectators-Coherent center multifloor only_players min_x max_x min_y max_y coherent =
        elim (Bool-cases (leb map_max_layers center.z)) [
          | inl high ↦ rw high coherent
          | inr low ↦
              rw low
                (elim (Bool-cases
                  (is_cached_search position is_player multifloor min_x max_x min_y max_y)) [
                    | inl cached ↦ rw cached (
                        subst
                          (λ (q : Search).
                            Coherent position is_player
                              (with_cache position is_player only_players m center
                                (get_spectators_internal q m.root [])
                                (found_cache position is_player m center only_players [])).1)
                          (sym (
                            is_default center multifloor only_players min_x max_x min_y max_y
                              cached))
                          (with_cache-Coherent center only_players _ coherent))
                    | inr other ↦ rw other coherent
                  ])
        ]
