-- ===== src/Map/Spectators/Cache.antt =====
-- src/map.cpp, getSpectators and clearSpectatorCache: the two caches of searches over all floors with the
-- default ranges, by the center of the search. A std::map is the function from its keys.
use dark_global_12_x.Base.{
  ℕ, ◌+◌, ◌-◌, Bool, true, false, ◌&&◌, Option, none, some, List, [], ◌∷◌, ltb, leb, ◌==◌,
  if◌then◌else◌, insert_key,
}
use dark_global_12_x.Position.{Position}
use dark_global_12_x.Map.{Leaf, map_max_layers}
use dark_global_12_x.Map.Tree.{QTree}
use dark_global_12_x.Map.Spectators.{Search, get_spectators_internal}

abbrev pub SpectatorCache : Type 0
SpectatorCache = ℕ → ℕ → ℕ → Option (List ℕ)

abbrev pub find : SpectatorCache → Position → Option (List ℕ)
find cache p = cache p.x p.y p.z

abbrev pub store : SpectatorCache → Position → List ℕ → SpectatorCache
store cache p spectators x y z =
    if x == p.x && y == p.y && z == p.z then some spectators else cache x y z

pub record MapState : Type 0 where
  pub root : QTree Leaf
  pub spectator_cache : SpectatorCache
  pub players_spectator_cache : SpectatorCache

abbrev pub max_viewport : ℕ
max_viewport = 11

-- A range of 0 is the viewport's.
abbrev pub range_of : ℕ → ℕ
range_of n = if n == 0 then max_viewport else n

-- The floors of a search, from the one of its center.
abbrev pub min_floor : Bool → ℕ → ℕ
min_floor multifloor z = if multifloor then (if ltb 7 z then z - 2 else 0) else z

abbrev pub max_floor : Bool → ℕ → ℕ
max_floor multifloor z =
    if multifloor
    then (if ltb 7 z
        then (if ltb (z + 2) (map_max_layers - 1) then z + 2 else map_max_layers - 1)
        else if z == 6
        then 8
        else if z == 7
        then 9
        else 7)
    else z

module _ (position : ℕ → Position) (is_player : ℕ → Bool) where
  -- spectators.insert of what is cached, or the assignment to an empty set; and of the players among it.
  unfoldable pub insert_cached : List ℕ → List ℕ → List ℕ
  insert_cached [] spectators = spectators
  insert_cached (c ∷ cs) spectators = insert_cached cs (insert_key c spectators)

  unfoldable pub insert_players : List ℕ → List ℕ → List ℕ
  insert_players [] spectators = spectators
  insert_players (c ∷ cs) spectators =
      insert_players cs (if is_player c then insert_key c spectators else spectators)

  abbrev pub cached_in : Option (List ℕ) → List ℕ → Option (List ℕ)
  cached_in none spectators = none
  cached_in (some cached) spectators = some (insert_cached cached spectators)

  abbrev pub players_in : Option (List ℕ) → List ℕ → Option (List ℕ)
  players_in none spectators = none
  players_in (some cached) spectators = some (insert_players cached spectators)

  abbrev pub or_else : Option (List ℕ) → Option (List ℕ) → Option (List ℕ)
  or_else none other = other
  or_else (some found) other = some found

  -- The look into the caches: foundCache, with the spectators then.
  unfoldable pub found_cache : MapState → Position → Bool → List ℕ → Option (List ℕ)
  unfolding insert_cached insert_players
  found_cache m center only_players spectators =
      if only_players
      then or_else (cached_in (find m.players_spectator_cache center) spectators)
          (players_in (find m.spectator_cache center) spectators)
      else cached_in (find m.spectator_cache center) spectators

  abbrev pub store_result : Bool → MapState → Position → List ℕ → MapState
  store_result true m center spectators = record m {
    players_spectator_cache = store m.players_spectator_cache center spectators;
  }
  store_result false m center spectators = record m {
    spectator_cache = store m.spectator_cache center spectators;
  }

  -- The search that getSpectators makes, and with its ranges as they are.
  abbrev pub search_with : Position → Bool → Bool → ℕ → ℕ → ℕ → ℕ → Search
  search_with center multifloor only_players min_x max_x min_y max_y = record {
    position = position;
    center_pos = center;
    min_range_x = min_x;
    max_range_x = max_x;
    min_range_y = min_y;
    max_range_y = max_y;
    min_range_z = min_floor multifloor center.z;
    max_range_z = max_floor multifloor center.z;
    only_players = only_players;
  }

  abbrev pub search_of : Position → Bool → Bool → ℕ → ℕ → ℕ → ℕ → Search
  search_of center multifloor only_players min_x max_x min_y max_y =
      search_with center multifloor only_players (range_of min_x) (range_of max_x) (range_of min_y)
        (range_of max_y)

  abbrev pub is_cached_search : Bool → ℕ → ℕ → ℕ → ℕ → Bool
  is_cached_search multifloor min_x max_x min_y max_y =
      range_of min_x == max_viewport
      && range_of max_x == max_viewport
      && range_of min_y == max_viewport
      && range_of max_y == max_viewport
      && multifloor

  abbrev pub with_cache : Bool → MapState → Position → List ℕ → Option (List ℕ) → List ℕ × MapState
  with_cache only_players m center searched none =
      (searched, store_result only_players m center searched)
  with_cache only_players m center searched (some found) = (found, m)

  -- Map::getSpectators
  unfoldable pub get_spectators :
      MapState → List ℕ → Position → Bool → Bool → ℕ → ℕ → ℕ → ℕ → List ℕ × MapState
  unfolding found_cache get_spectators_internal
  get_spectators m spectators center multifloor only_players min_x max_x min_y max_y =
      if leb map_max_layers center.z
      then (spectators, m)
      else let s = search_of center multifloor only_players min_x max_x min_y max_y in
        let searched = get_spectators_internal s m.root spectators in
        if is_cached_search multifloor min_x max_x min_y max_y
        then with_cache only_players m center searched
            (found_cache m center only_players spectators)
        else (searched, m)

unfoldable pub clear_spectator_cache : MapState → MapState
clear_spectator_cache m = record m {
  spectator_cache = λ x y z. none;
  players_spectator_cache = λ x y z. none;
}
