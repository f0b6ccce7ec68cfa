-- ===== src/Chat/Private.antt =====
-- The private channels that src/chat.cpp keeps in a map by identifier: their creation in a free
-- slot, and their end when the owner leaves. What users are told meanwhile is not kept. A normal
-- channel's number is never that of a request for a private one, CHANNEL_PRIVATE.
use dark_global_12_x.Base.{
  ℕ, zero, suc, ◌+◌, Bool, true, false, not, ◌||◌, Option, none, some, List, [], ◌∷◌, ◌==◌,
  if◌then◌else◌,
}
use dark_global_12_x.Chat.{
  Channel, Players, Notice, is_invited, remove_user, close_channel, remove_from_private,
}
pub mod Slots
pub mod Stored
pub mod Registry

-- privateChannels.find
unfoldable pub find_private : ℕ → List Channel → Option Channel
find_private i [] = none
find_private i (ch ∷ chs) = if ch.id == i then some ch else find_private i chs

abbrev pub is_none : Option Channel → Bool
is_none none = true
is_none (some ch) = false

-- Chat::getPrivateChannel
unfoldable pub get_private_channel : ℕ → List Channel → Option Channel
get_private_channel guid [] = none
get_private_channel guid (ch ∷ chs) =
    if ch.owner == guid then some ch else get_private_channel guid chs

-- for (uint16_t i = 100; i < 10000; ++i), from i on for the given number of turns
unfoldable pub free_slot : ℕ → ℕ → List Channel → Option ℕ
free_slot zero i chs = none
free_slot (suc turns) i chs =
    let rest = free_slot turns (i + 1) chs in if is_none (find_private i chs) then some i else rest

abbrev pub place_in : ℕ → Option ℕ → List Channel → Option Channel × List Channel
place_in guid none chs = (none, chs)
place_in guid (some i) chs =
    let ch : Channel = record {
      id = i;
      public_channel = false;
      users = [];
      owner = guid;
      invites = [];
    } in
    (some ch, ch ∷ chs)

-- The case CHANNEL_PRIVATE of Chat::createChannel
unfoldable pub create_private : ℕ → Bool → List Channel → Option Channel × List Channel
create_private guid premium chs =
    if not premium || not (is_none (get_private_channel guid chs))
    then (none, chs)
    else place_in guid (free_slot 9900 100 chs) chs

-- Another state of the channel with an identifier, or none.
unfoldable pub store_private : ℕ → Option Channel → List Channel → List Channel
store_private i o [] = []
store_private i none (ch ∷ chs) =
    let rest = store_private i none chs in if ch.id == i then rest else ch ∷ rest
store_private i (some c) (ch ∷ chs) =
    let rest = store_private i (some c) chs in if ch.id == i then c ∷ rest else ch ∷ rest

module _ (players : Players) where
  -- Chat::removeUserFromChannel of a private channel, with deleteChannel for its owner.
  abbrev pub leave_found : ℕ → ℕ → Option Channel → List Channel → List Channel × Bool
  leave_found x i none chs = (chs, false)
  leave_found x i (some ch) chs =
      let (ch', was_user, told) = remove_user players x ch in
      if not (is_invited players x ch)
      then (chs, false)
      else if not was_user
      then (chs, false)
      else if ch.owner == x
      then (store_private i none chs, true)
      else (store_private i (some ch') chs, true)

  unfoldable pub remove_user_from_private : ℕ → ℕ → List Channel → List Channel × Bool
  remove_user_from_private x i chs = leave_found x i (find_private i chs) chs

  -- The loop over privateChannels of Chat::removeUserFromAllChannels
  unfoldable pub leave_all_private : ℕ → List Channel → List Channel
  leave_all_private x [] = []
  leave_all_private x (ch ∷ chs) =
      let (ch', erased, told) = remove_from_private players x ch in
      let rest = leave_all_private x chs in if erased then rest else ch' ∷ rest
