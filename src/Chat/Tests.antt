-- ===== src/Chat/Tests.antt =====
-- Applications of the theorems on src/chat.cpp.
use dark_global_12_x.Base.{
  ℕ, ◌∷◌, Option, ◌≡◌, ◌+◌, ◌&&◌, ◌||◌, ◌==◌, refl, not, true, false, [], contains, none,
  if◌then◌else◌,
}
use dark_global_12_x.Chat.{
  Channel, Players, is_invited, invite_player, add_user_to_private, add_user, exclude_player,
}
use dark_global_12_x.Chat.Invited.{opens, enters, invites, Session-invited, exclude_player-gone}
use dark_global_12_x.Chat.Private.{create_private}
use dark_global_12_x.Chat.Private.Slots.{IsFirstFree, Outcome, owners, create_private-slot}
use dark_global_12_x.Chat.Private.Stored.{IsRegistry}
use dark_global_12_x.Chat.Private.Registry.{Registry-IsRegistry, creates, starts}

abbrev all_players : Players
all_players = record { get_id = λ g. g + 1000; on_join = λ g. true; has_motd = λ g. false }

abbrev new_channel : Channel
new_channel = record { id = 100; public_channel = false; users = []; owner = 1; invites = [] }

abbrev with_guest : Channel
with_guest = (add_user_to_private all_players 2 (invite_player all_players 1 2 new_channel).0).0

Session-invited_example : is_invited all_players 2 with_guest ≡ true
unfolding add_user_to_private add_user invite_player is_invited
Session-invited_example =
    Session-invited all_players with_guest 2 (enters 2 _ (invites 1 2 _ (opens 100 1))) refl

exclude_player-gone_example :
    (contains 2 (exclude_player all_players 1 2 with_guest).0.users
      ≡ (contains 2 with_guest.users && not (contains 2 with_guest.invites && 1002 == 1002)))
    × (is_invited all_players 2 (exclude_player all_players 1 2 with_guest).0
        ≡ (2 == with_guest.owner || not (2 == 2) && contains 2 with_guest.invites))
exclude_player-gone_example = exclude_player-gone all_players 1 2 2 with_guest

create_private-slot_example :
    (o : Option ℕ) × IsFirstFree 9900 100 (new_channel ∷ []) o
    × Outcome 5
        (new_channel ∷ [])
        (create_private 5 true (new_channel ∷ []))
        (if true && not (contains 5 (owners (new_channel ∷ []))) then o else none)
create_private-slot_example = create_private-slot 5 true (new_channel ∷ [])

Registry-IsRegistry_example : IsRegistry (create_private 6 true (create_private 5 true []).1).1
Registry-IsRegistry_example =
    Registry-IsRegistry all_players (create_private 6 true (create_private 5 true []).1).1
      (creates 6 true _ (creates 5 true [] starts))
