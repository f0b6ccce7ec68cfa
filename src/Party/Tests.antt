-- ===== src/Party/Tests.antt =====
-- Applications of the theorems on src/party.cpp: a player invites another, who joins.
use dark_global_12_x.Base.{refl, true, false, none, [], ◌∷◌, erase_first}
use dark_global_12_x.Party.World.{
  Party, World, set_party, add_party_invitation, remove_party_invitation, store_party,
}
use dark_global_12_x.Party.Shared.{Env, update_shared_experience}
use dark_global_12_x.Party.Ops.{Events, create, invite_player, join_party, leave_party}
use dark_global_12_x.Party.Game.{get_party, is_inviting, player_invite_to_party, player_join_party}
use dark_global_12_x.Party.Invariant.{Inv}
use dark_global_12_x.Party.Keep.Leave.{leave_party-Inv}
use dark_global_12_x.Party.Histories.{Reach, starts, invites, joins, Reach-Inv}

abbrev agreeing : Events
agreeing = record { on_disband = λ w id. true; on_leave = λ w id x. true; on_join = λ w id x. true }

abbrev evening : Env
evening = record { now = 5000; pz_locked = 60000 }

abbrev alone : World
alone = record {
  player = λ x. record {
    party = none;
    invitations = [];
    level = 20;
    position = record { x = 100; y = 100; z = 7 };
    not_gain_in_fight = false;
    in_fight = false;
  };
  online = λ x. true;
  party = λ id. none;
}

abbrev invited_world : World
invited_world = player_invite_to_party agreeing evening 7 10 20 alone

abbrev joined_world : World
joined_world = player_join_party agreeing evening 20 10 invited_world

abbrev history : Reach agreeing evening joined_world
history =
    joins invited_world 20 10
      (invites alone 7 10 20 (starts alone (λ x. refl) (λ x. refl) (λ id. refl)) refl)

Reach-Inv_example : Inv joined_world
Reach-Inv_example = Reach-Inv agreeing evening joined_world (λ v i. refl) history

abbrev pair_party : Party
pair_party = record {
  leader = 10;
  members = 20 ∷ [];
  invites = [];
  ticks = [];
  shared_active = false;
  shared_enabled = false;
}

leave_party-Inv_example : Inv (leave_party agreeing evening 7 10 pair_party joined_world).0
unfolding player_invite_to_party player_join_party get_party is_inviting create invite_player
    join_party set_party add_party_invitation remove_party_invitation store_party
    update_shared_experience erase_first
leave_party-Inv_example =
    leave_party-Inv agreeing evening joined_world 7 10 pair_party
      (Reach-Inv agreeing evening joined_world (λ v i. refl) history) refl refl (λ v i. refl)
